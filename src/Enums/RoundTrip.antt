-- ===== src/Enums/RoundTrip.antt =====
-- Enums.hpp: the texts of a channel and of a priority read back.
use distributed_notification.Base.{String, ◌≡◌, refl, ◌↔◌, some, arith, eq_iff}
use distributed_notification.Enums.{
  Channel, email, sms, push, Priority, low, normal, high, channel_to_string, channel_from_string,
  priority_to_string, priority_from_string,
}

module _ (s : String) where
  reads : (c : Channel) → channel_from_string s ≡ some c → s ≡ channel_to_string c
  unfolding channel_from_string
  reads email h = ground (arith, eq_iff s "EMAIL", eq_iff s "SMS", eq_iff s "PUSH")
  reads sms h = ground (arith, eq_iff s "EMAIL", eq_iff s "SMS", eq_iff s "PUSH")
  reads push h = ground (arith, eq_iff s "EMAIL", eq_iff s "SMS", eq_iff s "PUSH")

pub channel_from-to_string : (c : Channel) → channel_from_string (channel_to_string c) ≡ some c
unfolding channel_from_string
channel_from-to_string email = refl
channel_from-to_string sms = refl
channel_from-to_string push = refl

-- A text is read as channel c exactly when it is the text of c; all other texts are refused.
pub channel_from_string_iff :
    (s : String) (c : Channel) → (channel_from_string s ≡ some c) ↔ (s ≡ channel_to_string c)
channel_from_string_iff s c = (reads s c, λ h. rw h (channel_from-to_string c))

pub priority_from-to_string : (p : Priority) → priority_from_string (priority_to_string p) ≡ p
unfolding priority_from_string
priority_from-to_string low = refl
priority_from-to_string normal = refl
priority_from-to_string high = refl
