-- ===== src/Enums/Texts.antt =====
-- include/notification/Enums.hpp: the texts that channelFromString takes.
use mathlib.Core.HLevel.{Σ_prop_path, ¬_prop}
use mathlib.Core.Option.{some-injective}
use std.Path.{transport}
use std.Equiv.{Iso, iso_to_equiv}
use std.Univalence.{iso_to_path, ua-β}
use distributed_notification.Base.{String, ◌≡◌, refl, sym, ap, ◌∙◌, Option, none, some}
use distributed_notification.Enums.{Channel, channel_to_string, channel_from_string}
use distributed_notification.Enums.RoundTrip.{channel_from-to_string, channel_from_string_iff}

-- A text for which channelFromString does not throw.
abbrev pub ChannelText : Type 0
ChannelText = (s : String) × ¬ (channel_from_string s ≡ none)

given {ℓ} : {A : Type ℓ} (o : Option A) → ¬ (o ≡ none) → (a : A) × (o ≡ some a)
given none h = absurd (h refl)
given (some a) h = (a, refl)

text_of : Channel → ChannelText
text_of c =
    (channel_to_string c, λ h. let e : none ≡ some c = sym h ∙ channel_from-to_string c in cc)

channel_of : ChannelText → Channel
channel_of (s, h) = (given (channel_from_string s) h).0

channel_of-text_of : (c : Channel) → channel_of (text_of c) ≡ c
unfolding channel_of text_of
channel_of-text_of c = some-injective _ _ (
    sym (given (channel_from_string (channel_to_string c)) (text_of c).1).1
    ∙ channel_from-to_string c)

text_of-channel_of : (t : ChannelText) → text_of (channel_of t) ≡ t
unfolding channel_of text_of
text_of-channel_of (s, h) =
    Σ_prop_path (λ x. ¬_prop)
      (let (c, e) = given (channel_from_string s) h in sym ((channel_from_string_iff s c).0 e))

text_iso : Iso Channel ChannelText
text_iso = record {
  fun = text_of;
  inv = channel_of;
  rinv = text_of-channel_of;
  linv = channel_of-text_of;
}

-- The texts that are taken are the channels, one for one: the two types are equal, in such a way that
-- each channel comes to the text that `to_string` gives it, and that text is read as the channel. All
-- other texts are refused.
pub Channel-ChannelText :
    (e : Channel ≡ ChannelText) × ((c : Channel)
      → ((transport e c).0 ≡ channel_to_string c)
        × (channel_from_string (transport e c).0 ≡ some c))
unfolding text_of text_iso
Channel-ChannelText =
    let e = iso_to_path text_iso in
    let named : (c : Channel) → (transport e c).0 ≡ channel_to_string c =
      λ c. ap (λ (t : ChannelText). t.0) (ua-β (iso_to_equiv text_iso) c) in
    (e, λ c. (named c, ap channel_from_string (named c) ∙ channel_from-to_string c))
