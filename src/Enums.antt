-- ===== src/Enums.antt =====
-- include/notification/Enums.hpp: the four enums and their texts. An out-of-range enum value does
-- not exist here, so the `throw` after each exhaustive switch has no counterpart.
pub mod RoundTrip
pub mod Texts
use distributed_notification.Base.{ℕ, String, Option, none, some, str_eq, if◌then◌else◌}

pub data Channel : Type 0 where
  email sms push : Channel

pub data Priority : Type 0 where
  low normal high : Priority

pub data NotificationStatus : Type 0 where
  pending processing sent failed dead_lettered cancelled : NotificationStatus

pub data AttemptStatus : Type 0 where
  success transient_failure permanent_failure : AttemptStatus

abbrev pub channel_to_string : Channel → String
channel_to_string email = "EMAIL"
channel_to_string sms = "SMS"
channel_to_string push = "PUSH"

-- `none` is the thrown `invalid_argument`.
unfoldable pub channel_from_string : String → Option Channel
channel_from_string s =
    if str_eq s "EMAIL"
    then some email
    else if str_eq s "SMS"
    then some sms
    else if str_eq s "PUSH"
    then some push
    else none

abbrev pub priority_to_string : Priority → String
priority_to_string low = "LOW"
priority_to_string normal = "NORMAL"
priority_to_string high = "HIGH"

unfoldable pub priority_from_string : String → Priority
priority_from_string s = if str_eq s "LOW" then low else if str_eq s "HIGH" then high else normal

abbrev pub priority_weight : Priority → ℕ
priority_weight low = 1
priority_weight normal = 3
priority_weight high = 5

abbrev pub status_to_string : NotificationStatus → String
status_to_string pending = "PENDING"
status_to_string processing = "PROCESSING"
status_to_string sent = "SENT"
status_to_string failed = "FAILED"
status_to_string dead_lettered = "DEAD_LETTERED"
status_to_string cancelled = "CANCELLED"

abbrev pub attempt_status_to_string : AttemptStatus → String
attempt_status_to_string success = "SUCCESS"
attempt_status_to_string transient_failure = "TRANSIENT_FAILURE"
attempt_status_to_string permanent_failure = "PERMANENT_FAILURE"
