-- ===== src/NotificationRepository/Rows.antt =====
-- src/NotificationRepository.cpp: a row that is written reads back.
use distributed_notification.Base.{ℕ, ◌≡◌, refl, some, ℤ, pos, negsuc, ◌+◌, ◌-◌, arith}
use distributed_notification.Enums.{
  NotificationStatus, pending, processing, sent, failed, dead_lettered, cancelled, status_to_string,
}
use distributed_notification.Enums.RoundTrip.{channel_from-to_string, priority_from-to_string}
use distributed_notification.Models.{Notification}
use distributed_notification.NotificationRepository.{
  to_int, new_row, row_to_notification, status_from_string, set_status,
}

-- One more, as the cast of the column gives it: above the largest `int` follows the least.
abbrev pub next_count : ℤ → ℤ
next_count (pos n) = to_int (n + 1)
next_count (negsuc n) = negsuc (n - 1)

pub to_int-next_count : (n : ℕ) → to_int (n + 1) ≡ next_count (to_int n)
to_int-next_count n = ground arith

-- The notification that a row holds, when the row was written for m and has now the status s.
abbrev pub as_stored : Notification → NotificationStatus → Notification
as_stored m s = record m { status = s; attempt_count = pos 0; created_at = 0; updated_at = 0 }

status_from-to_string : (s : NotificationStatus) → status_from_string (status_to_string s) ≡ s
unfolding status_from_string
status_from-to_string pending = refl
status_from-to_string processing = refl
status_from-to_string sent = refl
status_from-to_string failed = refl
status_from-to_string dead_lettered = refl
status_from-to_string cancelled = refl

-- A row written for a notification, after its status was set to s, reads back as that notification
-- with the status s and no attempts.
pub row_to_notification-new_row :
    (m : Notification) (s : NotificationStatus) (ts : ℕ)
    → row_to_notification (set_status (status_to_string s) (new_row m ts)) ≡ some (as_stored m s)
unfolding row_to_notification
row_to_notification-new_row m s ts =
    rw (
      channel_from-to_string m.channel,
      priority_from-to_string m.priority,
      status_from-to_string s,
    )
