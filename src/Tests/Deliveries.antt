-- ===== src/Tests/Deliveries.antt =====
-- Messages and workers at concrete inputs.
use distributed_notification.Base.{◌≡◌, refl, pos, [], arith}
use distributed_notification.Enums.{sms}
use distributed_notification.Config.{default}
use distributed_notification.Platform.{ok}
use distributed_notification.Message.{Task, decode, message}
use distributed_notification.Message.RoundTrip.{decode-message}
use distributed_notification.Worker.{on_message}
use distributed_notification.Worker.Told.{Handled}
use distributed_notification.Worker.Acking.{on_message-Handled}
use distributed_notification.Tests.Toy.{toy, toy-IsJson}
use distributed_notification.Tests.Worlds.{submitted, times_out}

abbrev first : Task
first = record { notification_id = "n-1"; attempt_number = pos 1; priority = 3 }

decode-message_example : decode toy (message toy first) ≡ ok first
decode-message_example = decode-message toy toy-IsJson first (omega arith) (omega arith)

on_message-Handled_example :
    let q = on_message toy times_out sms default (message toy first) 11 submitted in
    Handled toy 1 sms 11 [] q.0 q.1
on_message-Handled_example =
    on_message-Handled toy 1 times_out sms default
      (λ d m. record { at = λ w h. record { idle = h; silent = refl; goes_on = refl } })
      (message toy first) 11 submitted refl
