-- ===== src/Tests/Services.antt =====
-- The service as a whole at concrete inputs.
use mathlib.Core.List.{Memᴰ}
use distributed_notification.Base.{
  ◌≡◌, ◌⊎◌, inl, refl, sym, subst, true, none, some, List, [], ◌∷◌, ◌++◌, pos, arith, ◌+◌, ◌*◌, ◌≤◌,
}
use distributed_notification.Enums.{Channel, sms, channel_from_string, priority_from_string}
use distributed_notification.Models.{Notification}
use distributed_notification.Config.{default}
use distributed_notification.Message.{message}
use distributed_notification.Worker.Local.{row_open}
use distributed_notification.ProviderRouter.Apart.{AllApart}
use distributed_notification.Effects.Calm.{IsCalm}
use distributed_notification.Database.Schema.{NotificationRow}
use distributed_notification.NotificationRepository.{find_row, new_row, set_status}
use distributed_notification.RabbitMqTopology.{main_queue, declare_all}
use distributed_notification.RabbitMqTopology.Ladder.{IsLadder}
use distributed_notification.System.{
  Mail, System, after_post, after_message, cut_post, Reach, here, next, posts, takes,
}
use distributed_notification.System.Carrying.{IsCarried, IsMade}
use distributed_notification.System.Kept.{open-IsCarried, Stranded, mails-IsMade}
use distributed_notification.System.Intact.{tables-IsIntact}
use distributed_notification.System.Final.{done_stays}
use distributed_notification.Integrity.{IsIntact}
use distributed_notification.Tests.Toy.{toy, toy-IsJson, toy-IsCollation}
use distributed_notification.System.Draining.{handlings, submissions, interruptions, total}
use distributed_notification.System.Bounded.{handlings-le}
use distributed_notification.Tests.Brokers.{simple, simple-IsBroker, simple-IsExact}
use distributed_notification.Tests.Worlds.{start, saved, saved_tables, times_out}
use distributed_notification.Tests.Requests.{order_body}

times_out-AllApart : AllApart toy times_out
times_out-AllApart S c m = record { at = λ w h. h }

times_out-IsCalm : (c : Channel) (m : Notification) → IsCalm 2 (times_out c m)
times_out-IsCalm c m = record { at = λ w h. record { idle = h; silent = refl; goes_on = refl } }

pub default-IsLadder : IsLadder default 3
default-IsLadder = record { maximum = refl; rungs = omega arith; in_int = omega arith }

abbrev morning : System toy
morning = record { world = start; mails = [] }

abbrev asked : System toy
asked = after_post toy simple 0 times_out default order_body morning

abbrev first_mail : Mail toy.Body
first_mail = record {
  at_queue = "q.sms";
  body = message toy (record {
    notification_id = "f0123456-789a-4bcd-af01-23456789abcd";
    attempt_number = pos 1;
    priority = 3;
  });
}

asked_mails : asked.mails ≡ [] ++ first_mail ∷ []
unfolding after_post after_message find_row message main_queue channel_from_string
    priority_from_string distributed_notification.Worker.on_message
    distributed_notification.Message.decode
    distributed_notification.NotificationRepository.find_by_id
    distributed_notification.Database.with_session distributed_notification.Database.acquire
    distributed_notification.Database.execute distributed_notification.Database.ask
    distributed_notification.HttpServer.handle_connection
    distributed_notification.HttpServer.post_notification
    distributed_notification.HttpServer.Submission.read_notification
    distributed_notification.HttpServer.submit
    distributed_notification.NotificationRepository.insert_with_outbox
    distributed_notification.Base.to_string distributed_notification.CircuitBreaker.allow_request
    distributed_notification.CircuitBreaker.on_failure distributed_notification.Database.commit
    distributed_notification.Database.release distributed_notification.Database.rollback
    distributed_notification.Database.start_transaction
    distributed_notification.DeliveryAttemptRepository.find_attempt
    distributed_notification.DeliveryAttemptRepository.record_attempt
    distributed_notification.DeliveryAttemptRepository.upsert
    distributed_notification.DeliveryAttemptRepository.upsert_int
    distributed_notification.IdGenerator.append_hex
    distributed_notification.IdGenerator.append_hexes distributed_notification.IdGenerator.uuid4
    distributed_notification.IdGenerator.uuid4_chars
    distributed_notification.NotificationRepository.find_by_idempotency_key
    distributed_notification.NotificationRepository.find_key
    distributed_notification.NotificationRepository.insert_event
    distributed_notification.NotificationRepository.insert_in_transaction
    distributed_notification.NotificationRepository.insert_row
    distributed_notification.NotificationRepository.row_to_notification
    distributed_notification.NotificationRepository.status_from_string
    distributed_notification.NotificationRepository.update
    distributed_notification.NotificationRepository.update_rows
    distributed_notification.NotificationRepository.write_both
    distributed_notification.ProviderRouter.send
    distributed_notification.RabbitMqTopology.declare_all
    distributed_notification.RabbitMqTopology.declare_channel
    distributed_notification.RabbitMqTopology.declare_rungs
    distributed_notification.RabbitMqTopology.dlq
    distributed_notification.RabbitMqTopology.retry_queue distributed_notification.Worker.deliver
    distributed_notification.Worker.on_failed distributed_notification.Worker.process
    distributed_notification.Worker.retry_or_give_up distributed_notification.Worker.schedule_retry
    distributed_notification.Worker.send_and_record
    distributed_notification.Tests.Brokers.all_routes
asked_mails = refl

first_queue : first_mail.at_queue ≡ main_queue sms
unfolding main_queue
first_queue = refl

-- The provider has timed out once.
abbrev tried : System toy
tried = after_message toy simple 0 times_out default sms 9 [] first_mail [] asked.world

abbrev tried_row : NotificationRow
tried_row = record {
  id = "f0123456-789a-4bcd-af01-23456789abcd";
  idempotency_key = "order-1";
  channel = "SMS";
  priority = "NORMAL";
  recipient = "+15550100";
  subject = some "";
  body = "shipped";
  status = "PROCESSING";
  attempt_count = 1;
  created_at = 7;
}

tried_found :
    find_row toy "f0123456-789a-4bcd-af01-23456789abcd" tried.world.tables.notifications
    ≡ some tried_row
unfolding after_post after_message find_row message main_queue channel_from_string
    priority_from_string distributed_notification.Worker.on_message
    distributed_notification.Message.decode
    distributed_notification.NotificationRepository.find_by_id
    distributed_notification.Database.with_session distributed_notification.Database.acquire
    distributed_notification.Database.execute distributed_notification.Database.ask
    distributed_notification.HttpServer.handle_connection
    distributed_notification.HttpServer.post_notification
    distributed_notification.HttpServer.Submission.read_notification
    distributed_notification.HttpServer.submit
    distributed_notification.NotificationRepository.insert_with_outbox
    distributed_notification.Base.to_string distributed_notification.CircuitBreaker.allow_request
    distributed_notification.CircuitBreaker.on_failure distributed_notification.Database.commit
    distributed_notification.Database.release distributed_notification.Database.rollback
    distributed_notification.Database.start_transaction
    distributed_notification.DeliveryAttemptRepository.find_attempt
    distributed_notification.DeliveryAttemptRepository.record_attempt
    distributed_notification.DeliveryAttemptRepository.upsert
    distributed_notification.DeliveryAttemptRepository.upsert_int
    distributed_notification.IdGenerator.append_hex
    distributed_notification.IdGenerator.append_hexes distributed_notification.IdGenerator.uuid4
    distributed_notification.IdGenerator.uuid4_chars
    distributed_notification.NotificationRepository.find_by_idempotency_key
    distributed_notification.NotificationRepository.find_key
    distributed_notification.NotificationRepository.insert_event
    distributed_notification.NotificationRepository.insert_in_transaction
    distributed_notification.NotificationRepository.insert_row
    distributed_notification.NotificationRepository.row_to_notification
    distributed_notification.NotificationRepository.status_from_string
    distributed_notification.NotificationRepository.update
    distributed_notification.NotificationRepository.update_rows
    distributed_notification.NotificationRepository.write_both
    distributed_notification.ProviderRouter.send
    distributed_notification.RabbitMqTopology.declare_all
    distributed_notification.RabbitMqTopology.declare_channel
    distributed_notification.RabbitMqTopology.declare_rungs
    distributed_notification.RabbitMqTopology.dlq
    distributed_notification.RabbitMqTopology.retry_queue distributed_notification.Worker.deliver
    distributed_notification.Worker.on_failed distributed_notification.Worker.process
    distributed_notification.Worker.retry_or_give_up distributed_notification.Worker.schedule_retry
    distributed_notification.Worker.send_and_record
    distributed_notification.Tests.Brokers.all_routes
tried_found = refl

tried_run : Reach toy simple 0 times_out default morning tried
tried_run =
    next (next here (posts order_body)) (takes sms 9 [] first_mail [] asked_mails first_queue)

tried_open : row_open tried_row ≡ true
unfolding distributed_notification.NotificationRepository.status_from_string
tried_open = refl

open-IsCarried_example :
    IsCarried toy simple 0 times_out default 3 "f0123456-789a-4bcd-af01-23456789abcd" tried.mails
    ⊎ Stranded toy toy-IsCollation toy-IsJson simple simple-IsBroker 0 times_out times_out-AllApart
        times_out-IsCalm default 3 default-IsLadder tried_run "f0123456-789a-4bcd-af01-23456789abcd"
open-IsCarried_example =
    open-IsCarried toy toy-IsCollation toy-IsJson simple simple-IsBroker 0 times_out
      times_out-AllApart times_out-IsCalm default 3 default-IsLadder morning tried
      "f0123456-789a-4bcd-af01-23456789abcd" tried_row refl refl tried_run tried_found tried_open

tables-IsIntact_example : IsIntact toy tried.world.tables
tables-IsIntact_example =
    tables-IsIntact toy toy-IsCollation toy-IsJson simple 0 times_out times_out-AllApart
      times_out-IsCalm default morning tried refl tried_run

-- The process ends between the commit and the publication: the tables are those of a submission, and
-- no message names the notification.
abbrev cut : System toy
cut = cut_post toy simple 0 times_out default order_body morning

cut_stores : (cut.world ≡ asked.world) × (cut.mails ≡ [])
unfolding cut_post after_post
cut_stores = (refl, refl)

-- A delivered notification, and a message that names it once more.
abbrev sent_row : NotificationRow
sent_row = set_status "SENT" (new_row saved 7)

abbrev late_mail : Mail toy.Body
late_mail = record {
  at_queue = "q.sms";
  body = message toy (record { notification_id = "n-1"; attempt_number = pos 2; priority = 3 });
}

abbrev over : System toy
over = record {
  world = record start { tables = record saved_tables { notifications = sent_row ∷ [] } };
  mails = late_mail ∷ [];
}

over_found : find_row toy "n-1" over.world.tables.notifications ≡ some sent_row
unfolding find_row
over_found = refl

abbrev acked_late : System toy
acked_late = after_message toy simple 0 times_out default sms 9 [] late_mail [] over.world

late_queue : late_mail.at_queue ≡ main_queue sms
unfolding main_queue
late_queue = refl

done_stays_example : find_row toy "n-1" acked_late.world.tables.notifications ≡ some sent_row
done_stays_example =
    done_stays toy toy-IsCollation toy-IsJson simple 0 times_out times_out-AllApart times_out-IsCalm
      default over acked_late "n-1" sent_row over_found (inl refl)
      (next here (takes sms 9 [] late_mail [] refl late_queue))

mails-IsMade_example : IsMade toy simple 0 times_out default 3 first_mail.body
mails-IsMade_example =
    mails-IsMade toy toy-IsCollation toy-IsJson simple simple-IsBroker 0 times_out
      times_out-AllApart times_out-IsCalm default 3 default-IsLadder morning asked first_mail refl
      refl (next here (posts order_body))
      (subst (Memᴰ first_mail) (sym asked_mails) (Memᴰ.head refl))

handlings-le_example :
    handlings toy 3 simple 0 times_out default tried_run + total toy 3 tried.mails
    ≤ (submissions toy 3 simple 0 times_out default tried_run
        + interruptions toy 3 simple 0 times_out default tried_run)
      * 4
handlings-le_example =
    handlings-le toy toy-IsCollation toy-IsJson simple simple-IsBroker 0 times_out
      times_out-AllApart times_out-IsCalm default 3 default-IsLadder
      (simple-IsExact (declare_all default)) morning tried refl refl tried_run
