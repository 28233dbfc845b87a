-- ===== src/Tests/Arrivals.antt =====
-- A submission and its delivery at concrete inputs.
use distributed_notification.Effects.{World}
use distributed_notification.HttpServer.{
  Response, accepted, handle_connection, json_response, notification_to_json,
}
use distributed_notification.Worker.Arrival.{submission}
use distributed_notification.Tests.Toy.{toy, toy-IsJson, toy-IsCollation}
use distributed_notification.Tests.Worlds.{order, start}
use distributed_notification.Tests.Requests.{order_body}

-- The world after the submission.
abbrev told : World toy
told = (handle_connection toy (submission toy toy-IsCollation toy-IsJson order_body) start).1

abbrev reply_sent : Response toy.Body
reply_sent =
    json_response toy accepted
      (notification_to_json toy (record order { id = "f0123456-789a-4bcd-af01-23456789abcd" }))
