-- ===== src/Tests/Requests.antt =====
-- Requests to the API at concrete inputs.
use distributed_notification.Base.{refl, [], ◌∷◌, List, ◌≡◌, none, some}
use distributed_notification.HttpServer.{Request, get, post, handle_connection}
use distributed_notification.Effects.{json_error}
use distributed_notification.HttpServer.Answers.{Answered, handle_connection-Answered}
use distributed_notification.HttpServer.Reads.{Served, handle_connection-Served}
use distributed_notification.Tests.Toy.{toy, toy-IsJson}
use distributed_notification.Tests.Worlds.{start, submitted}
use distributed_notification.HttpServer.Accepting.{
  Accepted, aborted, accept_error, unreadable, request, escaped, accept_loop,
}
use distributed_notification.HttpServer.Accepting.Answering.{AllAnswered, accept_loop-AllAnswered}

abbrev pub order_body : toy.Body
order_body = toy.dump (
    toy.obj (
      ("idempotencyKey", toy.str "order-1")
      ∷ ("channel", toy.str "SMS")
      ∷ ("recipient", toy.str "+15550100")
      ∷ ("body", toy.str "shipped")
      ∷ []))

abbrev posted : toy.Body → Request toy.Body
posted body = record { method = post; target = "/api/notifications"; body = body }

handle_connection-Answered_example :
    Answered toy toy-IsJson order_body start
      (handle_connection toy (posted order_body) start).0
      (handle_connection toy (posted order_body) start).1
handle_connection-Answered_example =
    handle_connection-Answered toy toy-IsJson order_body start 0 refl refl

abbrev asked : Request toy.Body
asked = record { method = get; target = "/api/notifications/n-1"; body = toy.dump toy.null }

handle_connection-Served_example :
    Served toy 1 submitted
      (handle_connection toy asked submitted).0
      (handle_connection toy asked submitted).1
handle_connection-Served_example = handle_connection-Served toy 1 asked submitted refl refl

abbrev garbled : toy.Body
garbled = none

-- A submission, a connection that breaks, a request, a body that is not UTF-8, and one more request.
abbrev traffic : List (Accepted toy)
traffic =
    request start (posted order_body)
    ∷ unreadable
    ∷ accept_error "reset"
    ∷ request submitted asked
    ∷ request submitted (posted garbled)
    ∷ request submitted asked
    ∷ aborted
    ∷ []

accept_loop-AllAnswered_example :
    ((accept_loop toy traffic).ending ≡ escaped (json_error (some "invalid UTF-8 byte")))
    × AllAnswered toy 2
        ((start, posted order_body) ∷ (submitted, asked) ∷ [])
        (accept_loop toy traffic).answers
accept_loop-AllAnswered_example =
    accept_loop-AllAnswered toy toy-IsJson 0 traffic
      (refl, refl, (refl, refl, (refl, refl, (refl, refl, tt))))
