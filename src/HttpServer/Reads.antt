-- ===== src/HttpServer/Reads.antt =====
-- src/HttpServer.cpp: the requests that submit nothing.
use text.Mathlib.Text.{starts_with}
use distributed_notification.Base.{
  ℕ, suc, ◌≡◌, sym, ◌∙◌, Bool, false, String, Option, some, none, List, [], ◌∷◌, str_eq, arith, pos,
}
use distributed_notification.Models.{Notification, DeliveryAttempt}
use distributed_notification.Platform.{Platform}
use distributed_notification.Effects.{World, Outcome, returns, throws, blocked, recover}
use distributed_notification.Effects.Calm.{
  Undisturbed, IsCalm, IsCalm-pure, IsCalm-throw, IsCalm-if, IsCalm-bind,
}
use distributed_notification.Effects.Plain.{EndsPlain, IsPlain, IsPlain-pure}
use distributed_notification.HttpServer.Plain.{text_of, route_get-IsPlain}
use distributed_notification.Database.Calm.{IsCalm-execute, IsCalm-with_session}
use distributed_notification.Database.Schema.{AttemptRow}
use distributed_notification.NotificationRepository.{find_by_id, list}
use distributed_notification.NotificationRepository.Sessions.{find_by_id-IsCalm, list-IsCalm}
use distributed_notification.DeliveryAttemptRepository.{
  find_by_notification_id, read_attempts, attempt_or_unknown, row_to_attempt,
}
use distributed_notification.HttpServer.{
  Verb, get, post, other, Request, Response, respond_error, what, show_found, get_notification,
  get_notifications, route_get, route, handle_connection,
}

module _ (P : Platform) (n : ℕ) where
  attempt_or_unknown-IsCalm :
      (c : String) (a : Option DeliveryAttempt) → IsCalm n (attempt_or_unknown P c a)
  attempt_or_unknown-IsCalm c none = IsCalm-throw n _
  attempt_or_unknown-IsCalm c (some a) = IsCalm-pure n a

  read_attempts-IsCalm : (rows : List AttemptRow) → IsCalm n (read_attempts P rows)
  unfolding read_attempts
  read_attempts-IsCalm [] = IsCalm-pure n []
  read_attempts-IsCalm (row ∷ rows) =
      IsCalm-bind n (attempt_or_unknown P row.channel (row_to_attempt row)) _
        (attempt_or_unknown-IsCalm row.channel (row_to_attempt row))
        λ a.
          IsCalm-bind n (read_attempts P rows) _ (read_attempts-IsCalm rows)
            λ rest. IsCalm-pure n (a ∷ rest)

  find_by_notification_id-IsCalm : (id : String) → IsCalm (suc n) (find_by_notification_id P id)
  unfolding find_by_notification_id
  find_by_notification_id-IsCalm id =
      IsCalm-with_session n _
        (IsCalm-bind n _ (read_attempts P) (IsCalm-execute n _) read_attempts-IsCalm)

  show_found-IsCalm :
      (id : String) (found : Option Notification) → IsCalm (suc n) (show_found P id found)
  show_found-IsCalm id none = IsCalm-pure (suc n) _
  show_found-IsCalm id (some m) =
      IsCalm-bind (suc n) (find_by_notification_id P id) _ (find_by_notification_id-IsCalm id)
        λ rest. IsCalm-pure (suc n) _

  get_notification-IsCalm : (id : String) → IsCalm (suc n) (get_notification P id)
  unfolding get_notification
  get_notification-IsCalm id =
      IsCalm-bind (suc n) (find_by_id P id) (show_found P id) (find_by_id-IsCalm P n id)
        (show_found-IsCalm id)

  get_notifications-IsCalm : IsCalm (suc n) (get_notifications P)
  unfolding get_notifications
  get_notifications-IsCalm =
      IsCalm-bind (suc n) (list P none none (pos 50) (pos 0)) _
        (list-IsCalm P n none none (pos 50) (pos 0)) λ ms. IsCalm-pure (suc n) _

  route_get-IsCalm : (target : String) → IsCalm (suc n) (route_get P target)
  route_get-IsCalm target =
      IsCalm-if (suc n) (str_eq target "/healthz") _ _ (IsCalm-pure (suc n) _) (
        IsCalm-if (suc n) (starts_with target "/api/notifications/") _ _ (get_notification-IsCalm _)
          (IsCalm-if (suc n) (starts_with target "/api/notifications") _ _ get_notifications-IsCalm
            (IsCalm-pure (suc n) _)))

  abbrev pub is_submission : Verb → String → Bool
  is_submission get target = false
  is_submission post target = str_eq target "/api/notifications"
  is_submission other target = false

  route-IsCalm :
      (method : Verb) (target : String) (body : P.Body)
      → is_submission method target ≡ false
      → IsCalm (suc n) (route P method target body)
  route-IsCalm get target body h = route_get-IsCalm target
  route-IsCalm post target body h = rw h (IsCalm-pure (suc n) _)
  route-IsCalm other target body h = IsCalm-pure (suc n) _

  route-IsPlain :
      (method : Verb) (target : String) (body : P.Body)
      → is_submission method target ≡ false
      → IsPlain (route P method target body)
  route-IsPlain get target body h = route_get-IsPlain P target
  route-IsPlain post target body h = rw h (IsPlain-pure _)
  route-IsPlain other target body h = IsPlain-pure _

  -- A response, the sessions given back, and nothing told to the broker.
  abbrev pub Served : World P → Outcome (Response P.Body) → World P → Type 0
  Served w (returns r) v = (v.available ≡ w.available) × (v.commands ≡ w.commands)
  Served w (throws e) v = ⊥
  Served w blocked v = ⊥

  caught :
      (w : World P) (r : Outcome (Response P.Body)) (v : World P)
      → w.available ≡ suc n
      → EndsPlain r
      → Undisturbed (suc n) w r v
      → let q = recover r (λ e. respond_error P (what e)) v in Served w q.0 q.1
  caught w (returns r) v h t u = (u.idle ∙ sym h, u.silent)
  caught w (throws x) v h t u = let (e, is) = text_of x t in rw is (u.idle ∙ sym h, u.silent)
  caught w blocked v h t u = ground (arith, u.goes_on)

  -- With a session idle, whatever the server refuses, a request that is no POST to
  -- /api/notifications is answered, its sessions are given back and nothing is published.
  pub handle_connection-Served :
      (req : Request P.Body) (w : World P)
      → w.available ≡ suc n
      → is_submission req.method req.target ≡ false
      → Served w (handle_connection P req w).0 (handle_connection P req w).1
  unfolding handle_connection
  handle_connection-Served req w h s =
      let q = route P req.method req.target req.body w in
      caught w q.0 q.1 h ((route-IsPlain req.method req.target req.body s).at w)
        ((route-IsCalm req.method req.target req.body s).at w h)
