-- ===== src/HttpServer/Answers.antt =====
-- src/HttpServer.cpp: what the answer to a submission says of the tables and of the broker.
use distributed_notification.Base.{
  ℕ, suc, ◌<◌, ◌≡◌, refl, sym, ap, ◌∙◌, ◌⊎◌, inl, inr, subst, Bool, true, false, String, some, none,
  [], ◌∷◌, ◌++◌, arith,
}
use distributed_notification.Enums.{Priority, low, normal, high, priority_weight}
use distributed_notification.Models.{Notification}
use distributed_notification.Platform.{Platform, Parsed, ok, bad, IsJson}
use distributed_notification.Effects.{
  World, M, Outcome, Exception, json_error, publish, returns, throws, blocked, continue, recover,
  pure, ◌>>=◌, ◌>>◌,
}
use distributed_notification.Effects.Calm.{Undisturbed}
use distributed_notification.IdGenerator.{uuid4}
use distributed_notification.Message.{decode, message}
use distributed_notification.Message.RoundTrip.{decode-message}
use distributed_notification.NotificationRepository.{insert_with_outbox, new_id}
use distributed_notification.NotificationRepository.Sessions.{insert_with_outbox-IsCalm}
use distributed_notification.NotificationRepository.Submission.{
  Submitted, insert_with_outbox-Submitted,
}
use distributed_notification.RabbitMqTopology.{exchange_name, routing_key}
use distributed_notification.RabbitMqPublisher.{publish_to_exchange}
use distributed_notification.Effects.Plain.{HasText, EndsPlain}
use distributed_notification.HttpServer.Plain.{
  text_of, submit-IsPlain, IsReadable, read_notification-IsReadable,
}
use distributed_notification.HttpServer.Submission.{
  Checked, fine, fails, from_json, checked, read_notification,
}
use distributed_notification.HttpServer.{
  post, Request, Response, accepted, bad_request, json_response, error_response, respond_error,
  what, notification_to_json, first_task, submit, post_notification, handle_connection,
}

pub priority_weight-lt : (p : Priority) → priority_weight p < 256
priority_weight-lt low = omega arith
priority_weight-lt normal = omega arith
priority_weight-lt high = omega arith

module _ (P : Platform) (json : IsJson P) where
  -- The notification `saved` is stored as a submission of `input` stores it, the response is 202 with
  -- its JSON, and the broker is told one message, which a worker reads as its first attempt.
  pub record IsPublished (input : Notification) (w v : World P) (r : Response P.Body) : Type 0 where
    pub saved : Notification
    pub stored : Submitted P input w (returns saved) v
    pub response : r ≡ json_response P accepted (notification_to_json P saved)
    pub body : P.Body
    pub command :
        v.commands
        ≡ w.commands
          ++ publish exchange_name
              (routing_key saved.channel)
              body
              true
              (some (priority_weight saved.priority))
            ∷ []
    pub task : decode P body ≡ ok (first_task P saved)

  abbrev Posted : Notification → World P → Outcome (Response P.Body) → World P → Type 0
  Posted input w (returns r) v = IsPublished input w v r × (v.available ≡ w.available)
  Posted input w (throws e) v =
      (v.tables ≡ w.tables) × (v.commands ≡ w.commands) × (v.available ≡ w.available)
  Posted input w blocked v = ⊥

  abbrev after_insert : Notification → M P (Response P.Body)
  after_insert saved = do
    publish_to_exchange exchange_name (routing_key saved.channel) (message P (first_task P saved))
        (priority_weight saved.priority)
    pure (json_response P accepted (notification_to_json P saved))

  stored-Posted :
      (input : Notification) (n : ℕ) (w : World P) (r : Outcome Notification) (v : World P)
      → w.available ≡ n
      → Undisturbed n w r v
      → Submitted P input w r v
      → let q = continue r after_insert v in Posted input w q.0 q.1
  stored-Posted input n w (returns m) v h u s = (
    record {
      saved = m;
      stored = s;
      response = refl;
      body = message P (first_task P m);
      command =
          ap
            (λ cs.
              cs
              ++ publish exchange_name (routing_key m.channel) (message P (first_task P m)) true
                  (some (priority_weight m.priority))
                ∷ [])
            u.silent;
      task = decode-message P json (first_task P m) (omega arith) (priority_weight-lt m.priority);
    },
    u.idle ∙ sym h,
  )
  stored-Posted input n w (throws e) v h u s = (s, u.silent, u.idle ∙ sym h)
  stored-Posted input n w blocked v h u s = s

  submit-Posted :
      (input : Notification) (n : ℕ) (w : World P)
      → w.available ≡ suc (suc n)
      → w.snapshot ≡ none
      → Posted input w (submit P input w).0 (submit P input w).1
  unfolding submit
  submit-Posted input n w h s =
      let q = insert_with_outbox P input w in
      stored-Posted input (suc (suc n)) w q.0 q.1 h ((insert_with_outbox-IsCalm P n input).at w h)
        (insert_with_outbox-Submitted P input w n h s).0

  -- The notification that a body asks for, with the UUID drawn in the world w.
  abbrev pub Asks : P.Body → World P → Notification → Type 0
  Asks body w input =
      (j : P.Json) × (P.parse body ≡ ok j) × (read_notification P j (uuid4 P w.rng).0 ≡ fine input)

  -- The text of the parse error is not UTF-8.
  abbrev pub is_garbled : Parsed P.Json → Bool
  is_garbled (ok j) = false
  is_garbled (bad none) = true
  is_garbled (bad (some e)) = false

  -- The tables and what the broker was told are as they were.
  abbrev Untouched : World P → World P → Type 0
  Untouched w v = (v.tables ≡ w.tables) × (v.commands ≡ w.commands)

  -- What a submission is answered: 202, when it is stored and published, or 400, when nothing is. If
  -- the text of the parse error is not UTF-8, the exception of `dump` leaves the handler.
  abbrev pub Answered : P.Body → World P → Outcome (Response P.Body) → World P → Type 0
  Answered body w (returns r) v =
      (v.available ≡ w.available)
      × (((input : Notification) × Asks body w input × IsPublished input w v r)
          ⊎ ((is_garbled (P.parse body) ≡ false)
              × ((e : String) × (r ≡ error_response P bad_request e))
              × Untouched w v))
  Answered body w (throws e) v =
      (v.available ≡ w.available)
      × (is_garbled (P.parse body) ≡ true)
      × (e ≡ json_error (some P.dump_error))
      × Untouched w v
  Answered body w blocked v = ⊥

  abbrev answer_error : Exception → M P (Response P.Body)
  answer_error e = respond_error P (what e)

  refused-Answered :
      (body : P.Body) (w : World P) (x : Exception) (v : World P)
      → HasText x
      → is_garbled (P.parse body) ≡ false
      → v.available ≡ w.available
      → Untouched w v
      → let q = answer_error x v in Answered body w q.0 q.1
  refused-Answered body w x v t clear idle same =
      let (e, is) = text_of x t in rw is (idle, inr (clear, (e, refl), same))

  caught :
      (body : P.Body) (input : Notification) (w : World P) (r : Outcome (Response P.Body))
      (v : World P)
      → Asks body w input
      → EndsPlain r
      → Posted input (new_id P w).1 r v
      → let q = recover r answer_error v in Answered body w q.0 q.1
  caught body input w (returns r) v a t h = (
    h.1,
    inl (
      input,
      a,
      record {
        saved = h.0.saved;
        stored = h.0.stored;
        response = h.0.response;
        body = h.0.body;
        command = h.0.command;
        task = h.0.task;
      },
    ),
  )
  caught body input w (throws x) v a t h =
      refused-Answered body w x v t (ap is_garbled a.1) h.2 (h.0, h.1)
  caught body input w blocked v a t h = absurd h

  read-Answered :
      (body : P.Body) (j : P.Json) (w : World P) (n : ℕ) (input : Checked Notification)
      → w.available ≡ suc (suc n)
      → w.snapshot ≡ none
      → P.parse body ≡ ok j
      → read_notification P j (uuid4 P w.rng).0 ≡ input
      → let q = (checked input >>= submit P) (new_id P w).1 in
        let a = recover q.0 answer_error q.1 in Answered body w a.0 a.1
  read-Answered body j w n (fine input) h s p e =
      let u : World P = (new_id P w).1 in
      let q = submit P input u in
      caught body input w q.0 q.1 (j, p, e) ((submit-IsPlain P input).at u)
        (submit-Posted input n u h s)
  read-Answered body j w n (fails x) h s p e =
      let t = subst IsReadable e (read_notification-IsReadable P json j (uuid4 P w.rng).0) in
      refused-Answered body w x (new_id P w).1 t (ap is_garbled p) refl (refl, refl)

  parsed-Answered :
      (body : P.Body) (w : World P) (n : ℕ) (p : Parsed P.Json)
      → w.available ≡ suc (suc n)
      → w.snapshot ≡ none
      → P.parse body ≡ p
      → let q =
          (checked (from_json p) >>= λ j.
          new_id P >>= λ fallback. checked (read_notification P j fallback) >>= submit P)
            w in
        let a = recover q.0 answer_error q.1 in Answered body w a.0 a.1
  parsed-Answered body w n (ok j) h s e =
      read-Answered body j w n (read_notification P j (uuid4 P w.rng).0) h s e refl
  parsed-Answered body w n (bad (some x)) h s e =
      refused-Answered body w (json_error (some x)) w tt (ap is_garbled e) refl (refl, refl)
  parsed-Answered body w n (bad none) h s e = (refl, ap is_garbled e, refl, (refl, refl))

  -- With two or more sessions idle and no transaction under way, whatever the server refuses, a
  -- POST to /api/notifications gives back its sessions. Either its body reads as a notification,
  -- that is stored as `insertWithOutbox` stores it, the answer is 202 and exactly one persistent
  -- message is published, to the exchange with the routing key of the channel, which decodes to the
  -- id, the attempt number 1 and the weight of the priority; or the answer is 400, the tables are as
  -- they were and nothing is published; or there is no answer, which is when the body does not parse
  -- and the text of the parse error is not UTF-8: the exception of `dump` leaves the handler, the
  -- tables are as they were and nothing is published.
  pub handle_connection-Answered :
      (body : P.Body) (w : World P) (n : ℕ)
      → w.available ≡ suc (suc n)
      → w.snapshot ≡ none
      → let req : Request P.Body = record {
        method = post;
        target = "/api/notifications";
        body = body;
      } in
        let q = handle_connection P req w in Answered body w q.0 q.1
  unfolding handle_connection post_notification
  handle_connection-Answered body w n h s = parsed-Answered body w n (P.parse body) h s refl
