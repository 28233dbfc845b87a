-- ===== src/HttpServer/Accepting/Answering.antt =====
-- src/HttpServer.cpp, HttpServer::acceptLoop: every request that is read is answered, but for
-- one that ends the process.
use distributed_notification.Base.{
  ℕ, suc, ◌≡◌, refl, sym, ap, ◌∙◌, subst, Bool, true, false, ◌&&◌, String, eq_iff, none, some, List,
  [], ◌∷◌, Bool-cases, inl, inr, if◌then◌else◌,
}
use distributed_notification.Platform.{Platform, IsJson}
use distributed_notification.Effects.{World, json_error, Outcome, returns, throws, blocked}
use distributed_notification.HttpServer.{
  Verb, get, post, other, Request, Response, handle_connection,
}
use distributed_notification.HttpServer.Answers.{Answered, is_garbled, handle_connection-Answered}
use distributed_notification.HttpServer.Reads.{is_submission, Served, handle_connection-Served}
use distributed_notification.HttpServer.Accepting.{
  Accepted, aborted, accept_error, unreadable, request, Ending, Loop, waits, returned, escaped,
  answered, accept_loop,
}

module _ (P : Platform) where
  -- A submission whose body does not parse, with a parse error whose text is not UTF-8.
  abbrev pub breaks : IsJson P → Request P.Body → Bool
  breaks json req = is_submission P 0 req.method req.target && is_garbled P json (P.parse req.body)

  -- The requests that are answered: those read before an accept is aborted or a submission breaks the
  -- handler, if one does, each with the world that its handler meets.
  abbrev pub requests : IsJson P → List (Accepted P) → List (World P × Request P.Body)
  requests json [] = []
  requests json (aborted ∷ es) = []
  requests json (accept_error e ∷ es) = requests json es
  requests json (unreadable ∷ es) = requests json es
  requests json (request w req ∷ es) =
      let rest = requests json es in if breaks json req then [] else (w, req) ∷ rest

  abbrev pub ending_of : IsJson P → List (Accepted P) → Ending
  ending_of json [] = waits
  ending_of json (aborted ∷ es) = returned
  ending_of json (accept_error e ∷ es) = ending_of json es
  ending_of json (unreadable ∷ es) = ending_of json es
  ending_of json (request w req ∷ es) =
      let rest = ending_of json es in
      if breaks json req then escaped (json_error (some P.dump_error)) else rest

  -- Each handler finds n sessions idle and no transaction under way.
  abbrev pub AllMeet : ℕ → List (Accepted P) → Type 0
  AllMeet n [] = Unit {0}
  AllMeet n (aborted ∷ es) = AllMeet n es
  AllMeet n (accept_error e ∷ es) = AllMeet n es
  AllMeet n (unreadable ∷ es) = AllMeet n es
  AllMeet n (request w req ∷ es) = (w.available ≡ n) × (w.snapshot ≡ none) × AllMeet n es

  -- One answer for each request, in their order, that of its handler; n sessions are idle after each.
  abbrev pub AllAnswered :
      ℕ → List (World P × Request P.Body) → List (Response P.Body × World P) → Type 0
  AllAnswered n [] [] = Unit {0}
  AllAnswered n [] (a ∷ rest) = ⊥
  AllAnswered n (req ∷ reqs) [] = ⊥
  AllAnswered n ((w, req) ∷ reqs) ((r, v) ∷ rest) =
      (handle_connection P req w ≡ (returns r, v)) × (v.available ≡ n) × AllAnswered n reqs rest

  -- The end of a handler: with n sessions idle, or by the exception of `dump` if it breaks.
  abbrev Ends : Bool → ℕ → Outcome (Response P.Body) → World P → Type 0
  Ends broken n (returns r) v = (broken ≡ false) × (v.available ≡ n)
  Ends broken n (throws e) v = (broken ≡ true) × (e ≡ json_error (some P.dump_error))
  Ends broken n blocked v = ⊥

  Answered-Ends :
      (json : IsJson P) (body : P.Body) (w : World P) (n : ℕ) (r : Outcome (Response P.Body))
      (v : World P)
      → w.available ≡ n
      → Answered P json body w r v
      → Ends (is_garbled P json (P.parse body)) n r v
  Answered-Ends json body w n (returns r) v h (idle, inl (input, asks, stored)) =
      (ap (is_garbled P json) asks.1, idle ∙ h)
  Answered-Ends json body w n (returns r) v h (idle, inr (clear, is, same)) = (clear, idle ∙ h)
  Answered-Ends json body w n (throws e) v h (idle, garbled, is, same) = (garbled, is)
  Answered-Ends json body w n blocked v h k = k

  Served-Ends :
      (k : ℕ) (w : World P) (n : ℕ) (r : Outcome (Response P.Body)) (v : World P)
      → w.available ≡ n
      → Served P k w r v
      → Ends false n r v
  Served-Ends k w n (returns r) v h s = (refl, s.0 ∙ h)
  Served-Ends k w n (throws e) v h s = absurd s
  Served-Ends k w n blocked v h s = s

  submission-Ends :
      (json : IsJson P) (n : ℕ) (method : Verb) (target : String) (body : P.Body) (w : World P)
      → w.available ≡ suc (suc n)
      → w.snapshot ≡ none
      → is_submission P 0 method target ≡ true
      → let q = handle_connection P (record { method = method; target = target; body = body }) w in
        Ends (is_garbled P json (P.parse body)) (suc (suc n)) q.0 q.1
  submission-Ends json n get target body w h s e = cc
  submission-Ends json n other target body w h s e = cc
  submission-Ends json n post target body w h s e =
      subst
        (λ (x : String).
          let q = handle_connection P (record { method = post; target = x; body = body }) w in
          Ends (is_garbled P json (P.parse body)) (suc (suc n)) q.0 q.1)
        (sym ((eq_iff target "/api/notifications").0 e))
        (Answered-Ends json body w _ _ _ h (handle_connection-Answered P json body w n h s))

  handle_connection-Ends :
      (json : IsJson P) (n : ℕ) (req : Request P.Body) (w : World P)
      → w.available ≡ suc (suc n)
      → w.snapshot ≡ none
      → let q = handle_connection P req w in Ends (breaks json req) (suc (suc n)) q.0 q.1
  handle_connection-Ends json n req w h s =
      elim (Bool-cases (is_submission P 0 req.method req.target)) [
        | inr isnt ↦
            rw isnt
              (Served-Ends (suc n) w _ _ _ h (handle_connection-Served P (suc n) req w h isnt))
        | inl is ↦ rw is (submission-Ends json n req.method req.target req.body w h s is)
      ]

  abbrev Loops : IsJson P → ℕ → List (Accepted P) → Loop P → Type 0
  Loops json n es loop =
      (loop.ending ≡ ending_of json es) × AllAnswered n (requests json es) loop.answers

  step_on :
      (json : IsJson P) (n : ℕ) (req : Request P.Body) (w : World P) (r : Outcome (Response P.Body))
      (v : World P) (es : List (Accepted P))
      → handle_connection P req w ≡ (r, v)
      → Ends (breaks json req) n r v
      → Loops json n es (accept_loop P es)
      → Loops json n (request w req ∷ es) (answered P r v (accept_loop P es))
  step_on json n req w (returns r) v es e h k = rw h.0 (k.0, (e, h.1, k.1))
  step_on json n req w (throws x) v es e h k = rw h.0 (ap escaped h.1, tt)
  step_on json n req w blocked v es e h k = absurd h

  -- Whatever is accepted and whatever the server of the database refuses, provided that each handler
  -- finds two or more sessions idle and no transaction under way: no handler keeps the loop; every
  -- request that is read before an accept is aborted gets the one answer of its handler, in order,
  -- and its sessions are given back; the loop returns if an accept is aborted, and only then; but a
  -- submission whose body does not parse, with a parse error whose text is not UTF-8, ends all this:
  -- the exception of `dump` leaves the loop, and no other does.
  pub accept_loop-AllAnswered :
      (json : IsJson P) (n : ℕ) (es : List (Accepted P))
      → AllMeet (suc (suc n)) es
      → ((accept_loop P es).ending ≡ ending_of json es)
        × AllAnswered (suc (suc n)) (requests json es) (accept_loop P es).answers
  unfolding accept_loop
  accept_loop-AllAnswered json n [] h = (refl, tt)
  accept_loop-AllAnswered json n (aborted ∷ es) h = (refl, tt)
  accept_loop-AllAnswered json n (accept_error e ∷ es) h = accept_loop-AllAnswered json n es h
  accept_loop-AllAnswered json n (unreadable ∷ es) h = accept_loop-AllAnswered json n es h
  accept_loop-AllAnswered json n (request w req ∷ es) h =
      let q = handle_connection P req w in
      step_on json (suc (suc n)) req w q.0 q.1 es refl (handle_connection-Ends json n req w h.0 h.1)
        (accept_loop-AllAnswered json n es h.2)
