-- ===== src/Worker/Told.antt =====
-- src/Worker.cpp: what may be told to the broker about one message, and how the parts add up.
use mathlib.Core.List.{append_assoc}
use distributed_notification.Base.{
  ℕ, suc, ◌≡◌, refl, ◌∙◌, ap, ◌⊎◌, inl, inr, ℤ, true, String, Option, List, [], ◌∷◌, ◌++◌, arith,
}
use distributed_notification.Enums.{Channel}
use distributed_notification.Models.{DeliveryAttempt}
use distributed_notification.Platform.{Platform}
use distributed_notification.RabbitMqTopology.{retry_queue, dlq}
use distributed_notification.Effects.{
  World, M, Command, publish, ack, Outcome, returns, throws, blocked, continue, ◌>>◌,
}
use distributed_notification.Effects.Calm.{IsCalm, Undisturbed}
use distributed_notification.Database.Calm.{IsCalm-execute, IsCalm-with_session}
use distributed_notification.DeliveryAttemptRepository.{record_attempt}
use distributed_notification.Worker.{tell}

module _ (P : Platform) (n : ℕ) where
  pub record_attempt-IsCalm : (a : DeliveryAttempt) → IsCalm (suc n) (record_attempt P a)
  unfolding record_attempt
  record_attempt-IsCalm a = IsCalm-with_session n _ (IsCalm-execute n _)

  -- A retry queue or the dead-letter queue of a channel.
  abbrev pub IsParking : Channel → String → Type 0
  IsParking c q = (q ≡ dlq c) ⊎ ((i : ℤ) × (q ≡ retry_queue c i))

  -- To the commands cs one persistent message to such a queue, by way of the default exchange, and
  -- then rest have been added.
  abbrev pub Parks : Channel → List (Command P.Body) → List (Command P.Body) → World P → Type 0
  Parks c cs rest v =
      (q : String) × (b : P.Body) × (p : Option ℕ) × (v.commands
        ≡ cs ++ publish "" q b true p ∷ rest)
      × IsParking c q

  -- One persistent message to the dead-letter queue has been added.
  abbrev pub Buries : Channel → List (Command P.Body) → World P → Type 0
  Buries c cs v =
      (b : P.Body) × (p : Option ℕ) × (v.commands ≡ cs ++ publish "" (dlq c) b true p ∷ [])

  -- What a worker of channel c has told the broker, after cs, when it is done with the message tag.
  abbrev pub Told : Channel → ℕ → List (Command P.Body) → Outcome (Unit {0}) → World P → Type 0
  Told c tag cs (returns u) v = (v.commands ≡ cs ++ ack tag ∷ []) ⊎ Parks c cs (ack tag ∷ []) v
  Told c tag cs (throws e) v = (v.commands ≡ cs) ⊎ Buries c cs v
  Told c tag cs blocked v = ⊥

  abbrev pub Handled : Channel → ℕ → List (Command P.Body) → Outcome (Unit {0}) → World P → Type 0
  Handled c tag cs r v = Told c tag cs r v × (v.available ≡ suc n)

  -- A calm action and then one command.
  abbrev pub Said : Command P.Body → List (Command P.Body) → Outcome (Unit {0}) → World P → Type 0
  Said k cs (returns u) v = (v.commands ≡ cs ++ k ∷ []) × (v.available ≡ suc n)
  Said k cs (throws e) v = (v.commands ≡ cs) × (v.available ≡ suc n)
  Said k cs blocked v = ⊥

  said :
      (k : Command P.Body) (w : World P) (r : Outcome (Unit {0})) (v : World P)
      → Undisturbed (suc n) w r v
      → let q = continue r (λ _. tell P k) v in Said k w.commands q.0 q.1
  said k w (returns u) v h = (ap (λ cs. cs ++ k ∷ []) h.silent, h.idle)
  said k w (throws e) v h = (h.silent, h.idle)
  said k w blocked v h = ground (arith, h.goes_on)

  pub tell_after :
      (k : Command P.Body) (m : M P (Unit {0})) (w : World P)
      → IsCalm (suc n) m
      → w.available ≡ suc n
      → let q = (m >> tell P k) w in Said k w.commands q.0 q.1
  tell_after k m w cm h = said k w (m w).0 (m w).1 (cm.at w h)

  -- The middle of the `catch` block: a message parked, or an exception before or after that.
  abbrev pub Parked : Channel → List (Command P.Body) → Outcome (Unit {0}) → World P → Type 0
  Parked c cs (returns u) v = Parks c cs [] v × (v.available ≡ suc n)
  Parked c cs (throws e) v = ((v.commands ≡ cs) ⊎ Buries c cs v) × (v.available ≡ suc n)
  Parked c cs blocked v = ⊥

  pub then-ack :
      (c : Channel) (tag : ℕ) (cs : List (Command P.Body)) (r : Outcome (Unit {0})) (v : World P)
      → Parked c cs r v
      → let q = continue r (λ _. tell P (ack tag)) v in Handled c tag cs q.0 q.1
  then-ack c tag cs (returns u) v ((q, b, p, e, parking), idle) =
      let acked =
        ap (λ ds. ds ++ ack tag ∷ []) e
        ∙ append_assoc cs (publish "" q b true p ∷ []) (ack tag ∷ []) in
      (inr (q, b, p, acked, parking), idle)
  then-ack c tag cs (throws e) v h = h
  then-ack c tag cs blocked v h = absurd h

  pub tell-Parked :
      (c : Channel) (q : String) (b : P.Body) (p : Option ℕ) (cs : List (Command P.Body))
      → IsParking c q
      → (r : Outcome (Unit {0})) (v : World P) → Said (publish "" q b true p) cs r v
      → Parked c cs r v
  tell-Parked c q b p cs parking (returns u) v h = ((q, b, p, h.0, parking), h.1)
  tell-Parked c q b p cs parking (throws e) v h = (inl h.0, h.1)
  tell-Parked c q b p cs parking blocked v h = h

  -- A message buried, and then a calm action.
  bury_then :
      (c : Channel) (b : P.Body) (p : Option ℕ) (cs : List (Command P.Body)) (v : World P)
      → v.commands ≡ cs ++ publish "" (dlq c) b true p ∷ []
      → (r : Outcome (Unit {0})) (u : World P) → Undisturbed (suc n) v r u
      → Parked c cs r u
  bury_then c b p cs v e (returns x) u h = ((dlq c, b, p, h.silent ∙ e, inl refl), h.idle)
  bury_then c b p cs v e (throws x) u h = (inr (b, p, h.silent ∙ e), h.idle)
  bury_then c b p cs v e blocked u h = ground (arith, h.goes_on)

  pub bury_after :
      (c : Channel) (b : P.Body) (p : Option ℕ) (w : World P) (m : M P (Unit {0}))
      → IsCalm (suc n) m
      → (r : Outcome (Unit {0})) (v : World P) → Undisturbed (suc n) w r v
      → let o = continue r (λ _. tell P (publish "" (dlq c) b true p) >> m) v in
        Parked c w.commands o.0 o.1
  bury_after c b p w m cm (returns x) v h =
      let k = publish "" (dlq c) b true p in
      let u : World P = record v { commands = v.commands ++ k ∷ [] } in
      bury_then c b p w.commands u (ap (λ cs. cs ++ k ∷ []) h.silent) (m u).0 (m u).1
        (cm.at u h.idle)
  bury_after c b p w m cm (throws x) v h = (inl h.silent, h.idle)
  bury_after c b p w m cm blocked v h = ground (arith, h.goes_on)
