-- ===== src/Database/Calm.antt =====
-- Statements and sessions: what they do to the pool.
use distributed_notification.Base.{
  ℕ, zero, suc, ◌≡◌, refl, ap, String, Option, none, some, List, [], ◌∷◌, arith,
}
use distributed_notification.Platform.{Platform}
use distributed_notification.Effects.{World, M, Outcome, returns, throws, blocked, continue, pure}
use distributed_notification.Effects.Calm.{Undisturbed, IsCalm, IsCalm-pure}
use distributed_notification.Database.{
  Reply, reply, refuse, with_session, give_back, acquire, release, take_session, ask, consult,
  answer, execute, start_transaction, commit, rollback, restore,
}
use distributed_notification.Database.Schema.{Tables}

module _ {P : Platform} {A : Type 0} (n : ℕ) where
  consult-calm :
      (m : M P A) (os : List (Option String)) (w : World P)
      → IsCalm n m
      → w.available ≡ n
      → Undisturbed n w (consult os m w).0 (consult os m w).1
  consult-calm m [] w cm h = cm.at w h
  consult-calm m (none ∷ rest) w cm h =
      let u = cm.at (record w { outcomes = rest }) h in
      record { idle = u.idle; silent = u.silent; goes_on = u.goes_on }
  consult-calm m (some e ∷ rest) w cm h = record { idle = h; silent = refl; goes_on = refl }

  pub IsCalm-ask : (m : M P A) → IsCalm n m → IsCalm n (ask m)
  unfolding ask
  IsCalm-ask m cm = record { at = λ w h. consult-calm m w.outcomes w cm h }

  answer-calm :
      (r : Reply A) (w : World P)
      → w.available ≡ n
      → Undisturbed n w (answer {P = P} r w).0 (answer {P = P} r w).1
  answer-calm (reply a t) w h = record { idle = h; silent = refl; goes_on = refl }
  answer-calm (refuse e) w h = record { idle = h; silent = refl; goes_on = refl }

  pub IsCalm-execute : (statement : Tables → Reply A) → IsCalm {P = P} n (execute statement)
  unfolding execute
  IsCalm-execute statement =
      IsCalm-ask (λ w. answer (statement w.tables) w)
        (record { at = λ w h. answer-calm (statement w.tables) w h })

  give_back-calm :
      (w : World P) (r : Outcome A) (v : World P)
      → Undisturbed n w r v
      → Undisturbed (suc n) w (give_back (r, v)).0 (give_back (r, v)).1
  unfolding release
  give_back-calm w (returns a) v u = record {
    idle = ap suc u.idle;
    silent = u.silent;
    goes_on = refl;
  }
  give_back-calm w (throws e) v u = record {
    idle = ap suc u.idle;
    silent = u.silent;
    goes_on = refl;
  }
  give_back-calm w blocked v u = ground (arith, u.goes_on)

  taken-calm :
      (m : M P A) (k : ℕ) (w : World P)
      → IsCalm n m
      → k ≡ suc n
      → let r = take_session k w in
        let q = continue r.0 (λ _ v. give_back (m v)) r.1 in Undisturbed (suc n) w q.0 q.1
  taken-calm m zero w cm h = absurd (omega arith)
  taken-calm m (suc k) w cm h =
      let v : World P = record w { available = k } in
      let u = cm.at v (omega arith) in
      give_back-calm w (m v).0 (m v).1
        (record { idle = u.idle; silent = u.silent; goes_on = u.goes_on })

  -- With a session idle, a unit of work takes it and gives it back, also when it throws.
  pub IsCalm-with_session : (m : M P A) → IsCalm n m → IsCalm (suc n) (with_session m)
  unfolding with_session acquire
  IsCalm-with_session m cm = record { at = λ w h. taken-calm m w.available w cm h }

module _ {P : Platform} (n : ℕ) where
  pub IsCalm-start_transaction : IsCalm {P = P} n start_transaction
  unfolding start_transaction
  IsCalm-start_transaction =
      IsCalm-ask n _ (record { at = λ w h. record { idle = h; silent = refl; goes_on = refl } })

  pub IsCalm-commit : IsCalm {P = P} n commit
  unfolding commit
  IsCalm-commit =
      IsCalm-ask n _ (record { at = λ w h. record { idle = h; silent = refl; goes_on = refl } })

  restore-calm :
      (s : Option Tables) (w : World P) (r : Outcome (Unit {0})) (v : World P)
      → Undisturbed n w r v
      → Undisturbed n w r (restore s v)
  restore-calm none w r v u = u
  restore-calm (some t) w r v u = record { idle = u.idle; silent = u.silent; goes_on = u.goes_on }

  pub IsCalm-rollback : IsCalm {P = P} n rollback
  unfolding rollback
  IsCalm-rollback = record {
    at = λ w h.
        let (r, v) = ask {P = P} (pure tt) w in
        restore-calm v.snapshot w r v ((IsCalm-ask n (pure tt) (IsCalm-pure n tt)).at w h);
  }
