-- ===== src/Database/Plain.antt =====
-- Statements and sessions: the exceptions of the server have texts that are UTF-8.
use distributed_notification.Base.{ℕ, zero, suc, String, Option, none, some, List, [], ◌∷◌}
use distributed_notification.Platform.{Platform}
use distributed_notification.Effects.{World, M, Outcome, returns, throws, blocked, continue, pure}
use distributed_notification.Effects.Plain.{EndsPlain, IsPlain, IsPlain-pure}
use distributed_notification.Database.{
  Reply, reply, refuse, with_session, give_back, acquire, take_session, ask, consult, answer,
  execute, start_transaction, commit, rollback,
}
use distributed_notification.Database.Schema.{Tables}

module _ {P : Platform} {A : Type 0} where
  consulted :
      (m : M P A) (os : List (Option String)) (w : World P)
      → IsPlain m
      → EndsPlain (consult os m w).0
  consulted m [] w pm = pm.at w
  consulted m (none ∷ rest) w pm = pm.at (record w { outcomes = rest })
  consulted m (some e ∷ rest) w pm = tt

  pub IsPlain-ask : (m : M P A) → IsPlain m → IsPlain (ask m)
  unfolding ask
  IsPlain-ask m pm = record { at = λ w. consulted m w.outcomes w pm }

  replied : (r : Reply A) (w : World P) → EndsPlain (answer {P = P} r w).0
  replied (reply a t) w = tt
  replied (refuse e) w = tt

  pub IsPlain-execute : (statement : Tables → Reply A) → IsPlain {P = P} (execute statement)
  unfolding execute
  IsPlain-execute statement =
      IsPlain-ask (λ w. answer (statement w.tables) w)
        (record { at = λ w. replied (statement w.tables) w })

  gave_back : (r : Outcome A) (v : World P) → EndsPlain r → EndsPlain (give_back (r, v)).0
  gave_back (returns a) v t = t
  gave_back (throws e) v t = t
  gave_back blocked v t = t

  took :
      (m : M P A) (k : ℕ) (w : World P)
      → IsPlain m
      → let r = take_session k w in EndsPlain (continue r.0 (λ _ v. give_back (m v)) r.1).0
  took m zero w pm = tt
  took m (suc k) w pm =
      let v : World P = record w { available = k } in gave_back (m v).0 (m v).1 (pm.at v)

  pub IsPlain-with_session : (m : M P A) → IsPlain m → IsPlain (with_session m)
  unfolding with_session acquire
  IsPlain-with_session m pm = record { at = λ w. took m w.available w pm }

module _ {P : Platform} where
  pub IsPlain-start_transaction : IsPlain {P = P} start_transaction
  unfolding start_transaction
  IsPlain-start_transaction = IsPlain-ask _ (record { at = λ w. tt })

  pub IsPlain-commit : IsPlain {P = P} commit
  unfolding commit
  IsPlain-commit = IsPlain-ask _ (record { at = λ w. tt })

  pub IsPlain-rollback : IsPlain {P = P} rollback
  unfolding rollback
  IsPlain-rollback = record { at = λ w. (IsPlain-ask {P = P} (pure tt) (IsPlain-pure tt)).at w }
