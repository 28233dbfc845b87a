-- ===== src/Database/Laws.antt =====
-- Equations for a unit of work that finds a session, and for a server that takes every statement.
use distributed_notification.Base.{
  ℕ, zero, suc, ◌≡◌, refl, sym, ap, ◌∙◌, ◌⊎◌, inl, inr, String, Option, none, some, List, [], ◌∷◌,
  arith,
}
use distributed_notification.Platform.{Platform}
use distributed_notification.Effects.{World, M, returns, throws, continue, database_error}
use distributed_notification.Database.{
  Reply, with_session, give_back, acquire, release, take_session, ask, consult, answer, execute,
}
use distributed_notification.Database.Schema.{Tables}

module _ {P : Platform} {A : Type 0} where
  took :
      (m : M P A) (w : World P) (k n : ℕ)
      → k ≡ suc n
      → (let r = take_session k w in continue r.0 (λ _ v. give_back (m v)) r.1)
        ≡ give_back (m (record w { available = n }))
  took m w zero n h = absurd (omega arith)
  took m w (suc k) n h = ap (λ (i : ℕ). give_back (m (record w { available = i }))) (omega arith)

  -- A session is idle: the work is done with one fewer, and it is given back.
  pub with_session_lem :
      (m : M P A) (w : World P) (n : ℕ)
      → w.available ≡ suc n
      → with_session m w ≡ give_back (m (record w { available = n }))
  unfolding with_session acquire
  with_session_lem m w n h = took m w w.available n h

  -- The server refuses a request, and only the outcomes left have changed; or it carries it out.
  pub ask-cases :
      (m : M P A) (w : World P)
      → ((e : String) × (os : List (Option String)) × (ask m w
            ≡ (throws (database_error e), record w { outcomes = os })))
        ⊎ ((os : List (Option String)) × (ask m w ≡ m (record w { outcomes = os })))
  unfolding ask
  ask-cases m w = split w.outcomes refl
    where
      split :
          (os : List (Option String))
          → w.outcomes ≡ os
          → ((e : String) × (rest : List (Option String)) × (consult os m w
                ≡ (throws (database_error e), record w { outcomes = rest })))
            ⊎ ((rest : List (Option String)) × (consult os m w ≡ m (record w { outcomes = rest })))
      split [] h = inr (w.outcomes, refl)
      split (none ∷ rest) h = inr (rest, refl)
      split (some e ∷ rest) h = inl (e, rest, refl)

  -- No refusal to come: the statement is answered from the tables.
  pub execute-quiet :
      (statement : Tables → Reply A) (w : World P)
      → w.outcomes ≡ []
      → execute statement w ≡ answer {P = P} (statement w.tables) w
  unfolding execute ask
  execute-quiet statement w h = heard w.outcomes h
    where
      heard :
          (os : List (Option String))
          → os ≡ []
          → consult os (λ v. answer {P = P} (statement v.tables) v) w
            ≡ answer (statement w.tables) w
      heard [] e = refl
      heard (o ∷ os) e = cc

  -- A unit of work that returns, having changed the tables alone.
  pub with_session-returns :
      (m : M P A) (w : World P) (n : ℕ) (a : A) (t : Tables)
      → w.available ≡ suc n
      → m (record w { available = n }) ≡ (returns a, record w { available = n; tables = t })
      → with_session m w ≡ (returns a, record w { tables = t })
  unfolding release
  with_session-returns m w n a t h e =
      with_session_lem m w n h
      ∙ ap give_back e
      ∙ ap (λ (k : ℕ). (returns a, record w { available = k; tables = t })) (sym h)
