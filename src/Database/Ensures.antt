-- ===== src/Database/Ensures.antt =====
-- Statements and sessions: what they ensure of the tables.
use distributed_notification.Base.{ℕ, zero, suc, String, Option, none, some, List, [], ◌∷◌}
use distributed_notification.Platform.{Platform}
use distributed_notification.Effects.{
  World, M, Command, Exception, database_error, Outcome, returns, throws, blocked, continue,
}
use distributed_notification.Effects.Ensures.{Facts, Entails, AfterBy, EnsuresBy, Ensures}
use distributed_notification.Database.{
  Reply, reply, refuse, with_session, give_back, acquire, release, take_session, ask, consult,
  answer, execute,
}
use distributed_notification.Database.Schema.{Tables}

-- What a statement's reply has to give, with the tables t before.
abbrev pub RepliesBy :
    (P : Platform) {A : Type 0}
    → (A → Facts P)
    → (Exception → Facts P)
    → Tables
    → List (Command P.Body)
    → Reply A
    → Type 0
RepliesBy P Q R t cs (reply a t') = Q a t' cs
RepliesBy P Q R t cs (refuse e) = R (database_error e) t cs

abbrev pub Replies :
    (P : Platform) {A : Type 0}
    → (A → Facts P)
    → Facts P
    → Tables
    → List (Command P.Body)
    → Reply A
    → Type 0
Replies P Q R = RepliesBy P Q (λ _. R)

module _ (P : Platform) {A : Type 0} (S : Facts P) (Q : A → Facts P) (R : Exception → Facts P) where
  gave_back :
      (r : Outcome A) (v : World P)
      → AfterBy Q R r v
      → AfterBy Q R (give_back (r, v)).0 (give_back (r, v)).1
  unfolding release
  gave_back (returns a) v h = h
  gave_back (throws e) v h = h
  gave_back blocked v h = tt

  took :
      (m : M P A) (k : ℕ) (w : World P)
      → EnsuresBy S m Q R
      → S w.tables w.commands
      → let r = take_session k w in
        let q = continue r.0 (λ _ v. give_back (m v)) r.1 in AfterBy Q R q.0 q.1
  took m zero w em h = tt
  took m (suc k) w em h =
      let v : World P = record w { available = k } in gave_back (m v).0 (m v).1 (em.at v h)

  pub EnsuresBy-with_session : (m : M P A) → EnsuresBy S m Q R → EnsuresBy S (with_session m) Q R
  unfolding with_session acquire
  EnsuresBy-with_session m em = record { at = λ w h. took m w.available w em h }

  answered :
      (r : Reply A) (w : World P)
      → RepliesBy P Q R w.tables w.commands r
      → AfterBy Q R (answer {P = P} r w).0 (answer {P = P} r w).1
  answered (reply a t) w h = h
  answered (refuse e) w h = h

  consulted :
      (statement : Tables → Reply A) (os : List (Option String)) (w : World P)
      → ((e : String) → R (database_error e) w.tables w.commands)
      → RepliesBy P Q R w.tables w.commands (statement w.tables)
      → let q = consult os (λ (v : World P). answer (statement v.tables) v) w in AfterBy Q R q.0 q.1
  consulted statement [] w r h = answered (statement w.tables) w h
  consulted statement (none ∷ rest) w r h =
      answered (statement w.tables) (record w { outcomes = rest }) h
  consulted statement (some e ∷ rest) w r h = r e

  -- The server may refuse a statement, and then the tables are as they were.
  pub EnsuresBy-execute :
      (statement : Tables → Reply A)
      → ((e : String) → Entails P S (R (database_error e)))
      → ((t : Tables) (cs : List (Command P.Body)) → S t cs → RepliesBy P Q R t cs (statement t))
      → EnsuresBy {P = P} S (execute statement) Q R
  unfolding execute ask
  EnsuresBy-execute statement r h = record {
    at = λ w k.
        consulted statement w.outcomes w (λ e. r e w.tables w.commands k) (h w.tables w.commands k);
  }

module _ (P : Platform) {A : Type 0} (S : Facts P) (Q : A → Facts P) (R : Facts P) where
  pub Ensures-with_session : (m : M P A) → Ensures S m Q R → Ensures S (with_session m) Q R
  Ensures-with_session = EnsuresBy-with_session P S Q (λ _. R)

  pub Ensures-execute :
      (statement : Tables → Reply A)
      → Entails P S R
      → ((t : Tables) (cs : List (Command P.Body)) → S t cs → Replies P Q R t cs (statement t))
      → Ensures {P = P} S (execute statement) Q R
  Ensures-execute statement r = EnsuresBy-execute P S Q (λ _. R) statement (λ _. r)
