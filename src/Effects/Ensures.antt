-- ===== src/Effects/Ensures.antt =====
-- What actions ensure of the tables and of what the broker is told: from a condition before, one for
-- each result and one for every exception. Rules for the parts of a `do` block.
use distributed_notification.Base.{Bool, true, false, String, List, if◌then◌else◌}
use distributed_notification.Platform.{Platform}
use distributed_notification.Database.Schema.{Tables}
use distributed_notification.Effects.{
  World, M, Command, Exception, provider_exception, database_error, json_error, invalid_argument,
  Outcome, returns, throws, blocked, pure, throw, ◌>>=◌, ◌>>◌, catch_provider, continue, recover,
  on_provider_exception,
}

abbrev pub Facts : Platform → Type 1
Facts P = Tables → List (Command P.Body) → Type 0

-- R says what holds after each exception.
abbrev pub AfterBy :
    {P : Platform} {A : Type 0}
    → (A → Facts P)
    → (Exception → Facts P)
    → Outcome A
    → World P
    → Type 0
AfterBy Q R (returns a) v = Q a v.tables v.commands
AfterBy Q R (throws e) v = R e v.tables v.commands
AfterBy Q R blocked v = Unit {0}

pub record EnsuresBy {P : Platform} {A : Type 0} (Pre : Facts P) (m : M P A) (Q : A → Facts P)
    (R : Exception → Facts P) : Type 0 where
  pub at : (w : World P) → Pre w.tables w.commands → AfterBy Q R (m w).0 (m w).1

abbrev pub After :
    {P : Platform} {A : Type 0} → (A → Facts P) → Facts P → Outcome A → World P → Type 0
After Q R = AfterBy Q (λ _. R)

abbrev pub Ensures :
    {P : Platform} {A : Type 0} → Facts P → M P A → (A → Facts P) → Facts P → Type 0
Ensures S m Q R = EnsuresBy S m Q (λ _. R)

-- What a handler of provider exceptions meets, and what holds after any other.
abbrev pub Thrown : (P : Platform) → Facts P → Facts P → Exception → Facts P
Thrown P T R (provider_exception s b) = T
Thrown P T R (database_error e) = R
Thrown P T R (json_error e) = R
Thrown P T R (invalid_argument e) = R

-- One condition entails another.
abbrev pub Entails : (P : Platform) → Facts P → Facts P → Type 0
Entails P S T = (t : Tables) (cs : List (Command P.Body)) → S t cs → T t cs

-- What holds after every exception, and lets the handler and the rest follow.
pub Thrown_of :
    (P : Platform) (T R : Facts P) → Entails P T R → (e : Exception) → Entails P T (Thrown P T R e)
Thrown_of P T R k (provider_exception s b) t cs h = h
Thrown_of P T R k (database_error e) t cs h = k t cs h
Thrown_of P T R k (json_error e) t cs h = k t cs h
Thrown_of P T R k (invalid_argument e) t cs h = k t cs h

module _ {P : Platform} {A : Type 0} where
  pub Ensures-pure : (Q : A → Facts P) (R : Facts P) (a : A) → Ensures {P = P} (Q a) (pure a) Q R
  Ensures-pure Q R a = record { at = λ w h. h }

  pub Ensures-throw :
      (Q : A → Facts P) (R : Facts P) (e : Exception) → Ensures {P = P} R (throw e) Q R
  Ensures-throw Q R e = record { at = λ w h. h }

  pub Ensures-if :
      (S : Facts P) (b : Bool) (m k : M P A) (Q : A → Facts P) (R : Facts P)
      → Ensures S m Q R
      → Ensures S k Q R
      → Ensures S (if b then m else k) Q R
  Ensures-if S true m k Q R em ek = em
  Ensures-if S false m k Q R em ek = ek

  pub Ensures-from :
      (S T : Facts P) (m : M P A) (Q : A → Facts P) (R : Facts P)
      → Entails P S T
      → Ensures T m Q R
      → Ensures S m Q R
  Ensures-from S T m Q R st em = record { at = λ w h. em.at w (st w.tables w.commands h) }

  weakened :
      (Q Q' : A → Facts P) (R : Facts P) (r : Outcome A) (v : World P)
      → ((a : A) → Entails P (Q a) (Q' a))
      → After Q R r v
      → After Q' R r v
  weakened Q Q' R (returns a) v q h = q a v.tables v.commands h
  weakened Q Q' R (throws e) v q h = h
  weakened Q Q' R blocked v q h = tt

  pub Ensures-to :
      (S : Facts P) (m : M P A) (Q Q' : A → Facts P) (R : Facts P)
      → ((a : A) → Entails P (Q a) (Q' a))
      → Ensures S m Q R
      → Ensures S m Q' R
  Ensures-to S m Q Q' R q em = record { at = λ w h. weakened Q Q' R (m w).0 (m w).1 q (em.at w h) }

module _ {P : Platform} {A B : Type 0} where
  continued :
      (f : A → M P B) (Q : A → Facts P) (T : B → Facts P) (R : Exception → Facts P) (r : Outcome A)
      (v : World P)
      → ((a : A) → EnsuresBy (Q a) (f a) T R)
      → AfterBy Q R r v
      → AfterBy T R (continue r f v).0 (continue r f v).1
  continued f Q T R (returns a) v ef h = (ef a).at v h
  continued f Q T R (throws e) v ef h = h
  continued f Q T R blocked v ef h = tt

  pub EnsuresBy-bind :
      (S : Facts P) (m : M P A) (f : A → M P B) (Q : A → Facts P) (T : B → Facts P)
      (R : Exception → Facts P)
      → EnsuresBy S m Q R
      → ((a : A) → EnsuresBy (Q a) (f a) T R)
      → EnsuresBy S (m >>= f) T R
  EnsuresBy-bind S m f Q T R em ef = record {
    at = λ w h. continued f Q T R (m w).0 (m w).1 ef (em.at w h);
  }

  pub EnsuresBy-then :
      (S : Facts P) (m : M P A) (k : M P B) (Q : Facts P) (T : B → Facts P)
      (R : Exception → Facts P)
      → EnsuresBy S m (λ _. Q) R
      → EnsuresBy Q k T R
      → EnsuresBy S (m >> k) T R
  EnsuresBy-then S m k Q T R em ek = EnsuresBy-bind S m (λ _. k) (λ _. Q) T R em (λ _. ek)

  pub Ensures-bind :
      (S : Facts P) (m : M P A) (f : A → M P B) (Q : A → Facts P) (T : B → Facts P) (R : Facts P)
      → Ensures S m Q R
      → ((a : A) → Ensures (Q a) (f a) T R)
      → Ensures S (m >>= f) T R
  Ensures-bind S m f Q T R = EnsuresBy-bind S m f Q T (λ _. R)

  pub Ensures-then :
      (S : Facts P) (m : M P A) (k : M P B) (Q : Facts P) (T : B → Facts P) (R : Facts P)
      → Ensures S m (λ _. Q) R
      → Ensures Q k T R
      → Ensures S (m >> k) T R
  Ensures-then S m k Q T R = EnsuresBy-then S m k Q T (λ _. R)

module _ {P : Platform} {A : Type 0} where
  raised :
      (Q : A → Facts P) (R : Facts P) (R' : Exception → Facts P) (r : Outcome A) (v : World P)
      → ((e : Exception) → Entails P R (R' e))
      → After Q R r v
      → AfterBy Q R' r v
  raised Q R R' (returns a) v rr h = h
  raised Q R R' (throws e) v rr h = rr e v.tables v.commands h
  raised Q R R' blocked v rr h = tt

  -- What holds after every exception holds after each.
  pub Ensures-raise :
      (S : Facts P) (m : M P A) (Q : A → Facts P) (R : Facts P) (R' : Exception → Facts P)
      → ((e : Exception) → Entails P R (R' e))
      → Ensures S m Q R
      → EnsuresBy S m Q R'
  Ensures-raise S m Q R R' rr em = record {
    at = λ w h. raised Q R R' (m w).0 (m w).1 rr (em.at w h);
  }

  recovered :
      (h : String → Bool → M P A) (Q : A → Facts P) (T R : Facts P) (r : Outcome A) (v : World P)
      → ((s : String) (b : Bool) → Ensures T (h s b) Q R)
      → AfterBy Q (Thrown P T R) r v
      → let q = recover r (on_provider_exception h) v in After Q R q.0 q.1
  recovered h Q T R (returns a) v eh k = k
  recovered h Q T R (throws (provider_exception s b)) v eh k = (eh s b).at v k
  recovered h Q T R (throws (database_error e)) v eh k = k
  recovered h Q T R (throws (json_error e)) v eh k = k
  recovered h Q T R (throws (invalid_argument e)) v eh k = k
  recovered h Q T R blocked v eh k = tt

  -- The handler runs where the body threw a provider exception; others go through.
  pub EnsuresBy-catch_provider :
      (S : Facts P) (m : M P A) (h : String → Bool → M P A) (Q : A → Facts P) (T R : Facts P)
      → EnsuresBy S m Q (Thrown P T R)
      → ((s : String) (b : Bool) → Ensures T (h s b) Q R)
      → Ensures S (catch_provider m h) Q R
  EnsuresBy-catch_provider S m h Q T R em eh = record {
    at = λ w k. recovered h Q T R (m w).0 (m w).1 eh (em.at w k);
  }

  -- For a body that knows one thing of all its exceptions.
  pub Ensures-catch_provider :
      (S : Facts P) (m : M P A) (h : String → Bool → M P A) (Q : A → Facts P) (R R' : Facts P)
      → Entails P R R'
      → Ensures S m Q R
      → ((s : String) (b : Bool) → Ensures R (h s b) Q R')
      → Ensures S (catch_provider m h) Q R'
  Ensures-catch_provider S m h Q R R' rr em =
      EnsuresBy-catch_provider S m h Q R R'
        (Ensures-raise S m Q R (Thrown P R R') (Thrown_of P R R' rr) em)
