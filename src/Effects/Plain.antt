-- ===== src/Effects/Plain.antt =====
-- Actions whose exceptions all have a text that is UTF-8, so that an error response can be built.
use distributed_notification.Base.{Bool, true, false, none, some, if◌then◌else◌}
use distributed_notification.Platform.{Platform}
use distributed_notification.Effects.{
  World, M, Exception, provider_exception, database_error, json_error, invalid_argument, Outcome,
  returns, throws, blocked, pure, throw, ◌>>=◌, ◌>>◌, catch_all, continue, recover,
}

abbrev pub HasText : Exception → Type 0
HasText (provider_exception s b) = Unit {0}
HasText (database_error e) = Unit {0}
HasText (json_error none) = ⊥
HasText (json_error (some e)) = Unit {0}
HasText (invalid_argument e) = Unit {0}

abbrev pub EndsPlain : {A : Type 0} → Outcome A → Type 0
EndsPlain (returns a) = Unit {0}
EndsPlain (throws e) = HasText e
EndsPlain blocked = Unit {0}

pub record IsPlain {P : Platform} {A : Type 0} (m : M P A) : Type 0 where
  pub at : (w : World P) → EndsPlain (m w).0

module _ {P : Platform} {A : Type 0} where
  pub IsPlain-pure : (a : A) → IsPlain {P = P} (pure a)
  IsPlain-pure a = record { at = λ w. tt }

  pub IsPlain-throw : (e : Exception) → HasText e → IsPlain {P = P} {A = A} (throw e)
  IsPlain-throw e h = record { at = λ w. h }

  pub IsPlain-if : (b : Bool) (m k : M P A) → IsPlain m → IsPlain k → IsPlain (if b then m else k)
  IsPlain-if true m k pm pk = pm
  IsPlain-if false m k pm pk = pk

  recovered :
      (h : Exception → M P A) (r : Outcome A) (v : World P)
      → ((e : Exception) → HasText e → IsPlain (h e))
      → EndsPlain r
      → EndsPlain (recover r h v).0
  recovered h (returns a) v ph t = tt
  recovered h (throws e) v ph t = (ph e t).at v
  recovered h blocked v ph t = tt

  pub IsPlain-catch_all :
      (m : M P A) (h : Exception → M P A)
      → IsPlain m
      → ((e : Exception) → HasText e → IsPlain (h e))
      → IsPlain (catch_all m h)
  IsPlain-catch_all m h pm ph = record { at = λ w. recovered h (m w).0 (m w).1 ph (pm.at w) }

module _ {P : Platform} {A B : Type 0} where
  continued :
      (f : A → M P B) (r : Outcome A) (v : World P)
      → ((a : A) → IsPlain (f a))
      → EndsPlain r
      → EndsPlain (continue r f v).0
  continued f (returns a) v pf t = (pf a).at v
  continued f (throws e) v pf t = t
  continued f blocked v pf t = tt

  pub IsPlain-bind :
      (m : M P A) (f : A → M P B) → IsPlain m → ((a : A) → IsPlain (f a)) → IsPlain (m >>= f)
  IsPlain-bind m f pm pf = record { at = λ w. continued f (m w).0 (m w).1 pf (pm.at w) }

  pub IsPlain-then : (m : M P A) (k : M P B) → IsPlain m → IsPlain k → IsPlain (m >> k)
  IsPlain-then m k pm pk = IsPlain-bind m (λ _. k) pm (λ _. pk)
