-- ===== src/Effects/Calm.antt =====
-- Actions that wait for no session, keep as many sessions idle as before, and tell the broker
-- nothing, whether they return or throw.
use distributed_notification.Base.{ℕ, ◌≡◌, refl, Bool, true, false, String, arith, if◌then◌else◌}
use distributed_notification.Platform.{Platform}
use distributed_notification.Effects.{
  World, M, Exception, provider_exception, database_error, json_error, invalid_argument, Outcome,
  returns, throws, blocked, is_blocked, pure, throw, ◌>>=◌, ◌>>◌, catch_all, catch_provider,
  continue, recover, on_provider_exception,
}

-- The result and world (r, v) after a run from w, with n sessions idle.
pub record Undisturbed {P : Platform} {A : Type 0} (n : ℕ) (w : World P) (r : Outcome A)
    (v : World P) : Type 0 where
  pub idle : v.available ≡ n
  pub silent : v.commands ≡ w.commands
  pub goes_on : is_blocked r ≡ false

pub record IsCalm {P : Platform} {A : Type 0} (n : ℕ) (m : M P A) : Type 0 where
  pub at : (w : World P) → w.available ≡ n → Undisturbed n w (m w).0 (m w).1

module _ {P : Platform} {A : Type 0} (n : ℕ) where
  pub IsCalm-pure : (a : A) → IsCalm {P = P} n (pure a)
  IsCalm-pure a = record { at = λ w h. record { idle = h; silent = refl; goes_on = refl } }

  pub IsCalm-throw : (e : Exception) → IsCalm {P = P} {A = A} n (throw e)
  IsCalm-throw e = record { at = λ w h. record { idle = h; silent = refl; goes_on = refl } }

  pub IsCalm-if : (b : Bool) (m k : M P A) → IsCalm n m → IsCalm n k → IsCalm n (if b then m else k)
  IsCalm-if true m k cm ck = cm
  IsCalm-if false m k cm ck = ck

  -- Runs that follow one another.
  pub Undisturbed-trans :
      {B : Type 0} (w u : World P) (q : Outcome B) (r : Outcome A) (v : World P)
      → Undisturbed n w q u
      → Undisturbed n u r v
      → Undisturbed n w r v
  Undisturbed-trans w u q r v a b = ground arith

module _ {P : Platform} {A B : Type 0} (n : ℕ) where
  continue-IsCalm :
      (f : A → M P B) (w : World P) (r : Outcome A) (v : World P)
      → ((a : A) → IsCalm n (f a))
      → Undisturbed n w r v
      → Undisturbed n w (continue r f v).0 (continue r f v).1
  continue-IsCalm f w (returns a) v cf u =
      Undisturbed-trans n w v (returns a) (f a v).0 (f a v).1 u ((cf a).at v u.idle)
  continue-IsCalm f w (throws e) v cf u = record {
    idle = u.idle;
    silent = u.silent;
    goes_on = refl;
  }
  continue-IsCalm f w blocked v cf u = ground (arith, u.goes_on)

  pub IsCalm-bind :
      (m : M P A) (f : A → M P B) → IsCalm n m → ((a : A) → IsCalm n (f a)) → IsCalm n (m >>= f)
  IsCalm-bind m f cm cf = record { at = λ w h. continue-IsCalm f w (m w).0 (m w).1 cf (cm.at w h) }

  pub IsCalm-then : (m : M P A) (k : M P B) → IsCalm n m → IsCalm n k → IsCalm n (m >> k)
  IsCalm-then m k cm ck = IsCalm-bind m (λ _. k) cm (λ _. ck)

module _ {P : Platform} {A : Type 0} (n : ℕ) where
  recover-IsCalm :
      (h : Exception → M P A) (w : World P) (r : Outcome A) (v : World P)
      → ((e : Exception) → IsCalm n (h e))
      → Undisturbed n w r v
      → Undisturbed n w (recover r h v).0 (recover r h v).1
  recover-IsCalm h w (returns a) v ch u = u
  recover-IsCalm h w (throws e) v ch u =
      let thrown : Outcome A = throws e in
      Undisturbed-trans n w v thrown (h e v).0 (h e v).1 u ((ch e).at v u.idle)
  recover-IsCalm h w blocked v ch u = u

  pub IsCalm-catch_all :
      (m : M P A) (h : Exception → M P A)
      → IsCalm n m
      → ((e : Exception) → IsCalm n (h e))
      → IsCalm n (catch_all m h)
  IsCalm-catch_all m h cm ch = record {
    at = λ w e. recover-IsCalm h w (m w).0 (m w).1 ch (cm.at w e);
  }

  handler-IsCalm :
      (h : String → Bool → M P A)
      → ((s : String) (b : Bool) → IsCalm n (h s b))
      → (e : Exception) → IsCalm n (on_provider_exception h e)
  handler-IsCalm h ch (provider_exception s b) = ch s b
  handler-IsCalm h ch (database_error e) = IsCalm-throw n (database_error e)
  handler-IsCalm h ch (json_error e) = IsCalm-throw n (json_error e)
  handler-IsCalm h ch (invalid_argument e) = IsCalm-throw n (invalid_argument e)

  pub IsCalm-catch_provider :
      (m : M P A) (h : String → Bool → M P A)
      → IsCalm n m
      → ((s : String) (b : Bool) → IsCalm n (h s b))
      → IsCalm n (catch_provider m h)
  IsCalm-catch_provider m h cm ch =
      IsCalm-catch_all m (on_provider_exception h) cm (handler-IsCalm h ch)

-- From w to v only the breakers, the clocks and the random device have moved.
pub record IsAside {P : Platform} (w v : World P) : Type 0 where
  pub tables : v.tables ≡ w.tables
  pub outcomes : v.outcomes ≡ w.outcomes
  pub available : v.available ≡ w.available
  pub commands : v.commands ≡ w.commands
