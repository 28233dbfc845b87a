-- ===== src/Database/Pool/Sharing.antt =====
-- src/Database.cpp, ConnectionPool: no session is with two threads, and when threads cannot lock each
-- other out.
use distributed_notification.Base.{
  ℕ, zero, suc, ◌+◌, ◌≤◌, ◌≡◌, refl, ◌∙◌, ap, subst, Option, none, some, List, [], ◌∷◌, ◌++◌, arith,
  length, ◌==◌, if◌then◌else◌,
}
use distributed_notification.Database.Pool.{
  Use, take, give, Thread, Pool, advance, in_front, behind, step,
}

-- The sum of the weights of sessions, in a list and in all of the pool.
abbrev pub weight : (ℕ → ℕ) → List ℕ → ℕ
weight f [] = 0
weight f (s ∷ ss) = f s + weight f ss

abbrev pub carried : (ℕ → ℕ) → List Thread → ℕ
carried f [] = 0
carried f (t ∷ ts) = weight f t.held + carried f ts

abbrev pub one : ℕ → ℕ
one s = 1

abbrev pub occurs : ℕ → ℕ → ℕ
occurs s r = if s == r then 1 else 0

-- Taking at most one session more than `nesting`, giving back only what is held, and all in the end.
abbrev pub Balanced : ℕ → ℕ → List Use → Type 0
Balanced k h [] = h ≡ 0
Balanced k h (take ∷ todo) = (h ≤ k) × Balanced k (suc h) todo
Balanced k zero (give ∷ todo) = ⊥
Balanced k (suc h) (give ∷ todo) = Balanced k h todo

abbrev pub AllBalanced : List Thread → Type 0
AllBalanced [] = Unit {0}
AllBalanced (t ∷ ts) = Balanced t.nesting (length t.held) t.todo × AllBalanced ts

abbrev pub pending : List Thread → ℕ
pending [] = 0
pending (t ∷ ts) = length t.todo + pending ts

abbrev pub all_nesting : List Thread → ℕ
all_nesting [] = 0
all_nesting (t ∷ ts) = t.nesting + all_nesting ts

weight-append : (f : ℕ → ℕ) (xs : List ℕ) (s : ℕ) → weight f (xs ++ s ∷ []) ≡ f s + weight f xs
weight-append f [] s = omega arith
weight-append f (x ∷ xs) s = let h = weight-append f xs s in omega (arith, h)

-- What a step keeps.
record Keeps (ts : List Thread) (available : List ℕ) (p : Pool) : Type 0 where
  total :
      (f : ℕ → ℕ) → carried f p.threads + weight f p.available ≡ carried f ts + weight f available
  balanced : AllBalanced ts → AllBalanced p.threads
  nesting : all_nesting p.threads ≡ all_nesting ts
  work : 1 + pending p.threads ≡ pending ts

abbrev IfKeeps : List Thread → List ℕ → Option Pool → Type 0
IfKeeps ts available none = Unit {0}
IfKeeps ts available (some p) = Keeps ts available p

advance-IfKeeps :
    (k : ℕ) (todo : List Use) (held : List ℕ) (ts : List Thread) (available : List ℕ)
    → IfKeeps
        (record { nesting = k; todo = todo; held = held } ∷ ts)
        available
        (in_front ts (advance k todo held available))
unfolding advance
advance-IfKeeps k [] held ts available = tt
advance-IfKeeps k (take ∷ todo) held ts [] = tt
advance-IfKeeps k (take ∷ todo) held ts (s ∷ available) = record {
  total = λ f. omega arith;
  balanced = λ b. (b.0.1, b.1);
  nesting = refl;
  work = omega arith;
}
advance-IfKeeps k (give ∷ todo) [] ts available = tt
advance-IfKeeps k (give ∷ todo) (s ∷ held) ts available = record {
  total = λ f. let h = weight-append f available s in omega (arith, h);
  balanced = λ b. b;
  nesting = refl;
  work = omega arith;
}

behind-IfKeeps :
    (t : Thread) (ts : List Thread) (available : List ℕ) (o : Option Pool)
    → IfKeeps ts available o
    → IfKeeps (t ∷ ts) available (behind t o)
behind-IfKeeps t ts available none h = tt
behind-IfKeeps t ts available (some p) h = record {
  total = λ f. let e = h.total f in omega (arith, e);
  balanced = λ b. (b.0, h.balanced b.1);
  nesting = ap (λ n. t.nesting + n) h.nesting;
  work = omega (arith, h.work);
}

step-IfKeeps :
    (i : ℕ) (ts : List Thread) (available : List ℕ) → IfKeeps ts available (step i ts available)
unfolding step
step-IfKeeps i [] available = tt
step-IfKeeps zero (t ∷ ts) available = advance-IfKeeps t.nesting t.todo t.held ts available
step-IfKeeps (suc i) (t ∷ ts) available =
    behind-IfKeeps t ts available (step i ts available) (step-IfKeeps i ts available)

step-Keeps :
    (i : ℕ) (ts : List Thread) (available : List ℕ) (p : Pool)
    → step i ts available ≡ some p
    → Keeps ts available p
step-Keeps i ts available p e = subst (IfKeeps ts available) e (step-IfKeeps i ts available)

-- Steps of any threads in any order; the index counts them.
pub data Run : ℕ → Pool → Pool → Type 0 where
  stop : {p : Pool} → Run 0 p p
  go :
      {n : ℕ} {p q r : Pool} (i : ℕ)
      → step i p.threads p.available ≡ some q
      → Run n q r
      → Run (suc n) p r

pub record Kept (n : ℕ) (p q : Pool) : Type 0 where
  pub total :
      (f : ℕ → ℕ)
      → carried f q.threads + weight f q.available ≡ carried f p.threads + weight f p.available
  pub balanced : AllBalanced p.threads → AllBalanced q.threads
  pub nesting : all_nesting q.threads ≡ all_nesting p.threads
  pub work : n + pending q.threads ≡ pending p.threads

pub Run-Kept : {n : ℕ} {p q : Pool} → Run n p q → Kept n p q
Run-Kept {p = p} stop = record {
  total = λ f. refl;
  balanced = λ b. b;
  nesting = refl;
  work = omega arith;
}
Run-Kept {p = p} (go {q = q} i e run) =
    let k = step-Keeps i p.threads p.available q e in
    let h = Run-Kept run in
    record {
      total = λ f. h.total f ∙ k.total f;
      balanced = λ b. h.balanced (k.balanced b);
      nesting = h.nesting ∙ k.nesting;
      work = let a = h.work in let b = k.work in omega (arith, a, b);
    }

-- Whatever the steps, the number of places where a session is, in the queue or with a thread, stays
-- the same.
pub sessions_stay :
    (n : ℕ) (p q : Pool) (s : ℕ)
    → Run n p q
    → carried (occurs s) q.threads + weight (occurs s) q.available
      ≡ carried (occurs s) p.threads + weight (occurs s) p.available
sessions_stay n p q s run = (Run-Kept run).total (occurs s)
