-- ===== src/Database/Pool/Waiting.antt =====
-- src/Database.cpp, ConnectionPool: when threads that wait for sessions get them, and when they lock
-- each other out.
use distributed_notification.Base.{
  ℕ, zero, suc, ◌+◌, ◌*◌, ◌≤◌, ◌<◌, ◌≡◌, refl, ap, none, some, List, [], ◌∷◌, map, length, ◌⊎◌, inl,
  inr, arith,
}
use distributed_notification.Database.Pool.{
  Use, take, give, Thread, Pool, submission_uses, advance, in_front, behind, step,
}
use distributed_notification.Database.Pool.Sharing.{
  weight, carried, one, Balanced, AllBalanced, pending, all_nesting, Run, stop, go, Run-Kept,
}

abbrev CanAdvance : ℕ → List Use → List ℕ → List ℕ → Type 0
CanAdvance k todo held available = (x : Thread × List ℕ) × (advance k todo held available ≡ some x)

abbrev pub CanStep : List Thread → List ℕ → Type 0
CanStep ts available = (i : ℕ) × (p : Pool) × (step i ts available ≡ some p)

advances :
    (k s : ℕ) (todo : List Use) (held available : List ℕ)
    → Balanced k (length held) todo
    → (length todo ≡ 0) ⊎ CanAdvance k todo held (s ∷ available)
unfolding advance
advances k s [] held available b = inl refl
advances k s (take ∷ todo) held available b = inr (_, refl)
advances k s (give ∷ todo) [] available b = absurd b
advances k s (give ∷ todo) (r ∷ held) available b = inr (_, refl)

pub length-weight : (xs : List ℕ) → weight one xs ≡ length xs
length-weight [] = refl
length-weight (x ∷ xs) = let h = length-weight xs in omega (arith, h)

gives_or_few :
    (k : ℕ) (todo : List Use) (held : List ℕ)
    → Balanced k (length held) todo
    → (weight one held ≤ k) ⊎ CanAdvance k todo held []
unfolding advance
gives_or_few k [] held b = let h = length-weight held in inl (omega (arith, h, b))
gives_or_few k (take ∷ todo) held b =
    let h = length-weight held in let few = b.0 in inl (omega (arith, h, few))
gives_or_few k (give ∷ todo) [] b = absurd b
gives_or_few k (give ∷ todo) (r ∷ held) b = inr (_, refl)

first_steps :
    (t : Thread) (ts : List Thread) (available : List ℕ)
    → CanAdvance t.nesting t.todo t.held available
    → CanStep (t ∷ ts) available
unfolding step
first_steps t ts available (x, e) = (0, _, ap (in_front ts) e)

later_steps :
    (t : Thread) (ts : List Thread) (available : List ℕ)
    → CanStep ts available
    → CanStep (t ∷ ts) available
unfolding step
later_steps t ts available (i, p, e) = (suc i, _, ap (behind t) e)

-- With a session in the queue, every thread with calls to come has a step.
steps :
    (ts : List Thread) (s : ℕ) (available : List ℕ)
    → AllBalanced ts
    → (pending ts ≡ 0) ⊎ CanStep ts (s ∷ available)
steps [] s available b = inl refl
steps (t ∷ ts) s available b = elim (advances t.nesting s t.todo t.held available b.0) [
  | inr c ↦ inr (first_steps t ts (s ∷ available) c)
  | inl e ↦ elim (steps ts s available b.1) [
    | inr c ↦ inr (later_steps t ts (s ∷ available) c)
    | inl f ↦ inl (omega (arith, e, f))
  ]
]

-- With an empty queue, a thread gives one back or few are held.
steps_or_few :
    (ts : List Thread) → AllBalanced ts → (carried one ts ≤ all_nesting ts) ⊎ CanStep ts []
steps_or_few [] b = inl (omega arith)
steps_or_few (t ∷ ts) b = elim (gives_or_few t.nesting t.todo t.held b.0) [
  | inr c ↦ inr (first_steps t ts [] c)
  | inl e ↦ elim (steps_or_few ts b.1) [
    | inr c ↦ inr (later_steps t ts [] c)
    | inl f ↦ inl (omega (arith, e, f))
  ]
]

pub goes_on :
    (ts : List Thread) (available : List ℕ)
    → AllBalanced ts
    → all_nesting ts < carried one ts + weight one available
    → (pending ts ≡ 0) ⊎ CanStep ts available
goes_on ts [] b h = elim (steps_or_few ts b) [
  | inl few ↦ absurd (omega (arith, few, h))
  | inr c ↦ inr c
]
goes_on ts (s ∷ available) b h = steps ts s available b

-- Threads that hold no session at first and give back what they take, and whose nesting, the most
-- that each holds while it asks for another, adds up to less than the number of sessions: after any
-- steps in any order, either all calls have been made or some thread has a step.
never_stuck :
    (n : ℕ) (p q : Pool)
    → Run n p q
    → AllBalanced p.threads
    → carried one p.threads ≡ 0
    → all_nesting p.threads < length p.available
    → (n ≡ pending p.threads) ⊎ CanStep q.threads q.available
never_stuck n p q run b idle few =
    let k = Run-Kept run in
    let total = k.total one in
    let size = length-weight p.available in
    let nesting = k.nesting in
    let work = k.work in
    elim (goes_on q.threads q.available (k.balanced b)
      (omega (arith, total, size, nesting, idle, few))) [
        | inl e ↦ inl (omega (arith, e, work))
        | inr c ↦ inr c
      ]

-- A thread before a submission, and one that has its first session.
abbrev pub before : ℕ → Thread
before s = record { nesting = 1; todo = submission_uses; held = [] }

abbrev pub between : ℕ → Thread
between s = record { nesting = 1; todo = take ∷ give ∷ give ∷ []; held = s ∷ [] }

abbrev pub pool_of : List Thread → List ℕ → Pool
pool_of ts available = record { threads = ts; available = available }

lifted :
    (t : Thread) {n : ℕ} {p q : Pool}
    → Run n p q
    → Run n (pool_of (t ∷ p.threads) p.available) (pool_of (t ∷ q.threads) q.available)
unfolding step
lifted t stop = stop
lifted t (go i e run) = go (suc i) (ap (behind t) e) (lifted t run)

locking : (ss : List ℕ) → Run (length ss) (pool_of (map before ss) ss) (pool_of (map between ss) [])
unfolding step advance
locking [] = stop
locking (s ∷ ss) = go 0 refl (lifted (between s) (locking ss))

locked : (ss : List ℕ) (i : ℕ) → step i (map between ss) [] ≡ none
unfolding step advance
locked [] i = refl
locked (s ∷ ss) zero = refl
locked (s ∷ ss) (suc i) = ap (behind (between s)) (locked ss i)

-- As many threads as sessions, each with a submission to make: once each has taken its first
-- session, the pool is empty and no thread has a step, although each has three calls to come.
pub submissions_lock :
    (ss : List ℕ)
    → Run (length ss) (pool_of (map before ss) ss) (pool_of (map between ss) [])
      × ((i : ℕ) → step i (map between ss) [] ≡ none)
      × (pending (map between ss) ≡ 3 * length ss)
submissions_lock ss = (locking ss, locked ss, left ss)
  where
    left : (ss : List ℕ) → pending (map between ss) ≡ 3 * length ss
    left [] = refl
    left (s ∷ ss) = let h = left ss in omega (arith, h)
