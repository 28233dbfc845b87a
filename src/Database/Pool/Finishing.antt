-- ===== src/Database/Pool/Finishing.antt =====
-- src/Database.cpp, ConnectionPool: threads that share a pool come to the end of their calls.
use distributed_notification.Base.{
  ℕ, zero, suc, ◌+◌, ◌<◌, ◌≡◌, refl, List, [], ◌∷◌, length, inl, inr, arith,
}
use distributed_notification.Database.Pool.{Use, Thread, Pool}
use distributed_notification.Database.Pool.Sharing.{
  weight, carried, one, Balanced, AllBalanced, pending, all_nesting, Run, stop, go, Run-Kept,
}
use distributed_notification.Database.Pool.Waiting.{length-weight, goes_on}

-- What a finished pool looks like: no calls to come, and as many sessions in the queue as there are.
pub record IsFinished (total : ℕ) (p : Pool) : Type 0 where
  pub done : pending p.threads ≡ 0
  pub whole : length p.available ≡ total

done_holds_none :
    (k : ℕ) (held : List ℕ) (todo : List Use)
    → Balanced k (length held) todo
    → length todo ≡ 0
    → weight one held ≡ 0
done_holds_none k held [] b e = let h = length-weight held in omega (arith, h, b)
done_holds_none k held (u ∷ todo) b e = absurd (omega (arith, e))

done_hold_none : (ts : List Thread) → AllBalanced ts → pending ts ≡ 0 → carried one ts ≡ 0
done_hold_none [] b e = refl
done_hold_none (t ∷ ts) b e =
    let first = done_holds_none t.nesting t.held t.todo b.0 (omega (arith, e)) in
    let rest = done_hold_none ts b.1 (omega (arith, e)) in omega (arith, first, rest)

finish :
    (n total : ℕ) (p : Pool)
    → pending p.threads ≡ n
    → AllBalanced p.threads
    → carried one p.threads + weight one p.available ≡ total
    → all_nesting p.threads < total
    → (r : Pool) × (Run n p r × IsFinished total r)
finish zero total p e b size few =
    let idle = done_hold_none p.threads b e in
    let w = length-weight p.available in
    (p, (stop, record { done = e; whole = omega (arith, idle, w, size) }))
finish (suc n) total p e b size few =
    elim (goes_on p.threads p.available b (omega (arith, size, few))) [
      | inl none_left ↦ absurd (omega (arith, none_left, e))
      | inr (i, q, s) ↦
          let k = Run-Kept (go i s stop) in
          let work = k.work in
          let nesting = k.nesting in
          let held = k.total one in
          let (r, (run, end)) =
            finish n total q (omega (arith, work, e)) (k.balanced b) (omega (arith, held, size))
              (omega (arith, nesting, few)) in
          (r, (go i s run, end))
    ]

-- Threads that hold no session at first and give back what they take, and whose nesting, the most
-- that each holds while it asks for another, adds up to less than the number of sessions: a schedule
-- of their steps has no more steps than there are calls, each step makes one of them, and however far
-- it went, it goes on to one in which every call has been made and every session is in the queue.
pub schedules_finish :
    (n : ℕ) (p q : Pool)
    → Run n p q
    → AllBalanced p.threads
    → carried one p.threads ≡ 0
    → all_nesting p.threads < length p.available
    → (n + pending q.threads ≡ pending p.threads)
      × ((r : Pool) × (Run (pending q.threads) q r × IsFinished (length p.available) r))
schedules_finish n p q run b idle few =
    let k = Run-Kept run in
    let total = k.total one in
    let size = length-weight p.available in
    let nesting = k.nesting in
    (
      k.work,
      finish (pending q.threads) (length p.available) q refl (k.balanced b)
          (omega (arith, total, size, idle)) (omega (arith, nesting, few)),
    )
