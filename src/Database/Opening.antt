-- ===== src/Database/Opening.antt =====
-- src/Database.cpp: the constructor of the pool, which opens its sessions.
use distributed_notification.Base.{
  ℕ, zero, suc, ◌-◌, ℤ, pos, negsuc, String, Option, none, some, List, [], ◌∷◌,
}

-- `static_cast<size_t>`
abbrev pub to_size : ℤ → ℕ
to_size (pos n) = n
to_size (negsuc n) = 18446744073709551615 - n

abbrev pub one_more : Option ℕ → Option ℕ
one_more none = none
one_more (some n) = some (suc n)

-- The sessions in the queue. Each opening is taken or refused, as the list says, and taken past its
-- end; `none` is the exception of one that is refused.
unfoldable pub open_sessions : ℕ → List (Option String) → Option ℕ
open_sessions zero outcomes = some 0
open_sessions (suc n) [] = one_more (open_sessions n [])
open_sessions (suc n) (none ∷ outcomes) = one_more (open_sessions n outcomes)
open_sessions (suc n) (some e ∷ outcomes) = none
