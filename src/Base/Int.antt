-- ===== src/Base/Int.antt =====
-- C++ `int` values: integers over the native numbers, with the order and the successor in use here.
use Prim.Native.Nat.{ℕ, zero, suc, ◌+◌, ◌-◌, ◌%◌, compare, Ordering}
use mathlib.Core.Bool.{Bool, true, false}

-- `negsuc n` is -(n + 1).
pub data ℤ : Type 0 where
  pos : ℕ → ℤ
  negsuc : ℕ → ℤ

-- `i + 1` on `int`, for an i below the largest: the theorems that use it have that as a hypothesis or a
-- bound.
abbrev pub suc_ℤ : ℤ → ℤ
suc_ℤ (pos n) = pos (n + 1)
suc_ℤ (negsuc zero) = pos 0
suc_ℤ (negsuc (suc n)) = negsuc n

-- n >= i, for a count n
abbrev pub at_least : ℕ → ℤ → Bool
at_least n (pos k) = elim (compare k n) [ Ordering.gt ↦ false | _ ↦ true ]
at_least n (negsuc k) = true

-- i > j
abbrev pub gtb_ℤ : ℤ → ℤ → Bool
gtb_ℤ (pos a) (pos b) = elim (compare b a) [ Ordering.lt ↦ true | _ ↦ false ]
gtb_ℤ (pos a) (negsuc b) = true
gtb_ℤ (negsuc a) (pos b) = false
gtb_ℤ (negsuc a) (negsuc b) = elim (compare a b) [ Ordering.lt ↦ true | _ ↦ false ]

-- static_cast<uint8_t>(i)
abbrev pub to_u8 : ℤ → ℕ
to_u8 (pos n) = n % 256
to_u8 (negsuc n) = 255 - n % 256
