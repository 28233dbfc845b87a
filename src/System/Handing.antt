-- ===== src/System/Handing.antt =====
-- src/Worker.cpp: the messages of the broker's queues when one is handled.
use mathlib.Core.List.{Memᴰ}
use mathlib.Core.List.Memᴰ.{append_left, append_right, append_cases, cases_cons}
use distributed_notification.Base.{
  ◌≡◌, ◌⊎◌, inl, inr, Bool, true, false, List, ◌∷◌, ◌++◌, if◌then◌else◌,
}
use distributed_notification.System.{Mail}

-- Of a message between others: it stays or leaves.
abbrev pub left_over : {B : Type 0} → Bool → List (Mail B) → Mail B → List (Mail B) → List (Mail B)
left_over gone before mail after = if gone then before ++ after else before ++ mail ∷ after

pub left_over-mem :
    {B : Type 0} (gone : Bool) (before : List (Mail B)) (mail : Mail B) (after : List (Mail B))
    (m : Mail B)
    → Memᴰ m (left_over gone before mail after)
    → Memᴰ m (before ++ mail ∷ after)
left_over-mem true before mail after m h = elim (append_cases before h) [
  | inl first ↦ append_left _ first
  | inr last ↦ append_right before (Memᴰ.tail last)
]
left_over-mem false before mail after m h = h

pub mem-left_over :
    {B : Type 0} (gone : Bool) (before : List (Mail B)) (mail : Mail B) (after : List (Mail B))
    (m : Mail B)
    → Memᴰ m (before ++ mail ∷ after)
    → (m ≡ mail) ⊎ Memᴰ m (left_over gone before mail after)
mem-left_over true before mail after m h = elim (append_cases before h) [
  | inl first ↦ inr (append_left after first)
  | inr rest ↦ elim (cases_cons rest) [ inl e ↦ inl e | inr last ↦ inr (append_right before last) ]
]
mem-left_over false before mail after m h = inr h
