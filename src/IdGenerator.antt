-- ===== src/IdGenerator.antt =====
-- include/notification/IdGenerator.hpp: random UUIDs. The random device and its distributions are
-- the platform's; the text is built as a list of characters.
pub mod Shape
use Prim.Native.Char.{Char}
use text.Mathlib.TextBridge.{of_list}
use distributed_notification.Base.{ℕ, zero, suc, ◌+◌, String, List, [], ◌∷◌, ◌++◌}
use distributed_notification.Platform.{Platform}

abbrev pub hex : List Char
hex =
    "0" ∷ "1" ∷ "2" ∷ "3" ∷ "4" ∷ "5" ∷ "6" ∷ "7" ∷ "8" ∷ "9" ∷ "a" ∷ "b" ∷ "c" ∷ "d" ∷ "e" ∷ "f"
    ∷ []

-- cs[n]; a read past the end, which no draw in range makes, gives the filler.
abbrev pub char_at : List Char → ℕ → Char
char_at [] n = "?"
char_at (c ∷ cs) zero = c
char_at (c ∷ cs) (suc n) = char_at cs n

module _ (P : Platform) where
  -- appendHex(dist(rng)), for a distribution over [lo, hi]
  unfoldable pub append_hex : ℕ → ℕ → List Char × P.Rng → List Char × P.Rng
  append_hex lo hi (out, rng) =
      let (n, rng') = P.uniform_int rng lo hi in (out ++ (char_at hex n ∷ []), rng')

  -- for (int i = 0; i < count; ++i) appendHex(dist(rng));
  unfoldable pub append_hexes : ℕ → List Char × P.Rng → List Char × P.Rng
  append_hexes zero s = s
  append_hexes (suc count) s = append_hexes count (append_hex 0 15 s)

  -- out.push_back(c)
  abbrev pub push_back : Char → List Char × P.Rng → List Char × P.Rng
  push_back c (out, rng) = (out ++ (c ∷ []), rng)

  unfoldable pub uuid4_chars : P.Rng → List Char × P.Rng
  uuid4_chars rng = append_hexes 12 (
      push_back "-" (
        append_hexes 3 (
          append_hex 8 11 (
            push_back "-" (
              append_hexes 3 (
                push_back "4"
                  (push_back "-" (append_hexes 4 (push_back "-" (append_hexes 8 ([], rng)))))))))))

  unfoldable pub uuid4 : P.Rng → String × P.Rng
  uuid4 rng = let (out, rng') = uuid4_chars rng in (of_list out, rng')
