-- ===== src/IdGenerator/Shape.antt =====
-- IdGenerator.hpp: the text of a UUID has the version-4 shape.
use Prim.Native.Char.{Char}
use mathlib.Core.List.{Memᴰ}
use distributed_notification.Base.{
  ℕ, zero, suc, ◌≤◌, ◌<◌, ◌≡◌, refl, List, [], ◌∷◌, ◌++◌, length, arith,
}
use distributed_notification.Platform.{Platform, IsUniform}
use distributed_notification.IdGenerator.{
  hex, char_at, append_hex, append_hexes, push_back, uuid4_chars,
}

-- A place of the pattern: any hexadecimal digit, one of 8 9 a b, or one character.
pub data Place : Type 0 where
  digit variant : Place
  exactly : Char → Place

abbrev pub Fits : Char → Place → Type 0
Fits c digit = Memᴰ c (
    "0" ∷ "1" ∷ "2" ∷ "3" ∷ "4" ∷ "5" ∷ "6" ∷ "7" ∷ "8" ∷ "9" ∷ "a" ∷ "b" ∷ "c" ∷ "d" ∷ "e" ∷ "f"
    ∷ [])
Fits c variant = Memᴰ c ("8" ∷ "9" ∷ "a" ∷ "b" ∷ [])
Fits c (exactly d) = c ≡ d

-- Place by place, and of the same length.
abbrev pub FitsAll : List Char → List Place → Type 0
FitsAll [] [] = Unit {0}
FitsAll [] (p ∷ ps) = ⊥
FitsAll (c ∷ cs) [] = ⊥
FitsAll (c ∷ cs) (p ∷ ps) = Fits c p × FitsAll cs ps

abbrev pub many : ℕ → List Place → List Place
many zero ps = ps
many (suc n) ps = digit ∷ many n ps

-- xxxxxxxx-xxxx-4xxx-yxxx-xxxxxxxxxxxx
abbrev pub pattern_v4 : List Place
pattern_v4 = many 8 (
    exactly "-"
    ∷ many 4 (
        exactly "-"
        ∷ exactly "4"
        ∷ many 3 (exactly "-" ∷ variant ∷ many 3 (exactly "-" ∷ many 12 []))))

abbrev extended : ℕ → List Place → List Place
extended zero ps = ps
extended (suc n) ps = extended n (ps ++ digit ∷ [])

FitsAll-append :
    (cs : List Char) (c : Char) (ps : List Place) (p : Place)
    → FitsAll cs ps
    → Fits c p
    → FitsAll (cs ++ c ∷ []) (ps ++ p ∷ [])
FitsAll-append [] c [] p h k = (k, tt)
FitsAll-append [] c (q ∷ ps) p h k = absurd h
FitsAll-append (x ∷ cs) c [] p h k = absurd h
FitsAll-append (x ∷ cs) c (q ∷ ps) p h k = (h.0, FitsAll-append cs c ps p h.1 k)

char_at-Memᴰ : (cs ds : List Char) (n : ℕ) → n < length cs → Memᴰ (char_at (cs ++ ds) n) cs
char_at-Memᴰ [] ds n h = absurd (omega (arith, h))
char_at-Memᴰ (c ∷ cs) ds zero h = Memᴰ.head refl
char_at-Memᴰ (c ∷ cs) ds (suc n) h = Memᴰ.tail (char_at-Memᴰ cs ds n (omega (arith, h)))

digit-Fits : (n : ℕ) → n < 16 → Fits (char_at hex n) digit
digit-Fits n h = char_at-Memᴰ hex [] n h

variant-Fits : (n : ℕ) → 8 ≤ n → n < 12 → Fits (char_at hex n) variant
variant-Fits (suc (suc (suc (suc (suc (suc (suc (suc n)))))))) a b =
    char_at-Memᴰ ("8" ∷ "9" ∷ "a" ∷ "b" ∷ []) ("c" ∷ "d" ∷ "e" ∷ "f" ∷ []) n (omega (arith, b))
variant-Fits zero a b = absurd (omega (arith, a))
variant-Fits (suc zero) a b = absurd (omega (arith, a))
variant-Fits (suc (suc zero)) a b = absurd (omega (arith, a))
variant-Fits (suc (suc (suc zero))) a b = absurd (omega (arith, a))
variant-Fits (suc (suc (suc (suc zero)))) a b = absurd (omega (arith, a))
variant-Fits (suc (suc (suc (suc (suc zero))))) a b = absurd (omega (arith, a))
variant-Fits (suc (suc (suc (suc (suc (suc zero)))))) a b = absurd (omega (arith, a))
variant-Fits (suc (suc (suc (suc (suc (suc (suc zero))))))) a b = absurd (omega (arith, a))

module _ (P : Platform) (laws : IsUniform P) where
  -- The text so far fits the pattern so far.
  abbrev Drawn : List Char × P.Rng → List Place → Type 0
  Drawn s ps = FitsAll s.0 ps

  append_hex-digit :
      (s : List Char × P.Rng) (ps : List Place)
      → Drawn s ps
      → Drawn (append_hex P 0 15 s) (ps ++ digit ∷ [])
  unfolding append_hex
  append_hex-digit s ps h =
      let r = laws.in_range s.1 0 15 (omega arith) in
      let n = (P.uniform_int s.1 0 15).0 in
      FitsAll-append s.0 (char_at hex n) ps digit h (digit-Fits n (omega (arith, r.1)))

  append_hex-variant :
      (s : List Char × P.Rng) (ps : List Place)
      → Drawn s ps
      → Drawn (append_hex P 8 11 s) (ps ++ variant ∷ [])
  unfolding append_hex
  append_hex-variant s ps h =
      let r = laws.in_range s.1 8 11 (omega arith) in
      let n = (P.uniform_int s.1 8 11).0 in
      FitsAll-append s.0 (char_at hex n) ps variant h (variant-Fits n r.0 (omega (arith, r.1)))

  append_hexes-Drawn :
      (n : ℕ) (s : List Char × P.Rng) (ps : List Place)
      → Drawn s ps
      → Drawn (append_hexes P n s) (extended n ps)
  unfolding append_hexes
  append_hexes-Drawn zero s ps h = h
  append_hexes-Drawn (suc n) s ps h =
      append_hexes-Drawn n (append_hex P 0 15 s) (ps ++ digit ∷ []) (append_hex-digit s ps h)

  push_back-Drawn :
      (d : Char) (s : List Char × P.Rng) (ps : List Place)
      → Drawn s ps
      → Drawn (push_back P d s) (ps ++ exactly d ∷ [])
  push_back-Drawn d s ps h = FitsAll-append s.0 d ps (exactly d) h refl

  -- With draws in the range that the distributions are given, the text of a UUID has 36 characters:
  -- hexadecimal digits in groups of 8, 4, 4, 4 and 12 with dashes between them, of which the first
  -- digit of the third group is 4 and the first of the fourth is 8, 9, a or b.
  pub uuid4_chars-FitsAll : (rng : P.Rng) → FitsAll (uuid4_chars P rng).0 pattern_v4
  unfolding uuid4_chars
  uuid4_chars-FitsAll rng =
      let s1 = append_hexes P 8 ([], rng) in
      let p1 = extended 8 [] in
      let h1 : Drawn s1 p1 = append_hexes-Drawn 8 ([], rng) [] tt in
      let s2 = push_back P "-" s1 in
      let p2 = p1 ++ exactly "-" ∷ [] in
      let h2 : Drawn s2 p2 = push_back-Drawn "-" s1 p1 h1 in
      let s3 = append_hexes P 4 s2 in
      let p3 = extended 4 p2 in
      let h3 : Drawn s3 p3 = append_hexes-Drawn 4 s2 p2 h2 in
      let s4 = push_back P "-" s3 in
      let p4 = p3 ++ exactly "-" ∷ [] in
      let h4 : Drawn s4 p4 = push_back-Drawn "-" s3 p3 h3 in
      let s5 = push_back P "4" s4 in
      let p5 = p4 ++ exactly "4" ∷ [] in
      let h5 : Drawn s5 p5 = push_back-Drawn "4" s4 p4 h4 in
      let s6 = append_hexes P 3 s5 in
      let p6 = extended 3 p5 in
      let h6 : Drawn s6 p6 = append_hexes-Drawn 3 s5 p5 h5 in
      let s7 = push_back P "-" s6 in
      let p7 = p6 ++ exactly "-" ∷ [] in
      let h7 : Drawn s7 p7 = push_back-Drawn "-" s6 p6 h6 in
      let s8 = append_hex P 8 11 s7 in
      let p8 = p7 ++ variant ∷ [] in
      let h8 : Drawn s8 p8 = append_hex-variant s7 p7 h7 in
      let s9 = append_hexes P 3 s8 in
      let p9 = extended 3 p8 in
      let h9 : Drawn s9 p9 = append_hexes-Drawn 3 s8 p8 h8 in
      let s10 = push_back P "-" s9 in
      let p10 = p9 ++ exactly "-" ∷ [] in
      let h10 : Drawn s10 p10 = push_back-Drawn "-" s9 p9 h9 in
      let s11 = append_hexes P 12 s10 in
      let p11 = extended 12 p10 in
      let h11 : Drawn s11 p11 = append_hexes-Drawn 12 s10 p10 h10 in h11
