-- ===== src/Tests/Toy.antt =====
-- A platform that can be run: JSON values that are their own text, beside one that cannot be read, a counter in place of the random
-- device, and texts compared byte for byte. It meets the documented laws.
use distributed_notification.Base.{
  ℕ, suc, ◌+◌, ◌-◌, ◌%◌, ◌≤◌, ◌≡◌, ◌≢◌, refl, sym, ◌∙◌, ap, ℤ, pos, Bool, true, false, map, String,
  Option, none, some, List, [], ◌∷◌, ltb, str_eq, eq_iff, if◌then◌else◌, arith,
}
use native.Mathlib.Nat.{mod-lt}
use distributed_notification.Platform.{
  Platform, Parsed, ok, bad, IsJson, IsSettingsJson, IsUniform, IsCollation, field,
}

mutual
  pub data Value : Type 0 where
    text : String → Value
    number : ℤ → Value
    nothing : Value
    array : Items → Value
    object : Fields → Value

  pub data Items : Type 0 where
    nil : Items
    cons : Value → Items → Items

  pub data Fields : Type 0 where
    end : Fields
    entry : String → Value → Fields → Fields

abbrev to_items : List Value → Items
to_items [] = nil
to_items (v ∷ vs) = cons v (to_items vs)

abbrev to_fields : List (String × Value) → Fields
to_fields [] = end
to_fields ((k, v) ∷ fs) = entry k v (to_fields fs)

abbrev get : String → Fields → Option Value
get k end = none
get k (entry j v fs) = if str_eq j k then some v else get k fs

abbrev as_text : Option Value → Parsed String
as_text none = bad (some "key not found")
as_text (some (text s)) = ok s
as_text (some other) = bad (some "type must be string")

abbrev at_string : Value → String → Parsed String
at_string (object fs) k = as_text (get k fs)
at_string other k = bad (some "cannot use at()")

abbrev or_text : String → Option Value → Parsed String
or_text d none = ok d
or_text d (some v) = as_text (some v)

abbrev value_string : Value → String → String → Parsed String
value_string (object fs) k d = or_text d (get k fs)
value_string other k d = bad (some "cannot use value()")

abbrev as_int : ℤ → Option Value → Parsed ℤ
as_int d none = ok d
as_int d (some (number i)) = ok i
as_int d (some other) = bad (some "type must be number")

abbrev value_int : Value → String → ℤ → Parsed ℤ
value_int (object fs) k d = as_int d (get k fs)
value_int other k d = bad (some "cannot use value()")

abbrev set_field : Value → String → Value → Value
set_field (object fs) k v = object (entry k v fs)
set_field other k v = other

abbrev as_u16 : ℕ → Option Value → Parsed ℕ
as_u16 d none = ok d
as_u16 d (some (number (pos i))) = ok (i % 65536)
as_u16 d (some other) = bad (some "type must be number")

abbrev value_u16 : Value → String → ℕ → Parsed ℕ
value_u16 (object fs) k d = as_u16 d (get k fs)
value_u16 other k d = bad (some "cannot use value()")

abbrev is_there : Option Value → Bool
is_there none = false
is_there (some v) = true

abbrev contains : Value → String → Bool
contains (object fs) k = is_there (get k fs)
contains other k = false

abbrev and_int : Value → Parsed (List ℤ) → Parsed (List ℤ)
and_int (number i) (ok is) = ok (i ∷ is)
and_int (number i) (bad e) = bad e
and_int other is = bad (some "type must be number")

abbrev ints : Items → Parsed (List ℤ)
ints nil = ok []
ints (cons v vs) = and_int v (ints vs)

abbrev as_ints : Option Value → Parsed (List ℤ)
as_ints none = bad (some "key not found")
as_ints (some (array vs)) = ints vs
as_ints (some other) = bad (some "type must be array")

abbrev at_ints : Value → String → Parsed (List ℤ)
at_ints (object fs) k = as_ints (get k fs)
at_ints other k = bad (some "cannot use at()")

-- `none` is a body that is not UTF-8.
abbrev read_body : Option Value → Parsed Value
read_body none = bad none
read_body (some v) = ok v

abbrev draw : ℕ → ℕ → ℕ → ℕ × ℕ
draw seed lo hi = (lo + seed % suc (hi - lo), seed + 1)

abbrev pub toy : Platform
toy = record {
  Json = Value;
  Body = Option Value;
  parse = read_body;
  extract = read_body;
  dump = some;
  dump_error = "invalid UTF-8 byte";
  str = text;
  num = number;
  null = nothing;
  arr = λ vs. array (to_items vs);
  obj = λ fs. object (to_fields fs);
  set_field = set_field;
  at_string = at_string;
  value_string = value_string;
  value_int = value_int;
  value_u16 = value_u16;
  contains = contains;
  at_ints = at_ints;
  Rng = ℕ;
  Real = ℕ;
  uniform_int = draw;
  uniform_real = λ seed. (seed % 100, seed + 1);
  less = ltb;
  percent = λ n. n;
  same_text = str_eq;
  newest_first = λ rows. rows;
  by_attempt_number = λ rows. rows;
}

get-to_fields : (k : String) (fs : List (String × Value)) → get k (to_fields fs) ≡ field k fs
unfolding field
get-to_fields k [] = refl
get-to_fields k ((j, v) ∷ fs) = rw (get-to_fields k fs)

as_text-ne : (v : Option Value) → as_text v ≢ bad none
as_text-ne none = λ e. cc
as_text-ne (some (text s)) = λ e. cc
as_text-ne (some (number i)) = λ e. cc
as_text-ne (some nothing) = λ e. cc
as_text-ne (some (array vs)) = λ e. cc
as_text-ne (some (object fs)) = λ e. cc

or_text-ne : (d : String) (v : Option Value) → or_text d v ≢ bad none
or_text-ne d none = λ e. cc
or_text-ne d (some v) = as_text-ne (some v)

at_string-ne : (j : Value) (k : String) → at_string j k ≢ bad none
at_string-ne (text s) k = λ e. cc
at_string-ne (number i) k = λ e. cc
at_string-ne nothing k = λ e. cc
at_string-ne (array vs) k = λ e. cc
at_string-ne (object fs) k = as_text-ne (get k fs)

value_string-ne : (j : Value) (k d : String) → value_string j k d ≢ bad none
value_string-ne (text s) k d = λ e. cc
value_string-ne (number i) k d = λ e. cc
value_string-ne nothing k d = λ e. cc
value_string-ne (array vs) k d = λ e. cc
value_string-ne (object fs) k d = or_text-ne d (get k fs)

pub toy-IsJson : IsJson toy
toy-IsJson = record {
  parse-dump = λ j. refl;
  extract-dump = λ j. refl;
  at_string-obj = λ fs k s e. rw (get-to_fields k fs ∙ e);
  value_int-obj = λ fs k i d r e. rw (get-to_fields k fs ∙ e);
  at_string-text = at_string-ne;
  value_string-text = value_string-ne;
}

ints-numbers : (is : List ℤ) → ints (to_items (map number is)) ≡ ok is
ints-numbers [] = refl
ints-numbers (i ∷ is) = rw (ints-numbers is)

pub toy-IsSettingsJson : IsSettingsJson toy
toy-IsSettingsJson = record {
  value_string-obj = λ fs k s d e. rw (get-to_fields k fs ∙ e);
  value_string-none = λ fs k d e. rw (get-to_fields k fs ∙ e);
  value_int-none = λ fs k d e. rw (get-to_fields k fs ∙ e);
  value_u16-obj = λ fs k i d r e. rw (get-to_fields k fs ∙ e) (ap ok (omega (arith, r)));
  value_u16-none = λ fs k d e. rw (get-to_fields k fs ∙ e);
  contains-some = λ fs k v e. rw (get-to_fields k fs ∙ e);
  contains-none = λ fs k e. rw (get-to_fields k fs ∙ e);
  at_ints-obj = λ fs k is r e. rw (get-to_fields k fs ∙ e) (ints-numbers is);
}

draw_bounds : (seed lo hi : ℕ) → lo ≤ hi → (lo ≤ (draw seed lo hi).0) × ((draw seed lo hi).0 ≤ hi)
draw_bounds seed lo hi h = grind (arith, mod-lt)

pub toy-IsUniform : IsUniform toy
toy-IsUniform = record { in_range = draw_bounds }

pub toy-IsCollation : IsCollation toy
toy-IsCollation = record {
  same_refl = λ s. (eq_iff s s).1 refl;
  same_sym = λ s t h. (eq_iff t s).1 (sym ((eq_iff s t).0 h));
  same_trans = λ s t u h k. (eq_iff s u).1 ((eq_iff s t).0 h ∙ (eq_iff t u).0 k);
}
