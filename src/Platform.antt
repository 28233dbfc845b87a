-- ===== src/Platform.antt =====
-- What the program calls and does not contain: nlohmann::json, the random device, and the parts of
-- MySQL that the statements leave open. `Platform` has the operations; each record of laws below
-- states documented behaviour, and a theorem takes the ones that it needs.
use distributed_notification.Base.{
  ℕ, ◌≤◌, ◌<◌, ◌≡◌, ◌≢◌, ℤ, pos, negsuc, Bool, true, false, map, All, String, Option, none, some,
  List, [], ◌∷◌, str_eq, if◌then◌else◌,
}
use distributed_notification.Database.Schema.{NotificationRow, AttemptRow}

-- The result of reading JSON; `bad` carries the text of the thrown exception, `none` one that is not
-- UTF-8: the text of a parse error quotes the bytes that were read.
pub data Parsed (A : Type 0) : Type 0 where
  ok : A → Parsed A
  bad : Option String → Parsed A

infixl 5 ◌>>=◌
abbrev pub ◌>>=◌ : {A B : Type 0} → Parsed A → (A → Parsed B) → Parsed B
ok a >>= f = f a
bad e >>= f = bad e

pub record Platform : Type 1 where
  -- nlohmann::json: `Body` is the serialised text, `obj` the initializer list of pairs. A `String` is
  -- UTF-8, which `dump` needs; at another text it throws an exception with the text `dump_error`.
  pub Json : Type 0
  pub Body : Type 0
  pub parse : Body → Parsed Json
  -- `in >> j`: the first value, whatever comes after it
  pub extract : Body → Parsed Json
  pub dump : Json → Body
  pub dump_error : String
  pub str : String → Json
  pub num : ℤ → Json
  pub null : Json
  pub arr : List Json → Json
  pub obj : List (String × Json) → Json
  pub set_field : Json → String → Json → Json
  -- `j.at(k).get<std::string>()`, `j.value(k, text)` and `j.value(k, int)`.
  pub at_string : Json → String → Parsed String
  pub value_string : Json → String → String → Parsed String
  pub value_int : Json → String → ℤ → Parsed ℤ
  -- `j.value(k, unsigned short)`, `j.contains(k)` and `j.at(k).get<std::vector<int>>()`.
  pub value_u16 : Json → String → ℕ → Parsed ℕ
  pub contains : Json → String → Bool
  pub at_ints : Json → String → Parsed (List ℤ)
  -- <random>: a draw from [lo, hi], and one from [0, 1) with its order and the constants n / 100.
  pub Rng : Type 0
  pub Real : Type 0
  pub uniform_int : Rng → ℕ → ℕ → ℕ × Rng
  pub uniform_real : Rng → Real × Rng
  pub less : Real → Real → Bool
  pub percent : ℕ → Real
  -- MySQL: `=` on texts under the collation of the schema, and the two ORDER BY clauses.
  pub same_text : String → String → Bool
  pub newest_first : List NotificationRow → List NotificationRow
  pub by_attempt_number : List AttemptRow → List AttemptRow

-- The first value under a key.
unfoldable pub field {ℓ} : {A : Type ℓ} → String → List (String × A) → Option A
field k [] = none
field k ((j, v) ∷ fs) = if str_eq j k then some v else field k fs

-- The range of `int`.
abbrev pub InInt : ℤ → Type 0
InInt (pos n) = n < 2147483648
InInt (negsuc n) = n < 2147483648

pub record IsJson (P : Platform) : Type 0 where
  pub parse-dump : (j : P.Json) → P.parse (P.dump j) ≡ ok j
  pub extract-dump : (j : P.Json) → P.extract (P.dump j) ≡ ok j
  pub at_string-obj :
      (fs : List (String × P.Json)) (k s : String)
      → field k fs ≡ some (P.str s)
      → P.at_string (P.obj fs) k ≡ ok s
  pub value_int-obj :
      (fs : List (String × P.Json)) (k : String) (i d : ℤ)
      → InInt i
      → field k fs ≡ some (P.num i)
      → P.value_int (P.obj fs) k d ≡ ok i
  -- Other exceptions than parse errors name keys and types in their texts.
  pub at_string-text : (j : P.Json) (k : String) → P.at_string j k ≢ bad none
  pub value_string-text : (j : P.Json) (k d : String) → P.value_string j k d ≢ bad none

-- What the reading of settings relies on: a value is found under its key, a default serves where an
-- object has no such key.
pub record IsSettingsJson (P : Platform) : Type 0 where
  pub value_string-obj :
      (fs : List (String × P.Json)) (k s d : String)
      → field k fs ≡ some (P.str s)
      → P.value_string (P.obj fs) k d ≡ ok s
  pub value_string-none :
      (fs : List (String × P.Json)) (k d : String)
      → field k fs ≡ none
      → P.value_string (P.obj fs) k d ≡ ok d
  pub value_int-none :
      (fs : List (String × P.Json)) (k : String) (d : ℤ)
      → field k fs ≡ none
      → P.value_int (P.obj fs) k d ≡ ok d
  pub value_u16-obj :
      (fs : List (String × P.Json)) (k : String) (i d : ℕ)
      → i < 65536
      → field k fs ≡ some (P.num (pos i))
      → P.value_u16 (P.obj fs) k d ≡ ok i
  pub value_u16-none :
      (fs : List (String × P.Json)) (k : String) (d : ℕ)
      → field k fs ≡ none
      → P.value_u16 (P.obj fs) k d ≡ ok d
  pub contains-some :
      (fs : List (String × P.Json)) (k : String) (v : P.Json)
      → field k fs ≡ some v
      → P.contains (P.obj fs) k ≡ true
  pub contains-none :
      (fs : List (String × P.Json)) (k : String)
      → field k fs ≡ none
      → P.contains (P.obj fs) k ≡ false
  pub at_ints-obj :
      (fs : List (String × P.Json)) (k : String) (is : List ℤ)
      → All InInt is
      → field k fs ≡ some (P.arr (map P.num is))
      → P.at_ints (P.obj fs) k ≡ ok is

pub record IsUniform (P : Platform) : Type 0 where
  pub in_range :
      (r : P.Rng) (lo hi : ℕ)
      → lo ≤ hi
      → (lo ≤ (P.uniform_int r lo hi).0) × ((P.uniform_int r lo hi).0 ≤ hi)

pub record IsCollation (P : Platform) : Type 0 where
  pub same_refl : (s : String) → P.same_text s s ≡ true
  pub same_sym : (s t : String) → P.same_text s t ≡ true → P.same_text t s ≡ true
  pub same_trans :
      (s t u : String) → P.same_text s t ≡ true → P.same_text t u ≡ true → P.same_text s u ≡ true
