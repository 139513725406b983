-- ===== src/Base/Text/Equal.antt =====
-- Literals, equality and search of byte strings.
use Prim.Native.Nat.{◌≤◌, ℕ, ◌+◌}
use Prim.Native.Char.{code}
use Prim.Native.String.{String}
use mathlib.Core.Path.{◌≡◌, refl}
use mathlib.Core.Logic.{◌↔◌}
use mathlib.Core.Bool.{Bool, true, false, ◌&&◌, ◌||◌}
use mathlib.Core.Option.{Option, none, some}
use mathlib.Core.List.{List, [], ◌∷◌, ◌++◌}
use native.Mathlib.Omega.{arith}
use bigtable_postgres_blog_s.Base.Lists.{length}
use bigtable_postgres_blog_s.Base.Tests.{and-parts, ltb, leb, ◌==◌, if◌then◌else◌}

abbrev pub Bytes : Type 0
Bytes = List ℕ

-- The bytes of an ASCII literal.
abbrev pub codes : String → Bytes
codes String.[] = []
codes (String.◌∷◌ c s) = code c ∷ codes s

-- `==` of `std::string`
unfoldable pub str_eq : Bytes → Bytes → Bool
str_eq [] [] = true
str_eq (x ∷ xs) (y ∷ ys) = x == y && str_eq xs ys
str_eq _ _ = false

pub str_eq_iff : (a b : Bytes) → (str_eq a b ≡ true) ↔ (a ≡ b)
unfolding str_eq
str_eq_iff (x ∷ a) (y ∷ b) = ground (arith, str_eq_iff a b)
str_eq_iff _ _ = ground arith

pub str_eq_refl : (a : Bytes) → str_eq a a ≡ true
str_eq_refl a = (str_eq_iff a a).1 refl

-- `<` of `std::string`: bytes compared as unsigned, a proper prefix first
unfoldable pub str_lt : Bytes → Bytes → Bool
str_lt _ [] = false
str_lt [] (y ∷ ys) = true
str_lt (x ∷ xs) (y ∷ ys) = ltb x y || (x == y && str_lt xs ys)

-- whether the text begins with `pre`
unfoldable pub starts_with : Bytes → Bytes → Bool
starts_with [] s = true
starts_with (p ∷ pre) [] = false
starts_with (p ∷ pre) (c ∷ s) = p == c && starts_with pre s

pub starts_with_append : (pre s : Bytes) → starts_with pre (pre ++ s) ≡ true
unfolding starts_with
starts_with_append [] s = refl
starts_with_append (p ∷ pre) s = ground (arith, starts_with_append pre s)

-- `find`: whether `part` occurs in the text
unfoldable pub contains : Bytes → Bytes → Bool
contains part [] = starts_with part []
contains part (c ∷ s) = starts_with part (c ∷ s) || contains part s

-- `find_last_of` for one byte: its last position
unfoldable pub find_last : ℕ → Bytes → Option ℕ
find_last b [] = none
find_last b (c ∷ s) = elim (find_last b s) [
  | some i ↦ some (i + 1)
  | none ↦ if c == b then some 0 else none
]

-- `find` for one byte: its first position
unfoldable pub find_first : ℕ → Bytes → Option ℕ
find_first b [] = none
find_first b (c ∷ s) = elim (c == b) [
  | true ↦ some 0
  | false ↦ elim (find_first b s) [ none ↦ none | some i ↦ some (i + 1) ]
]

-- `tolower` in the "C" locale, and `strcasecmp(a, b) == 0`
abbrev pub to_lower : ℕ → ℕ
to_lower c = if leb b'A' c && leb c b'Z' then c + 32 else c

unfoldable pub case_eq : Bytes → Bytes → Bool
case_eq [] [] = true
case_eq (x ∷ xs) (y ∷ ys) = to_lower x == to_lower y && case_eq xs ys
case_eq _ _ = false

starts_with-length : (a s : Bytes) → starts_with a s ≡ true → length a ≤ length s
unfolding starts_with
starts_with-length [] s h = omega arith
starts_with-length (p ∷ a) [] h = cc
starts_with-length (p ∷ a) (c ∷ s) h =
    omega (arith, starts_with-length a s (and-parts (p == c) (starts_with a s) h).1)

starts_with-eq : (a s : Bytes) → starts_with a s ≡ true → length a ≡ length s → a ≡ s
unfolding starts_with
starts_with-eq [] [] h e = refl
starts_with-eq [] (c ∷ s) h e = absurd (omega arith)
starts_with-eq (p ∷ a) [] h e = cc
starts_with-eq (p ∷ a) (c ∷ s) h e =
    let (x, y) = and-parts (p == c) (starts_with a s) h in
    ground (arith, starts_with-eq a s y (omega arith))

-- What occurs in a text is no longer than it, and as long only if it is all of it.
pub contains-length : (a s : Bytes) → contains a s ≡ true → length a ≤ length s
unfolding contains
contains-length a [] h = starts_with-length a [] h
contains-length a (c ∷ s) h = ground (arith, starts_with-length a (c ∷ s), contains-length a s)

pub contains-eq : (a s : Bytes) → contains a s ≡ true → length a ≡ length s → a ≡ s
unfolding contains
contains-eq a [] h e = starts_with-eq a [] h e
contains-eq a (c ∷ s) h e = ground (arith, starts_with-eq a (c ∷ s), contains-length a s)
