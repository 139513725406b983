-- ===== src/Base/Text/Decimal.antt =====
-- `std::to_string` and `std::stoi`.
pub mod RoundTrip
use Prim.Native.Nat.{ℕ, zero, suc, ◌+◌, ◌-◌, ◌*◌, ◌/◌, ◌%◌, ◌<◌}
use mathlib.Core.Path.{◌≡◌}
use native.Mathlib.Omega.{arith}
use mathlib.Core.Bool.{Bool, true, false, ◌&&◌, ◌||◌}
use mathlib.Core.Option.{Option, none, some}
use mathlib.Core.List.{[], ◌∷◌}
use bigtable_postgres_blog_s.Base.Int.{ℤ, pos, negsuc, int_limit}
use bigtable_postgres_blog_s.Base.Tests.{ltb, leb, ◌==◌, if◌then◌else◌}
use bigtable_postgres_blog_s.Base.Text.Equal.{Bytes}

-- `std::isdigit` on a byte
abbrev pub is_digit_byte : ℕ → Bool
is_digit_byte c = leb b'0' c && leb c b'9'

-- The decimal digits of `n` in front of `rest`, on fuel; `suc n` is enough.
unfoldable pub digits_onto : ℕ → ℕ → Bytes → Bytes
digits_onto zero n rest = rest
digits_onto (suc f) n rest =
    let more = digits_onto f (n / 10) ((b'0' + n % 10) ∷ rest) in
    if ltb n 10 then (b'0' + n) ∷ rest else more

-- `std::to_string` of a `size_t` and of an `int`
unfoldable pub print_nat : ℕ → Bytes
unfolding digits_onto
print_nat n = digits_onto (suc n) n []

unfoldable pub print_int : ℤ → Bytes
unfolding print_nat
print_int (pos n) = print_nat n
print_int (negsuc n) = b'-' ∷ print_nat (n + 1)

-- `std::isspace` in the "C" locale
abbrev pub is_space : ℕ → Bool
is_space c = c == 32 || (leb 9 c && leb c 13)

-- The value of a digit in the given base; letters count from ten.
unfoldable pub digit_value : ℕ → ℕ → Option ℕ
digit_value base c =
    let v : Option ℕ =
      if leb b'0' c && leb c b'9'
      then some (c - 48)
      else if leb b'a' c && leb c b'z'
      then some (c - 87)
      else if leb b'A' c && leb c b'Z'
      then some (c - 55)
      else none in
    elim v [ none ↦ none | some d ↦ if ltb d base then some d else none ]

-- The digits at the front of the text, added to `acc`.
unfoldable pub read_digits : ℕ → ℕ → Bytes → ℕ
unfolding digit_value
read_digits base acc [] = acc
read_digits base acc (c ∷ s) = elim (digit_value base c) [
  | none ↦ acc
  | some d ↦ read_digits base (acc * base + d) s
]

unfoldable pub has_digit : ℕ → Bytes → Bool
unfolding digit_value
has_digit base [] = false
has_digit base (c ∷ s) = elim (digit_value base c) [ none ↦ false | some d ↦ true ]

-- An `int` out of range throws, as does a text with no digit: `none`.
abbrev pub in_range : Bool → ℕ → Option ℤ
in_range false n = if ltb n int_limit then some (pos n) else none
in_range true zero = some (pos zero)
in_range true (suc n) = if leb (suc n) int_limit then some (negsuc n) else none

abbrev pub number : ℕ → Bool → Bytes → Option ℤ
number base sign s = if has_digit base s then in_range sign (read_digits base 0 s) else none

-- In base sixteen `strtol` skips a prefix "0x" if a digit stands behind it.
abbrev pub skip_prefix : ℕ → Bytes → Bytes
skip_prefix base (a ∷ b ∷ s) =
    if base == 16 && (a == b'0' && (b == b'x' || b == b'X')) && has_digit base s
    then s
    else a ∷ b ∷ s
skip_prefix base s = s

abbrev pub signed : ℕ → Bytes → Option ℤ
signed base [] = none
signed base (c ∷ s) =
    if c == b'-'
    then number base true (skip_prefix base s)
    else if c == b'+'
    then number base false (skip_prefix base s)
    else number base false (skip_prefix base (c ∷ s))

abbrev pub skip_spaces : Bytes → Bytes
skip_spaces [] = []
skip_spaces (c ∷ s) = if is_space c then skip_spaces s else c ∷ s

unfoldable pub stoi_base : ℕ → Bytes → Option ℤ
unfolding read_digits has_digit
stoi_base base s = signed base (skip_spaces s)

abbrev pub stoi : Bytes → Option ℤ
stoi = stoi_base 10

abbrev pub FitsInt : ℤ → Type 0
FitsInt (pos n) = n < int_limit
FitsInt (negsuc n) = n < int_limit

number-FitsInt :
    (base : ℕ) (sign : Bool) (s : Bytes) (n : ℤ) → number base sign s ≡ some n → FitsInt n
number-FitsInt base false s n h = ground arith
number-FitsInt base true s n h = ground arith

signed-FitsInt : (base : ℕ) (s : Bytes) (n : ℤ) → signed base s ≡ some n → FitsInt n
signed-FitsInt base [] n h = cc
signed-FitsInt base (c ∷ s) n h = ground (
  arith,
  number-FitsInt base true (skip_prefix base s) n,
  number-FitsInt base false (skip_prefix base s) n,
  number-FitsInt base false (skip_prefix base (c ∷ s)) n,
)

-- What `stoi` returns is an `int`.
pub stoi-FitsInt : (base : ℕ) (s : Bytes) (n : ℤ) → stoi_base base s ≡ some n → FitsInt n
unfolding stoi_base
stoi-FitsInt base s n h = signed-FitsInt base (skip_spaces s) n h
