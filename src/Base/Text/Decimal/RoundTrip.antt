-- ===== src/Base/Text/Decimal/RoundTrip.antt =====
-- `stoi` reads back what `to_string` prints.
use Prim.Native.Nat.{ℕ, zero, suc, ◌+◌, ◌*◌, ◌/◌, ◌%◌, ◌<◌}
use mathlib.Core.Bool.{true, false}
use mathlib.Core.Logic.{inl, inr}
use mathlib.Core.Path.{◌≡◌, refl, ◌∙◌, ap}
use mathlib.Core.Option.{some}
use mathlib.Core.List.{[], ◌∷◌}
use native.Mathlib.Omega.{arith}
use bigtable_postgres_blog_s.Base.Int.{pos, int_limit}
use bigtable_postgres_blog_s.Base.Lists.{All}
use bigtable_postgres_blog_s.Base.Tests.{ltb, Bool-cases, tests, lt→ltb}
use bigtable_postgres_blog_s.Base.Text.Equal.{Bytes}
use bigtable_postgres_blog_s.Base.Text.Decimal.{
  is_digit_byte, digits_onto, print_nat, number, skip_prefix, digit_value, read_digits, has_digit,
  signed, skip_spaces, stoi_base, stoi,
}

digit_value_lem : (d : ℕ) → d < 10 → digit_value 10 (b'0' + d) ≡ some d
unfolding digit_value
digit_value_lem d h = ground arith

read_digits-cons :
    (acc d : ℕ) (s : Bytes)
    → d < 10
    → read_digits 10 acc ((b'0' + d) ∷ s) ≡ read_digits 10 (acc * 10 + d) s
unfolding read_digits
read_digits-cons acc d s h = rw (digit_value_lem d h, read_digits)

-- The digits of `n`, read with nothing before them, leave `n` as the number so far.
read_digits-digits_onto :
    (f n : ℕ) (rest : Bytes)
    → n < f
    → read_digits 10 0 (digits_onto f n rest) ≡ read_digits 10 n rest
unfolding digits_onto
read_digits-digits_onto zero n rest h = absurd (omega arith)
read_digits-digits_onto (suc f) n rest h = elim (Bool-cases (ltb n 10)) [
  | inl small ↦
      rw small
        (read_digits-cons 0 n rest (omega tests) ∙ ap (λ k. read_digits 10 k rest) (omega arith))
  | inr large ↦ rw large (
      read_digits-digits_onto f (n / 10) ((b'0' + n % 10) ∷ rest) (ground arith)
      ∙ read_digits-cons (n / 10) (n % 10) rest (omega arith)
      ∙ ap (λ k. read_digits 10 k rest) (omega arith))
]

-- The digits that are printed begin with one, and are digits all.
digits_onto-cons :
    (f n : ℕ) (rest : Bytes)
    → n < f
    → (d : ℕ) × (s : Bytes) × (digits_onto f n rest ≡ (b'0' + d) ∷ s) × (d < 10)
unfolding digits_onto
digits_onto-cons zero n rest h = absurd (omega arith)
digits_onto-cons (suc f) n rest h = elim (Bool-cases (ltb n 10)) [
  | inl small ↦ (n, rest, rw small, omega tests)
  | inr large ↦ rw large (digits_onto-cons f (n / 10) ((b'0' + n % 10) ∷ rest) (ground arith))
]

digits_onto-All :
    (f n : ℕ) (rest : Bytes)
    → All (λ c. is_digit_byte c ≡ true) rest
    → All (λ c. is_digit_byte c ≡ true) (digits_onto f n rest)
unfolding digits_onto
digits_onto-All zero n rest t = t
digits_onto-All (suc f) n rest t =
    ground (arith, digits_onto-All f (n / 10) ((b'0' + n % 10) ∷ rest))

pub print_nat-All : (n : ℕ) → All (λ c. is_digit_byte c ≡ true) (print_nat n)
unfolding print_nat
print_nat-All n = digits_onto-All (suc n) n [] tt

pub print_nat-cons : (n : ℕ) → (d : ℕ) × (s : Bytes) × (print_nat n ≡ (b'0' + d) ∷ s) × (d < 10)
unfolding print_nat
print_nat-cons n = digits_onto-cons (suc n) n [] (omega arith)

read_digits-print_nat : (n : ℕ) → read_digits 10 0 (print_nat n) ≡ n
unfolding print_nat
read_digits-print_nat n =
    read_digits-digits_onto (suc n) n [] (omega arith) ∙ unfold read_digits in refl

skip_prefix_ten : (s : Bytes) → skip_prefix 10 s ≡ s
skip_prefix_ten [] = refl
skip_prefix_ten (a ∷ []) = refl
skip_prefix_ten (a ∷ b ∷ s) = refl

skip_spaces_digit : (d : ℕ) (s : Bytes) → skip_spaces ((b'0' + d) ∷ s) ≡ (b'0' + d) ∷ s
skip_spaces_digit d s = ground arith

signed_digit : (d : ℕ) (s : Bytes) → signed 10 ((b'0' + d) ∷ s) ≡ number 10 false ((b'0' + d) ∷ s)
signed_digit d s = ground (arith, skip_prefix_ten ((b'0' + d) ∷ s))

has_digit_digit : (d : ℕ) (s : Bytes) → d < 10 → has_digit 10 ((b'0' + d) ∷ s) ≡ true
unfolding has_digit
has_digit_digit d s h = rw (digit_value_lem d h, has_digit)

stoi_digits :
    (d n : ℕ) (s : Bytes)
    → d < 10
    → n < int_limit
    → read_digits 10 0 ((b'0' + d) ∷ s) ≡ n
    → stoi ((b'0' + d) ∷ s) ≡ some (pos n)
unfolding stoi_base
stoi_digits d n s h k e =
    rw (skip_spaces_digit d s)
      (signed_digit d s ∙ rw (has_digit_digit d s h, e, lt→ltb n int_limit k))

-- What `to_string` prints of a number that an `int` can hold, `stoi` reads back.
pub stoi-print_nat : (n : ℕ) → n < int_limit → stoi (print_nat n) ≡ some (pos n)
stoi-print_nat n h =
    let (d, s, printed, small) = print_nat-cons n in
    rw printed (stoi_digits d n s small h (rw printed at (read_digits-print_nat n)))
