-- ===== src/RequestParser/Version.antt =====
-- The version numbers: what `to_string` prints of one, `consume` adds up again.
use bigtable_postgres_blog_s.Base.{
  ℕ, zero, suc, ◌+◌, ◌*◌, ◌/◌, ◌%◌, ◌<◌, [], ◌∷◌, ◌≡◌, ◌≢◌, ◌∙◌, ap, arith, All, ltb, Bool-cases,
  inl, inr, true,
}
use bigtable_postgres_blog_s.Base.Int.{pos, int_limit, mul10_add, mul10_add_small}
use bigtable_postgres_blog_s.Base.Text.Decimal.RoundTrip.{print_nat-All, print_nat-cons}
use bigtable_postgres_blog_s.Base.Text.Decimal.{digits_onto, print_nat, is_digit_byte}
use bigtable_postgres_blog_s.Base.Text.{Bytes}
use bigtable_postgres_blog_s.Http.{is_digit}
use bigtable_postgres_blog_s.RequestParser.Segments.{read_version, IsDigit}

read_version-cons :
    (n d : ℕ) (rest : Bytes)
    → n * 10 + d < int_limit
    → read_version (pos n) ((b'0' + d) ∷ rest) ≡ read_version (pos (n * 10 + d)) rest
read_version-cons n d rest h =
    ap (λ k. read_version k rest) (ap (mul10_add (pos n)) (omega arith) ∙ mul10_add_small n d h)

read_version-digits_onto :
    (f n : ℕ) (rest : Bytes)
    → n < f
    → n < int_limit
    → read_version (pos 0) (digits_onto f n rest) ≡ read_version (pos n) rest
unfolding digits_onto
read_version-digits_onto zero n rest h k = absurd (omega arith)
read_version-digits_onto (suc f) n rest h k = elim (Bool-cases (ltb n 10)) [
  | inl small ↦
      rw small (
        read_version-cons 0 n rest (omega arith)
        ∙ ap (λ m. read_version (pos m) rest) (omega arith))
  | inr large ↦ rw large (
      read_version-digits_onto f (n / 10) ((b'0' + n % 10) ∷ rest) (ground arith) (omega arith)
      ∙ read_version-cons (n / 10) (n % 10) rest (omega arith)
      ∙ ap (λ m. read_version (pos m) rest) (omega arith))
]

pub read_version-print_nat : (n : ℕ) → n < int_limit → read_version (pos 0) (print_nat n) ≡ pos n
unfolding print_nat
read_version-print_nat n h = read_version-digits_onto (suc n) n [] (omega arith) h

All-IsDigit : (s : Bytes) → All (λ c. is_digit_byte c ≡ true) s → All IsDigit s
unfolding is_digit
All-IsDigit [] t = tt
All-IsDigit (c ∷ s) (x, t) = (x, All-IsDigit s t)

pub print_nat-IsDigit : (n : ℕ) → All IsDigit (print_nat n)
print_nat-IsDigit n = All-IsDigit (print_nat n) (print_nat-All n)

pub print_nat_ne_nil : (n : ℕ) → print_nat n ≢ []
print_nat_ne_nil n e = let (d, s, printed, small) = print_nat-cons n in cc
