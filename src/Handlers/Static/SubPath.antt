-- ===== src/Handlers/Static/SubPath.antt =====
-- The loop of src/static_request_handler.cc that cuts a path, at a path behind the location.
use bigtable_postgres_blog_s.Base.{
  ℕ, zero, suc, ◌+◌, ◌≤◌, ◌<◌, false, [], ◌∷◌, ◌++◌, some, ◌≡◌, refl, ap, sym, ◌∙◌, arith, inl, inr,
  Bool-cases, length, length-append, take, drop, drop-append,
}
use bigtable_postgres_blog_s.Base.Text.{Bytes, str_eq, str_eq_iff, str_eq_refl, find_last}
use bigtable_postgres_blog_s.Paths.{IsUnder, find_last-Cut, length-take, find_last-lt}
use bigtable_postgres_blog_s.Handlers.Static.{sub_path}

-- One round of the loop at a path under the location.
sub_path_found :
    (fuel : ℕ) (location uri sub : Bytes) → sub_path (suc fuel) location uri location sub ≡ sub
unfolding sub_path
sub_path_found fuel location uri sub = rw (str_eq_refl location, sub_path)

sub_path_cut :
    (fuel : ℕ) (location uri client sub : Bytes) (i : ℕ)
    → str_eq client location ≡ false
    → find_last b'/' client ≡ some i
    → sub_path (suc fuel) location uri client sub
      ≡ sub_path fuel location uri (take i client) (drop i uri)
unfolding sub_path
sub_path_cut fuel location uri client sub i h e = rw (h, sub_path) (rw (e, sub_path))

longer : (p rest : Bytes) → str_eq (p ++ b'/' ∷ rest) p ≡ false
longer p rest = elim (Bool-cases (str_eq (p ++ b'/' ∷ rest) p)) [
  | inr h ↦ h
  | inl h ↦
      let same = (str_eq_iff (p ++ b'/' ∷ rest) p).0 h in
      absurd (omega (arith, ap length same, length-append {0} p (b'/' ∷ rest)))
]

take-take : (i k : ℕ) (s : Bytes) → i ≤ k → take i (take k s) ≡ take i s
take-take zero k s h = refl
take-take (suc i) zero s h = absurd (omega arith)
take-take (suc i) (suc k) [] h = refl
take-take (suc i) (suc k) (c ∷ s) h = ap (◌∷◌ c) (take-take i k s (omega arith))

module _ (p rest : Bytes) where
  abbrev path : Bytes
  path = p ++ b'/' ∷ rest

  -- The loop from any cut of the path that the location is, or is a directory of.
  sub_path-take :
      (fuel k : ℕ)
      → k ≤ length path
      → k ≤ length p + fuel
      → IsUnder p (take k path)
      → sub_path (suc fuel) p path (take k path) (drop k path) ≡ b'/' ∷ rest
  sub_path-take fuel k h b (inl e) =
      let there : k ≡ length p = sym (length-take k path h) ∙ ap length e in
      rw e (
        sub_path_found fuel p path (drop k path)
        ∙ ap (λ n. drop n path) there
        ∙ drop-append p (b'/' ∷ rest))
  sub_path-take zero k h b (inr (more, e)) =
      absurd (omega (arith, ap length e, length-take k path h, length-append {0} p (b'/' ∷ more)))
  sub_path-take (suc fuel) k h b (inr (more, e)) =
      let cut = find_last-Cut p more in
      let i = cut.at_slash in
      let shorter : i < k =
        omega (arith, find_last-lt b'/' _ i cut.found, ap length e, length-take k path h) in
      let taken : take i (p ++ b'/' ∷ more) ≡ take i path =
        ap (take i) (sym e) ∙ take-take i k path (omega arith) in
      ap (λ c. sub_path (suc (suc fuel)) p path c (drop k path)) e
      ∙ sub_path_cut (suc fuel) p path (p ++ b'/' ∷ more) (drop k path) i (longer p more) cut.found
      ∙ ap (λ c. sub_path (suc fuel) p path c (drop i path)) taken
      ∙ sub_path-take fuel i (omega arith) (omega arith) (rw taken at cut.under)

  from_first_cut :
      (i : ℕ)
      → i < length path
      → IsUnder p (take i path)
      → sub_path (length path) p path (take i path) (drop i path) ≡ b'/' ∷ rest
  from_first_cut i h u =
      let fuel : length path ≡ suc (length p + length rest) =
        omega (arith, length-append {0} p (b'/' ∷ rest)) in
      rw fuel (sub_path-take (length p + length rest) i (omega arith) (omega arith) u)

  -- The loop from the path itself.
  pub sub_path-path : sub_path (suc (length path)) p path path path ≡ b'/' ∷ rest
  sub_path-path =
      let cut = find_last-Cut p rest in
      let i = cut.at_slash in
      let shorter : i < length path = find_last-lt b'/' path i cut.found in
      sub_path_cut (length path) p path path path i (longer p rest) cut.found
      ∙ from_first_cut i shorter cut.under
