-- ===== src/ConfigParser/Members.antt =====
-- `find` in the sets and lists of names of src/NginxConfigParser.cc.
use bigtable_postgres_blog_s.Base.{true, List, [], ◌∷◌, ◌++◌, ◌≡◌, ◌⊎◌, arith, Bool-cases, inl, inr}
use bigtable_postgres_blog_s.Base.Text.{Bytes, str_eq, str_eq_iff, str_eq_refl}
use bigtable_postgres_blog_s.Config.{member}

pub member-append :
    (t : Bytes) (xs ys : List Bytes) → member t xs ≡ true → member t (xs ++ ys) ≡ true
unfolding member
member-append t [] ys h = cc
member-append t (x ∷ xs) ys h = ground (arith, member-append t xs ys)

pub member-concat : (t : Bytes) (xs : List Bytes) → member t (xs ++ t ∷ []) ≡ true
unfolding member
member-concat t [] = rw (str_eq_refl t)
member-concat t (x ∷ xs) = ground (arith, member-concat t xs)

pub member-concat_cases :
    (t k : Bytes) (xs : List Bytes)
    → member t (xs ++ k ∷ []) ≡ true
    → (member t xs ≡ true) ⊎ (k ≡ t)
unfolding member
member-concat_cases t k [] h = elim (Bool-cases (str_eq k t)) [
  | inl same ↦ inr ((str_eq_iff k t).0 same)
  | inr other ↦ let x = rw other at h in cc
]
member-concat_cases t k (x ∷ xs) h = elim (Bool-cases (str_eq x t)) [
  | inl same ↦ inl (rw same)
  | inr other ↦ rw other (member-concat_cases t k xs (rw other at h))
]
