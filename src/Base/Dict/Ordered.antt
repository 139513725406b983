-- ===== src/Base/Dict/Ordered.antt =====
-- The order of the keys of a `std::map`, which an insertion keeps.
use mathlib.Core.Path.{◌≡◌, refl}
use mathlib.Core.Bool.{true, false}
use mathlib.Core.List.{List, [], ◌∷◌, ◌++◌}
use native.Mathlib.Omega.{arith}
use bigtable_postgres_blog_s.Base.Dict.{insert}
use bigtable_postgres_blog_s.Base.Lists.{All}
use bigtable_postgres_blog_s.Base.Text.{Bytes, str_eq, str_eq_iff, str_lt}

str_lt_irrefl : (a : Bytes) → str_lt a a ≡ false
unfolding str_lt
str_lt_irrefl [] = refl
str_lt_irrefl (x ∷ a) = ground (arith, str_lt_irrefl a)

str_lt_asymm : (a b : Bytes) → str_lt a b ≡ true → str_lt b a ≡ false
unfolding str_lt
str_lt_asymm [] [] h = cc
str_lt_asymm [] (y ∷ b) h = refl
str_lt_asymm (x ∷ a) [] h = cc
str_lt_asymm (x ∷ a) (y ∷ b) h = ground (arith, str_lt_asymm a b)

pub str_lt_trans : (a b c : Bytes) → str_lt a b ≡ true → str_lt b c ≡ true → str_lt a c ≡ true
unfolding str_lt
str_lt_trans a [] c h k = ground arith
str_lt_trans a (y ∷ b) [] h k = cc
str_lt_trans [] (y ∷ b) (z ∷ c) h k = refl
str_lt_trans (x ∷ a) (y ∷ b) (z ∷ c) h k = ground (arith, str_lt_trans a b c)

-- Two texts are equal, or one is before the other.
str_lt_total : (a b : Bytes) → str_eq a b ≡ false → str_lt a b ≡ false → str_lt b a ≡ true
unfolding str_lt str_eq
str_lt_total [] [] h k = cc
str_lt_total [] (y ∷ b) h k = cc
str_lt_total (x ∷ a) [] h k = refl
str_lt_total (x ∷ a) (y ∷ b) h k = ground (arith, str_lt_total a b)

str_lt-str_eq : (a b : Bytes) → str_lt a b ≡ true → str_eq a b ≡ false
str_lt-str_eq a b h = ground (arith, str_eq_iff a b, str_lt_irrefl a)

module _ {ℓ} {V : Type ℓ} where
  -- All keys are behind `k`, or before it.
  abbrev pub Behind : Bytes → List (Bytes × V) → Type 0
  Behind k [] = Unit
  Behind k ((j, v) ∷ m) = (str_lt k j ≡ true) × Behind k m

  abbrev pub Before : Bytes → List (Bytes × V) → Type 0
  Before k [] = Unit
  Before k ((j, v) ∷ m) = (str_lt j k ≡ true) × Before k m

  -- The keys ascend.
  abbrev pub Sorted : List (Bytes × V) → Type 0
  Sorted [] = Unit
  Sorted ((k, v) ∷ m) = Behind k m × Sorted m

  Behind-trans : (i k : Bytes) (m : List (Bytes × V)) → str_lt i k ≡ true → Behind k m → Behind i m
  Behind-trans i k [] h t = tt
  Behind-trans i k ((j, v) ∷ m) h (x, t) = (str_lt_trans i k j h x, Behind-trans i k m h t)

  Behind-insert :
      (i k : Bytes) (v : V) (m : List (Bytes × V))
      → str_lt i k ≡ true
      → Behind i m
      → Behind i (insert k v m)
  unfolding insert
  Behind-insert i k v [] h t = (h, tt)
  Behind-insert i k v ((j, w) ∷ m) h (x, t) = ground (arith, Behind-insert i k v m h t)

  -- `m[k] = v` keeps the keys in order.
  pub insert-Sorted : (k : Bytes) (v : V) (m : List (Bytes × V)) → Sorted m → Sorted (insert k v m)
  unfolding insert
  insert-Sorted k v [] t = (tt, tt)
  insert-Sorted k v ((j, w) ∷ m) (x, t) = ground (
    arith,
    str_eq_iff j k,
    str_lt_total k j,
    str_eq_iff k j,
    Behind-trans k j m,
    Behind-insert j k v m,
    insert-Sorted k v m t,
  )

  -- A key behind all others goes to the end.
  pub insert_last :
      (k : Bytes) (v : V) (m : List (Bytes × V)) → Before k m → insert k v m ≡ m ++ (k, v) ∷ []
  unfolding insert
  insert_last k v [] t = refl
  insert_last k v ((j, w) ∷ m) (x, t) =
      ground (arith, str_lt-str_eq j k x, str_lt_asymm j k x, insert_last k v m t)

  Behind-Before :
      (j k : Bytes) (v : V) (m n : List (Bytes × V))
      → Behind j (m ++ (k, v) ∷ n)
      → str_lt j k ≡ true
  Behind-Before j k v [] n (x, t) = x
  Behind-Before j k v ((i, w) ∷ m) n (x, t) = Behind-Before j k v m n t

  pub Sorted-Before :
      (k : Bytes) (v : V) (m n : List (Bytes × V)) → Sorted (m ++ (k, v) ∷ n) → Before k m
  Sorted-Before k v [] n t = tt
  Sorted-Before k v ((j, w) ∷ m) n (x, t) = (Behind-Before j k v m n x, Sorted-Before k v m n t)

  -- What holds of a new entry and of all others holds of all after the insertion.
  pub insert-All :
      (P : Bytes × V → Type 0) (k : Bytes) (v : V) (m : List (Bytes × V))
      → P (k, v)
      → All P m
      → All P (insert k v m)
  unfolding insert
  insert-All P k v [] p t = (p, tt)
  insert-All P k v ((j, w) ∷ m) p (x, t) = ground (arith, insert-All P k v m p t)
