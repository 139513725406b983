-- ===== src/Dispatcher/Register.antt =====
-- What `create_handler_mapping` of src/request_dispatcher.cc leaves in the map.
use mathlib.Core.Option.{some-injective}
use bigtable_postgres_blog_s.Base.{
  true, List, [], ◌∷◌, Option, some, ◌≡◌, sym, inl, inr, Bool-cases, Option-cases,
}
use bigtable_postgres_blog_s.Base.Dict.{lookup, put, lookup-put}
use bigtable_postgres_blog_s.Base.Text.{Bytes, str_eq, str_eq_iff}
use bigtable_postgres_blog_s.Config.{NginxConfig, member}
use bigtable_postgres_blog_s.Dispatcher.{register, branch, register_all}
use bigtable_postgres_blog_s.Handlers.{RequestHandler}

abbrev pub Present : Bytes → List (Bytes × RequestHandler) → Type 0
Present k d = (h : RequestHandler) × (lookup k d ≡ some h)

put-Present :
    (k j : Bytes) (h : RequestHandler) (d : List (Bytes × RequestHandler))
    → Present j d
    → Present j (put k h d)
put-Present k j h d (g, e) = elim (Bool-cases (str_eq k j)) [
  | inl same ↦ (h, rw (lookup-put k j h d) (rw same))
  | inr other ↦ (g, rw (lookup-put k j h d) (rw other e))
]

put-Present_new :
    (k j : Bytes) (h : RequestHandler) (d : List (Bytes × RequestHandler))
    → str_eq k j ≡ true
    → Present j (put k h d)
put-Present_new k j h d same = (h, rw (lookup-put k j h d) (rw same))

-- A step of `register` that succeeds.
register_step :
    (init : Bytes → Option RequestHandler) (x : Bytes) (xs : List Bytes)
    (d d' : List (Bytes × RequestHandler))
    → register init (x ∷ xs) d ≡ some d'
    → (h : RequestHandler) × (register init xs (put x h d) ≡ some d')
unfolding register
register_step init x xs d d' e = elim (Option-cases (init x)) [
  | inl thrown ↦ let k = rw (thrown, register) at e in cc
  | inr (h, made) ↦ (h, rw (made, register) at e)
]

module _ (init : Bytes → Option RequestHandler) where
  register-keeps :
      (xs : List Bytes) (k : Bytes) (d d' : List (Bytes × RequestHandler))
      → register init xs d ≡ some d'
      → Present k d
      → Present k d'
  register-keeps [] k d d' e (h, p) = (h, rw (some-injective d d' (unfold register in e)) at p)
  register-keeps (x ∷ xs) k d d' e p =
      let (h, r) = register_step init x xs d d' e in
      register-keeps xs k (put x h d) d' r (put-Present x k h d p)

  register-member :
      (xs : List Bytes) (k : Bytes) (d d' : List (Bytes × RequestHandler))
      → register init xs d ≡ some d'
      → member k xs ≡ true
      → Present k d'
  unfolding member
  register-member [] k d d' e m = cc
  register-member (x ∷ xs) k d d' e m =
      let (h, r) = register_step init x xs d d' e in
      elim (Bool-cases (str_eq x k)) [
        | inl same ↦ register-keeps xs k (put x h d) d' r (put-Present_new x k h d same)
        | inr other ↦ register-member xs k (put x h d) d' r (rw other at m)
      ]

register_all_step :
    (config : NginxConfig) (t : Bytes) (ts : List Bytes) (d d' : List (Bytes × RequestHandler))
    → register_all config (t ∷ ts) d ≡ some d'
    → (d'' : List (Bytes × RequestHandler)) × (register (branch config t).0 (branch config t).1 d
        ≡ some d'')
      × (register_all config ts d'' ≡ some d')
unfolding register_all
register_all_step config t ts d d' e =
    elim (Option-cases (register (branch config t).0 (branch config t).1 d)) [
      | inl thrown ↦ let k = rw (thrown, register_all) at e in cc
      | inr (d'', made) ↦ (d'', made, rw (made, register_all) at e)
    ]

register_all-keeps :
    (config : NginxConfig) (ts : List Bytes) (k : Bytes) (d d' : List (Bytes × RequestHandler))
    → register_all config ts d ≡ some d'
    → Present k d
    → Present k d'
register_all-keeps config [] k d d' e (h, p) =
    (h, rw (some-injective d d' (unfold register_all in e)) at p)
register_all-keeps config (t ∷ ts) k d d' e p =
    let (d'', made, r) = register_all_step config t ts d d' e in
    register_all-keeps config ts k d'' d' r
      (register-keeps (branch config t).0 (branch config t).1 k d d'' made p)

pub register_all-member :
    (config : NginxConfig) (ts : List Bytes) (t k : Bytes) (d d' : List (Bytes × RequestHandler))
    → register_all config ts d ≡ some d'
    → member t ts ≡ true
    → member k (branch config t).1 ≡ true
    → Present k d'
unfolding member
register_all-member config [] t k d d' e m l = cc
register_all-member config (x ∷ ts) t k d d' e m l =
    let (d'', made, r) = register_all_step config x ts d d' e in
    elim (Bool-cases (str_eq x t)) [
      | inl same ↦ register_all-keeps config ts k d'' d' r (
          register-member (branch config x).0 (branch config x).1 k d d'' made
            (rw (sym ((str_eq_iff x t).0 same)) at l))
      | inr other ↦ register_all-member config ts t k d'' d' r (rw other at m) l
    ]
