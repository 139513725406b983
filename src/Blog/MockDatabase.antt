-- ===== src/Blog/MockDatabase.antt =====
-- `mock_database` of src/mock_database.cc. The state is the vector `db_`; the lock makes each
-- operation one step, so no interleaving is seen inside one.
pub mod Refine
use bigtable_postgres_blog_s.Base.{
  ℕ, zero, suc, ◌+◌, ◌-◌, ◌<◌, List, [], ◌∷◌, ◌++◌, none, some, ◌≡◌, ◌≢◌, ◌⊎◌, inl, inr, refl, ◌∙◌,
  ap, sym, Option-cases, arith, length, length-append, get_elem?,
}
use bigtable_postgres_blog_s.Base.Int.{
  ℤ, pos, negsuc, pred_int, to_size, int_limit, int_of_size, int_of_size_small,
}
use bigtable_postgres_blog_s.Base.Text.Decimal.{FitsInt}
use bigtable_postgres_blog_s.Base.Text.{Bytes}
use native.Mathlib.Numerals.{add-one}
use bigtable_postgres_blog_s.Blog.Stores.{Stores}
use bigtable_postgres_blog_s.Blog.{Blog, no_blog, Database}

-- `postid = this->db_.size() + 1`, and the post behind the others
unfoldable pub insert_blog : Bytes → Bytes → List Blog → ℤ × List Blog
insert_blog title body db =
    let postid = int_of_size (length db + 1) in
    (postid, db ++ record { postid = postid; title = title; body = body } ∷ [])

-- `this->db_.at(postid - 1)`, where `at` throws out of range and the sentinel stays
unfoldable pub get_blog : ℤ → List Blog → Blog
get_blog postid db = elim (get_elem? db (to_size (pred_int postid))) [
  | none ↦ no_blog
  | some blog ↦ blog
]

unfoldable pub get_all_blogs : List Blog → List Blog
get_all_blogs db = db

abbrev pub mock_database : Database (List Blog)
mock_database = record {
  insert_blog = insert_blog;
  get_blog = get_blog;
  get_all_blogs = get_all_blogs;
}

get_elem?-append : (xs : List Blog) (x : Blog) → get_elem? (xs ++ x ∷ []) (length xs) ≡ some x
get_elem?-append [] x = refl
get_elem?-append (y ∷ xs) x = get_elem?-append xs x

get_elem?-append_lt :
    (xs : List Blog) (x : Blog) (i : ℕ)
    → i ≢ length xs
    → get_elem? (xs ++ x ∷ []) i ≡ get_elem? xs i
get_elem?-append_lt [] x zero h = absurd (h refl)
get_elem?-append_lt [] x (suc i) h = refl
get_elem?-append_lt (y ∷ xs) x zero h = refl
get_elem?-append_lt (y ∷ xs) x (suc i) h = get_elem?-append_lt xs x i (omega arith)

position : (n : ℕ) → to_size (pred_int (pos (n + 1))) ≡ n
position n = rw add-one (unfold pred_int in refl)

position-ne :
    (postid : ℤ) (n : ℕ)
    → FitsInt postid
    → n + 1 < int_limit
    → postid ≢ pos (n + 1)
    → to_size (pred_int postid) ≢ n
unfolding pred_int
position-ne (pos zero) n f h ne = λ e. omega arith
position-ne (pos (suc k)) n f h ne = λ e. ne (rw e (rw add-one))
position-ne (negsuc k) n f h ne = λ e. ground arith

-- The post that `insert_blog` stores is found under the number it returns, with that number, while
-- the numbers fit an `int`.
pub get_blog-insert_blog :
    (title body : Bytes) (db : List Blog)
    → length db + 1 < int_limit
    → get_blog (insert_blog title body db).0 (insert_blog title body db).1
      ≡ record { postid = pos (length db + 1); title = title; body = body }
unfolding get_blog insert_blog
get_blog-insert_blog title body db h =
    let blog : Blog = record { postid = pos (length db + 1); title = title; body = body } in
    rw (
      int_of_size_small (length db + 1) h,
      position (length db),
      get_elem?-append db blog,
      get_blog,
    )

inserted_number :
    (title body : Bytes) (db : List Blog)
    → length db + 1 < int_limit
    → (insert_blog title body db).0 ≡ pos (length db + 1)
unfolding insert_blog
inserted_number title body db k = int_of_size_small (length db + 1) k

pub mock_database-Stores :
    (title body : Bytes) (db : List Blog)
    → length db + 1 < int_limit
    → Stores mock_database title body db (length db + 1)
mock_database-Stores title body db k = record {
  id_fits = k;
  numbered = inserted_number title body db k;
  found = rw (inserted_number title body db k) at (get_blog-insert_blog title body db k);
}

-- Every other number finds what it found before.
pub get_blog-insert_blog_ne :
    (title body : Bytes) (db : List Blog) (postid : ℤ)
    → FitsInt postid
    → length db + 1 < int_limit
    → postid ≢ pos (length db + 1)
    → get_blog postid (insert_blog title body db).1 ≡ get_blog postid db
unfolding get_blog insert_blog
get_blog-insert_blog_ne title body db postid f h ne = rw (
  get_elem?-append_lt db
      (record { postid = int_of_size (length db + 1); title = title; body = body })
      (to_size (pred_int postid)) (position-ne postid (length db) f h ne),
  get_blog,
)

pub length-insert_blog :
    (title body : Bytes) (db : List Blog) → length (insert_blog title body db).1 ≡ length db + 1
unfolding insert_blog
length-insert_blog title body db = length-append db _

-- The posts are numbered from `k + 1` on, in order.
abbrev pub Numbered : ℕ → List Blog → Type 0
Numbered k [] = Unit
Numbered k (b ∷ bs) = (b.postid ≡ pos (suc k)) × Numbered (suc k) bs

Numbered-concat :
    (k : ℕ) (bs : List Blog) (b : Blog)
    → Numbered k bs
    → b.postid ≡ pos (k + length bs + 1)
    → Numbered k (bs ++ b ∷ [])
Numbered-concat k [] b t e = (e ∙ ap pos (omega arith), tt)
Numbered-concat k (c ∷ bs) b (x, t) e =
    (x, Numbered-concat (suc k) bs b t (e ∙ ap pos (omega arith)))

Numbered-get_elem? :
    (k i : ℕ) (bs : List Blog) (b : Blog)
    → Numbered k bs
    → get_elem? bs i ≡ some b
    → b.postid ≡ pos (suc (k + i))
Numbered-get_elem? k i [] b t e = cc
Numbered-get_elem? k zero (c ∷ bs) b (x, t) e = ground arith
Numbered-get_elem? k (suc i) (c ∷ bs) b (x, t) e =
    Numbered-get_elem? (suc k) i bs b t e ∙ ap pos (omega arith)

-- An insertion keeps the numbers those of the positions, from 1 on, while they fit an `int`.
pub insert_blog-Numbered :
    (title body : Bytes) (db : List Blog)
    → length db + 1 < int_limit
    → Numbered 0 db
    → Numbered 0 (insert_blog title body db).1
unfolding insert_blog
insert_blog-Numbered title body db h t =
    Numbered-concat 0 db _ t (int_of_size_small (length db + 1) h ∙ ap pos (omega arith))

size_position :
    (postid : ℤ) (i : ℕ)
    → FitsInt postid
    → to_size (pred_int postid) ≡ i
    → i < int_limit - 1
    → postid ≡ pos (suc i)
unfolding pred_int
size_position (pos zero) i f e h = absurd (omega arith)
size_position (pos (suc k)) i f e h = ap (λ n. pos (suc n)) e
size_position (negsuc k) i f e h = ground arith

get_elem?-lt : (bs : List Blog) (i : ℕ) (b : Blog) → get_elem? bs i ≡ some b → i < length bs
get_elem?-lt [] i b e = cc
get_elem?-lt (c ∷ bs) zero b e = omega arith
get_elem?-lt (c ∷ bs) (suc i) b e = omega (arith, get_elem?-lt bs i b e)

-- Of numbered posts, `get_blog` finds the one with the number asked for, or gives the sentinel.
pub get_blog-postid :
    (postid : ℤ) (db : List Blog)
    → FitsInt postid
    → length db < int_limit
    → Numbered 0 db
    → (get_blog postid db ≡ no_blog) ⊎ ((get_blog postid db).postid ≡ postid)
unfolding get_blog
get_blog-postid postid db f h t =
    let i = to_size (pred_int postid) in
    elim (Option-cases (get_elem? db i)) [
      | inl missing ↦ inl (rw (missing, get_blog))
      | inr (b, found) ↦ inr (
          rw (found, get_blog)
            (Numbered-get_elem? 0 i db b t found
              ∙ sym (
                  size_position postid (0 + i) f (omega arith)
                    (omega (arith, get_elem?-lt db i b found)))))
    ]
