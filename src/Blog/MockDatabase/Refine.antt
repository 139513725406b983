-- ===== src/Blog/MockDatabase/Refine.antt =====
-- src/mock_database.cc against what include/database.h promises: a list of the posts' texts, and runs
-- of operations on it.
use bigtable_postgres_blog_s.Base.{
  ℕ, zero, suc, ◌+◌, ◌<◌, List, [], ◌∷◌, ◌++◌, Option, none, some, ◌≡◌, refl, sym, ap, ◌∙◌, arith,
  length, length-append, get_elem?,
}
use bigtable_postgres_blog_s.Base.Int.{
  ℤ, pos, negsuc, pred_int, int_limit, int_of_size_small, to_size,
}
use bigtable_postgres_blog_s.Base.Text.Decimal.{FitsInt}
use bigtable_postgres_blog_s.Base.Text.{Bytes}
use bigtable_postgres_blog_s.Blog.MockDatabase.{mock_database, insert_blog, get_blog, get_all_blogs}
use bigtable_postgres_blog_s.Blog.{Blog, no_blog, Database}

abbrev pub Posts : Type 0
Posts = List (Bytes × Bytes)

abbrev blog_of : ℕ → Bytes × Bytes → Blog
blog_of k (title, body) = record { postid = pos k; title = title; body = body }

-- The posts in order, numbered from `k + 1` on.
abbrev pub numbered : ℕ → Posts → List Blog
numbered k [] = []
numbered k (p ∷ ps) = blog_of (suc k) p ∷ numbered (suc k) ps

-- The post in the place `k` from 1 on, or the sentinel.
abbrev post_at : ℕ → Option (Bytes × Bytes) → Blog
post_at k none = no_blog
post_at k (some p) = blog_of k p

abbrev find_post : ℤ → Posts → Blog
find_post (pos zero) ps = no_blog
find_post (pos (suc k)) ps = post_at (suc k) (get_elem? ps k)
find_post (negsuc k) ps = no_blog

-- What a database promises: a new post has the next number, and stays under it.
abbrev pub posts_database : Database Posts
posts_database = record {
  insert_blog = λ title body ps. (pos (length ps + 1), ps ++ (title, body) ∷ []);
  get_blog = find_post;
  get_all_blogs = numbered 0;
}

pub data Operation : Type 0 where
  insertion : (title body : Bytes) → Operation
  reading : (postid : ℤ) → Operation
  listing : Operation

pub data Answer : Type 0 where
  number : ℤ → Answer
  post : Blog → Answer
  posts : List Blog → Answer

-- The answers to a run of operations.
abbrev pub run : {S : Type 0} → Database S → List Operation → S → List Answer
run db [] s = []
run db (insertion title body ∷ ops) s =
    number (db.insert_blog title body s).0 ∷ run db ops (db.insert_blog title body s).1
run db (reading postid ∷ ops) s = post (db.get_blog postid s) ∷ run db ops s
run db (listing ∷ ops) s = posts (db.get_all_blogs s) ∷ run db ops s

-- The numbers that are asked for are of an `int`.
abbrev pub AsksInts : List Operation → Type 0
AsksInts [] = Unit
AsksInts (insertion title body ∷ ops) = AsksInts ops
AsksInts (reading postid ∷ ops) = FitsInt postid × AsksInts ops
AsksInts (listing ∷ ops) = AsksInts ops

length-numbered : (k : ℕ) (ps : Posts) → length (numbered k ps) ≡ length ps
length-numbered k [] = refl
length-numbered k (p ∷ ps) = ap suc (length-numbered (suc k) ps)

numbered-append :
    (k : ℕ) (ps : Posts) (p : Bytes × Bytes)
    → numbered k (ps ++ p ∷ []) ≡ numbered k ps ++ blog_of (k + length ps + 1) p ∷ []
numbered-append k [] p = ap (λ n. blog_of n p ∷ []) (omega arith)
numbered-append k (q ∷ ps) p =
    ap (◌∷◌ (blog_of (suc k) q)) (
      numbered-append (suc k) ps p
      ∙ ap (λ n. numbered (suc k) ps ++ blog_of n p ∷ []) (omega arith))

-- What `get_blog` makes of a place in the vector.
abbrev or_sentinel : Option Blog → Blog
or_sentinel none = no_blog
or_sentinel (some blog) = blog

get_elem?-numbered :
    (k i : ℕ) (ps : Posts)
    → or_sentinel (get_elem? (numbered k ps) i) ≡ post_at (suc (k + i)) (get_elem? ps i)
get_elem?-numbered k i [] = refl
get_elem?-numbered k zero (p ∷ ps) = ap (λ n. blog_of n p) (omega arith)
get_elem?-numbered k (suc i) (p ∷ ps) =
    get_elem?-numbered (suc k) i ps ∙ ap (λ n. post_at n (get_elem? ps i)) (omega arith)

get_elem?-beyond : (xs : List Blog) (i : ℕ) → length xs < suc i → get_elem? xs i ≡ none
get_elem?-beyond [] i h = refl
get_elem?-beyond (x ∷ xs) zero h = absurd (omega arith)
get_elem?-beyond (x ∷ xs) (suc i) h = get_elem?-beyond xs i (omega arith)

get_blog-elem :
    (postid : ℤ) (db : List Blog)
    → get_blog postid db ≡ or_sentinel (get_elem? db (to_size (pred_int postid)))
unfolding get_blog
get_blog-elem postid db = ground arith

missing :
    (postid : ℤ) (ps : Posts)
    → length ps < suc (to_size (pred_int postid))
    → get_blog postid (numbered 0 ps) ≡ no_blog
missing postid ps h =
    get_blog-elem postid (numbered 0 ps)
    ∙ ap or_sentinel (
        get_elem?-beyond (numbered 0 ps) (to_size (pred_int postid))
          (omega (arith, length-numbered 0 ps)))

get_blog-numbered :
    (postid : ℤ) (ps : Posts)
    → FitsInt postid
    → length ps < int_limit
    → get_blog postid (numbered 0 ps) ≡ find_post postid ps
unfolding pred_int
get_blog-numbered (pos zero) ps f h = missing (pos zero) ps (omega arith)
get_blog-numbered (pos (suc k)) ps f h =
    get_blog-elem (pos (suc k)) (numbered 0 ps)
    ∙ get_elem?-numbered 0 k ps
    ∙ ap (λ n. post_at n (get_elem? ps k)) (omega arith)
get_blog-numbered (negsuc k) ps f h = missing (negsuc k) ps (ground arith)

insert_blog-numbered :
    (title body : Bytes) (ps : Posts)
    → length ps + 1 < int_limit
    → insert_blog title body (numbered 0 ps)
      ≡ (pos (length ps + 1), numbered 0 (ps ++ (title, body) ∷ []))
unfolding insert_blog
insert_blog-numbered title body ps h =
    rw (length-numbered 0 ps, int_of_size_small (length ps + 1) h)
      (ap (λ db. (pos (length ps + 1), db))
        (sym (
          numbered-append 0 ps (title, body)
          ∙ ap (λ n. numbered 0 ps ++ blog_of n (title, body) ∷ []) (omega arith))))

all_blogs : (db : List Blog) → get_all_blogs db ≡ db
unfolding get_all_blogs
all_blogs db = refl

-- Every run of operations on the mock database has the answers that the list of posts gives, from a
-- database that holds the list. The numbers asked for are of an `int`, and so are those of the posts.
pub run-numbered :
    (ops : List Operation) (ps : Posts)
    → AsksInts ops
    → length ps + length ops < int_limit
    → run mock_database ops (numbered 0 ps) ≡ run posts_database ops ps
run-numbered [] ps t h = refl
run-numbered (insertion title body ∷ ops) ps t h =
    rw (insert_blog-numbered title body ps (omega arith)) (
      ap (◌∷◌ (number (pos (length ps + 1)))) (
        run-numbered ops (ps ++ (title, body) ∷ []) t
          (omega (arith, length-append {0} ps ((title, body) ∷ [])))))
run-numbered (reading postid ∷ ops) ps (f, t) h =
    rw (get_blog-numbered postid ps f (omega arith))
      (ap (◌∷◌ (post (find_post postid ps))) (run-numbered ops ps t (omega arith)))
run-numbered (listing ∷ ops) ps t h =
    rw (all_blogs (numbered 0 ps))
      (ap (◌∷◌ (posts (numbered 0 ps))) (run-numbered ops ps t (omega arith)))
