-- ===== src/Blog/Postgres.antt =====
-- `blog_database` of src/blog_database.cc over PostgreSQL. The client library libpqxx is a parameter:
-- what its statements return, and where they throw.
use bigtable_postgres_blog_s.Base.{
  Bool, true, if◌then◌else◌, ℕ, ◌<◌, ap, ◌∙◌, List, [], ◌∷◌, ◌++◌, Option, none, some, ◌≡◌, refl,
}
use bigtable_postgres_blog_s.Base.Int.{ℤ, pos, negsuc, int_limit}
use bigtable_postgres_blog_s.Base.Text.Decimal.{print_int}
use bigtable_postgres_blog_s.Base.Text.{Bytes, codes}
use bigtable_postgres_blog_s.Blog.Stores.{Stores}
use bigtable_postgres_blog_s.Blog.{Blog, no_blog, Database}

-- The connection, over the state `S` of the database. `none` is an exception. A row that does not
-- convert to a post is `none` too.
pub record Pqxx (S : Type 0) : Type 0 where
  -- the statement "insert_blog" in a transaction: the numbers returned, and the state inside it
  pub exec_insert : Bytes → Bytes → S → Option (List ℤ × S)
  -- `commit`, from the states before and inside the transaction: whether it returned, and the state
  -- after it. One that throws in doubt may have committed.
  pub commit : S → S → Bool × S
  -- the statement "get_blog" with the number as text
  pub exec_get : Bytes → S → Option (List (Option Blog))
  -- the statement "get_all_blogs"
  pub exec_all : S → Option (List (Option Blog))

-- The constructor's connection string.
unfoldable pub credentials : Bytes → Bytes → Bytes → Bytes → Bytes → Bytes
credentials dbname user password hostaddr port =
    codes "dbname = "
    ++ (dbname
        ++ (codes " user = "
            ++ (user
                ++ (codes " password = "
                    ++ (password
                        ++ (codes " hostaddr = " ++ (hostaddr ++ (codes " port = " ++ port))))))))

-- `R.at(0)` as a post: it throws where there is no row, or where the row does not convert.
abbrev first_blog : List (Option Blog) → Blog
first_blog [] = no_blog
first_blog (none ∷ _) = no_blog
first_blog (some blog ∷ _) = blog

-- The loop of `get_all_blogs`, which an exception ends.
abbrev collect_blogs : List (Option Blog) → List Blog
collect_blogs [] = []
collect_blogs (none ∷ _) = []
collect_blogs (some blog ∷ rows) = blog ∷ collect_blogs rows

module _ {S : Type 0} (c : Pqxx S) where
  -- After the rows: the number of the first, and the commit. The state after a commit that throws is
  -- the one that the library leaves.
  unfoldable pub commit_row : List ℤ → S → S → ℤ × S
  commit_row [] s' s = (negsuc 0, s)
  commit_row (postid ∷ _) s' s =
      let (committed, s'') = c.commit s s' in (if committed then postid else negsuc 0, s'')

  -- What throws before the commit leaves the database as it was.
  unfoldable pub insert_blog : Bytes → Bytes → S → ℤ × S
  unfolding commit_row
  insert_blog title body s = elim (c.exec_insert title body s) [
    | none ↦ (negsuc 0, s)
    | some (rows, s') ↦ commit_row rows s' s
  ]

  unfoldable pub get_blog : ℤ → S → Blog
  get_blog postid s = elim (c.exec_get (print_int postid) s) [
    | none ↦ no_blog
    | some rows ↦ first_blog rows
  ]

  unfoldable pub get_all_blogs : S → List Blog
  get_all_blogs s = elim (c.exec_all s) [ none ↦ [] | some rows ↦ collect_blogs rows ]

  abbrev pub blog_database : Database S
  blog_database = record {
    insert_blog = insert_blog;
    get_blog = get_blog;
    get_all_blogs = get_all_blogs;
  }

  -- The insertion is committed, with its first row's number.
  record Committed (title body : Bytes) (s : S) (r : ℤ × S) : Type 0 where
    others : List ℤ
    inside : S
    executed : c.exec_insert title body s ≡ some (r.0 ∷ others, inside)
    committed : c.commit s inside ≡ (true, r.1)

  -- A post stands in the database where the statement makes a row, the commit goes through, and the
  -- row is read back.
  blog_database-Stores :
      (title body : Bytes) (s : S) (n : ℕ) (done : S) (rows : List (Option Blog))
      → n < int_limit
      → Committed title body s (pos n, done)
      → c.exec_get (print_int (pos n)) done
        ≡ some (some (record { postid = pos n; title = title; body = body }) ∷ rows)
      → Stores blog_database title body s n
  unfolding insert_blog commit_row get_blog
  blog_database-Stores title body s n done rows fits run read =
      let inserted : insert_blog title body s ≡ (pos n, done) =
        rw (run.executed, insert_blog) (rw (run.committed) refl) in
      record {
        id_fits = fits;
        numbered = ap (λ r. r.0) inserted;
        found = ap (λ r. get_blog (pos n) r.1) inserted ∙ rw (read, get_blog) refl;
      }
