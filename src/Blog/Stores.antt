-- ===== src/Blog/Stores.antt =====
-- What the blog handler relies on of an implementation of include/database.h.
use bigtable_postgres_blog_s.Base.{ℕ, ◌<◌, ◌≡◌}
use bigtable_postgres_blog_s.Base.Int.{pos, int_limit}
use bigtable_postgres_blog_s.Base.Text.{Bytes}
use bigtable_postgres_blog_s.Blog.{Database}

-- An insertion in the state `s` returns the number `id` of an `int`, which is not negative, and the post
-- stands under it.
pub record Stores {S : Type 0} (db : Database S) (title body : Bytes) (s : S) (id : ℕ)
    : Type 0 where
  pub id_fits : id < int_limit
  pub numbered : (db.insert_blog title body s).0 ≡ pos id
  pub found :
      db.get_blog (pos id) (db.insert_blog title body s).1
      ≡ record { postid = pos id; title = title; body = body }
