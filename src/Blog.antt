-- ===== src/Blog.antt =====
-- Blog posts: `struct Blog` of include/blog.h and the interface of include/database.h; the children
-- are its implementations and the handler that serves it.
pub mod Stores
pub mod MockDatabase
pub mod Postgres
pub mod Bigtable
pub mod Decode
pub mod Form
pub mod Handler
mod Tests
use bigtable_postgres_blog_s.Base.{List, [], ◌∷◌, ◌++◌, ◌≡◌, ◌≢◌, Bool, ◌&&◌}
use bigtable_postgres_blog_s.Base.Int.{ℤ, pos, negsuc, int_eq}
use bigtable_postgres_blog_s.Base.Text.{Bytes, str_eq}

pub record Blog : Type 0 where
  pub postid : ℤ
  pub title : Bytes
  pub body : Bytes

-- `operator==`
unfoldable pub blog_eq : Blog → Blog → Bool
blog_eq a b = int_eq a.postid b.postid && str_eq a.title b.title && str_eq a.body b.body

-- The sentinel of `get_blog`.
abbrev pub no_blog : Blog
no_blog = record { postid = negsuc 0; title = []; body = [] }

-- The pure virtual functions of `database`, over the state `S` of an implementation.
pub record Database (S : Type 0) : Type 0 where
  pub insert_blog : Bytes → Bytes → S → ℤ × S
  pub get_blog : ℤ → S → Blog
  pub get_all_blogs : S → List Blog
