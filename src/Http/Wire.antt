-- ===== src/Http/Wire.antt =====
-- What the client sees of a response.
use bigtable_postgres_blog_s.Base.{some, ◌≡◌, ◌≢◌, arith, length}
use bigtable_postgres_blog_s.Base.Dict.{lookup, lookup-insert}
use bigtable_postgres_blog_s.Base.Int.{ℤ}
use bigtable_postgres_blog_s.Base.Text.Decimal.{print_nat}
use bigtable_postgres_blog_s.Base.Text.{Bytes, codes, str_eq}
use bigtable_postgres_blog_s.Http.Library.{to_buffer, respond}
use bigtable_postgres_blog_s.Http.Messages.{ok, moved_temporarily, not_found}
use bigtable_postgres_blog_s.Http.StatusStrings

-- The status line of every code but 200, 302 and 404 is that of 400.
pub to_buffer_other :
    (status : ℤ)
    → status ≢ ok
    → status ≢ moved_temporarily
    → status ≢ not_found
    → to_buffer status ≡ StatusStrings.bad_request
unfolding to_buffer
to_buffer_other status a b c = ground arith

-- A response that a handler builds from a body has the body's length and its type as headers.
pub respond_headers :
    (status : ℤ) (body mime : Bytes)
    → (lookup (codes "Content-Length") (respond status body mime).headers
        ≡ some (print_nat (length body)))
      × (lookup (codes "Content-Type") (respond status body mime).headers ≡ some mime)
unfolding respond str_eq
respond_headers status body mime = (simp lookup-insert, simp lookup-insert)
