-- ===== src/Blog/Tests.antt =====
-- The properties of the blog's handler and of its databases, at concrete posts.
use bigtable_postgres_blog_s.Base.{
  ◌+◌, true, false, List, [], ◌∷◌, ◌++◌, Option, some, ◌≡◌, refl, arith, length,
}
use bigtable_postgres_blog_s.Base.Dict.{lookup, insert}
use bigtable_postgres_blog_s.Base.Int.{pos, negsuc, int_of_size}
use bigtable_postgres_blog_s.Base.Text.Decimal.{print_nat, print_int}
use bigtable_postgres_blog_s.Base.Text.{codes, str_eq, str_lt}
use bigtable_postgres_blog_s.Blog.Decode.{urldecode, urlencode, urldecode-urlencode}
use bigtable_postgres_blog_s.Blog.Form.{
  parse_request_body, print_fields, insert_fields, parse-print_fields, without_equals,
}
use bigtable_postgres_blog_s.Blog.Handler.Posts.{encode_form, handle_post-encode_form}
use bigtable_postgres_blog_s.Blog.Handler.TrailingSlash.{handle_get-location_slash}
use bigtable_postgres_blog_s.Blog.Handler.{
  ends_with_slash, error_page, handle_get, handle_post, handle_post_blog,
}
use bigtable_postgres_blog_s.Blog.MockDatabase.Refine.{
  Operation, insertion, reading, listing, posts_database, numbered, run, run-numbered,
}
use bigtable_postgres_blog_s.Blog.MockDatabase.{insert_blog, mock_database}
use bigtable_postgres_blog_s.Blog.Postgres.{Pqxx}
use bigtable_postgres_blog_s.Blog.Postgres
use bigtable_postgres_blog_s.Blog.{Blog}
use bigtable_postgres_blog_s.Http.Library.{respond}
use bigtable_postgres_blog_s.Http.{ok}

abbrev first : Blog
first = record { postid = pos 1; title = codes "Day 1"; body = codes "a+b=c" }

abbrev stored : List Blog
stored = first ∷ []

-- A post, a read of it and of another, and the list.
abbrev operations : List Operation
operations =
    insertion (codes "Day 2") (codes "x") ∷ reading (pos 2) ∷ reading (pos 7) ∷ listing ∷ []

run-numbered_example :
    run mock_database operations (numbered 0 ((codes "Day 1", codes "a+b=c") ∷ []))
    ≡ run posts_database operations ((codes "Day 1", codes "a+b=c") ∷ [])
run-numbered_example =
    run-numbered operations ((codes "Day 1", codes "a+b=c") ∷ []) (omega arith, (omega arith, tt))
      (omega arith)

urldecode-urlencode_example :
    urldecode (urlencode (codes "a+b=c & d") ++ codes "&x")
    ≡ codes "a+b=c & d" ++ urldecode (codes "&x")
urldecode-urlencode_example = urldecode-urlencode (codes "a+b=c & d") (codes "&x") (omega arith)

parse-print_fields_example :
    parse_request_body (print_fields (codes "a") (codes "x=y") ((codes "b", codes "z") ∷ []))
    ≡ insert_fields [] ((codes "a", codes "x=y") ∷ (codes "b", codes "z") ∷ [])
parse-print_fields_example =
    parse-print_fields (codes "a") (codes "x=y") ((codes "b", codes "z") ∷ []) (ground arith)
      (ground arith)

handle_post-encode_form_example :
    handle_post mock_database (codes "/blog") (encode_form (codes "Day 1") (codes "a+b=c")) []
    ≡ handle_post_blog mock_database
        (codes "/blog")
        (without_equals (codes "Day 1"))
        (without_equals (codes "a+b=c"))
        []
handle_post-encode_form_example =
    handle_post-encode_form mock_database (codes "/blog") (codes "Day 1") (codes "a+b=c") []
      (omega arith) (omega arith) (ground arith) (ground arith)

no_slash : ends_with_slash (codes "/blog") ≡ false
unfolding ends_with_slash
no_slash = refl

with_slash : ends_with_slash (codes "/blog/") ≡ true
unfolding ends_with_slash
with_slash = refl

second_location :
    lookup
      (codes "Location")
      (handle_post_blog mock_database (codes "/blog") (codes "Day 2") (codes "x") stored).0.headers
    ≡ some (codes "/blog/2")
unfolding handle_post_blog ends_with_slash lookup insert str_eq str_lt print_nat insert_blog
    print_int int_of_size
second_location = refl

slash_location :
    lookup
      (codes "Location")
      (handle_post_blog mock_database (codes "/blog/") (codes "Day 2") (codes "x") stored).0.headers
    ≡ some (codes "/blog/2")
unfolding handle_post_blog ends_with_slash lookup insert str_eq str_lt print_nat insert_blog
    print_int int_of_size
slash_location = refl

handle_get-location_slash_example :
    handle_get mock_database
      (codes "/blog/")
      (codes "/blog/2")
      (handle_post_blog mock_database (codes "/blog/") (codes "Day 2") (codes "x") stored).1
    ≡ some (respond ok error_page (codes "text/html"))
handle_get-location_slash_example =
    handle_get-location_slash (codes "/blog/") (codes "Day 2") (codes "x") stored with_slash
      (omega arith) (codes "/blog/2") slash_location

-- A database that keeps its rows in a list and commits every transaction.
abbrev rows : List Blog → List (Option Blog)
rows [] = []
rows (b ∷ bs) = some b ∷ rows bs

abbrev in_memory : Pqxx (List Blog)
in_memory = record {
  exec_insert = λ title body s. some (
    pos (length s + 1) ∷ [],
    s ++ record { postid = pos (length s + 1); title = title; body = body } ∷ [],
  );
  commit = λ s inside. (true, inside);
  exec_get = λ id s. some (rows s);
  exec_all = λ s. some (rows s);
}

-- A commit that throws and has committed all the same: the answer is -1, and the post is stored.
abbrev in_doubt : Pqxx (List Blog)
in_doubt = record in_memory { commit = λ s inside. (false, inside) }

insert_blog_in_doubt :
    Postgres.insert_blog in_doubt (codes "Day 1") (codes "x") []
    ≡ (negsuc 0, record { postid = pos 1; title = codes "Day 1"; body = codes "x" } ∷ [])
unfolding Postgres.insert_blog Postgres.commit_row
insert_blog_in_doubt = refl
