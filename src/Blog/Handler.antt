-- ===== src/Blog/Handler.antt =====
-- `blog_upload_request_handler` of src/blog_upload_request_handler.cc, over any `database`. `none`
-- is an exception that `handle_request` lets through.
pub mod TrailingSlash
pub mod Posts
use bigtable_postgres_blog_s.Base.{
  ℕ, zero, suc, ◌+◌, ◌-◌, Bool, true, false, not, ◌&&◌, ◌||◌, List, [], ◌∷◌, ◌++◌, Option, none,
  some, ◌==◌, leb, ltb, if◌then◌else◌, length, drop, get_elem?,
}
use bigtable_postgres_blog_s.Base.Dict.{lookup, insert}
use bigtable_postgres_blog_s.Base.Int.{ℤ, pos, negsuc, is_neg}
use bigtable_postgres_blog_s.Base.Text.Decimal.{print_int, print_nat, is_digit_byte, stoi}
use bigtable_postgres_blog_s.Base.Text.{Bytes, codes, contains}
use bigtable_postgres_blog_s.Blog.Decode.{urldecode}
use bigtable_postgres_blog_s.Blog.Form.{parse_request_body}
use bigtable_postgres_blog_s.Blog.{Blog, Database}
use bigtable_postgres_blog_s.Http.Library.{respond, content_headers}
use bigtable_postgres_blog_s.Http.{MethodEnum, get, Request, Response, ok, moved_temporarily}

-- The page of one post, and the page that says that there is none.
unfoldable pub page_start : Bytes
page_start =
    codes "<!DOCTYPE html>\n<html>\n    <head>\n        <meta charset='utf-8'>\n"
    ++ codes
        "        <title>Blog Post</title>\n    </head>\n    <body style=\"text-align:center;\">\n      <h1>\n"

unfoldable pub error_page : Bytes
unfolding page_start
error_page =
    page_start
    ++ (codes "Error: Unable to get blog entry from id."
        ++ (codes "</h1>\n"
            ++ (codes "<p>\nPlease use a valid id number</p>\n\n" ++ codes "</body>\n</html>\n")))

unfoldable pub blog_page : Blog → Bytes
unfolding page_start
blog_page blog =
    page_start
    ++ (blog.title
        ++ (codes "</h1>\n"
            ++ (codes "<p>\n"
                ++ (blog.body
                    ++ (codes "</p>\n"
                        ++ (codes
                              "</body>\n<div style=\"position: fixed;bottom: 0;right: 0;\">POSTID: "
                            ++ (print_int blog.postid ++ codes "</div></html>\n")))))))

-- The page of all posts.
unfoldable pub list_start : Bytes
list_start =
    codes "<!DOCTYPE html>\n<html>\n    <head>\n        <meta charset='utf-8'>\n"
    ++ codes
        "        <title>All Blogs</title>\n    </head>\n    <body style=\"text-align:center;\">\n"

unfoldable pub list_entry : Blog → Bytes
list_entry blog =
    codes "<div>*****POSTID: "
    ++ (print_int blog.postid
        ++ (codes "*****</div>"
            ++ (codes "<h1>\n"
                ++ (blog.title
                    ++ (codes "</h1>\n"
                        ++ (codes "<p>\n"
                            ++ (blog.body
                                ++ (codes "</p>\n"
                                    ++ codes
                                        "<div>-------------------------------------------------------------------------------------</div>"))))))))

unfoldable pub list_entries : List Blog → Bytes
unfolding list_entry
list_entries [] = codes "</body>\n</html>\n"
list_entries (blog ∷ blogs) = list_entry blog ++ list_entries blogs

unfoldable pub is_number : Bytes → Bool
is_number [] = false
is_number (c ∷ []) = is_digit_byte c
is_number (c ∷ d ∷ s) = is_digit_byte c && is_number (d ∷ s)

-- `form_to_value_[key]`, which is empty where there is no such field
unfoldable pub field : Bytes → List (Bytes × Bytes) → Bytes
field key form = elim (lookup key form) [ none ↦ [] | some v ↦ v ]

-- Whether the last byte is a slash; an empty prefix, where the source reads out of bounds, has none.
unfoldable pub ends_with_slash : Bytes → Bool
ends_with_slash [] = false
ends_with_slash (c ∷ []) = c == b'/'
ends_with_slash (c ∷ d ∷ s) = ends_with_slash (d ∷ s)

unfoldable pub blog_location : Bytes → ℤ → Bytes
unfolding ends_with_slash
blog_location prefix postid =
    if ends_with_slash prefix
    then prefix ++ print_int postid
    else prefix ++ (codes "/" ++ print_int postid)

module _ {S : Type 0} (db : Database S) (location_prefix : Bytes) where
  unfoldable pub handle_get_one_blog : ℤ → S → Response
  handle_get_one_blog postid s =
      let blog = db.get_blog postid s in
      respond ok (if is_neg blog.postid then error_page else blog_page blog) (codes "text/html")

  unfoldable pub handle_get_all_blogs : S → Response
  unfolding list_start list_entries
  handle_get_all_blogs s =
      respond ok (list_start ++ list_entries (db.get_all_blogs s)) (codes "text/html")

  unfoldable pub handle_post_blog : Bytes → Bytes → S → Response × S
  unfolding blog_location
  handle_post_blog title body s =
      let (postid, s') = db.insert_blog title body s in
      (
        record {
          code = moved_temporarily;
          headers =
              insert (codes "Location") (blog_location location_prefix postid)
                (content_headers [] (codes "text/html") []);
          body = [];
        },
        s',
      )

  -- The branches of a GET behind the test for the list; `remain` is the URI behind the prefix.
  unfoldable pub get_remain : Bytes → S → Option Response
  unfolding handle_get_one_blog is_number
  get_remain remain s =
      if leb (length remain) 1 || not (is_number (drop 1 remain))
      then some (handle_get_one_blog (negsuc 0) s)
      else elim (stoi (drop 1 remain)) [
        | none ↦ none
        | some postid ↦ some (handle_get_one_blog postid s)
      ]

  -- `substr` throws where the prefix is longer than the URI.
  unfoldable pub handle_get : Bytes → S → Option Response
  unfolding get_remain handle_get_all_blogs
  handle_get uri s =
      if ltb (length uri) (length location_prefix)
      then none
      else if contains uri (location_prefix ++ codes "/")
      then some (handle_get_all_blogs s)
      else get_remain (drop (length location_prefix) uri) s

  unfoldable pub handle_post : Bytes → S → Response × S
  unfolding handle_post_blog field
  handle_post request_body s =
      let form = parse_request_body (urldecode request_body) in
      handle_post_blog (field (codes "submissiontitle") form) (field (codes "submissionbody") form)
        s

  abbrev with_state : S → Option Response → Option (Response × S)
  with_state s none = none
  with_state s (some r) = some (r, s)

  -- Every method but GET posts.
  unfoldable pub handle_request : Request → S → Option (Response × S)
  unfolding handle_get handle_post
  handle_request req s = elim req.method [
    | get ↦ with_state s (handle_get req.uri s)
    | _ ↦ some (handle_post req.body s)
  ]
