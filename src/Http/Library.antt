-- ===== src/Http/Library.antt =====
-- `ResponseHelperLibrary` of src/response_helper_library.cc. A buffer is the bytes it holds.
use bigtable_postgres_blog_s.Base.{if◌then◌else◌, List, [], ◌∷◌, length}
use bigtable_postgres_blog_s.Base.Dict.{insert}
use bigtable_postgres_blog_s.Base.Int.{ℤ, int_eq}
use bigtable_postgres_blog_s.Base.Text.Decimal.{print_nat}
use bigtable_postgres_blog_s.Base.Text.{Bytes, codes}
use bigtable_postgres_blog_s.Http.Messages.{Response, ok, moved_temporarily, bad_request, not_found}
use bigtable_postgres_blog_s.Http.StatusStrings
use bigtable_postgres_blog_s.Http.StockResponses

-- `misc_strings`
abbrev pub name_value_separator : Bytes
name_value_separator = codes ": "

abbrev pub crlf : Bytes
crlf = codes "\r\n"

unfoldable pub to_buffer : ℤ → Bytes
to_buffer status =
    if int_eq status ok
    then StatusStrings.ok
    else if int_eq status bad_request
    then StatusStrings.bad_request
    else if int_eq status not_found
    then StatusStrings.not_found
    else if int_eq status moved_temporarily
    then StatusStrings.moved_temporarily
    else StatusStrings.bad_request

-- The loop over the headers; then the empty line and the body.
unfoldable pub header_buffers : List (Bytes × Bytes) → Bytes → List Bytes
header_buffers [] body = crlf ∷ body ∷ []
header_buffers ((name, value) ∷ hs) body =
    name ∷ name_value_separator ∷ value ∷ crlf ∷ header_buffers hs body

unfoldable pub to_buffers : Response → List Bytes
unfolding to_buffer header_buffers
to_buffers r = to_buffer r.code ∷ header_buffers r.headers r.body

unfoldable pub to_string : ℤ → Bytes
to_string status =
    if int_eq status bad_request
    then StockResponses.bad_request
    else if int_eq status not_found
    then StockResponses.not_found
    else StockResponses.bad_request

-- `headers_["Content-Length"] = …size(); headers_["Content-Type"] = …`, which ends every handler
abbrev pub content_headers : Bytes → Bytes → List (Bytes × Bytes) → List (Bytes × Bytes)
content_headers body mime hs =
    insert (codes "Content-Type") mime
      (insert (codes "Content-Length") (print_nat (length body)) hs)

-- A response with a body of the given type, as the handlers build it from an empty one.
unfoldable pub respond : ℤ → Bytes → Bytes → Response
respond status body mime = record {
  code = status;
  headers = content_headers body mime [];
  body = body;
}

unfoldable pub stock_response : ℤ → Response
unfolding to_string respond
stock_response status = respond status (to_string status) (codes "text/html")
