-- ===== src/RequestParser.antt =====
-- `request_parser` of src/request_parser.cc and include/request_parser.h: the state machine that
-- takes a request byte by byte.
mod Steps
pub mod Segments
pub mod HeaderLines
pub mod RequestLine
pub mod RoundTrip
pub mod Version
pub mod Chunks
pub mod Count
pub mod Fields
pub mod Tests
pub use Steps.*
unfoldable pub use Steps.{
  reset, step_method, step_uri, step_header_line_start, step_header_lws, step_header_name,
  keep_alive_line, end_header, step_header_value, step_body,
}
use bigtable_postgres_blog_s.Base.{
  ℕ, ◌-◌, Bool, true, false, not, ◌&&◌, ◌||◌, List, [], ◌∷◌, ◌++◌, none, some, ◌==◌, leb,
  if◌then◌else◌,
}
use bigtable_postgres_blog_s.Base.Int.{ℤ, pos, is_zero, mul10_add, pred_int, to_size}
use bigtable_postgres_blog_s.Base.Text.Decimal.{stoi}
use bigtable_postgres_blog_s.Base.Text.{Bytes, codes, case_eq}
use bigtable_postgres_blog_s.Http.{
  is_char, is_ctl, is_tspecial, is_digit, is_token, Header, push_name, push_value, back,
  start_header, RequestBuilder,
}

-- The `switch` of `consume`.
unfoldable pub step : State → RequestParser → RequestBuilder → ℕ → Outcome
unfolding step_method step_uri step_header_line_start step_header_lws step_header_name
    step_header_value step_body
step method_start p req c =
    if not (is_char c) || is_ctl c || is_tspecial c
    then reject p req
    else goto method p (record req { method = req.method ++ c ∷ [] })
step method p req c = step_method p req c
step uri p req c = step_uri p req c
step http_version_h p req c = expect b'H' http_version_t_1 p req c
step http_version_t_1 p req c = expect b'T' http_version_t_2 p req c
step http_version_t_2 p req c = expect b'T' http_version_p p req c
step http_version_p p req c = expect b'P' http_version_slash p req c
step http_version_slash p req c =
    expect b'/' http_version_major_start p
      (if c == b'/'
        then record req { http_version_major = pos 0; http_version_minor = pos 0 }
        else req)
      c
step http_version_major_start p req c =
    if is_digit c then goto http_version_major p (add_major req c) else reject p req
step http_version_major p req c =
    if c == b'.'
    then goto http_version_minor_start p req
    else if is_digit c
    then (indeterminate, p, add_major req c)
    else reject p req
step http_version_minor_start p req c =
    if is_digit c then goto http_version_minor p (add_minor req c) else reject p req
step http_version_minor p req c =
    if c == b'\r'
    then goto expecting_newline_1 p req
    else if is_digit c
    then (indeterminate, p, add_minor req c)
    else reject p req
step expecting_newline_1 p req c = expect b'\n' header_line_start p req c
step header_line_start p req c = step_header_line_start p req c
step header_lws p req c = step_header_lws p req c
step header_name p req c = step_header_name p req c
step space_before_header_value p req c = expect b' ' header_value p req c
step header_value p req c = step_header_value p req c
step expecting_newline_2 p req c = expect b'\n' header_line_start p req c
step expecting_newline_3 p req c =
    if is_zero p.contentsize
    then (if c == b'\n' then good else bad, p, req)
    else goto expecting_body p req
step expecting_body p req c = step_body p req c

unfoldable pub consume : RequestParser → RequestBuilder → ℕ → Outcome
consume p req c = step p.state p (record req { fullmessage = req.fullmessage ++ c ∷ [] }) c

-- What `parse` returns, with the input that it has not consumed, and the state it leaves.
pub record Parsed : Type 0 where
  pub result : ResultType
  pub rest : Bytes
  pub parser : RequestParser
  pub builder : RequestBuilder

-- One round of the loop of `parse` has returned; `more` is the loop on the input that is left.
unfoldable pub after : Outcome → Bytes → Parsed → Parsed
after (indeterminate, p, req) cs more = more
after (bad, p, req) cs more = record { result = bad; rest = cs; parser = p; builder = req }
after (good, p, req) [] more = record { result = good; rest = []; parser = p; builder = req }
after (good, p, req) (c ∷ cs) more = record {
  result = bad;
  rest = c ∷ cs;
  parser = p;
  builder = req;
}

unfoldable pub parse : RequestParser → RequestBuilder → Bytes → Parsed
unfolding consume after
parse p req [] = record { result = indeterminate; rest = []; parser = p; builder = req }
parse p req (c ∷ cs) = let o = consume p req c in let more = parse o.1 o.2 cs in after o cs more

-- The builder as its constructor makes it; the three numbers are not initialised.
abbrev pub new_builder : ℤ → ℤ → ℤ → RequestBuilder
new_builder major minor size = record {
  method = [];
  uri = [];
  http_version_major = major;
  http_version_minor = minor;
  headers = [];
  bodysize = size;
  body = [];
  fullmessage = [];
  keep_alive = false;
}
