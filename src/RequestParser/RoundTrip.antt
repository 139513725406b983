-- ===== src/RequestParser/RoundTrip.antt =====
-- A well-formed request, printed, is read back.
use bigtable_postgres_blog_s.Base.{
  ℕ, suc, Bool, false, ◌||◌, List, [], ◌∷◌, ◌++◌, ◌≡◌, refl, ◌∙◌, append-nil, append_assoc, All,
  length, or-false, or_assoc,
}
use bigtable_postgres_blog_s.Base.Int.{ℤ, pos, pred_int}
use bigtable_postgres_blog_s.Base.Text.{Bytes, codes}
use bigtable_postgres_blog_s.Http.{Header, RequestBuilder}
use bigtable_postgres_blog_s.RequestParser.Count.{declared}
use bigtable_postgres_blog_s.RequestParser.HeaderLines.{
  IsHeader, is_keep_alive, print_headers, sized_all, with_headers, parse-print_headers,
}
use bigtable_postgres_blog_s.RequestParser.RequestLine.{
  FitsLine, print_line, with_line, parse-print_line,
}
use bigtable_postgres_blog_s.RequestParser.Segments.{took, at, parse-consume, read_version}
use bigtable_postgres_blog_s.RequestParser.{
  good, indeterminate, State, RequestParser, step, consume, Parsed, parse, step_header_line_start,
  step_body, new_parser, new_builder,
}

-- The parts of a request, as the client writes them.
pub record Message : Type 0 where
  pub method : Bytes
  pub uri : Bytes
  pub major : Bytes
  pub minor : Bytes
  pub headers : List Header
  pub body : Bytes

abbrev pub any_keep_alive : List Header → Bool
any_keep_alive [] = false
any_keep_alive (h ∷ hs) = is_keep_alive h || any_keep_alive hs

abbrev pub print : Message → Bytes
print m =
    print_line m.method m.uri m.major m.minor
    ++ (print_headers m.headers ++ (codes "\r\n" ++ m.body))

pub record IsMessage (m : Message) : Type 0 where
  pub line_fits : FitsLine m.method m.uri m.major m.minor
  pub headers_fit : All IsHeader m.headers
  pub body_fits : declared (pos 0) m.headers ≡ pos (length m.body)

-- The builder that holds a message; `size` is what stands in `bodysize` before.
abbrev pub built : ℤ → Message → RequestBuilder
built size m = record {
  method = m.method;
  uri = m.uri;
  http_version_major = read_version (pos 0) m.major;
  http_version_minor = read_version (pos 0) m.minor;
  headers = m.headers;
  bodysize = declared size m.headers;
  body = m.body;
  fullmessage = print m;
  keep_alive = any_keep_alive m.headers;
}

abbrev sized_at : State → ℤ → RequestParser
sized_at s n = record { state = s; contentsize = n }

consume-body :
    (c : ℕ) (n : ℕ) (req : RequestBuilder)
    → consume (sized_at State.expecting_body (pos (suc (suc n)))) req c ≡ (
      indeterminate,
      sized_at State.expecting_body (pos (suc n)),
      took (c ∷ []) (record req { body = req.body ++ c ∷ [] }),
    )
unfolding consume step step_body pred_int
consume-body c n req = refl

parse_body_last :
    (c : ℕ) (req : RequestBuilder)
    → parse (sized_at State.expecting_body (pos 1)) req (c ∷ []) ≡ record {
      result = good;
      rest = [];
      parser = sized_at State.expecting_body (pos 0);
      builder = took (c ∷ []) (record req { body = req.body ++ c ∷ [] });
    }
unfolding parse step step_body pred_int
parse_body_last c req = refl

parse-body :
    (c : ℕ) (b : Bytes) (req : RequestBuilder)
    → parse (sized_at State.expecting_body (pos (suc (length b)))) req (c ∷ b) ≡ record {
      result = good;
      rest = [];
      parser = sized_at State.expecting_body (pos 0);
      builder = took (c ∷ b) (record req { body = req.body ++ c ∷ b });
    }
parse-body c [] req = parse_body_last c req
parse-body c (d ∷ b) req =
    parse-consume c (d ∷ b) _ _ _ _ (consume-body c (length b) req)
    ∙ parse-body d b (took (c ∷ []) (record req { body = req.body ++ c ∷ [] }))
    ∙ simp append_assoc

-- What `parse` returns at the end of a message.
abbrev pub IsRead : Parsed → RequestBuilder → Type 0
IsRead r req = (r.result ≡ good) × (r.rest ≡ []) × (r.builder ≡ req)

parse_empty_line :
    (c : ℕ) (b : Bytes) (n : ℕ) (req : RequestBuilder)
    → parse (sized_at State.header_line_start (pos (suc n))) req (b'\r' ∷ b'\n' ∷ c ∷ b)
      ≡ parse (sized_at State.expecting_body (pos (suc n))) (took (codes "\r\n") req) (c ∷ b)
unfolding parse step step_header_line_start
parse_empty_line c b n req = simp append_assoc

parse_no_body :
    (req : RequestBuilder)
    → IsRead
        (parse (sized_at State.header_line_start (pos 0)) req (codes "\r\n"))
        (took (codes "\r\n") req)
unfolding parse step step_header_line_start
parse_no_body req = (refl, refl, simp append_assoc)

parse_end :
    (b : Bytes) (req : RequestBuilder)
    → IsRead
        (parse (sized_at State.header_line_start (pos (length b))) req (codes "\r\n" ++ b))
        (took (codes "\r\n" ++ b) (record req { body = req.body ++ b }))
parse_end [] req = simp append-nil (parse_no_body req)
parse_end (c ∷ b) req =
    rw (parse_empty_line c b (length b) req ∙ parse-body c b (took (codes "\r\n") req))
      (refl, refl, simp append_assoc)

sized_all-declared :
    (hs : List Header) (p : RequestParser)
    → sized_all hs p ≡ record p { contentsize = declared p.contentsize hs }
sized_all-declared [] p = refl
sized_all-declared (h ∷ hs) p = sized_all-declared hs _

with_headers_lem :
    (hs : List Header) (req : RequestBuilder)
    → with_headers hs req
      ≡ took (print_headers hs) (record req {
        headers = req.headers ++ hs;
        bodysize = declared req.bodysize hs;
        keep_alive = req.keep_alive || any_keep_alive hs;
      })
with_headers_lem [] req = simp (append-nil, or-false)
with_headers_lem (h ∷ hs) req = with_headers_lem hs _ ∙ simp (append_assoc, or_assoc)

-- A well-formed request is accepted whole. The builder then holds its parts: the method, the URI,
-- the two numbers of its version, the headers in order, the body, and whether one of the headers
-- asks to keep the connection; `bodysize` is the length that the headers announce.
pub parse-print :
    (major minor size : ℤ) (m : Message)
    → IsMessage m
    → IsRead (parse new_parser (new_builder major minor size) (print m)) (built size m)
parse-print major minor size m i =
    let req = new_builder major minor size in
    let after_line =
      took (print_line m.method m.uri m.major m.minor)
        (with_line m.method m.uri m.major m.minor req) in
    let done = took (print_headers m.headers) (record after_line {
      headers = m.headers;
      bodysize = declared size m.headers;
      keep_alive = any_keep_alive m.headers;
    }) in
    let (result, rest, builder) = parse_end m.body done in
    rw
      (parse-print_line m.method m.uri m.major m.minor
          (print_headers m.headers ++ (codes "\r\n" ++ m.body)) req i.line_fits
        ∙ parse-print_headers m.headers (codes "\r\n" ++ m.body)
            (at State.header_line_start new_parser) after_line i.headers_fit)
      (rw (sized_all-declared, with_headers_lem, i.body_fits)
        (result, rest, builder ∙ simp append_assoc))
