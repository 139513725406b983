-- ===== src/RequestParser/RequestLine.antt =====
-- The parser over the whole request line, which is put together from its segments.
use bigtable_postgres_blog_s.Base.{ℕ, [], ◌∷◌, ◌++◌, ◌≡◌, ◌≢◌, refl, ◌∙◌, arith, append_assoc, All}
use bigtable_postgres_blog_s.Base.Int.{pos}
use bigtable_postgres_blog_s.Base.Text.{Bytes, codes}
use bigtable_postgres_blog_s.Http.{RequestBuilder}
use bigtable_postgres_blog_s.RequestParser.Segments.{
  IsToken, IsUri, IsDigit, took, at, parse-consume, parse-method, parse-uri, read_version,
  parse-major, parse-minor, parse-protocol, parse-minor_end,
}
use bigtable_postgres_blog_s.RequestParser.{
  indeterminate, State, RequestParser, step, consume, parse, step_method, add_major, add_minor,
  new_parser,
}

consume_method_start :
    (c : ℕ) (req : RequestBuilder)
    → IsToken c
    → consume new_parser req c ≡ (
      indeterminate,
      at State.method new_parser,
      took (c ∷ []) (record req { method = req.method ++ c ∷ [] }),
    )
unfolding consume step
consume_method_start c req t = ground arith

consume_method_end :
    (p : RequestParser) (req : RequestBuilder)
    → consume (at State.method p) req b' ' ≡ (indeterminate, at State.uri p, took (b' ' ∷ []) req)
unfolding consume step step_method
consume_method_end p req = refl

consume_major_start :
    (c : ℕ) (req : RequestBuilder)
    → IsDigit c
    → consume (at State.http_version_major_start new_parser) req c
      ≡ (indeterminate, at State.http_version_major new_parser, took (c ∷ []) (add_major req c))
unfolding consume step
consume_major_start c req t = ground arith

consume_minor_start :
    (c : ℕ) (req : RequestBuilder)
    → IsDigit c
    → consume (at State.http_version_minor_start new_parser) req c
      ≡ (indeterminate, at State.http_version_minor new_parser, took (c ∷ []) (add_minor req c))
unfolding consume step
consume_minor_start c req t = ground arith

consume_major_end :
    (p : RequestParser) (req : RequestBuilder)
    → consume (at State.http_version_major p) req b'.'
      ≡ (indeterminate, at State.http_version_minor_start p, took (b'.' ∷ []) req)
unfolding consume step
consume_major_end p req = refl

-- The method and the space behind it.
pub parse_method_line :
    (m rest : Bytes) (req : RequestBuilder)
    → All IsToken m
    → m ≢ []
    → parse new_parser req (m ++ b' ' ∷ rest)
      ≡ parse
          (at State.uri new_parser)
          (took (m ++ b' ' ∷ []) (record req { method = req.method ++ m }))
          rest
parse_method_line [] rest req t ne = absurd (ne refl)
parse_method_line (c ∷ m) rest req (t, ts) ne =
    parse-consume c (m ++ b' ' ∷ rest) _ _ _ _ (consume_method_start c req t)
    ∙ parse-method m (b' ' ∷ rest) new_parser
        (took (c ∷ []) (record req { method = req.method ++ c ∷ [] })) ts
    ∙ parse-consume b' ' rest _ _ _ _ (consume_method_end new_parser _)
    ∙ simp append_assoc

-- The minor version and the end of the line.
parse_minor_line :
    (minor rest : Bytes) (req : RequestBuilder)
    → All IsDigit minor
    → minor ≢ []
    → parse (at State.http_version_minor_start new_parser) req (minor ++ (codes "\r\n" ++ rest))
      ≡ parse
          (at State.header_line_start new_parser)
          (took
            (minor ++ codes "\r\n")
            (record req { http_version_minor = read_version req.http_version_minor minor }))
          rest
parse_minor_line [] rest req t ne = absurd (ne refl)
parse_minor_line (d ∷ minor) rest req (t, ts) ne =
    let r = took (d ∷ []) (add_minor req d) in
    let q =
      took minor (record r { http_version_minor = read_version r.http_version_minor minor }) in
    parse-consume d (minor ++ (codes "\r\n" ++ rest)) _ _ _ _ (consume_minor_start d req t)
    ∙ parse-minor minor (codes "\r\n" ++ rest) new_parser r ts
    ∙ parse-minor_end rest new_parser q
    ∙ simp append_assoc

-- The major version and the dot.
parse_major_line :
    (major rest : Bytes) (req : RequestBuilder)
    → All IsDigit major
    → major ≢ []
    → parse (at State.http_version_major_start new_parser) req (major ++ b'.' ∷ rest)
      ≡ parse
          (at State.http_version_minor_start new_parser)
          (took
            (major ++ b'.' ∷ [])
            (record req { http_version_major = read_version req.http_version_major major }))
          rest
parse_major_line [] rest req t ne = absurd (ne refl)
parse_major_line (d ∷ major) rest req (t, ts) ne =
    let r = took (d ∷ []) (add_major req d) in
    let q =
      took major (record r { http_version_major = read_version r.http_version_major major }) in
    parse-consume d (major ++ b'.' ∷ rest) _ _ _ _ (consume_major_start d req t)
    ∙ parse-major major (b'.' ∷ rest) new_parser r ts
    ∙ parse-consume b'.' rest _ _ _ _ (consume_major_end new_parser q)
    ∙ simp append_assoc

-- What the parser takes as a request line.
pub record FitsLine (method uri major minor : Bytes) : Type 0 where
  pub method_tokens : All IsToken method
  pub method_ne_nil : method ≢ []
  pub uri_bytes : All IsUri uri
  pub major_digits : All IsDigit major
  pub major_ne_nil : major ≢ []
  pub minor_digits : All IsDigit minor
  pub minor_ne_nil : minor ≢ []

abbrev pub print_line : Bytes → Bytes → Bytes → Bytes → Bytes
print_line method uri major minor =
    method
    ++ (codes " " ++ (uri ++ (codes " HTTP/" ++ (major ++ (codes "." ++ (minor ++ codes "\r\n"))))))

-- The builder with the request line's parts.
abbrev pub with_line : Bytes → Bytes → Bytes → Bytes → RequestBuilder → RequestBuilder
with_line method uri major minor req = record req {
  method = req.method ++ method;
  uri = req.uri ++ uri;
  http_version_major = read_version (pos 0) major;
  http_version_minor = read_version (pos 0) minor;
}

pub parse-print_line :
    (method uri major minor rest : Bytes) (req : RequestBuilder)
    → FitsLine method uri major minor
    → parse new_parser req (print_line method uri major minor ++ rest)
      ≡ parse
          (at State.header_line_start new_parser)
          (took (print_line method uri major minor) (with_line method uri major minor req))
          rest
parse-print_line method uri major minor rest req f =
    let versions = major ++ (codes "." ++ (minor ++ (codes "\r\n" ++ rest))) in
    let r1 = took (method ++ b' ' ∷ []) (record req { method = req.method ++ method }) in
    let r2 = took uri (record r1 { uri = r1.uri ++ uri }) in
    let r3 =
      took (codes " HTTP/")
        (record r2 { http_version_major = pos 0; http_version_minor = pos 0 }) in
    let r4 =
      took (major ++ b'.' ∷ [])
        (record r3 { http_version_major = read_version r3.http_version_major major }) in
    simp append_assoc (
      parse_method_line method (uri ++ (codes " HTTP/" ++ versions)) req f.method_tokens
        f.method_ne_nil
      ∙ parse-uri uri (codes " HTTP/" ++ versions) new_parser r1 f.uri_bytes
      ∙ parse-protocol versions new_parser r2
      ∙ parse_major_line major (minor ++ (codes "\r\n" ++ rest)) r3 f.major_digits f.major_ne_nil
      ∙ parse_minor_line minor rest r4 f.minor_digits f.minor_ne_nil
      ∙ simp append_assoc)
