-- ===== src/RequestParser/Segments.antt =====
-- Each lemma runs the parser over one part of the request line, with any `rest` behind it.
use bigtable_postgres_blog_s.Base.{
  ℕ, ◌-◌, true, false, [], ◌∷◌, ◌++◌, ◌≡◌, ◌≢◌, ◌∙◌, arith, append-nil, append_assoc, All,
}
use bigtable_postgres_blog_s.Base.Int.{ℤ, pos, mul10_add}
use bigtable_postgres_blog_s.Base.Text.{Bytes, codes}
use bigtable_postgres_blog_s.Http.{is_char, is_ctl, is_tspecial, is_digit, RequestBuilder}
use bigtable_postgres_blog_s.RequestParser.{
  indeterminate, State, RequestParser, step, consume, after, parse, step_method, step_uri,
  add_major, add_minor,
}

-- The bytes of a token of HTTP: ASCII, no control and no separator.
abbrev pub IsToken : ℕ → Type 0
IsToken c = (is_char c ≡ true) × (is_ctl c ≡ false) × (is_tspecial c ≡ false)

abbrev pub IsUri : ℕ → Type 0
IsUri c = (is_ctl c ≡ false) × (c ≢ b' ')

abbrev pub IsDigit : ℕ → Type 0
IsDigit c = is_digit c ≡ true

-- What the parser reads goes to `fullmessage` too.
abbrev pub took : Bytes → RequestBuilder → RequestBuilder
took xs req = record req { fullmessage = req.fullmessage ++ xs }

abbrev pub at : State → RequestParser → RequestParser
at s p = record p { state = s }

pub parse-consume :
    (c : ℕ) (rest : Bytes) (p p' : RequestParser) (req req' : RequestBuilder)
    → consume p req c ≡ (indeterminate, p', req')
    → parse p req (c ∷ rest) ≡ parse p' req' rest
unfolding parse after
parse-consume c rest p p' req req' h = rw h

consume-method :
    (c : ℕ) (p : RequestParser) (req : RequestBuilder)
    → IsToken c
    → consume (at State.method p) req c ≡ (
      indeterminate,
      at State.method p,
      took (c ∷ []) (record req { method = req.method ++ c ∷ [] }),
    )
unfolding consume step step_method is_tspecial
consume-method c p req t = ground arith

pub parse-method :
    (xs rest : Bytes) (p : RequestParser) (req : RequestBuilder)
    → All IsToken xs
    → parse (at State.method p) req (xs ++ rest)
      ≡ parse (at State.method p) (took xs (record req { method = req.method ++ xs })) rest
parse-method [] rest p req t = simp append-nil
parse-method (c ∷ xs) rest p req (t, ts) =
    parse-consume c (xs ++ rest) _ _ _ _ (consume-method c p req t)
    ∙ parse-method xs rest p _ ts
    ∙ simp append_assoc

consume-uri :
    (c : ℕ) (p : RequestParser) (req : RequestBuilder)
    → IsUri c
    → consume (at State.uri p) req c
      ≡ (indeterminate, at State.uri p, took (c ∷ []) (record req { uri = req.uri ++ c ∷ [] }))
unfolding consume step step_uri
consume-uri c p req t = ground arith

pub parse-uri :
    (xs rest : Bytes) (p : RequestParser) (req : RequestBuilder)
    → All IsUri xs
    → parse (at State.uri p) req (xs ++ rest)
      ≡ parse (at State.uri p) (took xs (record req { uri = req.uri ++ xs })) rest
parse-uri [] rest p req t = simp append-nil
parse-uri (c ∷ xs) rest p req (t, ts) =
    parse-consume c (xs ++ rest) _ _ _ _ (consume-uri c p req t)
    ∙ parse-uri xs rest p _ ts
    ∙ simp append_assoc

-- The number that the parser reads from digits.
abbrev pub read_version : ℤ → Bytes → ℤ
read_version n [] = n
read_version n (d ∷ ds) = read_version (mul10_add n (d - b'0')) ds

consume-major :
    (c : ℕ) (p : RequestParser) (req : RequestBuilder)
    → IsDigit c
    → consume (at State.http_version_major p) req c
      ≡ (indeterminate, at State.http_version_major p, took (c ∷ []) (add_major req c))
unfolding consume step is_digit
consume-major c p req t = ground arith

pub parse-major :
    (ds rest : Bytes) (p : RequestParser) (req : RequestBuilder)
    → All IsDigit ds
    → parse (at State.http_version_major p) req (ds ++ rest)
      ≡ parse
          (at State.http_version_major p)
          (took ds (record req { http_version_major = read_version req.http_version_major ds }))
          rest
parse-major [] rest p req t = simp append-nil
parse-major (c ∷ ds) rest p req (t, ts) =
    parse-consume c (ds ++ rest) _ _ _ _ (consume-major c p req t)
    ∙ parse-major ds rest p _ ts
    ∙ simp append_assoc

consume-minor :
    (c : ℕ) (p : RequestParser) (req : RequestBuilder)
    → IsDigit c
    → consume (at State.http_version_minor p) req c
      ≡ (indeterminate, at State.http_version_minor p, took (c ∷ []) (add_minor req c))
unfolding consume step is_digit
consume-minor c p req t = ground arith

pub parse-minor :
    (ds rest : Bytes) (p : RequestParser) (req : RequestBuilder)
    → All IsDigit ds
    → parse (at State.http_version_minor p) req (ds ++ rest)
      ≡ parse
          (at State.http_version_minor p)
          (took ds (record req { http_version_minor = read_version req.http_version_minor ds }))
          rest
parse-minor [] rest p req t = simp append-nil
parse-minor (c ∷ ds) rest p req (t, ts) =
    parse-consume c (ds ++ rest) _ _ _ _ (consume-minor c p req t)
    ∙ parse-minor ds rest p _ ts
    ∙ simp append_assoc

pub parse-protocol :
    (rest : Bytes) (p : RequestParser) (req : RequestBuilder)
    → parse (at State.uri p) req (codes " HTTP/" ++ rest)
      ≡ parse
          (at State.http_version_major_start p)
          (took
            (codes " HTTP/")
            (record req { http_version_major = pos 0; http_version_minor = pos 0 }))
          rest
unfolding parse step step_uri
parse-protocol rest p req = simp append_assoc

pub parse-minor_end :
    (rest : Bytes) (p : RequestParser) (req : RequestBuilder)
    → parse (at State.http_version_minor p) req (codes "\r\n" ++ rest)
      ≡ parse (at State.header_line_start p) (took (codes "\r\n") req) rest
unfolding parse step
parse-minor_end rest p req = simp append_assoc
