-- ===== src/RequestParser/HeaderLines.antt =====
-- The parser over one header line, and over all of them.
use bigtable_postgres_blog_s.Base.{
  ℕ, Bool, true, false, ◌||◌, ◌&&◌, Option, some, List, [], ◌∷◌, ◌++◌, ◌≡◌, ◌≢◌, refl, ◌∙◌, arith,
  append-nil, append_assoc, All, Option-cases, inl, inr,
}
use bigtable_postgres_blog_s.Base.Int.{ℤ, pos, negsuc}
use bigtable_postgres_blog_s.Base.Text.Decimal.{stoi, stoi-FitsInt}
use bigtable_postgres_blog_s.Base.Text.{Bytes, codes, case_eq}
use bigtable_postgres_blog_s.Http.{
  is_ctl, is_tspecial, Header, back-concat, push_name-concat, push_value-concat, start_header,
  RequestBuilder,
}
use bigtable_postgres_blog_s.RequestParser.Count.{is_length, announced}
use bigtable_postgres_blog_s.RequestParser.Segments.{IsToken, took, at, parse-consume}
use bigtable_postgres_blog_s.RequestParser.{
  indeterminate, State, RequestParser, step, consume, parse, step_header_line_start,
  step_header_name, step_header_value, end_header,
}

-- The builder while a header is read behind those of `hs`.
abbrev holding : List Header → Bytes → Bytes → RequestBuilder → RequestBuilder
holding hs n v req = record req { headers = hs ++ record { name = n; value = v } ∷ [] }

consume_name_start :
    (c : ℕ) (p : RequestParser) (req : RequestBuilder)
    → IsToken c
    → consume (at State.header_line_start p) req c
      ≡ (indeterminate, at State.header_name p, took (c ∷ []) (holding req.headers (c ∷ []) [] req))
unfolding consume step step_header_line_start start_header is_tspecial is_ctl
consume_name_start c p req t = ground arith

consume-name :
    (c : ℕ) (hs : List Header) (n v : Bytes) (p : RequestParser) (req : RequestBuilder)
    → IsToken c
    → consume (at State.header_name p) (holding hs n v req) c
      ≡ (indeterminate, at State.header_name p, took (c ∷ []) (holding hs (n ++ c ∷ []) v req))
unfolding consume step step_header_name is_tspecial
consume-name c hs n v p req t = ground (arith, push_name-concat c hs n v)

parse-name :
    (xs rest : Bytes) (hs : List Header) (n v : Bytes) (p : RequestParser) (req : RequestBuilder)
    → All IsToken xs
    → parse (at State.header_name p) (holding hs n v req) (xs ++ rest)
      ≡ parse (at State.header_name p) (took xs (holding hs (n ++ xs) v req)) rest
parse-name [] rest hs n v p req t = simp append-nil
parse-name (c ∷ xs) rest hs n v p req (t, ts) =
    parse-consume c (xs ++ rest) _ _ _ _ (consume-name c hs n v p req t)
    ∙ parse-name xs rest hs (n ++ c ∷ []) v p (took (c ∷ []) req) ts
    ∙ simp append_assoc

parse-colon :
    (rest : Bytes) (p : RequestParser) (req : RequestBuilder)
    → parse (at State.header_name p) req (codes ": " ++ rest)
      ≡ parse (at State.header_value p) (took (codes ": ") req) rest
unfolding parse step step_header_name
parse-colon rest p req = simp append_assoc

consume-value :
    (c : ℕ) (hs : List Header) (n v : Bytes) (p : RequestParser) (req : RequestBuilder)
    → is_ctl c ≡ false
    → consume (at State.header_value p) (holding hs n v req) c
      ≡ (indeterminate, at State.header_value p, took (c ∷ []) (holding hs n (v ++ c ∷ []) req))
unfolding consume step step_header_value is_ctl
consume-value c hs n v p req t = ground (arith, push_value-concat c hs n v)

parse-value :
    (xs rest : Bytes) (hs : List Header) (n v : Bytes) (p : RequestParser) (req : RequestBuilder)
    → All (λ c. is_ctl c ≡ false) xs
    → parse (at State.header_value p) (holding hs n v req) (xs ++ rest)
      ≡ parse (at State.header_value p) (took xs (holding hs n (v ++ xs) req)) rest
parse-value [] rest hs n v p req t = simp append-nil
parse-value (c ∷ xs) rest hs n v p req (t, ts) =
    parse-consume c (xs ++ rest) _ _ _ _ (consume-value c hs n v p req t)
    ∙ parse-value xs rest hs n (v ++ c ∷ []) p (took (c ∷ []) req) ts
    ∙ simp append_assoc

abbrev pub is_keep_alive : Header → Bool
is_keep_alive h = case_eq h.name (codes "Connection") && case_eq h.value (codes "Keep-Alive")

-- A header that announces a length has one that `stoi` reads and `reserve` takes.
abbrev pub Announces : Bool → Option ℤ → Type 0
Announces true (some (pos n)) = Unit
Announces true _ = ⊥
Announces false _ = Unit

pub record IsHeader (h : Header) : Type 0 where
  pub name_tokens : All IsToken h.name
  pub name_ne_nil : h.name ≢ []
  pub value_text : All (λ c. is_ctl c ≡ false) h.value
  pub has_size : Announces (is_length h) (stoi h.value)

abbrev pub sized : Header → RequestParser → RequestParser
sized h p = record p { contentsize = announced p.contentsize h }

-- The builder with a header that has been read.
abbrev pub with_header : Header → RequestBuilder → RequestBuilder
with_header h req = record req {
  headers = req.headers ++ h ∷ [];
  bodysize = announced req.bodysize h;
  keep_alive = req.keep_alive || is_keep_alive h;
}

end_header_lem :
    (h : Header) (p : RequestParser) (req : RequestBuilder)
    → Announces (is_length h) (stoi h.value)
    → end_header p (record req { headers = req.headers ++ h ∷ [] })
      ≡ (indeterminate, at State.expecting_newline_2 (sized h p), with_header h req)
unfolding end_header
end_header_lem h p req a = elim (Option-cases (stoi h.value)) [
  | inl unread ↦ ground (arith, back-concat req.headers h)
  | inr (pos n, read) ↦
      ground (arith, back-concat req.headers h, stoi-FitsInt 10 h.value (pos n) read)
  | inr (negsuc n, read) ↦ ground (arith, back-concat req.headers h)
]

abbrev pub print_header : Header → Bytes
print_header h = h.name ++ (codes ": " ++ (h.value ++ codes "\r\n"))

consume-end_header :
    (p : RequestParser) (req : RequestBuilder)
    → consume (at State.header_value p) req b'\r'
      ≡ end_header (at State.header_value p) (took (b'\r' ∷ []) req)
unfolding consume step step_header_value
consume-end_header p req = refl

parse-newline :
    (rest : Bytes) (p : RequestParser) (req : RequestBuilder)
    → parse (at State.expecting_newline_2 p) req (b'\n' ∷ rest)
      ≡ parse (at State.header_line_start p) (took (b'\n' ∷ []) req) rest
unfolding parse step
parse-newline rest p req = refl

parse_line_end :
    (h : Header) (rest : Bytes) (p : RequestParser) (req : RequestBuilder)
    → Announces (is_length h) (stoi h.value)
    → parse
        (at State.header_value p)
        (record req { headers = req.headers ++ h ∷ [] })
        (codes "\r\n" ++ rest)
      ≡ parse
          (at State.header_line_start (sized h p))
          (took (codes "\r\n") (with_header h req))
          rest
parse_line_end h rest p req a =
    parse-consume b'\r' (b'\n' ∷ rest) _ _ _ _ (
      consume-end_header p _ ∙ end_header_lem h (at State.header_value p) (took (b'\r' ∷ []) req) a)
    ∙ parse-newline rest (sized h p) (took (b'\r' ∷ []) (with_header h req))
    ∙ simp append_assoc

-- A line is its name, a colon, a space, its value, and the line's end.
parse-name_value :
    (n v rest : Bytes) (p : RequestParser) (req : RequestBuilder)
    → IsHeader (record { name = n; value = v })
    → parse (at State.header_line_start p) req (n ++ (codes ": " ++ (v ++ (codes "\r\n" ++ rest))))
      ≡ parse
          (at State.header_line_start (sized (record { name = n; value = v }) p))
          (took
            (print_header (record { name = n; value = v }))
            (with_header (record { name = n; value = v }) req))
          rest
parse-name_value [] v rest p req i = absurd (i.name_ne_nil refl)
parse-name_value (c ∷ n) v rest p req i =
    let r = took (codes ": ") (took n (took (c ∷ []) req)) in
    parse-consume c _ _ _ _ _ (consume_name_start c p req i.name_tokens.0)
    ∙ parse-name n _ req.headers (c ∷ []) [] p (took (c ∷ []) req) i.name_tokens.1
    ∙ parse-colon _ p _
    ∙ parse-value v _ req.headers (c ∷ n) [] p r i.value_text
    ∙ parse_line_end (record { name = c ∷ n; value = v }) rest p (took v r) i.has_size
    ∙ simp append_assoc

-- One header line, from the start of a line to the start of the next.
parse-print_header :
    (h : Header) (rest : Bytes) (p : RequestParser) (req : RequestBuilder)
    → IsHeader h
    → parse (at State.header_line_start p) req (print_header h ++ rest)
      ≡ parse
          (at State.header_line_start (sized h p))
          (took (print_header h) (with_header h req))
          rest
parse-print_header h rest p req i = simp append_assoc (parse-name_value h.name h.value rest p req i)

abbrev pub print_headers : List Header → Bytes
print_headers [] = []
print_headers (h ∷ hs) = print_header h ++ print_headers hs

abbrev pub sized_all : List Header → RequestParser → RequestParser
sized_all [] p = p
sized_all (h ∷ hs) p = sized_all hs (sized h p)

abbrev pub with_headers : List Header → RequestBuilder → RequestBuilder
with_headers [] req = req
with_headers (h ∷ hs) req = with_headers hs (took (print_header h) (with_header h req))

-- All the header lines.
pub parse-print_headers :
    (hs : List Header) (rest : Bytes) (p : RequestParser) (req : RequestBuilder)
    → All IsHeader hs
    → parse (at State.header_line_start p) req (print_headers hs ++ rest)
      ≡ parse (at State.header_line_start (sized_all hs p)) (with_headers hs req) rest
parse-print_headers [] rest p req t = refl
parse-print_headers (h ∷ hs) rest p req (i, t) = rw append_assoc (
    parse-print_header h (print_headers hs ++ rest) p req i
    ∙ parse-print_headers hs rest (sized h p) _ t)
