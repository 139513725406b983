-- ===== src/RequestParser/Count.antt =====
-- The body of an accepted request is as long as its headers say, and the parser's counter is back
-- at zero, so that `reset` makes it new.
use bigtable_postgres_blog_s.Base.{
  ℕ, suc, ◌+◌, Bool, true, false, List, [], ◌∷◌, ◌++◌, ◌≡◌, refl, ◌⊎◌, inl, inr, arith, length,
  length-append, if◌then◌else◌, Option-cases, zero, none, some,
}
use bigtable_postgres_blog_s.Base.Int.{ℤ, pos, negsuc, is_zero, is_neg, pred_int}
use bigtable_postgres_blog_s.Base.Text.Decimal.{stoi, stoi-FitsInt}
use bigtable_postgres_blog_s.Base.Text.{Bytes, codes, case_eq}
use bigtable_postgres_blog_s.Http.{
  Header, back, init, init-push_name, init-push_value, init-start_header, back-push_value,
  RequestBuilder,
}
use bigtable_postgres_blog_s.RequestParser.{
  good, bad, indeterminate, State, RequestParser, Outcome, step, consume, after, Parsed, parse,
  end_header, step_body, step_header_value, step_header_name, step_header_lws,
  step_header_line_start, new_parser, new_builder, reset,
}

abbrev pub is_length : Header → Bool
is_length h = case_eq h.name (codes "Content-Length")

-- The size of the body that a header announces; `size` where it announces none.
abbrev pub announced : ℤ → Header → ℤ
announced size h = if is_length h then (elim (stoi h.value) [ none ↦ size | some n ↦ n ]) else size

-- The size that a list of headers announces: that of its last `Content-Length`, or `size`.
abbrev pub declared : ℤ → List Header → ℤ
declared size [] = size
declared size (h ∷ hs) = declared (announced size h) hs

declared-back :
    (size : ℤ) (hs : List Header) → declared size hs ≡ announced (declared size (init hs)) (back hs)
unfolding init back case_eq
declared-back size [] = refl
declared-back size (h ∷ []) = refl
declared-back size (h ∷ g ∷ hs) = declared-back (announced size h) (g ∷ hs)

abbrev size_of : List Header → ℤ
size_of = declared (pos 0)

-- The counter between two header lines, and while a header is read.
abbrev Between : RequestParser → RequestBuilder → Type 0
Between p req =
    (p.contentsize ≡ size_of req.headers) × (is_neg p.contentsize ≡ false) × (req.body ≡ [])

abbrev Within : RequestParser → RequestBuilder → Type 0
Within p req =
    (p.contentsize ≡ size_of (init req.headers)) × (is_neg p.contentsize ≡ false) × (req.body ≡ [])

abbrev Framed : State → RequestParser → RequestBuilder → Type 0
Framed State.header_line_start p req = Between p req
Framed State.header_lws p req = Between p req
Framed State.expecting_newline_2 p req = Between p req
Framed State.expecting_newline_3 p req = Between p req
Framed State.header_name p req = Within p req
Framed State.space_before_header_value p req = Within p req
Framed State.header_value p req =
    ((is_length (back req.headers) ≡ true) ⊎ (p.contentsize ≡ size_of (init req.headers)))
    × (is_neg p.contentsize ≡ false)
    × (req.body ≡ [])
Framed State.expecting_body p req =
    (n : ℕ) × (p.contentsize ≡ pos (suc n)) × (size_of req.headers ≡ pos (suc n + length req.body))
Framed _ p req = (p.contentsize ≡ pos 0) × (req.headers ≡ []) × (req.body ≡ [])

abbrev FramedNext : Outcome → Type 0
FramedNext (indeterminate, p, req) = Framed p.state p req
FramedNext (good, p, req) = (p.contentsize ≡ pos 0) × (size_of req.headers ≡ pos (length req.body))
FramedNext (bad, p, req) = Unit

abbrev with_size : RequestParser → ℤ → RequestParser
with_size p n = record p { contentsize = n }

end_header-Framed :
    (p : RequestParser) (req : RequestBuilder)
    → Framed State.header_value p req
    → FramedNext (end_header p req)
unfolding end_header
end_header-Framed p req f = elim (Option-cases (stoi (back req.headers).value)) [
  | inl none_read ↦ ground (arith, declared-back (pos 0) req.headers)
  | inr (pos n, read) ↦ ground (arith, declared-back (pos 0) req.headers)
  | inr (negsuc n, read) ↦ ground (
    arith,
    declared-back (pos 0) req.headers,
    stoi-FitsInt 10 (back req.headers).value (negsuc n) read,
  )
]

newline_3-Framed :
    (n : ℤ) (p : RequestParser) (req : RequestBuilder) (c : ℕ)
    → p.contentsize ≡ n
    → Framed State.expecting_newline_3 p req
    → FramedNext (step State.expecting_newline_3 p req c)
unfolding step
newline_3-Framed (pos zero) p req c e f = ground arith
newline_3-Framed (pos (suc n)) p req c e f =
    let more : is_zero p.contentsize ≡ false = ground arith in rw more (n, e, ground arith)
newline_3-Framed (negsuc n) p req c e f = ground arith

step_body-Framed :
    (n : ℕ) (p : RequestParser) (req : RequestBuilder) (c : ℕ)
    → p.state ≡ State.expecting_body
    → p.contentsize ≡ pos (suc n)
    → size_of req.headers ≡ pos (suc n + length req.body)
    → FramedNext (step_body p req c)
unfolding step_body pred_int
step_body-Framed zero p req c s e f = ground (arith, length-append req.body (c ∷ []))
step_body-Framed (suc n) p req c s e f =
    let left : pred_int p.contentsize ≡ pos (suc n) = ground arith in
    rw (left, s) (n, refl, ground (arith, length-append req.body (c ∷ [])))

step-Framed :
    (s : State) (p : RequestParser) (req : RequestBuilder) (c : ℕ)
    → p.state ≡ s
    → Framed s p req
    → FramedNext (step s p req c)
unfolding step_header_value step_header_name step_header_lws step_header_line_start step
step-Framed State.header_line_start p req c e f = ground (arith, init-start_header c req.headers)
step-Framed State.header_lws p req c e f = ground (
  arith,
  init-push_value c req.headers,
  declared-back (pos 0) req.headers,
  back-push_value c req.headers,
)
step-Framed State.header_name p req c e f = ground (arith, init-push_name c req.headers)
step-Framed State.space_before_header_value p req c e f = ground arith
step-Framed State.header_value p req c e f =
    ground (
      arith,
      end_header-Framed p req f,
      init-push_value c req.headers,
      back-push_value c req.headers,
    )
step-Framed State.expecting_newline_3 p req c e f = newline_3-Framed p.contentsize p req c refl f
step-Framed State.expecting_body p req c e f = step_body-Framed f.0 p req c e f.1 f.2
step-Framed State.expecting_newline_2 p req c e f = ground arith
step-Framed _ p req c e f = ground arith

Framed-fullmessage :
    (s : State) (p : RequestParser) (req : RequestBuilder) (m : Bytes)
    → Framed s p req
    → Framed s p (record req { fullmessage = m })
Framed-fullmessage State.method_start p req m f = f
Framed-fullmessage _ p req m f = f

consume-Framed :
    (p : RequestParser) (req : RequestBuilder) (c : ℕ)
    → Framed p.state p req
    → FramedNext (consume p req c)
unfolding consume
consume-Framed p req c f =
    step-Framed p.state p _ c refl (Framed-fullmessage p.state p req (req.fullmessage ++ c ∷ []) f)

abbrev FramedResult : Parsed → Type 0
FramedResult r =
    r.result ≡ good
    → (r.parser.contentsize ≡ pos 0) × (size_of r.builder.headers ≡ pos (length r.builder.body))

after-Framed :
    (o : Outcome) (xs : Bytes) (more : Parsed)
    → FramedNext o
    → (Framed o.1.state o.1 o.2 → FramedResult more)
    → FramedResult (after o xs more)
unfolding after
after-Framed (indeterminate, p, req) xs more f ih = ih f
after-Framed (bad, p, req) xs more f ih = λ e. cc
after-Framed (good, p, req) [] more f ih = λ e. f
after-Framed (good, p, req) (x ∷ xs) more f ih = λ e. cc

parse-Framed :
    (s : Bytes) (p : RequestParser) (req : RequestBuilder)
    → Framed p.state p req
    → FramedResult (parse p req s)
unfolding parse
parse-Framed [] p req f = λ e. cc
parse-Framed (x ∷ xs) p req f =
    let o = consume p req x in
    after-Framed o xs (parse o.1 o.2 xs) (consume-Framed p req x f) (parse-Framed xs o.1 o.2)

module _ (major minor size : ℤ) (s : Bytes) where
  parse_new-Framed : FramedResult (parse new_parser (new_builder major minor size) s)
  parse_new-Framed = parse-Framed s new_parser (new_builder major minor size) (refl, refl, refl)

-- The body of an accepted request has exactly the length that the last `Content-Length` among its
-- headers announces, and is empty where there is none.
pub parse_body_length :
    (major minor size : ℤ) (s : Bytes)
    → (parse new_parser (new_builder major minor size) s).result ≡ good
    → declared (pos 0) (parse new_parser (new_builder major minor size) s).builder.headers
      ≡ pos (length (parse new_parser (new_builder major minor size) s).builder.body)
parse_body_length major minor size s h = (parse_new-Framed major minor size s h).1

-- After an accepted request, however many reads it took from a new parser, `reset` gives a parser
-- in the state of a new one, although it does not touch the counter.
pub reset-parse :
    (major minor size : ℤ) (s : Bytes)
    → (parse new_parser (new_builder major minor size) s).result ≡ good
    → reset (parse new_parser (new_builder major minor size) s).parser ≡ new_parser
unfolding reset
reset-parse major minor size s h = ground (arith, (parse_new-Framed major minor size s h).0)
