-- ===== src/ResponseParser/Steps.antt =====
-- The states of `response_parser` of src/response_parser.cc, and the branches of its switch that do more than want
-- one byte.
use bigtable_postgres_blog_s.Base.{
  ℕ, ◌-◌, true, not, ◌&&◌, ◌||◌, [], ◌∷◌, ◌++◌, none, some, ◌==◌, leb, if◌then◌else◌,
}
use bigtable_postgres_blog_s.Base.Int.{negsuc, is_zero, int_eq, mul10_add, pred_int, to_size}
use bigtable_postgres_blog_s.Base.Text.Decimal.{stoi, stoi_base}
use bigtable_postgres_blog_s.Base.Text.{codes, case_eq}
use bigtable_postgres_blog_s.Http.{
  is_char, is_ctl, is_tspecial, is_hex, push_name, push_value, back, start_header, ResponseBuilder,
}

pub data ResultType : Type 0 where
  good bad indeterminate : ResultType

pub data State : Type 0 where
  http_version_h http_version_t_1 http_version_t_2 http_version_p http_version_slash : State
  http_version_major_start http_version_major http_version_minor_start http_version_minor : State
  status_code_1 status_code_2 status_code_3 space_before_reason_phrase reason_phrase : State
  expecting_newline_1 header_line_start header_lws header_name : State
  space_before_header_value header_value : State
  expecting_newline_2 expecting_newline_3 expecting_body : State
  chunk_size_start chunk_size expecting_newline_4 expecting_chunk expecting_newline_5 : State

-- A parser is its state; what `consume` returns, and the state and the builder as it leaves them.
abbrev pub Outcome : Type 0
Outcome = ResultType × State × ResponseBuilder

abbrev pub expect : ℕ → State → State → ResponseBuilder → ℕ → Outcome
expect b next s res c = if c == b then (indeterminate, next, res) else (bad, s, res)

abbrev pub add_major : ResponseBuilder → ℕ → ResponseBuilder
add_major res c = record res { http_version_major = mul10_add res.http_version_major (c - b'0') }

abbrev pub add_minor : ResponseBuilder → ℕ → ResponseBuilder
add_minor res c = record res { http_version_minor = mul10_add res.http_version_minor (c - b'0') }

abbrev pub add_code : ResponseBuilder → ℕ → ResponseBuilder
add_code res c = record res { code = mul10_add res.code (c - b'0') }

unfoldable pub step_reason_phrase : ResponseBuilder → ℕ → Outcome
step_reason_phrase res c =
    if c == b'\r'
    then (indeterminate, expecting_newline_1, res)
    else if not (is_char c) || is_ctl c || (is_tspecial c && not (c == b' '))
    then (bad, reason_phrase, res)
    else (indeterminate, reason_phrase, record res { reasonphrase = res.reasonphrase ++ c ∷ [] })

unfoldable pub step_header_line_start : ResponseBuilder → ℕ → Outcome
step_header_line_start res c =
    let in_header : Outcome =
      if not (is_char c) || is_ctl c || is_tspecial c
      then (bad, header_line_start, res)
      else (indeterminate, header_name, record res { headers = start_header c res.headers }) in
    if c == b'\r' then (indeterminate, expecting_newline_3, res) else elim res.headers [
      | [] ↦ in_header
      | _ ∷ _ ↦ if c == b' ' || c == b'\t' then (indeterminate, header_lws, res) else in_header
    ]

unfoldable pub step_header_lws : ResponseBuilder → ℕ → Outcome
step_header_lws res c =
    if c == b'\r'
    then (indeterminate, expecting_newline_2, res)
    else if c == b' ' || c == b'\t'
    then (indeterminate, header_lws, res)
    else if is_ctl c
    then (bad, header_lws, res)
    else (indeterminate, header_value, record res { headers = push_value c res.headers })

unfoldable pub step_header_name : ResponseBuilder → ℕ → Outcome
step_header_name res c =
    if c == b':'
    then (indeterminate, space_before_header_value, res)
    else if not (is_char c) || is_ctl c || is_tspecial c
    then (bad, header_name, res)
    else (indeterminate, header_name, record res { headers = push_name c res.headers })

-- `PTRDIFF_MAX`, past which `reserve` throws `length_error`
abbrev pub max_size : ℕ
max_size = 9223372036854775807

-- The two tests that follow that of `Content-Length`.
unfoldable pub flag_line : ResponseBuilder → ResponseBuilder
flag_line res =
    let h = back res.headers in
    let res' =
      if case_eq h.name (codes "Transfer-Encoding") && case_eq h.value (codes "chunked")
      then record res { chunked = true }
      else res in
    if case_eq h.name (codes "Connection") && case_eq h.value (codes "Keep-Alive")
    then record res' { keep_alive = true }
    else res'

-- The end of a header line. `stoi` and `reserve` throw on a value that they do not take.
unfoldable pub end_header : ResponseBuilder → Outcome
unfolding flag_line
end_header res =
    let h = back res.headers in
    if case_eq h.name (codes "Content-Length")
    then elim (stoi h.value) [
      | none ↦ (bad, header_value, res)
      | some n ↦
          if leb (to_size n) max_size
          then (indeterminate, expecting_newline_2, flag_line (record res { contentsize = n }))
          else (bad, header_value, record res { contentsize = n })
    ]
    else (indeterminate, expecting_newline_2, flag_line res)

unfoldable pub step_header_value : ResponseBuilder → ℕ → Outcome
unfolding end_header
step_header_value res c =
    if c == b'\r'
    then end_header res
    else if is_ctl c
    then (bad, header_value, res)
    else (indeterminate, header_value, record res { headers = push_value c res.headers })

unfoldable pub step_empty_line : ResponseBuilder → ℕ → Outcome
step_empty_line res c =
    if not (c == b'\n')
    then (bad, expecting_newline_3, res)
    else if res.chunked
    then (indeterminate, chunk_size_start, res)
    else if is_zero res.contentsize
    then (if c == b'\n' then good else bad, expecting_newline_3, res)
    else (indeterminate, expecting_body, res)

unfoldable pub step_body : ResponseBuilder → ℕ → Outcome
step_body res c =
    let left = pred_int res.contentsize in
    (
      if is_zero left then good else indeterminate,
      expecting_body,
      record res { contentsize = left; body = res.body ++ c ∷ [] },
    )

-- The `\r` behind the size of a chunk.
unfoldable pub end_chunk_size : ResponseBuilder → Outcome
end_chunk_size res = elim (stoi_base 16 res.chunksizehex) [
  | none ↦ (bad, expecting_newline_4, res)
  | some n ↦
      (if is_zero n then good else indeterminate, expecting_newline_4, record res { chunksize = n })
]

unfoldable pub step_chunk_size : ResponseBuilder → ℕ → Outcome
unfolding end_chunk_size
step_chunk_size res c =
    if is_hex c
    then (indeterminate, chunk_size, record res { chunksizehex = res.chunksizehex ++ c ∷ [] })
    else if c == b'\r'
    then end_chunk_size res
    else (bad, chunk_size, res)

unfoldable pub step_chunk : ResponseBuilder → ℕ → Outcome
step_chunk res c =
    let left = pred_int res.chunksize in
    if c == b'\r' && int_eq left (negsuc 0)
    then (indeterminate, expecting_newline_5, record res { chunksize = left })
    else (
      indeterminate,
      expecting_chunk,
      record res { chunksize = left; body = res.body ++ c ∷ [] },
    )
