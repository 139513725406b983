-- ===== src/RequestParser/Steps.antt =====
-- The states of `request_parser` of src/request_parser.cc, and the branches of its switch that do more than want
-- one byte.
use bigtable_postgres_blog_s.Base.{
  ℕ, ◌-◌, true, not, ◌&&◌, ◌||◌, [], ◌∷◌, ◌++◌, none, some, ◌==◌, leb, if◌then◌else◌,
}
use bigtable_postgres_blog_s.Base.Int.{ℤ, pos, is_zero, mul10_add, pred_int, to_size}
use bigtable_postgres_blog_s.Base.Text.Decimal.{stoi}
use bigtable_postgres_blog_s.Base.Text.{codes, case_eq}
use bigtable_postgres_blog_s.Http.{
  is_char, is_ctl, is_tspecial, push_name, push_value, back, start_header, RequestBuilder,
}

pub data ResultType : Type 0 where
  good bad indeterminate : ResultType

pub data State : Type 0 where
  method_start method uri : State
  http_version_h http_version_t_1 http_version_t_2 http_version_p http_version_slash : State
  http_version_major_start http_version_major http_version_minor_start http_version_minor : State
  expecting_newline_1 header_line_start header_lws header_name : State
  space_before_header_value header_value : State
  expecting_newline_2 expecting_newline_3 expecting_body : State

pub record RequestParser : Type 0 where
  pub state : State
  pub contentsize : ℤ

-- `request_parser()`
abbrev pub new_parser : RequestParser
new_parser = record { state = method_start; contentsize = pos 0 }

unfoldable pub reset : RequestParser → RequestParser
reset p = record p { state = method_start }

-- What `consume` returns, and the parser and the builder as it leaves them.
abbrev pub Outcome : Type 0
Outcome = ResultType × RequestParser × RequestBuilder

abbrev pub reject : RequestParser → RequestBuilder → Outcome
reject p req = (bad, p, req)

abbrev pub goto : State → RequestParser → RequestBuilder → Outcome
goto s p req = (indeterminate, record p { state = s }, req)

-- The states that want one given byte.
abbrev pub expect : ℕ → State → RequestParser → RequestBuilder → ℕ → Outcome
expect b s p req c = if c == b then goto s p req else reject p req

unfoldable pub step_method : RequestParser → RequestBuilder → ℕ → Outcome
step_method p req c =
    if c == b' '
    then goto uri p req
    else if not (is_char c) || is_ctl c || is_tspecial c
    then reject p req
    else (indeterminate, p, record req { method = req.method ++ c ∷ [] })

unfoldable pub step_uri : RequestParser → RequestBuilder → ℕ → Outcome
step_uri p req c =
    if c == b' '
    then goto http_version_h p req
    else if is_ctl c
    then reject p req
    else (indeterminate, p, record req { uri = req.uri ++ c ∷ [] })

abbrev pub add_major : RequestBuilder → ℕ → RequestBuilder
add_major req c = record req { http_version_major = mul10_add req.http_version_major (c - b'0') }

abbrev pub add_minor : RequestBuilder → ℕ → RequestBuilder
add_minor req c = record req { http_version_minor = mul10_add req.http_version_minor (c - b'0') }

unfoldable pub step_header_line_start : RequestParser → RequestBuilder → ℕ → Outcome
step_header_line_start p req c =
    let in_header : Outcome =
      if not (is_char c) || is_ctl c || is_tspecial c
      then reject p req
      else goto header_name p (record req { headers = start_header c req.headers }) in
    if c == b'\r' then goto expecting_newline_3 p req else elim req.headers [
      | [] ↦ in_header
      | _ ∷ _ ↦ if c == b' ' || c == b'\t' then goto header_lws p req else in_header
    ]

unfoldable pub step_header_lws : RequestParser → RequestBuilder → ℕ → Outcome
step_header_lws p req c =
    if c == b'\r'
    then goto expecting_newline_2 p req
    else if c == b' ' || c == b'\t'
    then (indeterminate, p, req)
    else if is_ctl c
    then reject p req
    else goto header_value p (record req { headers = push_value c req.headers })

unfoldable pub step_header_name : RequestParser → RequestBuilder → ℕ → Outcome
step_header_name p req c =
    if c == b':'
    then goto space_before_header_value p req
    else if not (is_char c) || is_ctl c || is_tspecial c
    then reject p req
    else (indeterminate, p, record req { headers = push_name c req.headers })

-- `PTRDIFF_MAX`, past which `reserve` throws `length_error`
abbrev pub max_size : ℕ
max_size = 9223372036854775807

-- The `Connection` test, and the step to the next line.
unfoldable pub keep_alive_line : RequestParser → RequestBuilder → Outcome
keep_alive_line p req =
    let h = back req.headers in
    goto expecting_newline_2 p (
      if case_eq h.name (codes "Connection") && case_eq h.value (codes "Keep-Alive")
      then record req { keep_alive = true }
      else req)

-- The end of a header line. `stoi` and `reserve` throw on a value that they do not take.
unfoldable pub end_header : RequestParser → RequestBuilder → Outcome
unfolding keep_alive_line
end_header p req =
    let h = back req.headers in
    if case_eq h.name (codes "Content-Length")
    then elim (stoi h.value) [
      | none ↦ reject p req
      | some n ↦
          if leb (to_size n) max_size
          then keep_alive_line (record p { contentsize = n }) (record req { bodysize = n })
          else reject (record p { contentsize = n }) (record req { bodysize = n })
    ]
    else keep_alive_line p req

unfoldable pub step_header_value : RequestParser → RequestBuilder → ℕ → Outcome
unfolding end_header
step_header_value p req c =
    if c == b'\r'
    then end_header p req
    else if is_ctl c
    then reject p req
    else (indeterminate, p, record req { headers = push_value c req.headers })

unfoldable pub step_body : RequestParser → RequestBuilder → ℕ → Outcome
step_body p req c =
    let left = pred_int p.contentsize in
    (
      if is_zero left then good else indeterminate,
      record p { contentsize = left },
      record req { body = req.body ++ c ∷ [] },
    )
