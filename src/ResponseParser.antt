-- ===== src/ResponseParser.antt =====
-- `response_parser` of src/response_parser.cc and include/response_parser.h: the state machine that
-- takes the answer of a proxied server byte by byte.
mod Steps
pub mod Chunks
pub mod ChunkSteps
pub mod Chunked
pub mod Body
pub mod Status
pub mod Fields
mod Tests
pub use Steps.*
unfoldable pub use Steps.{
  step_reason_phrase, step_header_line_start, step_header_lws, step_header_name, flag_line,
  end_header, step_header_value, step_empty_line, step_body, end_chunk_size, step_chunk_size,
  step_chunk,
}
use bigtable_postgres_blog_s.Base.{
  ℕ, suc, ◌-◌, Bool, true, false, not, ◌&&◌, ◌||◌, List, [], ◌∷◌, ◌++◌, none, some, ◌==◌, leb,
  if◌then◌else◌,
}
use bigtable_postgres_blog_s.Base.Int.{
  ℤ, pos, negsuc, is_zero, int_eq, mul10_add, pred_int, to_size,
}
use bigtable_postgres_blog_s.Base.Text.Decimal.{stoi, stoi_base}
use bigtable_postgres_blog_s.Base.Text.{Bytes, codes, case_eq}
use bigtable_postgres_blog_s.Http.{
  is_char, is_ctl, is_tspecial, is_digit, is_hex, Header, push_name, push_value, back, start_header,
  ResponseBuilder,
}

-- The `switch` of `consume`.
unfoldable pub step : State → ResponseBuilder → ℕ → Outcome
unfolding step_reason_phrase step_header_line_start step_header_lws step_header_name
    step_header_value step_empty_line step_body step_chunk_size step_chunk
step http_version_h res c = expect b'H' http_version_t_1 http_version_h res c
step http_version_t_1 res c = expect b'T' http_version_t_2 http_version_t_1 res c
step http_version_t_2 res c = expect b'T' http_version_p http_version_t_2 res c
step http_version_p res c = expect b'P' http_version_slash http_version_p res c
step http_version_slash res c =
    if c == b'/'
    then (
      indeterminate,
      http_version_major_start,
      record res { http_version_major = pos 0; http_version_minor = pos 0 },
    )
    else (bad, http_version_slash, res)
step http_version_major_start res c =
    if is_digit c
    then (indeterminate, http_version_major, add_major res c)
    else (bad, http_version_major_start, res)
step http_version_major res c =
    if c == b'.'
    then (indeterminate, http_version_minor_start, res)
    else if is_digit c
    then (indeterminate, http_version_major, add_major res c)
    else (bad, http_version_major, res)
step http_version_minor_start res c =
    if is_digit c
    then (indeterminate, http_version_minor, add_minor res c)
    else (bad, http_version_minor_start, res)
step http_version_minor res c =
    if c == b' '
    then (indeterminate, status_code_1, res)
    else if is_digit c
    then (indeterminate, http_version_minor, add_minor res c)
    else (bad, http_version_minor, res)
step status_code_1 res c =
    if leb b'1' c && leb c b'5'
    then (indeterminate, status_code_2, record res { code = pos (c - b'0') })
    else (bad, status_code_1, res)
step status_code_2 res c =
    if is_digit c then (indeterminate, status_code_3, add_code res c) else (bad, status_code_2, res)
step status_code_3 res c =
    if is_digit c
    then (indeterminate, space_before_reason_phrase, add_code res c)
    else (bad, status_code_3, res)
step space_before_reason_phrase res c = expect b' ' reason_phrase space_before_reason_phrase res c
step reason_phrase res c = step_reason_phrase res c
step expecting_newline_1 res c = expect b'\n' header_line_start expecting_newline_1 res c
step header_line_start res c = step_header_line_start res c
step header_lws res c = step_header_lws res c
step header_name res c = step_header_name res c
step space_before_header_value res c = expect b' ' header_value space_before_header_value res c
step header_value res c = step_header_value res c
step expecting_newline_2 res c = expect b'\n' header_line_start expecting_newline_2 res c
step expecting_newline_3 res c = step_empty_line res c
step expecting_body res c = step_body res c
step chunk_size_start res c =
    if is_hex c
    then (indeterminate, chunk_size, record res { chunksizehex = c ∷ [] })
    else (bad, chunk_size_start, res)
step chunk_size res c = step_chunk_size res c
step expecting_newline_4 res c = expect b'\n' expecting_chunk expecting_newline_4 res c
step expecting_chunk res c = step_chunk res c
step expecting_newline_5 res c = expect b'\n' chunk_size_start expecting_newline_5 res c

unfoldable pub consume : State → ResponseBuilder → ℕ → Outcome
consume s res c = step s (record res { fullmessage = res.fullmessage ++ c ∷ [] }) c

-- `reset`, and the state of a new parser
abbrev pub new_state : State
new_state = http_version_h

-- What `parse` returns, with the input that it has not consumed, and the state it leaves.
pub record Parsed : Type 0 where
  pub result : ResultType
  pub rest : Bytes
  pub state : State
  pub builder : ResponseBuilder

-- One round of the loop; `more` is the loop on the input that is left. A good result ends the loop
-- only at the end of a chunked body.
unfoldable pub after : Outcome → Bytes → Parsed → Parsed
after (indeterminate, s, res) cs more = more
after (bad, s, res) cs more = record { result = bad; rest = cs; state = s; builder = res }
after (good, s, res) cs more =
    if res.chunked && is_zero res.chunksize
    then record { result = good; rest = cs; state = s; builder = res }
    else more

-- `last` is the result of the round before.
unfoldable pub parse_from : ResultType → State → ResponseBuilder → Bytes → Parsed
unfolding consume after
parse_from last s res [] = record { result = last; rest = []; state = s; builder = res }
parse_from last s res (c ∷ cs) =
    let o = consume s res c in let more = parse_from o.0 o.1 o.2 cs in after o cs more

unfoldable pub parse : State → ResponseBuilder → Bytes → Parsed
unfolding parse_from
parse s res cs = parse_from indeterminate s res cs

-- The builder as its constructor makes it; the five numbers are not initialised.
abbrev pub new_builder : ℤ → ℤ → ℤ → ℤ → ℤ → ResponseBuilder
new_builder major minor code contentsize chunksize = record {
  http_version_major = major;
  http_version_minor = minor;
  code = code;
  reasonphrase = [];
  headers = [];
  body = [];
  fullmessage = [];
  keep_alive = false;
  chunked = false;
  contentsize = contentsize;
  chunksizehex = [];
  chunksize = chunksize;
}
