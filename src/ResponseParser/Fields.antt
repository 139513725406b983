-- ===== src/ResponseParser/Fields.antt =====
-- The fields of a response that the proxy passes on hold no line breaks.
use bigtable_postgres_blog_s.Base.{ℕ, [], ◌∷◌, ◌++◌, arith, All, All-concat}
use bigtable_postgres_blog_s.Base.Int.{ℤ}
use bigtable_postgres_blog_s.Base.Text.{Bytes}
use bigtable_postgres_blog_s.Http.{
  IsNameByte, IsTextByte, is_ctl-IsTextByte, token-IsNameByte, IsClean, push_name-IsClean,
  push_value-IsClean, start_header-IsClean, ResponseBuilder,
}
use bigtable_postgres_blog_s.ResponseParser.{
  ResultType, good, bad, indeterminate, State, Outcome, step, consume, after, Parsed, parse_from,
  parse, new_builder, end_header,
}

-- A reason phrase with no control byte, and headers with names of token bytes and values with no
-- control byte.
pub record HasCleanResponse (res : ResponseBuilder) : Type 0 where
  pub clean_reason : All IsTextByte res.reasonphrase
  pub clean_headers : All IsClean res.headers

end_header-HasCleanResponse :
    (res : ResponseBuilder) → HasCleanResponse res → HasCleanResponse (end_header res).2
unfolding end_header
end_header-HasCleanResponse res f = ground arith

step-HasCleanResponse :
    (s : State) (res : ResponseBuilder) (c : ℕ)
    → HasCleanResponse res
    → HasCleanResponse (step s res c).2
unfolding step
step-HasCleanResponse State.reason_phrase res c f =
    ground (arith, is_ctl-IsTextByte c, All-concat IsTextByte res.reasonphrase c f.clean_reason)
step-HasCleanResponse State.header_line_start res c f = ground (
  arith,
  token-IsNameByte c,
  λ (x : IsNameByte c). start_header-IsClean c res.headers x f.clean_headers,
)
step-HasCleanResponse State.header_name res c f = ground (
  arith,
  token-IsNameByte c,
  λ (x : IsNameByte c). push_name-IsClean c res.headers x f.clean_headers,
)
step-HasCleanResponse State.header_lws res c f = ground (
  arith,
  is_ctl-IsTextByte c,
  λ (x : IsTextByte c). push_value-IsClean c res.headers x f.clean_headers,
)
step-HasCleanResponse State.header_value res c f = ground (
  arith,
  end_header-HasCleanResponse res f,
  is_ctl-IsTextByte c,
  λ (x : IsTextByte c). push_value-IsClean c res.headers x f.clean_headers,
)
step-HasCleanResponse _ res c f = ground arith

after-HasCleanResponse :
    (o : Outcome) (xs : Bytes) (more : Parsed)
    → HasCleanResponse o.2
    → HasCleanResponse more.builder
    → HasCleanResponse (after o xs more).builder
unfolding after
after-HasCleanResponse (indeterminate, s, res) xs more f g = g
after-HasCleanResponse (bad, s, res) xs more f g = f
after-HasCleanResponse (good, s, res) xs more f g = ground arith

parse_from-HasCleanResponse :
    (xs : Bytes) (last : ResultType) (s : State) (res : ResponseBuilder)
    → HasCleanResponse res
    → HasCleanResponse (parse_from last s res xs).builder
unfolding parse_from consume
parse_from-HasCleanResponse [] last s res f = f
parse_from-HasCleanResponse (x ∷ xs) last s res f =
    let o = consume s res x in
    let g =
      step-HasCleanResponse s (record res { fullmessage = res.fullmessage ++ x ∷ [] }) x
        (record { clean_reason = f.clean_reason; clean_headers = f.clean_headers }) in
    after-HasCleanResponse o xs (parse_from o.0 o.1 o.2 xs) g
      (parse_from-HasCleanResponse xs o.0 o.1 o.2 g)

-- Whatever a proxied server sends, the reason phrase and the header values that are read have no
-- control byte, and the header names hold visible ASCII without a colon.
pub parse_new-HasCleanResponse :
    (s : State) (major minor code contentsize chunksize : ℤ) (xs : Bytes)
    → HasCleanResponse (parse s (new_builder major minor code contentsize chunksize) xs).builder
unfolding parse
parse_new-HasCleanResponse s major minor code contentsize chunksize xs =
    parse_from-HasCleanResponse xs indeterminate s
      (new_builder major minor code contentsize chunksize)
      (record { clean_reason = tt; clean_headers = tt })
