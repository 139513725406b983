-- ===== src/RequestParser/Fields.antt =====
-- The fields that the parser fills hold no byte that could break a line or a header apart.
use bigtable_postgres_blog_s.Base.{ℕ, [], ◌∷◌, arith, All, All-concat}
use bigtable_postgres_blog_s.Base.Int.{ℤ}
use bigtable_postgres_blog_s.Base.Text.{Bytes}
use bigtable_postgres_blog_s.Http.{
  IsNameByte, IsUriByte, IsTextByte, is_ctl-IsTextByte, token-IsNameByte, IsClean,
  push_name-IsClean, push_value-IsClean, start_header-IsClean, RequestBuilder,
}
use bigtable_postgres_blog_s.RequestParser.{
  good, bad, indeterminate, State, RequestParser, Outcome, step, consume, after, Parsed, parse,
  end_header, step_method, step_uri, step_header_value, step_header_name, step_header_lws,
  step_header_line_start, new_builder,
}

-- A method of token bytes, an URI with no space and no control byte, and headers with names of token
-- bytes and values with no control byte.
pub record HasCleanFields (req : RequestBuilder) : Type 0 where
  pub clean_method : All IsNameByte req.method
  pub clean_uri : All IsUriByte req.uri
  pub clean_headers : All IsClean req.headers

step_method-HasCleanFields :
    (p : RequestParser) (req : RequestBuilder) (c : ℕ)
    → HasCleanFields req
    → HasCleanFields (step_method p req c).2
unfolding step_method
step_method-HasCleanFields p req c f =
    ground (arith, token-IsNameByte c, All-concat IsNameByte req.method c f.clean_method)

step_uri-HasCleanFields :
    (p : RequestParser) (req : RequestBuilder) (c : ℕ)
    → HasCleanFields req
    → HasCleanFields (step_uri p req c).2
unfolding step_uri
step_uri-HasCleanFields p req c f =
    ground (arith, is_ctl-IsTextByte c, All-concat IsUriByte req.uri c f.clean_uri)

end_header-HasCleanFields :
    (p : RequestParser) (req : RequestBuilder)
    → HasCleanFields req
    → HasCleanFields (end_header p req).2
unfolding end_header
end_header-HasCleanFields p req f = ground arith

step-HasCleanFields :
    (s : State) (p : RequestParser) (req : RequestBuilder) (c : ℕ)
    → HasCleanFields req
    → HasCleanFields (step s p req c).2
unfolding step_header_value step_header_name step_header_lws step_header_line_start step
step-HasCleanFields State.method_start p req c f =
    ground (arith, token-IsNameByte c, All-concat IsNameByte req.method c f.clean_method)
step-HasCleanFields State.method p req c f = step_method-HasCleanFields p req c f
step-HasCleanFields State.uri p req c f = step_uri-HasCleanFields p req c f
step-HasCleanFields State.header_line_start p req c f = ground (
  arith,
  token-IsNameByte c,
  λ (x : IsNameByte c). start_header-IsClean c req.headers x f.clean_headers,
)
step-HasCleanFields State.header_name p req c f = ground (
  arith,
  token-IsNameByte c,
  λ (x : IsNameByte c). push_name-IsClean c req.headers x f.clean_headers,
)
step-HasCleanFields State.header_lws p req c f = ground (
  arith,
  is_ctl-IsTextByte c,
  λ (x : IsTextByte c). push_value-IsClean c req.headers x f.clean_headers,
)
step-HasCleanFields State.header_value p req c f = ground (
  arith,
  end_header-HasCleanFields p req f,
  is_ctl-IsTextByte c,
  λ (x : IsTextByte c). push_value-IsClean c req.headers x f.clean_headers,
)
step-HasCleanFields _ p req c f = ground arith

consume-HasCleanFields :
    (p : RequestParser) (req : RequestBuilder) (c : ℕ)
    → HasCleanFields req
    → HasCleanFields (consume p req c).2
unfolding consume
consume-HasCleanFields p req c f = step-HasCleanFields p.state p _ c (record {
  clean_method = f.clean_method;
  clean_uri = f.clean_uri;
  clean_headers = f.clean_headers;
})

after-HasCleanFields :
    (o : Outcome) (xs : Bytes) (more : Parsed)
    → HasCleanFields o.2
    → HasCleanFields more.builder
    → HasCleanFields (after o xs more).builder
unfolding after
after-HasCleanFields (indeterminate, p, req) xs more f g = g
after-HasCleanFields (bad, p, req) xs more f g = f
after-HasCleanFields (good, p, req) [] more f g = f
after-HasCleanFields (good, p, req) (x ∷ xs) more f g = f

parse-HasCleanFields :
    (s : Bytes) (p : RequestParser) (req : RequestBuilder)
    → HasCleanFields req
    → HasCleanFields (parse p req s).builder
unfolding parse
parse-HasCleanFields [] p req f = f
parse-HasCleanFields (x ∷ xs) p req f =
    let o = consume p req x in
    let g = consume-HasCleanFields p req x f in
    after-HasCleanFields o xs (parse o.1 o.2 xs) g (parse-HasCleanFields xs o.1 o.2 g)

-- Whatever bytes come in, and whatever `parse` says of them, the method and the header names hold
-- visible ASCII without a colon, the URI has no space and no control byte, and the header values
-- have no control byte; so no field holds a line break.
pub parse_new-HasCleanFields :
    (p : RequestParser) (major minor size : ℤ) (s : Bytes)
    → HasCleanFields (parse p (new_builder major minor size) s).builder
parse_new-HasCleanFields p major minor size s =
    parse-HasCleanFields s p (new_builder major minor size)
      (record { clean_method = tt; clean_uri = tt; clean_headers = tt })
