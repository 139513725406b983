-- ===== src/Handlers/Proxy/Reads.antt =====
-- `read_response` of src/proxy_request_handler.cc.
use bigtable_postgres_blog_s.Base.{List, [], ◌∷◌, Option, none, some}
use bigtable_postgres_blog_s.Base.Text.{Bytes}
use bigtable_postgres_blog_s.Http.{Response, ResponseBuilder, build_response}
use bigtable_postgres_blog_s.ResponseParser.{
  good, bad, indeterminate, State, Parsed, parse, new_state,
}

-- What the loop does with what a round has parsed; `more` is the loop on the reads to come.
unfoldable pub after_parse : Parsed → Option Response → Option Response
after_parse p more = elim p.result [
  | good ↦ some (build_response p.builder)
  | bad ↦ none
  | indeterminate ↦ more
]

-- The loop, on what each `read_some` gives until one gives an error, as at the end of the stream.
-- `none` is `false`.
unfoldable pub read_loop : List Bytes → State → ResponseBuilder → Option Response
unfolding after_parse
read_loop [] s builder = none
read_loop (data_read ∷ reads) s builder =
    let p = parse s builder data_read in
    let more = read_loop reads p.state p.builder in after_parse p more

unfoldable pub read_response : ResponseBuilder → List Bytes → Option Response
unfolding read_loop
read_response builder reads = read_loop reads new_state builder
