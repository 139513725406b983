-- ===== src/ResponseParser/Tests.antt =====
-- Runs of `response_parser`, and the properties at concrete responses.
use bigtable_postgres_blog_s.Base.{suc, true, [], ◌∷◌, ◌++◌, ◌≡◌, refl, arith, length}
use bigtable_postgres_blog_s.Base.Int.{pos, pred_int}
use bigtable_postgres_blog_s.Base.Text.Decimal.{stoi_base}
use bigtable_postgres_blog_s.Base.Text.{Bytes, codes, case_eq}
use bigtable_postgres_blog_s.Http.{
  ResponseBuilder, is_char, is_ctl, is_tspecial, is_digit, is_hex, push_name, push_value, back,
  start_header,
}
use bigtable_postgres_blog_s.ResponseParser.Body.{parse_body_extra}
use bigtable_postgres_blog_s.ResponseParser.ChunkSteps.{IsSize}
use bigtable_postgres_blog_s.ResponseParser.Chunked.{
  Chunk, IsChunk, IsDecoded, print_chunks, contents, parse-print_chunks,
}
use bigtable_postgres_blog_s.ResponseParser.Fields.{HasCleanResponse, parse_new-HasCleanResponse}
use bigtable_postgres_blog_s.ResponseParser.Status.{InRange, parse-InRange}
use bigtable_postgres_blog_s.ResponseParser.{
  State, indeterminate, good, parse, step, new_state, new_builder,
}

abbrev empty : ResponseBuilder
empty = new_builder (pos 7) (pos 7) (pos 7) (pos 7) (pos 7)

abbrev chunked_builder : ResponseBuilder
chunked_builder = record empty { chunked = true }

abbrev not_found_response : Bytes
not_found_response = codes "HTTP/1.1 404 Not Found\r\nContent-Length: 2\r\n\r\nno"

parse_not_found : (parse new_state empty not_found_response).result ≡ good
unfolding parse step is_char is_ctl is_tspecial is_digit push_name push_value back start_header
    stoi_base case_eq pred_int
parse_not_found = refl

parse_status_line : (parse new_state empty (codes "HTTP/1.1 404 ")).result ≡ indeterminate
unfolding parse step is_char is_ctl is_tspecial is_digit
parse_status_line = refl

-- A chunk of eleven bytes.
abbrev eleven : Chunk
eleven = record { digits = codes "b"; bytes = codes "hello world" }

eleven-IsChunk : IsChunk eleven
unfolding is_hex stoi_base
eleven-IsChunk = (record { hex = ground arith; ne_nil = λ e. cc; value = refl }, λ e. cc)

zero-IsSize : IsSize (codes "0") 0
unfolding is_hex stoi_base
zero-IsSize = record { hex = ground arith; ne_nil = λ e. cc; value = refl }

parse-print_chunks_example :
    IsDecoded
      (parse State.chunk_size_start chunked_builder
        (print_chunks (eleven ∷ []) ++ (codes "0" ++ b'\r' ∷ codes "\n\r\n")))
      (codes "\n\r\n")
      (chunked_builder.body ++ contents (eleven ∷ []))
parse-print_chunks_example =
    parse-print_chunks (eleven ∷ []) (codes "0") (codes "\n\r\n") chunked_builder
      (eleven-IsChunk, tt) zero-IsSize refl

parse-InRange_example : InRange 100 599 (parse new_state empty not_found_response).builder.code
parse-InRange_example = parse-InRange not_found_response empty parse_not_found

parse_new-HasCleanResponse_example :
    HasCleanResponse (parse new_state empty not_found_response).builder
parse_new-HasCleanResponse_example =
    parse_new-HasCleanResponse new_state (pos 7) (pos 7) (pos 7) (pos 7) (pos 7) not_found_response

abbrev two_bytes : ResponseBuilder
two_bytes = record empty { contentsize = pos (suc (length (codes "o"))) }

parse_body_extra_example :
    (parse State.expecting_body two_bytes (b'n' ∷ (codes "o" ++ b'!' ∷ []))).result ≡ indeterminate
parse_body_extra_example = parse_body_extra b'n' b'!' (codes "o") [] empty refl (omega arith)
