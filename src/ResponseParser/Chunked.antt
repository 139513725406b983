-- ===== src/ResponseParser/Chunked.antt =====
-- A chunked body is decoded: the chunks' bytes in order, up to the chunk of size zero.
use bigtable_postgres_blog_s.Base.{
  ap, true, List, [], ◌∷◌, ◌++◌, some, ◌≡◌, ◌≢◌, refl, ◌∙◌, arith, append-nil, append_assoc, All,
  length,
}
use bigtable_postgres_blog_s.Base.Int.{pos, negsuc}
use bigtable_postgres_blog_s.Base.Text.Decimal.{stoi_base}
use bigtable_postgres_blog_s.Base.Text.{Bytes, codes}
use bigtable_postgres_blog_s.Http.{is_hex, is_digit, ResponseBuilder}
use bigtable_postgres_blog_s.ResponseParser.ChunkSteps.{
  IsSize, took, parse-consume, parse_size_line, consume_size_end, parse-chunk, parse_chunk_end,
  parse-newline_4,
}
use bigtable_postgres_blog_s.ResponseParser.{
  good, State, step, consume, after, Parsed, parse_from, parse, step_chunk_size, end_chunk_size,
}

pub record Chunk : Type 0 where
  pub digits : Bytes
  pub bytes : Bytes

-- A chunk has a byte at least, and its digits give its size.
abbrev pub IsChunk : Chunk → Type 0
IsChunk k = IsSize k.digits (length k.bytes) × (k.bytes ≢ [])

abbrev pub print_chunk : Chunk → Bytes
print_chunk k = k.digits ++ (codes "\r\n" ++ (k.bytes ++ codes "\r\n"))

abbrev pub print_chunks : List Chunk → Bytes
print_chunks [] = []
print_chunks (k ∷ ks) = print_chunk k ++ print_chunks ks

abbrev pub contents : List Chunk → Bytes
contents [] = []
contents (k ∷ ks) = k.bytes ++ contents ks

-- The builder with one more chunk.
abbrev with_chunk : Bytes → Bytes → ResponseBuilder → ResponseBuilder
with_chunk digits bytes res = record res {
  chunksizehex = digits;
  chunksize = negsuc 0;
  body = res.body ++ bytes;
}

parse-print_chunk :
    (digits bytes rest : Bytes) (res : ResponseBuilder)
    → IsSize digits (length bytes)
    → bytes ≢ []
    → parse State.chunk_size_start res
        (digits ++ (codes "\r\n" ++ (bytes ++ (codes "\r\n" ++ rest))))
      ≡ parse State.chunk_size_start
          (took (digits ++ (codes "\r\n" ++ (bytes ++ codes "\r\n"))) (with_chunk digits bytes res))
          rest
parse-print_chunk digits [] rest res i ne = absurd (ne refl)
parse-print_chunk digits (c ∷ b) rest res i ne =
    let bytes = c ∷ b in
    let r = record (took digits res) { chunksizehex = digits; chunksize = pos (length bytes) } in
    let r1 = took (b'\n' ∷ []) (took (b'\r' ∷ []) r) in
    let r2 = took bytes (record r1 { body = res.body ++ bytes }) in
    parse_size_line digits (codes "\r\n" ++ (bytes ++ (codes "\r\n" ++ rest))) (length bytes) res i
    ∙ parse-consume b'\r' (b'\n' ∷ (bytes ++ (codes "\r\n" ++ rest))) _ _ _ _
        (consume_size_end digits (length b) (took digits res) i.value)
    ∙ parse-newline_4 (bytes ++ (codes "\r\n" ++ rest)) (took (b'\r' ∷ []) r)
    ∙ parse-chunk bytes (codes "\r\n" ++ rest) r1
    ∙ parse_chunk_end rest r2
    ∙ simp append_assoc

-- What the last chunk leaves.
abbrev pub IsDecoded : Parsed → Bytes → Bytes → Type 0
IsDecoded r rest body = (r.result ≡ good) × (r.rest ≡ rest) × (r.builder.body ≡ body)

parse_last_size :
    (digits rest : Bytes) (res : ResponseBuilder)
    → stoi_base 16 digits ≡ some (pos 0)
    → res.chunked ≡ true
    → IsDecoded
        (parse State.chunk_size (record res { chunksizehex = digits }) (b'\r' ∷ rest))
        rest
        res.body
unfolding parse parse_from consume after step step_chunk_size end_chunk_size is_hex is_digit
parse_last_size digits rest res h chunked = ground arith

parse_first_chunk :
    (k : Chunk) (ks : List Chunk) (rest : Bytes) (res : ResponseBuilder)
    → IsChunk k
    → parse State.chunk_size_start res (print_chunks (k ∷ ks) ++ rest)
      ≡ parse State.chunk_size_start
          (took (print_chunk k) (with_chunk k.digits k.bytes res))
          (print_chunks ks ++ rest)
parse_first_chunk k ks rest res t =
    simp append_assoc (parse-print_chunk k.digits k.bytes (print_chunks ks ++ rest) res t.0 t.1)

-- From the start of a chunked body the parser takes the chunks, whatever their number and sizes,
-- and then the size of zero. The result is good, the body has all their bytes in order, and what
-- stands behind the `\r` of the last size is not consumed.
pub parse-print_chunks :
    (ks : List Chunk) (zeros rest : Bytes) (res : ResponseBuilder)
    → All IsChunk ks
    → IsSize zeros 0
    → res.chunked ≡ true
    → IsDecoded
        (parse State.chunk_size_start res (print_chunks ks ++ (zeros ++ b'\r' ∷ rest)))
        rest
        (res.body ++ contents ks)
parse-print_chunks [] zeros rest res t i chunked =
    rw (append-nil, parse_size_line zeros (b'\r' ∷ rest) 0 res i)
      (parse_last_size zeros rest (took zeros res) i.value chunked)
parse-print_chunks (k ∷ ks) zeros rest res (t, ts) i chunked =
    let (result, left, body) =
      parse-print_chunks ks zeros rest (took (print_chunk k) (with_chunk k.digits k.bytes res)) ts i
        chunked in
    rw (parse_first_chunk k ks (zeros ++ b'\r' ∷ rest) res t)
      (result, left, body ∙ append_assoc res.body k.bytes (contents ks))

parse_last_size_headers :
    (digits rest : Bytes) (res : ResponseBuilder)
    → stoi_base 16 digits ≡ some (pos 0)
    → res.chunked ≡ true
    → (parse State.chunk_size (record res { chunksizehex = digits }) (b'\r' ∷ rest)).builder.headers
      ≡ res.headers
unfolding parse parse_from consume after step step_chunk_size end_chunk_size is_hex is_digit
parse_last_size_headers digits rest res h chunked = ground arith

-- The headers stay as they were before the body.
pub parse-print_chunks_headers :
    (ks : List Chunk) (zeros rest : Bytes) (res : ResponseBuilder)
    → All IsChunk ks
    → IsSize zeros 0
    → res.chunked ≡ true
    → (parse State.chunk_size_start res
        (print_chunks ks ++ (zeros ++ b'\r' ∷ rest))).builder.headers
      ≡ res.headers
parse-print_chunks_headers [] zeros rest res t i chunked =
    rw (parse_size_line zeros (b'\r' ∷ rest) 0 res i)
      (parse_last_size_headers zeros rest (took zeros res) i.value chunked)
parse-print_chunks_headers (k ∷ ks) zeros rest res (t, ts) i chunked =
    let r = took (print_chunk k) (with_chunk k.digits k.bytes res) in
    ap (λ p. p.builder.headers) (parse_first_chunk k ks (zeros ++ b'\r' ∷ rest) res t)
    ∙ parse-print_chunks_headers ks zeros rest r ts i chunked
