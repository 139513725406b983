-- ===== src/Handlers/Proxy/Pages.antt =====
-- A chunked response that src/proxy_request_handler.cc passes on.
use bigtable_postgres_blog_s.Base.{
  true, false, List, [], ◌∷◌, ◌++◌, some, ◌≡◌, inl, inr, refl, ap, ◌∙◌, Option-cases, All,
}
use bigtable_postgres_blog_s.Base.Dict.{lookup, lookup-insert}
use bigtable_postgres_blog_s.Base.Text.{Bytes, codes, contains, str_eq}
use bigtable_postgres_blog_s.Handlers.Proxy.Forward.{returned, header_of, entered, finish}
use bigtable_postgres_blog_s.Handlers.Proxy.Html.{Libraries}
use bigtable_postgres_blog_s.Handlers.Proxy.{ProxyHandler}
use bigtable_postgres_blog_s.Handlers.Proxy.Cuts.{read_loop-good}
use bigtable_postgres_blog_s.Handlers.Proxy.Reads.{read_response}
use bigtable_postgres_blog_s.Http.{Response, ResponseBuilder, build_response, collect}
use bigtable_postgres_blog_s.ResponseParser.ChunkSteps.{IsSize}
use bigtable_postgres_blog_s.ResponseParser.Chunked.{
  Chunk, IsChunk, print_chunks, contents, parse-print_chunks, parse-print_chunks_headers,
}
use bigtable_postgres_blog_s.ResponseParser.Chunks.{parse-append_reads}
use bigtable_postgres_blog_s.ResponseParser.{State, indeterminate, parse, new_state}

entered-lookup_ne :
    (name k : Bytes) (response : Response)
    → str_eq name k ≡ false
    → (lookup k (entered name response).headers ≡ lookup k response.headers)
      × ((entered name response).body ≡ response.body)
unfolding entered
entered-lookup_ne name k response ne = elim (Option-cases (lookup name response.headers)) [
  | inl missing ↦
      rw (missing, entered) (lookup-insert name k [] response.headers ∙ rw ne refl, refl)
  | inr (v, found) ↦ rw (found, entered) (refl, refl)
]

header_of-lookup :
    (name v : Bytes) (response : Response)
    → lookup name response.headers ≡ some v
    → header_of name response ≡ v
unfolding header_of
header_of-lookup name v response h = rw (h, header_of) refl

finish-other :
    {S A Doc : Type 0} (lib : Libraries A Doc) (h : ProxyHandler) (response : Response) (s : S)
    → contains (codes "text/html") (header_of (codes "Content-Type") response) ≡ false
    → finish lib h response s ≡ returned (entered (codes "Content-Type") response) s
unfolding finish
finish-other lib h response s other = rw other refl

-- The head of a response, up to the first chunk of its body.
pub record IsHead (res : ResponseBuilder) (head : Bytes) : Type 0 where
  pub incomplete : (parse new_state res head).result ≡ indeterminate
  pub at_chunk : (parse new_state res head).state ≡ State.chunk_size_start
  pub chunked : (parse new_state res head).builder.chunked ≡ true
  pub no_body : (parse new_state res head).builder.body ≡ []

-- What a builder makes of a response with a chunked body: the chunks joined, under the headers.
read_response-chunks :
    (res : ResponseBuilder) (head zeros rest : Bytes) (ks : List Chunk) (more : List Bytes)
    → IsHead res head
    → All IsChunk ks
    → IsSize zeros 0
    → (response : Response) × (read_response res
          ((head ++ (print_chunks ks ++ (zeros ++ b'\r' ∷ rest))) ∷ more)
        ≡ some response)
      × (response.body ≡ contents ks)
      × (response.headers ≡ collect [] (parse new_state res head).builder.headers)
unfolding read_response build_response
read_response-chunks res head zeros rest ks more i t z =
    let p = parse new_state res head in
    let text = print_chunks ks ++ (zeros ++ b'\r' ∷ rest) in
    let whole =
      parse-append_reads head text new_state res i.incomplete
      ∙ ap (λ s. parse s p.builder text) i.at_chunk in
    let (result, left, body) = parse-print_chunks ks zeros rest p.builder t z i.chunked in
    let headers = parse-print_chunks_headers ks zeros rest p.builder t z i.chunked in
    let q = parse State.chunk_size_start p.builder text in
    (
      build_response q.builder,
      read_loop-good (head ++ text) more new_state res (ap (λ k. k.result) whole ∙ result)
          ∙ ap (λ k. some (build_response k.builder)) whole,
      body ∙ ap (λ b. b ++ contents ks) i.no_body,
      ap (collect []) headers,
    )

-- A chunked response that is no page is passed on with its chunks joined, and still under the header
-- `Transfer-Encoding` that it came with: its chunks come in one read with the head, whose headers say
-- `encoding` and a content type without "text/html".
pub finish-chunked :
    {S A Doc : Type 0} (lib : Libraries A Doc) (h : ProxyHandler) (s : S) (res : ResponseBuilder)
    (head zeros rest encoding content_type : Bytes) (ks : List Chunk) (more : List Bytes)
    → IsHead res head
    → All IsChunk ks
    → IsSize zeros 0
    → lookup (codes "Transfer-Encoding") (collect [] (parse new_state res head).builder.headers)
      ≡ some encoding
    → lookup (codes "Content-Type") (collect [] (parse new_state res head).builder.headers)
      ≡ some content_type
    → contains (codes "text/html") content_type ≡ false
    → (response : Response) × (read_response res
          ((head ++ (print_chunks ks ++ (zeros ++ b'\r' ∷ rest))) ∷ more)
        ≡ some response)
      × (passed : Response) × (finish lib h response s ≡ returned passed s)
      × (lookup (codes "Transfer-Encoding") passed.headers ≡ some encoding)
      × (passed.body ≡ contents ks)
finish-chunked lib h s res head zeros rest encoding content_type ks more i t z te ct other =
    let (response, read, body, headers) = read_response-chunks res head zeros rest ks more i t z in
    let of_header =
      header_of-lookup (codes "Content-Type") content_type response
        (ap (lookup (codes "Content-Type")) headers ∙ ct) in
    let (kept, same) =
      entered-lookup_ne (codes "Content-Type") (codes "Transfer-Encoding") response
        (unfold str_eq in refl) in
    (
      response,
      read,
      entered (codes "Content-Type") response,
      finish-other lib h response s (ap (contains (codes "text/html")) of_header ∙ other),
      kept ∙ ap (lookup (codes "Transfer-Encoding")) headers ∙ te,
      same ∙ body,
    )
