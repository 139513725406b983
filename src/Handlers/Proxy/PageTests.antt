-- ===== src/Handlers/Proxy/PageTests.antt =====
-- Pages and chunked responses of the proxy handler.
use bigtable_postgres_blog_s.Base.{
  ℕ, false, [], ◌∷◌, ◌++◌, some, ◌≡◌, refl, ap, sym, ◌∙◌, arith, Bool-cases, inl, inr,
}
use bigtable_postgres_blog_s.Base.Dict.{lookup, insert}
use bigtable_postgres_blog_s.Base.Int.{pos, pred_int, mul10_add}
use bigtable_postgres_blog_s.Base.Text.Decimal.{print_nat, stoi_base}
use bigtable_postgres_blog_s.Base.Text.{
  Bytes, codes, str_eq, str_lt, str_eq_iff, contains, case_eq, starts_with,
}
use bigtable_postgres_blog_s.Handlers.Proxy.Forward.{returned, finish}
use bigtable_postgres_blog_s.Handlers.Proxy.Html.{handle_html}
use bigtable_postgres_blog_s.Handlers.Proxy.Links.{modify_html_doc}
use bigtable_postgres_blog_s.Handlers.Proxy.Pages.{IsHead, finish-chunked}
use bigtable_postgres_blog_s.Handlers.Proxy.Framing.{IsFramed, IsWellSpelled, handle_html-IsFramed}
use bigtable_postgres_blog_s.Handlers.Proxy.Reads.{read_response}
use bigtable_postgres_blog_s.Http.{
  Response, is_char, is_ctl, is_tspecial, is_digit, is_hex, push_name, push_value, back,
  start_header, collect,
}
use bigtable_postgres_blog_s.ResponseParser.ChunkSteps.{IsSize}
use bigtable_postgres_blog_s.ResponseParser.Chunked.{Chunk, IsChunk, print_chunks, contents}
use bigtable_postgres_blog_s.ResponseParser.{parse, step, new_state}
use bigtable_postgres_blog_s.Handlers.Proxy.NetworkTests.{libraries, builder, handler}

abbrev html_response : Response
html_response = record {
  code = pos 200;
  headers = (codes "Content-Type", codes "text/html") ∷ [];
  body = codes "<p>";
}

abbrev html_page : Response
html_page = record {
  code = pos 200;
  headers =
      (codes "Content-Length", codes "3")
      ∷ (codes "Content-Type", codes "text/html")
      ∷ (codes "Transfer-Encoding", codes "identity")
      ∷ [];
  body = codes "<p>";
}

html_page_lem : handle_html libraries (codes "/proxy") (codes "a") html_response ≡ some html_page
unfolding handle_html lookup insert str_eq str_lt print_nat modify_html_doc
html_page_lem = refl

only_type : (k v : Bytes) → lookup k html_response.headers ≡ some v → k ≡ codes "Content-Type"
unfolding lookup
only_type k v e = elim (Bool-cases (str_eq (codes "Content-Type") k)) [
  | inl same ↦ sym ((str_eq_iff (codes "Content-Type") k).0 same)
  | inr other ↦ let f = rw other at e in cc
]

html_response-IsWellSpelled : IsWellSpelled html_response.headers
unfolding case_eq
html_response-IsWellSpelled = (
  λ k v same e. let t = rw (only_type k v e) at same in cc,
  λ k v same e. let t = rw (only_type k v e) at same in cc,
  λ k v same e. let t = rw (only_type k v e) at same in cc,
)

handle_html-IsFramed_example : (html_page.code ≡ html_response.code) × IsFramed html_page
handle_html-IsFramed_example =
    handle_html-IsFramed libraries (codes "/proxy") (codes "a") html_response html_page
      html_response-IsWellSpelled html_page_lem

abbrev chunked_head : Bytes
chunked_head =
    codes "HTTP/1.1 200 OK\r\nTransfer-Encoding: chunked\r\nContent-Type: text/plain\r\n\r\n"

chunked_head-IsHead : IsHead builder chunked_head
unfolding parse step is_char is_ctl is_tspecial is_digit push_name push_value back start_header
    stoi_base case_eq pred_int mul10_add
chunked_head-IsHead = record { incomplete = refl; at_chunk = refl; chunked = refl; no_body = refl }

chunked_headers :
    collect [] (parse new_state builder chunked_head).builder.headers
    ≡ (codes "Content-Type", codes "text/plain") ∷ (codes "Transfer-Encoding", codes "chunked") ∷ []
unfolding collect insert str_eq str_lt parse step is_char is_ctl is_tspecial is_digit push_name
    push_value back start_header stoi_base case_eq pred_int mul10_add
chunked_headers = refl

abbrev hello : Chunk
hello = record { digits = codes "5"; bytes = codes "hello" }

hello-IsChunk : IsChunk hello
unfolding is_hex stoi_base
hello-IsChunk = (record { hex = ground arith; ne_nil = λ e. cc; value = refl }, λ e. cc)

zero-IsSize : IsSize (codes "0") 0
unfolding is_hex stoi_base
zero-IsSize = record { hex = ground arith; ne_nil = λ e. cc; value = refl }

plain_text : contains (codes "text/html") (codes "text/plain") ≡ false
unfolding contains starts_with
plain_text = refl

finish-chunked_example :
    (response : Response) × (read_response builder (
        (chunked_head ++ (print_chunks (hello ∷ []) ++ (codes "0" ++ b'\r' ∷ codes "\n\r\n"))) ∷ [])
      ≡ some response)
    × (passed : Response) × (finish {S = ℕ} libraries handler response 0 ≡ returned passed 0)
    × (lookup (codes "Transfer-Encoding") passed.headers ≡ some (codes "chunked"))
    × (passed.body ≡ contents (hello ∷ []))
finish-chunked_example =
    finish-chunked libraries handler 0 builder chunked_head (codes "0") (codes "\n\r\n")
      (codes "chunked") (codes "text/plain") (hello ∷ []) [] chunked_head-IsHead (hello-IsChunk, tt)
      zero-IsSize
      (ap (lookup (codes "Transfer-Encoding")) chunked_headers ∙ unfold lookup str_eq in refl)
      (ap (lookup (codes "Content-Type")) chunked_headers ∙ unfold lookup str_eq in refl) plain_text
