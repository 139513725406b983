-- ===== src/Handlers/Proxy/Html.antt =====
-- `handle_html` of src/proxy_request_handler.cc. libxml2 and gzip are parameters.
use bigtable_postgres_blog_s.Base.{List, Option, none, some, if◌then◌else◌, length, ◌>>=◌}
use bigtable_postgres_blog_s.Base.Dict.{lookup, insert}
use bigtable_postgres_blog_s.Base.Text.Decimal.{print_nat}
use bigtable_postgres_blog_s.Base.Text.{Bytes, codes, contains}
use bigtable_postgres_blog_s.Handlers.Proxy.Links.{XmlNode, Properties, modify_html_doc}
use bigtable_postgres_blog_s.Http.{Response}

-- `htmlReadMemory` on a text and a URL, where `none` is a null pointer, `xmlDocGetRootElement`, the
-- document with its root and the nodes behind it changed, `htmlDocDumpMemory`, and the decompressor of
-- Boost, which throws on a text that is not compressed.
pub record Libraries (A Doc : Type 0) : Type 0 where
  pub properties : Properties A
  pub html_read_memory : Bytes → Bytes → Option Doc
  pub root_element : Doc → XmlNode A
  pub with_root : XmlNode A → Doc → Doc
  pub dump_memory : Doc → Bytes
  pub gzip_decompress : Bytes → Option Bytes

-- `headers_["Content-Encoding"] = "identity"`, if it is there
unfoldable pub identity_encoding : List (Bytes × Bytes) → List (Bytes × Bytes)
identity_encoding headers = elim (lookup (codes "Content-Encoding") headers) [
  | none ↦ headers
  | some content_encoding ↦ insert (codes "Content-Encoding") (codes "identity") headers
]

-- `body_`, `Transfer-Encoding` and `Content-Length` at the end
unfoldable pub with_content : Bytes → Response → Response
unfolding identity_encoding
with_content html_content response = record response {
  headers =
      insert (codes "Content-Length") (print_nat (length html_content)) (
        insert (codes "Transfer-Encoding") (codes "identity") (identity_encoding response.headers));
  body = html_content;
}

module _ {A Doc : Type 0} (lib : Libraries A Doc) (client_location_path server_url : Bytes) where
  -- The content, decompressed if a header says so.
  unfoldable pub decoded_content : Response → Option Bytes
  decoded_content response = elim (lookup (codes "Content-Encoding") response.headers) [
    | none ↦ some response.body
    | some content_encoding ↦
        if contains (codes "gzip") content_encoding
        then lib.gzip_decompress response.body
        else some response.body
  ]

  -- The document with its links corrected, as text; `none` is the text of a null pointer.
  unfoldable pub modified_html : Bytes → Option Bytes
  unfolding modify_html_doc
  modified_html html_content = elim (lib.html_read_memory html_content server_url) [
    | none ↦ none
    | some doc ↦
        let root = modify_html_doc lib.properties client_location_path (lib.root_element doc) in
        some (lib.dump_memory (lib.with_root root doc))
  ]

  -- `none` is an exception, or the end of the program at a null pointer.
  unfoldable pub handle_html : Response → Option Response
  unfolding decoded_content with_content modified_html
  handle_html response = do
    content ← decoded_content response
    html_content ← modified_html content
    some (with_content html_content response)
