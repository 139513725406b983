-- ===== src/Handlers/Proxy/Forwardable.antt =====
-- The requests that src/proxy_request_handler.cc can send on, and that its changes keep so.
use bigtable_postgres_blog_s.Base.{
  ℕ, ◌<◌, List, [], ◌∷◌, ◌++◌, ◌≡◌, refl, ◌∙◌, arith, All, length, false,
}
use bigtable_postgres_blog_s.Base.Dict.Ordered.{Sorted, insert-Sorted, insert-All}
use bigtable_postgres_blog_s.Base.Dict.{insert}
use bigtable_postgres_blog_s.Base.Int.{ℤ, pos, int_limit}
use bigtable_postgres_blog_s.Base.Text.Decimal.{print_int, print_nat}
use bigtable_postgres_blog_s.Base.Text.{Bytes, codes, case_eq, str_eq_iff}
use bigtable_postgres_blog_s.Handlers.Proxy.Forward.{proxied}
use bigtable_postgres_blog_s.Http.{Header, Request, is_char, is_ctl, is_tspecial}
use bigtable_postgres_blog_s.RequestParser.Count.{announced, declared}
use bigtable_postgres_blog_s.RequestParser.HeaderLines.{IsHeader}
use bigtable_postgres_blog_s.RequestParser.Segments.{IsUri}

-- An entry of `headers_`, as the parser's header.
abbrev pub header : Bytes × Bytes → Header
header (n, v) = record { name = n; value = v }

abbrev pub as_headers : List (Bytes × Bytes) → List Header
as_headers [] = []
as_headers (h ∷ hs) = header h ∷ as_headers hs

abbrev pub print_version : ℕ → ℕ → Bytes
print_version major minor = codes "HTTP/" ++ (print_nat major ++ (b'.' ∷ print_nat minor))

-- A request with what a parsed one has: a version of two numbers, a map of headers that are header
-- lines, and a body as long as they say.
pub record IsForwardable (r : Request) : Type 0 where
  pub major : ℕ
  pub minor : ℕ
  pub major_fits : major < int_limit
  pub minor_fits : minor < int_limit
  pub has_version : r.version ≡ print_version major minor
  pub headers_sorted : Sorted r.headers
  pub header_lines : All (λ h. IsHeader (header h)) r.headers
  pub has_length : declared (pos 0) (as_headers r.headers) ≡ pos (length r.body)

-- A header that is no length changes no announced size.
pub declared-insert :
    (k v : Bytes) (m : List (Bytes × Bytes)) (size : ℤ)
    → case_eq k (codes "Content-Length") ≡ false
    → declared size (as_headers (insert k v m)) ≡ declared size (as_headers m)
unfolding insert
declared-insert k v [] size h = rw h
declared-insert k v ((j, w) ∷ m) size h =
    ground (arith, str_eq_iff j k, declared-insert k v m (announced size (header (j, w))))

-- What a target may be: its host and port are the value of a header.
pub record FitsTarget (uri url : Bytes) (port : ℤ) : Type 0 where
  pub uri_bytes : All IsUri uri
  pub host_text : All (λ c. is_ctl c ≡ false) (url ++ (b':' ∷ print_int port))

host-IsHeader : (v : Bytes) → All (λ c. is_ctl c ≡ false) v → IsHeader (header (codes "Host", v))
unfolding is_char is_ctl is_tspecial case_eq
host-IsHeader v t = record {
  name_tokens = ground arith;
  name_ne_nil = λ e. cc;
  value_text = t;
  has_size = tt;
}

encoding-IsHeader : IsHeader (header (codes "Accept-Encoding", codes "gzip, identity"))
unfolding is_char is_ctl is_tspecial case_eq
encoding-IsHeader = record {
  name_tokens = ground arith;
  name_ne_nil = λ e. cc;
  value_text = ground arith;
  has_size = tt;
}

pub proxied-IsForwardable :
    (r : Request) (uri url : Bytes) (port : ℤ)
    → IsForwardable r
    → FitsTarget uri url port
    → IsForwardable (proxied r uri url port)
unfolding proxied case_eq
proxied-IsForwardable r uri url port f t =
    let host = url ++ (b':' ∷ print_int port) in
    let with_host = insert (codes "Host") host r.headers in
    record {
      major = f.major;
      minor = f.minor;
      major_fits = f.major_fits;
      minor_fits = f.minor_fits;
      has_version = f.has_version;
      headers_sorted = insert-Sorted _ _ with_host (insert-Sorted _ _ r.headers f.headers_sorted);
      header_lines =
          insert-All _ _ _ with_host encoding-IsHeader
            (insert-All _ _ _ r.headers (host-IsHeader host t.host_text) f.header_lines);
      has_length =
          declared-insert _ _ with_host (pos 0) refl
          ∙ declared-insert _ _ r.headers (pos 0) refl
          ∙ f.has_length;
    }
