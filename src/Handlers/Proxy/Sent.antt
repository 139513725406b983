-- ===== src/Handlers/Proxy/Sent.antt =====
-- What src/proxy_request_handler.cc writes, as the parser of a server reads it.
use bigtable_postgres_blog_s.Base.{
  List, [], ◌∷◌, ◌++◌, ◌≡◌, ◌≢◌, refl, ◌∙◌, ap, sym, arith, append_assoc, append-nil, All,
}
use bigtable_postgres_blog_s.Base.Dict.Ordered.{Sorted, insert_last, Sorted-Before}
use bigtable_postgres_blog_s.Base.Dict.{insert}
use bigtable_postgres_blog_s.Base.Int.{ℤ}
use bigtable_postgres_blog_s.Base.Text.Decimal.{print_int, print_nat}
use bigtable_postgres_blog_s.Base.Text.{Bytes, codes, str_eq}
use bigtable_postgres_blog_s.Handlers.Proxy.Forward.{proxied}
use bigtable_postgres_blog_s.Handlers.Proxy.RequestText.{
  method_name, header_lines, build_request_string,
}
use bigtable_postgres_blog_s.Http.{
  MethodEnum, get, head, post, put, delete, connect, options, trace, Request, method_of, collect,
  build_request, is_char, is_ctl, is_tspecial,
}
use bigtable_postgres_blog_s.RequestParser.HeaderLines.{IsHeader, print_headers}
use bigtable_postgres_blog_s.RequestParser.RoundTrip.{Message, IsMessage, print, built, parse-print}
use bigtable_postgres_blog_s.RequestParser.Segments.{IsToken, IsUri}
use bigtable_postgres_blog_s.RequestParser.Version.{
  read_version-print_nat, print_nat-IsDigit, print_nat_ne_nil,
}
use bigtable_postgres_blog_s.RequestParser.{good, parse, new_parser, new_builder}
use bigtable_postgres_blog_s.Handlers.Proxy.Forwardable.{
  header, as_headers, IsForwardable, FitsTarget, proxied-IsForwardable,
}

collect-Sorted :
    (m hs : List (Bytes × Bytes)) → Sorted (m ++ hs) → collect m (as_headers hs) ≡ m ++ hs
unfolding collect
collect-Sorted m [] t = simp append-nil
collect-Sorted m ((k, v) ∷ hs) t =
    ap (λ n. collect n (as_headers hs)) (insert_last k v m (Sorted-Before k v m hs t))
    ∙ (collect-Sorted (m ++ (k, v) ∷ []) hs (simp append_assoc t) ∙ simp append_assoc)

method_of-method_name : (unset m : MethodEnum) → method_of unset (method_name m) ≡ m
unfolding method_of method_name str_eq
method_of-method_name unset get = refl
method_of-method_name unset head = refl
method_of-method_name unset post = refl
method_of-method_name unset put = refl
method_of-method_name unset delete = refl
method_of-method_name unset connect = refl
method_of-method_name unset options = refl
method_of-method_name unset trace = refl

method_name-IsToken : (m : MethodEnum) → All IsToken (method_name m) × (method_name m ≢ [])
unfolding method_name is_char is_ctl is_tspecial
method_name-IsToken get = (ground arith, λ e. cc)
method_name-IsToken head = (ground arith, λ e. cc)
method_name-IsToken post = (ground arith, λ e. cc)
method_name-IsToken put = (ground arith, λ e. cc)
method_name-IsToken delete = (ground arith, λ e. cc)
method_name-IsToken connect = (ground arith, λ e. cc)
method_name-IsToken options = (ground arith, λ e. cc)
method_name-IsToken trace = (ground arith, λ e. cc)

All-as_headers :
    (hs : List (Bytes × Bytes)) → All (λ h. IsHeader (header h)) hs → All IsHeader (as_headers hs)
All-as_headers [] t = tt
All-as_headers (h ∷ hs) (x, t) = (x, All-as_headers hs t)

print_headers-as_headers :
    (hs : List (Bytes × Bytes)) → print_headers (as_headers hs) ≡ header_lines hs
unfolding header_lines
print_headers-as_headers [] = refl
print_headers-as_headers ((k, v) ∷ hs) = rw (print_headers-as_headers hs)

-- The message that is the text of a request.
abbrev message : (r : Request) → IsForwardable r → Message
message r f = record {
  method = method_name r.method;
  uri = r.uri;
  major = print_nat f.major;
  minor = print_nat f.minor;
  headers = as_headers r.headers;
  body = r.body;
}

print-message : (r : Request) (f : IsForwardable r) → print (message r f) ≡ build_request_string r
unfolding build_request_string
print-message r f = rw f.has_version (simp (append_assoc, print_headers-as_headers))

message-IsMessage : (r : Request) (f : IsForwardable r) → All IsUri r.uri → IsMessage (message r f)
message-IsMessage r f u =
    let (tokens, ne) = method_name-IsToken r.method in
    record {
      line_fits = record {
        method_tokens = tokens;
        method_ne_nil = ne;
        uri_bytes = u;
        major_digits = print_nat-IsDigit f.major;
        major_ne_nil = print_nat_ne_nil f.major;
        minor_digits = print_nat-IsDigit f.minor;
        minor_ne_nil = print_nat_ne_nil f.minor;
      };
      headers_fit = All-as_headers r.headers f.header_lines;
      body_fits = f.has_length;
    }

-- A request put together from the parts of a message's builder.
build_request-built :
    (unset : MethodEnum) (size : ℤ) (r : Request) (f : IsForwardable r)
    → build_request unset (built size (message r f)) ≡ r
unfolding build_request print_int
build_request-built unset size r f =
    rw
      (
        method_of-method_name unset r.method,
        read_version-print_nat f.major f.major_fits,
        read_version-print_nat f.minor f.minor_fits,
        collect-Sorted [] r.headers f.headers_sorted,
      )
      (rw f.has_version refl)

-- The text of a request is read back as that request, whole.
pub parse-build_request_string :
    (major minor size : ℤ) (unset : MethodEnum) (r : Request)
    → IsForwardable r
    → All IsUri r.uri
    → let p = parse new_parser (new_builder major minor size) (build_request_string r) in
      (p.result ≡ good) × (p.rest ≡ []) × (build_request unset p.builder ≡ r)
parse-build_request_string major minor size unset r f u =
    let (result, rest, builder) =
      parse-print major minor size (message r f) (message-IsMessage r f u) in
    rw (sym (print-message r f))
      (result, rest, ap (build_request unset) builder ∙ build_request-built unset size r f)

-- What the proxy writes for a parsed request, a parser like the session's reads back as the request
-- with the target's URI, `Host` the target's host and port, and `Accept-Encoding` what the proxy can
-- undo; the method, the version, the other headers and the body are the client's. The target's parts
-- hold no bytes that a URI and a header cannot.
pub parse-proxied :
    (major minor size : ℤ) (unset : MethodEnum) (r : Request) (uri url : Bytes) (port : ℤ)
    → IsForwardable r
    → FitsTarget uri url port
    → let p =
        parse new_parser
          (new_builder major minor size)
          (build_request_string (proxied r uri url port)) in
      (p.result ≡ good)
      × (p.rest ≡ [])
      × (build_request unset p.builder ≡ record r {
        uri = uri;
        headers =
            insert
              (codes "Accept-Encoding")
              (codes "gzip, identity")
              (insert (codes "Host") (url ++ (b':' ∷ print_int port)) r.headers);
      })
unfolding proxied
parse-proxied major minor size unset r uri url port f t =
    parse-build_request_string major minor size unset (proxied r uri url port)
      (proxied-IsForwardable r uri url port f t) t.uri_bytes
