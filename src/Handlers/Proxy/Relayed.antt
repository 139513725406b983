-- ===== src/Handlers/Proxy/Relayed.antt =====
-- A client's request from the parser of the session to the parser of the server behind
-- src/proxy_request_handler.cc.
use bigtable_postgres_blog_s.Base.{
  ℕ, ◌<◌, true, false, List, [], ◌∷◌, ◌++◌, ◌≡◌, ◌⊎◌, inl, inr, refl, ap, sym, ◌∙◌, arith, All,
}
use mathlib.Core.Path.{subst}
use bigtable_postgres_blog_s.Base.Dict.Ordered.{Sorted, insert-Sorted, insert-All}
use bigtable_postgres_blog_s.Base.Dict.{insert}
use bigtable_postgres_blog_s.Base.Int.{ℤ, pos, int_limit}
use bigtable_postgres_blog_s.Base.Text.Decimal.{print_int}
use bigtable_postgres_blog_s.Base.Text.{Bytes, codes, str_eq_iff}
use bigtable_postgres_blog_s.Handlers.Proxy.Forward.{proxied}
use bigtable_postgres_blog_s.Handlers.Proxy.RequestText.{build_request_string}
use bigtable_postgres_blog_s.Handlers.Proxy.Forwardable.{
  header, as_headers, IsForwardable, FitsTarget, declared-insert,
}
use bigtable_postgres_blog_s.Handlers.Proxy.Sent.{parse-proxied}
use bigtable_postgres_blog_s.Http.{MethodEnum, Header, collect, build_request}
use bigtable_postgres_blog_s.RequestParser.Count.{is_length, announced, declared}
use bigtable_postgres_blog_s.RequestParser.HeaderLines.{IsHeader}
use bigtable_postgres_blog_s.RequestParser.RoundTrip.{Message, IsMessage, print, built, parse-print}
use bigtable_postgres_blog_s.RequestParser.Segments.{read_version}
use bigtable_postgres_blog_s.RequestParser.{good, parse, new_parser, new_builder}

abbrev NoLength : List (Bytes × Bytes) → Type 0
NoLength = All (λ h. is_length (header h) ≡ false)

abbrev NoLengths : List Header → Type 0
NoLengths = All (λ h. is_length h ≡ false)

-- One header at most announces a length.
abbrev pub OneLength : List Header → Type 0
OneLength [] = Unit
OneLength (h ∷ hs) = ((is_length h ≡ true) × NoLengths hs) ⊎ ((is_length h ≡ false) × OneLength hs)

declared-NoLengths : (size : ℤ) (hs : List Header) → NoLengths hs → declared size hs ≡ size
declared-NoLengths size [] t = refl
declared-NoLengths size (h ∷ hs) (x, t) = rw x (declared-NoLengths size hs t)

as_headers-NoLengths : (m : List (Bytes × Bytes)) → NoLength m → NoLengths (as_headers m)
as_headers-NoLengths [] t = tt
as_headers-NoLengths (h ∷ m) (x, t) = (x, as_headers-NoLengths m t)

declared-NoLength :
    (size : ℤ) (m : List (Bytes × Bytes)) → NoLength m → declared size (as_headers m) ≡ size
declared-NoLength size m t = declared-NoLengths size (as_headers m) (as_headers-NoLengths m t)

declared_first :
    (k v : Bytes) (m : List (Bytes × Bytes)) (size : ℤ)
    → NoLength m
    → is_length (header (k, v)) ≡ true
    → declared size (as_headers (insert k v m)) ≡ announced size (header (k, v))
unfolding insert
declared_first k v [] size t h = refl
declared_first k v ((j, w) ∷ m) size (x, t) h = ground (
  arith,
  str_eq_iff j k,
  declared-NoLength (announced size (header (k, v))) m t,
  declared_first k v m size t h,
)

collect-NoLengths :
    (hs : List Header) (m : List (Bytes × Bytes)) (size : ℤ)
    → NoLengths hs
    → declared size (as_headers (collect m hs)) ≡ declared size (as_headers m)
unfolding collect
collect-NoLengths [] m size t = refl
collect-NoLengths (h ∷ hs) m size (x, t) =
    collect-NoLengths hs (insert h.name h.value m) size t ∙ declared-insert h.name h.value m size x

collect-OneLength :
    (hs : List Header) (m : List (Bytes × Bytes)) (size : ℤ)
    → NoLength m
    → OneLength hs
    → declared size (as_headers (collect m hs)) ≡ declared size hs
unfolding collect
collect-OneLength [] m size n t = declared-NoLength size m n
collect-OneLength (h ∷ hs) m size n (inl (x, t)) =
    collect-NoLengths hs (insert h.name h.value m) size t
    ∙ declared_first h.name h.value m size n x
    ∙ sym (declared-NoLengths (announced size h) hs t)
collect-OneLength (h ∷ hs) m size n (inr (x, t)) =
    collect-OneLength hs (insert h.name h.value m) size (insert-All _ h.name h.value m x n) t
    ∙ rw x refl

Sorted-collect : (hs : List Header) (m : List (Bytes × Bytes)) → Sorted m → Sorted (collect m hs)
unfolding collect
Sorted-collect [] m t = t
Sorted-collect (h ∷ hs) m t =
    Sorted-collect hs (insert h.name h.value m) (insert-Sorted h.name h.value m t)

collect-IsHeader :
    (hs : List Header) (m : List (Bytes × Bytes))
    → All IsHeader hs
    → All (λ h. IsHeader (header h)) m
    → All (λ h. IsHeader (header h)) (collect m hs)
unfolding collect
collect-IsHeader [] m t n = n
collect-IsHeader (h ∷ hs) m (x, t) n =
    collect-IsHeader hs (insert h.name h.value m) t (insert-All _ h.name h.value m x n)

-- A message whose request the proxy can send on: one length at most, and a version of two numbers
-- that the parser's `int`s hold.
pub record IsRelayed (m : Message) : Type 0 where
  pub is_message : IsMessage m
  pub one_length : OneLength m.headers
  pub major : ℕ
  pub minor : ℕ
  pub reads_major : read_version (pos 0) m.major ≡ pos major
  pub reads_minor : read_version (pos 0) m.minor ≡ pos minor
  pub major_fits : major < int_limit
  pub minor_fits : minor < int_limit

built-IsForwardable :
    (unset : MethodEnum) (size : ℤ) (m : Message)
    → IsRelayed m
    → IsForwardable (build_request unset (built size m))
unfolding build_request print_int
built-IsForwardable unset size m i = record {
  major = i.major;
  minor = i.minor;
  major_fits = i.major_fits;
  minor_fits = i.minor_fits;
  has_version = rw (i.reads_major, i.reads_minor) refl;
  headers_sorted = Sorted-collect m.headers [] tt;
  header_lines = collect-IsHeader m.headers [] i.is_message.headers_fit tt;
  has_length = collect-OneLength m.headers [] (pos 0) tt i.one_length ∙ i.is_message.body_fits;
}

-- What a client sends and the proxy sends on, a server with the parser of this one reads as the
-- request that this one has read, but for the URI, `Host`, which is the target's host and port, and
-- `Accept-Encoding`, which names what the proxy can undo: the method, the version, the other headers
-- and the body arrive as they were. The message is well formed, one of its headers at most announces a
-- length, and the target's parts hold no bytes that a URI and a header cannot.
pub parse-proxied_message :
    (major minor size : ℤ) (unset : MethodEnum) (m : Message) (uri url : Bytes) (port : ℤ)
    → IsRelayed m
    → FitsTarget uri url port
    → let request =
        build_request unset (parse new_parser (new_builder major minor size) (print m)).builder in
      let p =
        parse new_parser
          (new_builder major minor size)
          (build_request_string (proxied request uri url port)) in
      (p.result ≡ good)
      × (p.rest ≡ [])
      × (build_request unset p.builder ≡ record request {
        uri = uri;
        headers =
            insert
              (codes "Accept-Encoding")
              (codes "gzip, identity")
              (insert (codes "Host") (url ++ (b':' ∷ print_int port)) request.headers);
      })
parse-proxied_message major minor size unset m uri url port i t =
    let (result, rest, read) = parse-print major minor size m i.is_message in
    let request =
      build_request unset (parse new_parser (new_builder major minor size) (print m)).builder in
    parse-proxied major minor size unset request uri url port
      (subst IsForwardable (ap (build_request unset) (sym read))
        (built-IsForwardable unset size m i))
      t
