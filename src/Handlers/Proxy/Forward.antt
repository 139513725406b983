-- ===== src/Handlers/Proxy/Forward.antt =====
-- `proxy_request`, `handle_request` and `get_error_response` of src/proxy_request_handler.cc.
use bigtable_postgres_blog_s.Base.{
  leb, ℕ, zero, suc, ◌+◌, ◌||◌, Bool, List, [], ◌∷◌, ◌++◌, Option, none, some, if◌then◌else◌,
  length, drop, take, is_empty,
}
use bigtable_postgres_blog_s.Base.Dict.{lookup, insert}
use bigtable_postgres_blog_s.Base.Int.{ℤ, pos, int_eq}
use bigtable_postgres_blog_s.Base.Text.Decimal.{print_int, stoi, stoi_base}
use bigtable_postgres_blog_s.Base.Text.{Bytes, codes, contains, starts_with, find_first}
use bigtable_postgres_blog_s.Handlers.Proxy.Html.{Libraries, handle_html}
use bigtable_postgres_blog_s.Handlers.Proxy.Reads.{read_response}
use bigtable_postgres_blog_s.Handlers.Proxy.RequestText.{build_request_string}
use bigtable_postgres_blog_s.Handlers.Proxy.{ProxyHandler}
use bigtable_postgres_blog_s.Http.Library.{respond}
use bigtable_postgres_blog_s.Http.StockResponses
use bigtable_postgres_blog_s.Http.{
  Request, Response, ResponseBuilder, moved_permanently, moved_temporarily, bad_gateway,
}

-- `resolve` and `connect` to a host and a port, `write` of the request, and what the reads of the
-- connection give until one fails. `none` is an exception of one of the first three.
pub record Network (S : Type 0) : Type 0 where
  pub exchange : Bytes → Bytes → Bytes → S → Option (List Bytes × S)

unfoldable pub get_error_response : Response
unfolding respond
get_error_response = respond bad_gateway StockResponses.bad_gateway (codes "text/html")

-- The request that is sent on.
unfoldable pub proxied : Request → Bytes → Bytes → ℤ → Request
proxied request uri url port = record {
  method = request.method;
  uri = uri;
  version = request.version;
  headers =
      insert (codes "Accept-Encoding") (codes "gzip, identity")
        (insert (codes "Host") (url ++ (b':' ∷ print_int port)) request.headers);
  body = request.body;
}

unfoldable pub is_redirect : Response → Bool
is_redirect response =
    int_eq response.code moved_temporarily || int_eq response.code moved_permanently

-- `headers_[name]`: a name that is not there is entered with an empty value
unfoldable pub header_of : Bytes → Response → Bytes
header_of name response = elim (lookup name response.headers) [ none ↦ [] | some value ↦ value ]

unfoldable pub entered : Bytes → Response → Response
entered name response = elim (lookup name response.headers) [
  | none ↦ record response { headers = insert name [] response.headers }
  | some value ↦ response
]

-- `find("//")`: its first position
unfoldable pub find_slashes : Bytes → Option ℕ
find_slashes [] = none
find_slashes (c ∷ s) =
    let rest = find_slashes s in
    if starts_with (codes "//") (c ∷ s)
    then some 0
    else elim rest [ none ↦ none | some i ↦ some (i + 1) ]

-- The URI, the host and the port that the next request goes to.
pub record Target : Type 0 where
  pub uri : Bytes
  pub url : Bytes
  pub port : ℤ

-- A port behind the first colon of the host; `none` is an exception of `stoi`.
unfoldable pub split_port : Bytes → Bytes → Option Target
unfolding stoi_base
split_port uri host = elim (find_first b':' host) [
  | none ↦ some (record { uri = uri; url = host; port = pos 80 })
  | some i ↦ elim (stoi (drop (i + 1) host)) [
    | none ↦ none
    | some new_port ↦ some (record { uri = uri; url = take i host; port = new_port })
  ]
]

-- What is behind "//", cut at its first slash.
unfoldable pub split_uri : Bytes → Option Target
unfolding split_port
split_uri location = elim (find_first b'/' location) [
  | none ↦ split_port (codes "/") location
  | some i ↦ split_port (drop i location) (take i location)
]

unfoldable pub redirect_target : Bytes → Bytes → ℤ → Option Target
unfolding find_slashes split_uri
redirect_target location url port = elim (find_slashes location) [
  | none ↦ some (record { uri = location; url = url; port = port })
  | some i ↦ split_uri (drop (i + 2) location)
]

-- The URI behind the prefix; `substr` throws past the end of the text.
unfoldable pub server_uri : ProxyHandler → Bytes → Option Bytes
server_uri h uri =
    let behind = h.server_location_path ++ drop (length h.client_location_path) uri in
    if leb (length h.client_location_path) (length uri)
    then some (if is_empty behind then codes "/" else behind)
    else none

-- A response with the state after it, an exception, or more redirects than the fuel.
pub data Outcome (S : Type 0) : Type 0 where
  returned : Response → S → Outcome S
  thrown : Outcome S
  unfinished : Outcome S

module _ {S A Doc : Type 0} (lib : Libraries A Doc) (h : ProxyHandler) where
  -- The end of `proxy_request`: a page has its links corrected.
  unfoldable pub finish : Response → S → Outcome S
  unfolding header_of entered
  finish response s =
      if contains (codes "text/html") (header_of (codes "Content-Type") response)
      then elim (handle_html lib h.client_location_path h.server_url
          (entered (codes "Content-Type") response)) [ none ↦ thrown | some page ↦ returned page s ]
      else returned (entered (codes "Content-Type") response) s

  -- The branch of a redirect; `again` is the recursive call.
  unfoldable pub follow : (Target → S → Outcome S) → Option Target → S → Outcome S
  follow again none s = thrown
  follow again (some target) s = again target s

  unfoldable pub respond_to : (Target → S → Outcome S) → Target → Option Response → S → Outcome S
  unfolding is_redirect redirect_target finish follow
  respond_to again target none s = returned get_error_response s
  respond_to again target (some response) s =
      if is_redirect response
      then follow again
          (redirect_target (header_of (codes "Location") response) target.url target.port) s
      else finish response s

-- `builder` is the builder of each response, with the numbers that its constructor leaves.
module _ {S A Doc : Type 0} (network : Network S) (lib : Libraries A Doc) (h : ProxyHandler)
    (builder : ResponseBuilder) where
  unfoldable pub request_step : (Target → S → Outcome S) → Request → Target → S → Outcome S
  unfolding respond_to
  request_step again request target s =
      elim (network.exchange target.url (print_int h.server_port_num)
        (build_request_string (proxied request target.uri target.url target.port)) s) [
          | none ↦ thrown
          | some (reads, s') ↦ respond_to lib h again target (read_response builder reads) s'
        ]

  unfoldable pub proxy_request : ℕ → Request → Target → S → Outcome S
  unfolding request_step
  proxy_request zero request target s = unfinished
  proxy_request (suc fuel) request target s =
      request_step (proxy_request fuel request) request target s

  unfoldable pub handle_request : ℕ → Request → S → Outcome S
  unfolding proxy_request server_uri
  handle_request fuel request s = elim (server_uri h request.uri) [
    | none ↦ thrown
    | some uri ↦
        proxy_request fuel request
          (record { uri = uri; url = h.server_url; port = h.server_port_num }) s
  ]
