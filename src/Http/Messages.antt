-- ===== src/Http/Messages.antt =====
-- include/request.h, include/response.h, and `build_request` and `build_response` of the builders.
-- A method or a status that the code leaves unset is a parameter.
use bigtable_postgres_blog_s.Base.{Bool, List, [], ◌∷◌, ◌++◌, if◌then◌else◌}
use bigtable_postgres_blog_s.Base.Dict.{insert}
use bigtable_postgres_blog_s.Base.Int.{ℤ, pos}
use bigtable_postgres_blog_s.Base.Text.Decimal.{print_int}
use bigtable_postgres_blog_s.Base.Text.{Bytes, codes, str_eq}
use bigtable_postgres_blog_s.Http.Headers.{Header}

pub data MethodEnum : Type 0 where
  get head post put delete connect options trace : MethodEnum

pub record Request : Type 0 where
  pub method : MethodEnum
  pub uri : Bytes
  pub version : Bytes
  pub headers : List (Bytes × Bytes)
  pub body : Bytes

-- `StatusCode` is an enum with the number of the code; `build_response` casts any number into it.
pub record Response : Type 0 where
  pub code : ℤ
  pub headers : List (Bytes × Bytes)
  pub body : Bytes

abbrev pub ok : ℤ
ok = pos 200

abbrev pub moved_permanently : ℤ
moved_permanently = pos 301

abbrev pub moved_temporarily : ℤ
moved_temporarily = pos 302

abbrev pub bad_request : ℤ
bad_request = pos 400

abbrev pub not_found : ℤ
not_found = pos 404

abbrev pub bad_gateway : ℤ
bad_gateway = pos 502

pub record RequestBuilder : Type 0 where
  pub method : Bytes
  pub uri : Bytes
  pub http_version_major : ℤ
  pub http_version_minor : ℤ
  pub headers : List Header
  pub bodysize : ℤ
  pub body : Bytes
  pub fullmessage : Bytes
  pub keep_alive : Bool

pub record ResponseBuilder : Type 0 where
  pub http_version_major : ℤ
  pub http_version_minor : ℤ
  pub code : ℤ
  pub reasonphrase : Bytes
  pub headers : List Header
  pub body : Bytes
  pub fullmessage : Bytes
  pub keep_alive : Bool
  pub chunked : Bool
  pub contentsize : ℤ
  pub chunksizehex : Bytes
  pub chunksize : ℤ

-- The `if` chain on the method's name. No branch assigns `method_` for any other name, so what
-- `unset` holds stays.
unfoldable pub method_of : MethodEnum → Bytes → MethodEnum
method_of unset m =
    if str_eq m (codes "GET")
    then get
    else if str_eq m (codes "POST")
    then post
    else if str_eq m (codes "DELETE")
    then delete
    else if str_eq m (codes "HEAD")
    then head
    else if str_eq m (codes "PUT")
    then put
    else if str_eq m (codes "CONNECT")
    then connect
    else if str_eq m (codes "OPTIONS")
    then options
    else if str_eq m (codes "TRACE")
    then trace
    else unset

-- `for (...) headers_[h.name] = h.value`
unfoldable pub collect : List (Bytes × Bytes) → List Header → List (Bytes × Bytes)
collect m [] = m
collect m (h ∷ hs) = collect (insert h.name h.value m) hs

unfoldable pub build_request : MethodEnum → RequestBuilder → Request
unfolding method_of collect
build_request unset b = record {
  method = method_of unset b.method;
  uri = b.uri;
  version =
      codes "HTTP/" ++ (print_int b.http_version_major ++ (b'.' ∷ print_int b.http_version_minor));
  headers = collect [] b.headers;
  body = b.body;
}

unfoldable pub build_response : ResponseBuilder → Response
unfolding collect
build_response b = record { code = b.code; headers = collect [] b.headers; body = b.body }
