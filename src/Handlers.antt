-- ===== src/Handlers.antt =====
-- The request handlers, the `Init` of each, and the virtual `handle_request` of
-- include/request_handler.h.
pub mod Fixed
pub mod Status
pub mod Static
pub mod Proxy
use bigtable_postgres_blog_s.Base.{ℕ, List, [], ◌∷◌, Option, none, some, ◌>>=◌}
use bigtable_postgres_blog_s.Base.Dict.{lookup}
use bigtable_postgres_blog_s.Base.Text.{Bytes, codes}
use bigtable_postgres_blog_s.Blog.Handler
use bigtable_postgres_blog_s.Blog.Postgres.{credentials}
use bigtable_postgres_blog_s.Blog.{Database}
use bigtable_postgres_blog_s.Config.{NginxConfig}
use bigtable_postgres_blog_s.Handlers.Fixed.{
  handle_echo, handle_error_404, handle_health, handle_redirect, handle_upload_form,
}
use bigtable_postgres_blog_s.Handlers.Proxy.Forward
use bigtable_postgres_blog_s.Handlers.Proxy.Forward.{Network, Outcome, returned, thrown, unfinished}
use bigtable_postgres_blog_s.Handlers.Proxy.Html.{Libraries}
use bigtable_postgres_blog_s.Handlers.Proxy.{ProxyHandler, init_proxy}
use bigtable_postgres_blog_s.Handlers.Static.{StaticHandler, handle_static}
use bigtable_postgres_blog_s.Handlers.Status.{StatusHandler, new_status, handle_status}
use bigtable_postgres_blog_s.Http.{Request, Response, ResponseBuilder}

-- An object of a class derived from `request_handler`, with its members. The blog's is its prefix
-- and the string that its database is opened with.
pub data RequestHandler : Type 0 where
  echo : RequestHandler
  static : StaticHandler → RequestHandler
  status : StatusHandler → RequestHandler
  proxy : ProxyHandler → RequestHandler
  redirect : (server_url : Bytes) → RequestHandler
  health : RequestHandler
  upload_form : RequestHandler
  blog : (location_prefix connection : Bytes) → RequestHandler
  error_404 : RequestHandler

-- The `Init` functions of the handlers that read the configuration; `none` is an exception of `at`.
module _ (config : NginxConfig) (location_path : Bytes) where
  unfoldable pub init_static : Option RequestHandler
  init_static = elim (lookup location_path config.static_locations) [
    | none ↦ none
    | some root ↦
        some (static (record { client_location_path = location_path; server_root_path = root }))
  ]

  unfoldable pub init_status : Option RequestHandler
  unfolding new_status
  init_status = some (status (new_status config))

  unfoldable pub init_proxy_handler : Option RequestHandler
  unfolding init_proxy
  init_proxy_handler = elim (lookup location_path config.proxy_locations) [
    | none ↦ none
    | some server ↦ some (proxy (init_proxy location_path server))
  ]

  unfoldable pub init_redirect : Option RequestHandler
  init_redirect = elim (lookup location_path config.redirect_locations) [
    | none ↦ none
    | some server_url ↦ some (redirect server_url)
  ]

  unfoldable pub init_blog : Option RequestHandler
  unfolding credentials
  init_blog = do
    username ← lookup location_path config.blog_usernames
    password ← lookup location_path config.blog_passwords
    host ← lookup location_path config.blog_ips
    port_num ← lookup location_path config.blog_ports
    some (blog location_path (credentials (codes "postgres") username password host port_num))

-- What the handlers use outside the server, over the state `S` of it all: the files, the network,
-- libxml2 and gzip with the types of their nodes and documents, and the databases by connection
-- string. `redirects` is the fuel of the proxy handler, and `builder` the builder of its responses,
-- with the numbers that the constructor leaves.
pub record World (S : Type 0) : Type 1 where
  pub Node : Type 0
  pub Document : Type 0
  pub open_file : S → Bytes → Option Bytes
  pub network : Network S
  pub libraries : Libraries Node Document
  pub builder : ResponseBuilder
  pub redirects : ℕ
  pub database : Bytes → Database S

-- What the caller sees: no response after an exception, or after more redirects than the fuel.
unfoldable pub of_outcome : {S : Type 0} → Outcome S → Option (Response × S)
of_outcome (returned response s) = some (response, s)
of_outcome thrown = none
of_outcome unfinished = none

-- `handle_request`; `none` is an exception that leaves it, or redirects beyond the fuel.
unfoldable pub handle_request :
    {S : Type 0} → World S → RequestHandler → Request → S → Option (Response × S)
handle_request w echo req s = some (handle_echo req, s)
handle_request w (static h) req s = some (handle_static (w.open_file s) h req, s)
handle_request w (status h) req s = some (handle_status h req, s)
handle_request w (proxy h) req s =
    of_outcome (Forward.handle_request w.network w.libraries h w.builder w.redirects req s)
handle_request w (redirect server_url) req s = some (handle_redirect server_url req, s)
handle_request w health req s = some (handle_health req, s)
handle_request w upload_form req s = some (handle_upload_form req, s)
handle_request w (blog location_prefix connection) req s =
    Handler.handle_request (w.database connection) location_prefix req s
handle_request w error_404 req s = some (handle_error_404 req, s)
