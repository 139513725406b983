-- ===== src/Dispatcher.antt =====
-- `request_dispatcher` of src/request_dispatcher.cc. A handler is a fresh object under one key only, so
-- the map holds the handlers themselves. `dispatcher[uri]` of a key that is not there is a null
-- pointer, `none`; that it stays in the map as a null pointer changes no later look-up.
pub mod LongestPrefix
pub mod Register
pub mod Registered
use bigtable_postgres_blog_s.Base.{
  ℕ, zero, suc, ◌+◌, Bool, true, false, not, ◌&&◌, ◌||◌, List, [], ◌∷◌, Option, none, some,
  if◌then◌else◌, length, take, is_empty,
}
use bigtable_postgres_blog_s.Base.Dict.{lookup, put}
use bigtable_postgres_blog_s.Base.Text.{Bytes, codes, str_eq, starts_with, find_last}
use bigtable_postgres_blog_s.Config.{NginxConfig, member, keys}
use bigtable_postgres_blog_s.Handlers.{
  RequestHandler, echo, health, upload_form, status, error_404, init_static, init_status,
  init_proxy_handler, init_redirect, init_blog,
}
use bigtable_postgres_blog_s.Handlers.Status.{StatusHandler}
use bigtable_postgres_blog_s.Paths.{decode_spaces}

pub record RequestDispatcher : Type 0 where
  pub config : NginxConfig
  pub dispatcher : List (Bytes × RequestHandler)
  pub status_handler_enabled : Bool

-- The loop over the locations of one handler type. `none` is an exception of `Init`.
unfoldable pub register :
    (Bytes → Option RequestHandler)
    → List Bytes
    → List (Bytes × RequestHandler)
    → Option (List (Bytes × RequestHandler))
register init [] d = some d
register init (location ∷ locations) d = elim (init location) [
  | none ↦ none
  | some h ↦ register init locations (put location h d)
]

-- The branch of a handler type: how its handlers are made, and at which locations.
unfoldable pub branch : NginxConfig → Bytes → (Bytes → Option RequestHandler) × List Bytes
branch config handler_type =
    if str_eq handler_type (codes "EchoHandler")
    then (λ _. some echo, config.echo_locations)
    else if str_eq handler_type (codes "StaticHandler")
    then (init_static config, keys config.static_locations)
    else if str_eq handler_type (codes "StatusHandler")
    then (init_status config, config.status_locations)
    else if str_eq handler_type (codes "ProxyHandler")
    then (init_proxy_handler config, keys config.proxy_locations)
    else if str_eq handler_type (codes "RedirectHandler")
    then (init_redirect config, keys config.redirect_locations)
    else if str_eq handler_type (codes "HealthHandler")
    then (λ _. some health, config.health_locations)
    else if str_eq handler_type (codes "UploadFormHandler")
    then (λ _. some upload_form, config.upload_form_locations)
    else if str_eq handler_type (codes "BlogHandler")
    then (init_blog config, keys config.blog_ips)
    else (λ _. none, [])

-- The loop of `create_handler_mapping`.
unfoldable pub register_all :
    NginxConfig
    → List Bytes
    → List (Bytes × RequestHandler)
    → Option (List (Bytes × RequestHandler))
unfolding register branch
register_all config [] d = some d
register_all config (t ∷ types) d =
    let (init, locations) = branch config t in
    elim (register init locations d) [ none ↦ none | some d' ↦ register_all config types d' ]

-- `status_handler_enabled` behind the loop: set with every status handler.
unfoldable pub enables_status : NginxConfig → List Bytes → Bool
enables_status config [] = false
enables_status config (t ∷ types) =
    (str_eq t (codes "StatusHandler") && not (is_empty config.status_locations))
    || enables_status config types

-- The constructor.
unfoldable pub new_dispatcher : NginxConfig → Option RequestDispatcher
unfolding register_all enables_status
new_dispatcher config = elim (register_all config config.handler_types []) [
  | none ↦ none
  | some d ↦ some (record {
    config = config;
    dispatcher = d;
    status_handler_enabled = enables_status config config.handler_types;
  })
]

-- The loop of `longest_prefix_match`; each round makes the path shorter, so its length is fuel enough.
unfoldable pub longest_prefix : ℕ → NginxConfig → Bytes → Bytes
longest_prefix zero config trimmed_uri = []
longest_prefix (suc fuel) config trimmed_uri =
    elim (member trimmed_uri (keys config.static_locations)) [
      | true ↦ trimmed_uri
      | false ↦ elim (find_last b'/' trimmed_uri) [
        | none ↦ []
        | some slash_pos ↦ longest_prefix fuel config (take slash_pos trimmed_uri)
      ]
    ]

unfoldable pub longest_prefix_match : NginxConfig → Bytes → Bytes
unfolding longest_prefix
longest_prefix_match config uri = longest_prefix (suc (length uri)) config uri

-- The loops over `proxy_locations_` and `blog_ips_`: the first key that the URI begins with.
unfoldable pub find_prefix : Bytes → List Bytes → Option Bytes
find_prefix uri [] = none
find_prefix uri (k ∷ ks) = if starts_with k uri then some k else find_prefix uri ks

-- The key that `get_handler` looks up, for a decoded URI; `none` is the error handler.
unfoldable pub route : NginxConfig → Bytes → Option Bytes
unfolding longest_prefix_match find_prefix
route config uri =
    let static_path = longest_prefix_match config uri in
    if member uri config.echo_locations
    then some uri
    else if not (is_empty static_path)
    then some static_path
    else if member uri config.status_locations
    then some uri
    else if member uri (keys config.redirect_locations)
    then some uri
    else if member uri config.health_locations
    then some uri
    else if member uri config.upload_form_locations
    then some uri
    else elim (find_prefix uri (keys config.proxy_locations)) [
      | some uri_prefix ↦ some uri_prefix
      | none ↦ find_prefix uri (keys config.blog_ips)
    ]

unfoldable pub get_handler : RequestDispatcher → Bytes → Option RequestHandler
unfolding route decode_spaces
get_handler rd uri = elim (route rd.config (decode_spaces uri)) [
  | none ↦ some error_404
  | some key ↦ lookup key rd.dispatcher
]

-- A handler of another class is a null pointer too.
unfoldable pub get_status_handler : RequestDispatcher → Option StatusHandler
get_status_handler rd = elim (lookup (codes "/status") rd.dispatcher) [
  | some (status h) ↦ some h
  | _ ↦ none
]
