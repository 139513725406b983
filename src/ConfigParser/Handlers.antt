-- ===== src/ConfigParser/Handlers.antt =====
-- The handler types and the keywords in the loop of `Parse` of src/NginxConfigParser.cc.
use bigtable_postgres_blog_s.Base.{
  true, false, not, ◌&&◌, [], ◌∷◌, ◌++◌, Option, none, some, ◌>>=◌, if◌then◌else◌,
}
use bigtable_postgres_blog_s.Base.Text.{codes, str_eq}
use bigtable_postgres_blog_s.Config.{NginxConfig, member}
use bigtable_postgres_blog_s.ConfigParser.Locations.{
  Scan, add, unquote, save_port, save_proxy_port, save_root, save_proxy_host, save_redirect_host,
  save_blog_ip, save_port_of_blog, save_username, save_password,
}

-- `seen_handlers` and `handler_types_`
unfoldable pub name_handler : Scan → Scan
name_handler st = record st {
  config =
      if member st.token st.seen_handlers
      then st.config
      else record st.config { handler_types = st.config.handler_types ++ st.token ∷ [] };
  seen_handlers = add st.token st.seen_handlers;
}

-- A location that needs nothing more.
abbrev pub end_location : Scan → NginxConfig → Scan
end_location st config = record st {
  config = config;
  location = [];
  seen_location = false;
  expect_handler_type = false;
}

unfoldable pub take_handler : Scan → Scan
take_handler st =
    if str_eq st.token (codes "StaticHandler")
    then record st { expect_static_root = true }
    else if str_eq st.token (codes "RedirectHandler")
    then record st { expect_redirect_host = true }
    else if str_eq st.token (codes "ProxyHandler")
    then record st { expect_proxy_host = true }
    else if str_eq st.token (codes "BlogHandler")
    then record st { expect_blog_info = true }
    else if str_eq st.token (codes "EchoHandler")
    then end_location st
        (record st.config { echo_locations = add st.location st.config.echo_locations })
    else if str_eq st.token (codes "StatusHandler")
    then end_location st
        (record st.config { status_locations = add st.location st.config.status_locations })
    else if str_eq st.token (codes "HealthHandler")
    then end_location st
        (record st.config { health_locations = add st.location st.config.health_locations })
    else if str_eq st.token (codes "UploadFormHandler")
    then end_location st (record st.config {
      upload_form_locations = add st.location st.config.upload_form_locations;
    })
    else st

unfoldable pub read_handler : Scan → Scan
unfolding name_handler take_handler
read_handler st = if st.expect_handler_type then take_handler (name_handler st) else st

unfoldable pub read_location : Scan → Option Scan
unfolding unquote
read_location st =
    if st.seen_location
    then elim (unquote st.token) [
      | none ↦ none
      | some location ↦
          some
            (record st { location = location; expect_handler_type = true; seen_location = false })
    ]
    else some st

-- The keywords, of which the next token is the value.
unfoldable pub read_keyword : Scan → Scan
read_keyword st =
    if str_eq st.token (codes "port") && not st.expect_proxy_port && not st.expect_blog_info
    then record st { save_port_val = true }
    else if str_eq st.token (codes "location")
    then record st { seen_location = true }
    else if st.expect_static_root && str_eq st.token (codes "root")
    then record st { save_root_val = true }
    else if st.expect_proxy_host && str_eq st.token (codes "host")
    then record st { save_proxy_host_val = true }
    else if st.expect_proxy_port && str_eq st.token (codes "port")
    then record st { save_proxy_port_val = true }
    else if st.expect_redirect_host && str_eq st.token (codes "host")
    then record st { save_redirect_host_val = true }
    else if st.expect_blog_info && str_eq st.token (codes "host")
    then record st { save_blog_ip_val = true }
    else if st.expect_blog_info && str_eq st.token (codes "port")
    then record st { save_blog_port = true }
    else if st.expect_blog_info && str_eq st.token (codes "password")
    then record st { save_blog_password = true }
    else if st.expect_blog_info && str_eq st.token (codes "username")
    then record st { save_blog_username = true }
    else st

-- The head of the loop, up to the tests of the token's type.
unfoldable pub scan_token : Scan → Option Scan
unfolding save_port save_proxy_port save_root save_proxy_host save_redirect_host save_blog_ip
    save_port_of_blog save_username save_password read_handler read_location read_keyword
scan_token st = do
  st ← save_proxy_port (save_port st)
  st ← save_root st
  st ← save_proxy_host st
  st ← save_redirect_host st
  st ← save_blog_ip st
  st ← save_port_of_blog st
  st ← save_username st
  st ← save_password st
  st ← read_location (read_handler st)
  some (read_keyword st)

-- What a closing brace resets.
unfoldable pub end_block : Scan → Scan
end_block st = record st {
  expect_blog_info = false;
  save_blog_ip_val = false;
  save_blog_port = false;
  save_blog_username = false;
  save_blog_password = false;
  save_port_val = false;
  seen_location = false;
  save_root_val = false;
  expect_handler_type = false;
  expect_static_root = false;
  expect_proxy_host = false;
  save_proxy_host_val = false;
  expect_proxy_port = false;
  save_proxy_port_val = false;
  expect_redirect_host = false;
  save_redirect_host_val = false;
}
