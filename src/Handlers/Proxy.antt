-- ===== src/Handlers/Proxy.antt =====
-- `proxy_request_handler` of src/proxy_request_handler.cc: its configuration here, its functions in
-- the children.
pub mod RequestText
pub mod Links
pub mod Corrected
pub mod Followed
pub mod Html
pub mod Reads
pub mod Cuts
pub mod Forward
pub mod Forwardable
pub mod Sent
pub mod Relayed
pub mod Redirects
pub mod Framing
pub mod Pages
mod Tests
mod NetworkTests
mod PageTests
use bigtable_postgres_blog_s.Base.{◌-◌, [], none, some, if◌then◌else◌, length, take, drop}
use bigtable_postgres_blog_s.Base.Int.{ℤ}
use bigtable_postgres_blog_s.Base.Text.{Bytes, find_first}
use bigtable_postgres_blog_s.Blog.Handler.{ends_with_slash}

pub record ProxyHandler : Type 0 where
  pub client_location_path : Bytes
  pub server_url : Bytes
  pub server_location_path : Bytes
  pub server_port_num : ℤ

-- The path behind the host, without a slash at its end.
unfoldable pub trim_slash : Bytes → Bytes
unfolding ends_with_slash
trim_slash path = if ends_with_slash path then take (length path - 1) path else path

-- `Init`, on the location's entry of `proxy_locations_`
unfoldable pub init_proxy : Bytes → Bytes × ℤ → ProxyHandler
unfolding trim_slash
init_proxy location_path (server_url, port) = elim (find_first b'/' server_url) [
  | some i ↦ record {
    client_location_path = location_path;
    server_url = take i server_url;
    server_location_path = trim_slash (drop i server_url);
    server_port_num = port;
  }
  | none ↦ record {
    client_location_path = location_path;
    server_url = server_url;
    server_location_path = [];
    server_port_num = port;
  }
]
