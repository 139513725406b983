-- ===== src/ConfigParser/Locations.antt =====
-- What `Parse` of src/NginxConfigParser.cc does with each token to collect the locations and the port:
-- the ifs at the head of its loop. `none` is an exception, or the end of `IsValidPortNum` without a
-- result.
use bigtable_postgres_blog_s.Base.{
  Bool, true, false, List, [], ◌∷◌, ◌++◌, Option, none, some, if◌then◌else◌, take, length,
}
use bigtable_postgres_blog_s.Base.Dict.{put}
use bigtable_postgres_blog_s.Base.Text.Decimal.{stoi}
use bigtable_postgres_blog_s.Base.Text.{Bytes}
use bigtable_postgres_blog_s.Config.{NginxConfig, member}
use bigtable_postgres_blog_s.ConfigParser.Ports.{is_valid_port_num, set_port_number}

-- The flags and texts of the loop; `token` is the token that it is at.
pub record Scan : Type 0 where
  pub config : NginxConfig
  pub token : Bytes
  pub location : Bytes
  pub store_proxy_location_token : Bytes
  pub seen_handlers : List Bytes
  pub save_port_val : Bool
  pub seen_location : Bool
  pub save_root_val : Bool
  pub expect_handler_type : Bool
  pub expect_static_root : Bool
  pub expect_proxy_host : Bool
  pub save_proxy_host_val : Bool
  pub expect_proxy_port : Bool
  pub save_proxy_port_val : Bool
  pub expect_redirect_host : Bool
  pub save_redirect_host_val : Bool
  pub expect_blog_info : Bool
  pub save_blog_ip_val : Bool
  pub save_blog_port : Bool
  pub save_blog_username : Bool
  pub save_blog_password : Bool

-- `token.substr(1, token.size() - 2)`: of one byte nothing is left, since the length wraps around,
-- and of none it throws.
unfoldable pub unquote : Bytes → Option Bytes
unquote [] = none
unquote (c ∷ []) = some []
unquote (c ∷ d ∷ s) = some (take (length s) (d ∷ s))

-- `insert` of an `unordered_set`
abbrev pub add : Bytes → List Bytes → List Bytes
add k xs = if member k xs then xs else xs ++ k ∷ []

unfoldable pub save_port : Scan → Scan
unfolding set_port_number
save_port st =
    if st.save_port_val
    then record st {
      config = record st.config { port_number = set_port_number st.token st.config.port_number };
      save_port_val = false;
    }
    else st

-- An invalid port throws: the message reads the variable `port_token`, which is "port", as a number.
unfoldable pub store_proxy : Scan → Option Scan
unfolding is_valid_port_num
store_proxy st = elim (is_valid_port_num st.token) [
  | none ↦ none
  | some false ↦ none
  | some true ↦ elim (stoi st.token) [
    | none ↦ none
    | some n ↦ some (record st {
      config = record st.config {
        proxy_locations =
            put st.location (st.store_proxy_location_token, n) st.config.proxy_locations;
      };
      save_proxy_port_val = false;
      location = [];
    })
  ]
]

unfoldable pub save_proxy_port : Scan → Option Scan
unfolding store_proxy
save_proxy_port st = if st.save_proxy_port_val then store_proxy st else some st

-- The token loses its quotes for the rest of the round too.
unfoldable pub save_root : Scan → Option Scan
unfolding unquote
save_root st =
    if st.save_root_val
    then elim (unquote st.token) [
      | none ↦ none
      | some root ↦ some (record st {
        token = root;
        config = record st.config {
          static_locations = put st.location root st.config.static_locations;
        };
        expect_handler_type = false;
        save_root_val = false;
        expect_static_root = false;
        seen_location = false;
        location = [];
      })
    ]
    else some st

unfoldable pub save_proxy_host : Scan → Option Scan
unfolding unquote
save_proxy_host st =
    if st.save_proxy_host_val
    then elim (unquote st.token) [
      | none ↦ none
      | some host ↦ some (record st {
        store_proxy_location_token = host;
        expect_proxy_port = true;
        expect_handler_type = false;
        expect_proxy_host = false;
        save_proxy_host_val = false;
        seen_location = false;
      })
    ]
    else some st

unfoldable pub save_redirect_host : Scan → Option Scan
unfolding unquote
save_redirect_host st =
    if st.save_redirect_host_val
    then elim (unquote st.token) [
      | none ↦ none
      | some host ↦ some (record st {
        config = record st.config {
          redirect_locations = put st.location host st.config.redirect_locations;
        };
        expect_redirect_host = false;
        expect_handler_type = false;
        expect_proxy_port = false;
        save_redirect_host_val = false;
        seen_location = false;
      })
    ]
    else some st

unfoldable pub save_blog_ip : Scan → Option Scan
unfolding unquote
save_blog_ip st =
    if st.save_blog_ip_val
    then elim (unquote st.token) [
      | none ↦ none
      | some ip ↦ some (record st {
        config = record st.config { blog_ips = put st.location ip st.config.blog_ips };
        save_blog_ip_val = false;
      })
    ]
    else some st

unfoldable pub save_port_of_blog : Scan → Option Scan
unfolding unquote
save_port_of_blog st =
    if st.save_blog_port
    then elim (unquote st.token) [
      | none ↦ none
      | some port ↦ some (record st {
        config = record st.config { blog_ports = put st.location port st.config.blog_ports };
        save_blog_port = false;
      })
    ]
    else some st

unfoldable pub save_username : Scan → Option Scan
unfolding unquote
save_username st =
    if st.save_blog_username
    then elim (unquote st.token) [
      | none ↦ none
      | some username ↦ some (record st {
        config = record st.config {
          blog_usernames = put st.location username st.config.blog_usernames;
        };
        save_blog_username = false;
      })
    ]
    else some st

unfoldable pub save_password : Scan → Option Scan
unfolding unquote
save_password st =
    if st.save_blog_password
    then elim (unquote st.token) [
      | none ↦ none
      | some password ↦ some (record st {
        config = record st.config {
          blog_passwords = put st.location password st.config.blog_passwords;
        };
        save_blog_password = false;
      })
    ]
    else some st
