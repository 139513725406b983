-- ===== src/Tests.antt =====
-- The properties of the handlers, the dispatcher and the session, at a concrete configuration.
use bigtable_postgres_blog_s.Base.{
  ◌≤◌, false, List, [], ◌∷◌, ◌++◌, Option, none, some, ◌≡◌, inr, refl, arith, length, if◌then◌else◌,
}
use bigtable_postgres_blog_s.Base.Int.{ℤ, pos}
use bigtable_postgres_blog_s.Base.Text.Decimal.{print_nat}
use bigtable_postgres_blog_s.Base.Text.{Bytes, codes, str_eq}
use bigtable_postgres_blog_s.Config.{NginxConfig, member}
use bigtable_postgres_blog_s.Dispatcher.LongestPrefix.{
  IsLocation, Fits, longest_prefix_match-Fits, longest_prefix_match-longest,
}
use bigtable_postgres_blog_s.Dispatcher.{RequestDispatcher, longest_prefix_match}
use bigtable_postgres_blog_s.Handlers.Static.{StaticHandler, handle_static}
use bigtable_postgres_blog_s.Handlers.Static.Served.{Serves, handle_static-path}
use bigtable_postgres_blog_s.Handlers.Status.{
  handle_status, new_status, record_all, record_lines, listed_handlers, handle_status-record_all,
}
use bigtable_postgres_blog_s.Handlers.{echo, static}
use bigtable_postgres_blog_s.Http.Library.{respond}
use bigtable_postgres_blog_s.Http.{get, Request, ok}
use bigtable_postgres_blog_s.Paths.{decode_spaces}

abbrev pub config : NginxConfig
config = record {
  port_number = pos 8080;
  static_locations = (codes "/a", codes "/var/a") ∷ (codes "/a/b", codes "/var/b") ∷ [];
  echo_locations = codes "/echo" ∷ [];
  status_locations = [];
  proxy_locations = [];
  redirect_locations = [];
  health_locations = [];
  upload_form_locations = [];
  blog_ips = [];
  blog_ports = [];
  blog_usernames = [];
  blog_passwords = [];
  handler_types = codes "EchoHandler" ∷ codes "StaticHandler" ∷ [];
}

abbrev request : Bytes → Request
request uri = record {
  method = get;
  uri = uri;
  version = codes "HTTP/1.1";
  headers = [];
  body = [];
}

abbrev static_a : StaticHandler
static_a = record { client_location_path = codes "/a"; server_root_path = codes "/var/a" }

abbrev one_file : Bytes → Option Bytes
one_file name = if str_eq name (codes "/var/a/x y.txt") then some (codes "hi") else none

spaces : decode_spaces (codes "/a/x%20y.txt") ≡ codes "/a" ++ b'/' ∷ codes "x y.txt"
unfolding decode_spaces
spaces = refl

handle_static-path_example :
    Serves
      (codes "/a" ++ b'/' ∷ codes "x y.txt")
      (one_file (codes "/var/a" ++ b'/' ∷ codes "x y.txt"))
      (handle_static one_file static_a (request (codes "/a/x%20y.txt")))
handle_static-path_example =
    handle_static-path one_file static_a (request (codes "/a/x%20y.txt")) (codes "x y.txt") spaces

abbrev requests : List (Bytes × ℤ)
requests = (codes "/echo", pos 200) ∷ (codes "/none", pos 404) ∷ []

handle_status-record_all_example :
    handle_status (record_all requests (new_status config)) (request (codes "/status"))
    ≡ respond ok
        ((codes "Number of requests received: " ++ (print_nat (length requests) ++ codes "\r\n"))
          ++ ((codes "Received request(s):\r\n" ++ record_lines requests)
              ++ listed_handlers config))
        (codes "text/plain")
handle_status-record_all_example =
    handle_status-record_all requests config (request (codes "/status")) (omega arith)

longest_prefix_match-Fits_example :
    Fits config (codes "/a/b/c") (longest_prefix_match config (codes "/a/b/c"))
longest_prefix_match-Fits_example = longest_prefix_match-Fits config (codes "/a/b/c")

nested_found : IsLocation config (codes "/a/b")
unfolding member str_eq
nested_found = refl

longest_prefix_match-longest_example :
    length (codes "/a/b") ≤ length (longest_prefix_match config (codes "/a/b/c"))
longest_prefix_match-longest_example =
    longest_prefix_match-longest config (codes "/a/b/c") (codes "/a/b") nested_found
      (inr (codes "c", refl))

abbrev pub dispatcher : RequestDispatcher
dispatcher = record {
  config = config;
  dispatcher =
      (codes "/echo", echo)
      ∷ (codes "/a", static static_a)
      ∷ (
        codes "/a/b",
        static (record { client_location_path = codes "/a/b"; server_root_path = codes "/var/b" }),
      )
      ∷ [];
  status_handler_enabled = false;
}
