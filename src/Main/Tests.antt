-- ===== src/Main/Tests.antt =====
-- The property of the start, at a configuration with one handler.
use bigtable_postgres_blog_s.Base.{
  Bool, List, [], ◌∷◌, Option, some, none, ◌≡◌, refl, if◌then◌else◌,
}
use bigtable_postgres_blog_s.Base.Dict.{put}
use bigtable_postgres_blog_s.Base.Int.{pos}
use bigtable_postgres_blog_s.Base.Text.Decimal.{stoi_base}
use bigtable_postgres_blog_s.Base.Text.{Bytes, codes, str_eq, find_first}
use bigtable_postgres_blog_s.Blog.{Blog}
use bigtable_postgres_blog_s.Config.{member}
use bigtable_postgres_blog_s.ConfigParser.Loop.{new_config}
use bigtable_postgres_blog_s.ConfigParser.Statements.{add_statement, push_token, set_block}
use bigtable_postgres_blog_s.Dispatcher.{
  RequestDispatcher, branch, register, register_all, enables_status, new_dispatcher,
}
use bigtable_postgres_blog_s.Handlers.{echo}
use bigtable_postgres_blog_s.Http.{RequestBuilder}
use bigtable_postgres_blog_s.Main.Startup.{IsReady, main-IsReady}
use bigtable_postgres_blog_s.Main.{exits, serves, main}
use bigtable_postgres_blog_s.RequestParser.{new_builder}
use bigtable_postgres_blog_s.Server.{new_server}

-- The second file has no end of its last statement; what was read before it is served.
abbrev files : Bytes → Option Bytes
files name =
    if str_eq name (codes "good")
    then some (codes "port 80; location \"/e\" EchoHandler {}")
    else if str_eq name (codes "short")
    then some (codes "port 80; location \"/e\" EchoHandler {} listen")
    else none

abbrev builder : RequestBuilder
builder = new_builder (pos 7) (pos 7) (pos 7)

abbrev dispatcher : RequestDispatcher
dispatcher = record {
  config = record new_config {
    port_number = pos 80;
    echo_locations = codes "/e" ∷ [];
    handler_types = codes "EchoHandler" ∷ [];
  };
  dispatcher = (codes "/e", echo) ∷ [];
  status_handler_enabled = Bool.false;
}

served :
    main {S = List Blog} files (λ port. Bool.true) builder [] (codes "good" ∷ [])
    ≡ serves (pos 80) (new_server builder dispatcher [])
unfolding main str_eq member stoi_base find_first push_token add_statement set_block new_dispatcher
    branch register register_all enables_status put
served = refl

served_short :
    main {S = List Blog} files (λ port. Bool.true) builder [] (codes "short" ∷ [])
    ≡ serves (pos 80) (new_server builder dispatcher [])
unfolding main str_eq member stoi_base find_first push_token add_statement set_block new_dispatcher
    branch register register_all enables_status put
served_short = refl

missing : main {S = List Blog} files (λ port. Bool.true) builder [] (codes "none" ∷ []) ≡ exits 1
unfolding main str_eq
missing = refl

main-IsReady_example : IsReady (pos 80) (new_server {S = List Blog} builder dispatcher [])
main-IsReady_example =
    main-IsReady files (λ port. Bool.true) builder [] (codes "short" ∷ []) (pos 80)
      (new_server builder dispatcher []) served_short
