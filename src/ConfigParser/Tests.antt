-- ===== src/ConfigParser/Tests.antt =====
-- A run of the configuration parser, and the properties at it.
use bigtable_postgres_blog_s.Base.{true, false, [], ◌∷◌, some, ◌≡◌, ◌≢◌, refl}
use bigtable_postgres_blog_s.Base.Dict.{put}
use bigtable_postgres_blog_s.Base.Int.{pos}
use bigtable_postgres_blog_s.Base.Text.Decimal.{stoi_base}
use bigtable_postgres_blog_s.Base.Text.{Bytes, codes, str_eq, find_first}
use bigtable_postgres_blog_s.Config.{NginxConfig, member}
use bigtable_postgres_blog_s.ConfigParser.Fuel.{parse-ne}
use bigtable_postgres_blog_s.ConfigParser.Loop.{
  Parser, returned, thrown, out_of_fuel, parse, new_config, new_scan,
}
use bigtable_postgres_blog_s.ConfigParser.Named.{IsPortOrNone}
use bigtable_postgres_blog_s.ConfigParser.Result.{parse-IsPortOrNone, get_handler-parse}
use bigtable_postgres_blog_s.ConfigParser.Statements.{
  nil, cons, statement, no_block, block, add_statement, push_token, set_block,
}
use bigtable_postgres_blog_s.ConfigParser.Tokens.{token_type_end_block}
use bigtable_postgres_blog_s.Dispatcher.{
  RequestDispatcher, branch, register, register_all, enables_status, new_dispatcher, get_handler,
}
use bigtable_postgres_blog_s.Handlers.{RequestHandler, echo}

abbrev text : Bytes
text = codes "port 80; location \"/e\" EchoHandler {}"

abbrev config : NginxConfig
config = record new_config {
  port_number = pos 80;
  echo_locations = codes "/e" ∷ [];
  handler_types = codes "EchoHandler" ∷ [];
}

abbrev parsed : Parser
parsed = record {
  scan = record new_scan { config = config; seen_handlers = codes "EchoHandler" ∷ [] };
  inner = cons (statement (codes "port" ∷ codes "80" ∷ []) no_block) (
      cons (statement (codes "location" ∷ codes "\"/e\"" ∷ codes "EchoHandler" ∷ []) (block nil))
        nil);
  outer = [];
  last_token_type = token_type_end_block;
}

parsed_lem : parse text ≡ returned true parsed
unfolding parse str_eq member stoi_base find_first push_token add_statement set_block
parsed_lem = refl

-- An invalid port of a proxy throws.
parse_proxy : parse (codes "location \"/p\" ProxyHandler { host \"h\"; port 99999; }") ≡ thrown
unfolding parse str_eq member stoi_base find_first push_token add_statement set_block
parse_proxy = refl

parse-ne_example : parse text ≢ out_of_fuel
parse-ne_example = parse-ne text

parse-IsPortOrNone_example : IsPortOrNone config.port_number
parse-IsPortOrNone_example = parse-IsPortOrNone text true parsed parsed_lem

abbrev dispatcher : RequestDispatcher
dispatcher = record {
  config = config;
  dispatcher = (codes "/e", echo) ∷ [];
  status_handler_enabled = false;
}

dispatcher_lem : new_dispatcher config ≡ some dispatcher
unfolding new_dispatcher branch register register_all enables_status put str_eq
dispatcher_lem = refl

get_handler-parse_example : (h : RequestHandler) × (get_handler dispatcher (codes "/e") ≡ some h)
get_handler-parse_example =
    get_handler-parse text true parsed dispatcher (codes "/e") parsed_lem dispatcher_lem
