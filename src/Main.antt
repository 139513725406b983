-- ===== src/Main.antt =====
-- `main` of src/server_main.cc up to the threads, and `Parse` of src/NginxConfigParser.cc on a file.
pub mod Startup
mod Tests
use bigtable_postgres_blog_s.Base.{ℕ, Bool, List, [], ◌∷◌, Option, none, some, if◌then◌else◌}
use bigtable_postgres_blog_s.Base.Int.{ℤ, pos, is_neg}
use bigtable_postgres_blog_s.Base.Text.{Bytes}
use bigtable_postgres_blog_s.Config.{NginxConfig}
use bigtable_postgres_blog_s.ConfigParser.Loop.{
  ParseResult, returned, thrown, out_of_fuel, parse, new_config,
}
use bigtable_postgres_blog_s.Dispatcher.{RequestDispatcher, new_dispatcher}
use bigtable_postgres_blog_s.Http.{RequestBuilder}
use bigtable_postgres_blog_s.Server.{Server, new_server}

-- The configuration that a parse leaves; `none` is an exception.
abbrev pub result_of : ParseResult → Option (Bool × NginxConfig)
result_of (returned b p) = some (b, p.scan.config)
result_of thrown = none
result_of out_of_fuel = none

-- `Parse(file_name, &config)`: what it returns, with the configuration after it. `none` is an exception.
unfoldable pub parse_file : Option Bytes → Option (Bool × NginxConfig)
unfolding parse
parse_file none = some (Bool.false, new_config)
parse_file (some input) = result_of (parse input)

-- The exit status, or the port and the server that the threads serve.
pub data Run (S : Type 0) : Type 0 where
  exits : ℕ → Run S
  serves : (port : ℤ) → Server S → Run S

-- The port is listened on where `listens` says so; the constructor of the acceptor throws if not. An
-- exception is printed, and the exit status is 0.
module _ {S : Type 0} (open_file : Bytes → Option Bytes) (listens : ℤ → Bool)
    (builder : RequestBuilder) (s : S) where
  unfoldable pub launch : NginxConfig → Run S
  launch config = if is_neg config.port_number then exits 1 else elim (new_dispatcher config) [
    | none ↦ exits 0
    | some rd ↦
        if listens config.port_number
        then serves config.port_number (new_server builder rd s)
        else exits 0
  ]

  -- Behind `Parse`, whose result is not looked at.
  unfoldable pub after_parse : Option (Bool × NginxConfig) → Run S
  unfolding launch
  after_parse none = exits 0
  after_parse (some (result, config)) = launch config

  -- The arguments behind the program's name.
  unfoldable pub main : List Bytes → Run S
  unfolding parse_file after_parse
  main (file_name ∷ []) = after_parse (parse_file (open_file file_name))
  main _ = exits 1
