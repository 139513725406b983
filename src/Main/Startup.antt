-- ===== src/Main/Startup.antt =====
-- What src/server_main.cc starts.
use bigtable_postgres_blog_s.Base.{
  ℕ, ◌≤◌, Bool, false, List, [], ◌∷◌, Option, none, some, ◌≡◌, inl, inr, refl, ap, sym, ◌∙◌,
  Option-cases, Bool-cases,
}
use mathlib.Core.Path.{subst}
use bigtable_postgres_blog_s.ConfigParser.Named.{IsPortOrNone}
use bigtable_postgres_blog_s.Base.Int.{ℤ, pos, negsuc, is_neg}
use bigtable_postgres_blog_s.Base.Text.{Bytes}
use bigtable_postgres_blog_s.Config.{NginxConfig}
use bigtable_postgres_blog_s.ConfigParser.Loop.{
  returned, thrown, out_of_fuel, ParseResult, Parser, parse, new_config,
}
use bigtable_postgres_blog_s.ConfigParser.Result.{get_handler-parse, parse-IsPortOrNone}
use bigtable_postgres_blog_s.Dispatcher.{RequestDispatcher, new_dispatcher, get_handler}
use bigtable_postgres_blog_s.Handlers.{RequestHandler}
use bigtable_postgres_blog_s.Http.{RequestBuilder}
use bigtable_postgres_blog_s.Main.{
  parse_file, Run, exits, serves, launch, after_parse, result_of, main,
}
use bigtable_postgres_blog_s.Server.{Server, new_server, start_accept}

-- A server that has a valid port and a handler for every URI.
abbrev pub IsReady : {S : Type 0} → ℤ → Server S → Type 0
IsReady port server =
    (n : ℕ) × (port ≡ pos n)
    × (n ≤ 65535)
    × ((uri : Bytes) → (h : RequestHandler) × (get_handler server.dispatcher uri ≡ some h))

port_range :
    (port : ℤ) → IsPortOrNone port → is_neg port ≡ false → (n : ℕ) × (port ≡ pos n) × (n ≤ 65535)
port_range (pos n) small ok = (n, refl, small)
port_range (negsuc n) small ok = cc

module _ {S : Type 0} (open_file : Bytes → Option Bytes) (listens : ℤ → Bool)
    (builder : RequestBuilder) (s : S) where
  abbrev launched : NginxConfig → Run S
  launched = launch open_file listens builder s

  abbrev port_of : ℤ → Run S → ℤ
  port_of port (exits n) = port
  port_of port (serves p server) = p

  abbrev dispatcher_of : RequestDispatcher → Run S → RequestDispatcher
  dispatcher_of rd (exits n) = rd
  dispatcher_of rd (serves p server) = server.dispatcher

  launch-serves :
      (config : NginxConfig) (port : ℤ) (server : Server S)
      → launched config ≡ serves port server
      → (is_neg config.port_number ≡ false)
        × (config.port_number ≡ port)
        × (new_dispatcher config ≡ some server.dispatcher)
  unfolding launch
  launch-serves config port server e = elim (Bool-cases (is_neg config.port_number)) [
    | inl negative ↦ let k = rw negative at e in cc
    | inr ok ↦ elim (Option-cases (new_dispatcher config)) [
      | inl thrown_there ↦ let k = rw (ok, thrown_there) at e in cc
      | inr (rd, made) ↦ elim (Bool-cases (listens config.port_number)) [
        | inl on ↦
            let k = rw (ok, made, on) at e in
            (
              ok,
              ap (port_of port) k,
              made ∙ ap some (unfold new_server start_accept in ap (dispatcher_of rd) k),
            )
        | inr off ↦ let k = rw (ok, made, off) at e in cc
      ]
    ]
  ]

  -- The configuration that a parse leaves, and the port of it that is served.
  parsed-IsReady :
      (input : Bytes) (b : Bool) (p : Parser) (port : ℤ) (server : Server S)
      → parse input ≡ returned b p
      → launched p.scan.config ≡ serves port server
      → IsReady port server
  parsed-IsReady input b p port server parsed e =
      let (ok, same, made) = launch-serves p.scan.config port server e in
      let (n, is_n, small) =
        port_range port (subst IsPortOrNone same (parse-IsPortOrNone input b p parsed))
          (ap is_neg (sym same) ∙ ok) in
      (n, is_n, small, λ uri. get_handler-parse input b p server.dispatcher uri parsed made)

  abbrev continued : Option (Bool × NginxConfig) → Run S
  continued = after_parse open_file listens builder s

  run-IsReady :
      (input : Bytes) (r : ParseResult) (port : ℤ) (server : Server S)
      → parse input ≡ r
      → continued (result_of r) ≡ serves port server
      → IsReady port server
  unfolding after_parse
  run-IsReady input (returned b p) port server parsed e =
      parsed-IsReady input b p port server parsed e
  run-IsReady input thrown port server parsed e = cc
  run-IsReady input out_of_fuel port server parsed e = cc

  file-IsReady :
      (file : Option Bytes) (port : ℤ) (server : Server S)
      → continued (parse_file file) ≡ serves port server
      → IsReady port server
  unfolding parse_file after_parse
  file-IsReady none port server e =
      let (ok, same, made) = launch-serves new_config port server e in cc
  file-IsReady (some input) port server e = run-IsReady input (parse input) port server refl e

  -- If the program serves, whatever `Parse` has returned of the file, it serves at a port from 0 to
  -- 65535, and its dispatcher has a handler, never a null pointer, for every URI.
  pub main-IsReady :
      (arguments : List Bytes) (port : ℤ) (server : Server S)
      → main open_file listens builder s arguments ≡ serves port server
      → IsReady port server
  unfolding main
  main-IsReady [] port server e = cc
  main-IsReady (a ∷ b ∷ rest) port server e = cc
  main-IsReady (file_name ∷ []) port server e = file-IsReady (open_file file_name) port server e
