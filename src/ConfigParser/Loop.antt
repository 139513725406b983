-- ===== src/ConfigParser/Loop.antt =====
-- The loop of `Parse` of src/NginxConfigParser.cc, on fuel; each round takes a byte at least, so that
-- the length of the input and one round more is enough.
use bigtable_postgres_blog_s.Base.{
  ℕ, zero, suc, Bool, true, false, List, [], ◌∷◌, none, some, is_empty, length, if◌then◌else◌,
}
use bigtable_postgres_blog_s.Base.Int.{negsuc}
use bigtable_postgres_blog_s.Base.Text.{Bytes}
use bigtable_postgres_blog_s.Config.{NginxConfig}
use bigtable_postgres_blog_s.ConfigParser.Handlers.{scan_token, end_block}
use bigtable_postgres_blog_s.ConfigParser.Locations.{Scan}
use bigtable_postgres_blog_s.ConfigParser.Statements.{
  Statements, nil, add_statement, push_token, set_block,
}
use bigtable_postgres_blog_s.ConfigParser.Tokens.{
  TokenType, token_type_start, token_type_normal, token_type_start_block, token_type_end_block,
  token_type_comment, token_type_statement_end, token_type_eof, token_type_error, parse_token,
}

-- The loop's variables: those of the head, the open configurations with the innermost apart, and the
-- type of the last token. `bracket_stack` is as high as `outer`.
pub record Parser : Type 0 where
  pub scan : Scan
  pub inner : Statements
  pub outer : List Statements
  pub last_token_type : TokenType

-- A round ends in the next one, or in a `return`; a `break` is the `return false` behind the loop.
pub data Round : Type 0 where
  again : Parser → Round
  return_value : Bool → Parser → Round

abbrev pub is_normal : TokenType → Bool
is_normal token_type_normal = true
is_normal _ = false

-- `TOKEN_TYPE_NORMAL` behind the token types that it may follow
unfoldable pub normal_token : Parser → Round
normal_token p = elim p.last_token_type [
  | token_type_comment ↦ return_value false p
  | token_type_eof ↦ return_value false p
  | token_type_error ↦ return_value false p
  | token_type_normal ↦ again (record p { inner = push_token p.scan.token p.inner })
  | _ ↦ again (record p {
    inner = push_token p.scan.token (add_statement p.inner);
    last_token_type = token_type_normal;
  })
]

unfoldable pub start_block : Parser → Round
start_block p =
    if is_normal p.last_token_type
    then again (record p {
      inner = nil;
      outer = p.inner ∷ p.outer;
      last_token_type = token_type_start_block;
    })
    else return_value false p

abbrev pub ends_statement : TokenType → Bool
ends_statement token_type_statement_end = true
ends_statement token_type_end_block = true
ends_statement token_type_start_block = true
ends_statement _ = false

unfoldable pub close_block : Parser → Round
unfolding end_block
close_block p = elim p.outer [
  | [] ↦ return_value false p
  | statements ∷ outer ↦
      if ends_statement p.last_token_type
      then again (record {
        scan = end_block p.scan;
        inner = set_block p.inner statements;
        outer = outer;
        last_token_type = token_type_end_block;
      })
      else return_value false p
]

abbrev pub ends_file : TokenType → Bool
ends_file token_type_statement_end = true
ends_file token_type_end_block = true
ends_file token_type_start = true
ends_file _ = false

-- The tests of the token's type.
unfoldable pub act : TokenType → Parser → Round
unfolding normal_token start_block close_block
act token_type_error p = return_value false p
act token_type_comment p = again p
act token_type_start p = return_value false p
act token_type_normal p = normal_token p
act token_type_statement_end p =
    if is_normal p.last_token_type
    then again (record p { last_token_type = token_type_statement_end })
    else return_value false p
act token_type_start_block p = start_block p
act token_type_end_block p = close_block p
act token_type_eof p =
    if ends_file p.last_token_type then return_value (is_empty p.outer) p else return_value false p

pub data ParseResult : Type 0 where
  returned : Bool → Parser → ParseResult
  thrown : ParseResult
  out_of_fuel : ParseResult

unfoldable pub parse_loop : ℕ → Bytes → Parser → ParseResult
unfolding parse_token scan_token act
parse_loop zero input p = out_of_fuel
parse_loop (suc fuel) input p =
    let t = parse_token input in
    elim (scan_token (record p.scan { token = t.value })) [
      | none ↦ thrown
      | some scan ↦ elim (act t.token_type (record p { scan = scan })) [
        | return_value b p' ↦ returned b p'
        | again p' ↦ parse_loop fuel t.rest p'
      ]
    ]

-- `NginxConfig()`
abbrev pub new_config : NginxConfig
new_config = record {
  port_number = negsuc 0;
  static_locations = [];
  echo_locations = [];
  status_locations = [];
  proxy_locations = [];
  redirect_locations = [];
  health_locations = [];
  upload_form_locations = [];
  blog_ips = [];
  blog_ports = [];
  blog_usernames = [];
  blog_passwords = [];
  handler_types = [];
}

-- The variables as `Parse` declares them.
abbrev pub new_scan : Scan
new_scan = record {
  config = new_config;
  token = [];
  location = [];
  store_proxy_location_token = [];
  seen_handlers = [];
  save_port_val = false;
  seen_location = false;
  save_root_val = false;
  expect_handler_type = false;
  expect_static_root = false;
  expect_proxy_host = false;
  save_proxy_host_val = false;
  expect_proxy_port = false;
  save_proxy_port_val = false;
  expect_redirect_host = false;
  save_redirect_host_val = false;
  expect_blog_info = false;
  save_blog_ip_val = false;
  save_blog_port = false;
  save_blog_username = false;
  save_blog_password = false;
}

abbrev pub new_loop : Parser
new_loop = record { scan = new_scan; inner = nil; outer = []; last_token_type = token_type_start }

unfoldable pub parse : Bytes → ParseResult
unfolding parse_loop
parse input = parse_loop (suc (length input)) input new_loop
