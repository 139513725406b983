-- ===== src/ConfigParser/Result.antt =====
-- What the configuration holds that `Parse` of src/NginxConfigParser.cc leaves, whatever it returns.
use bigtable_postgres_blog_s.Base.{
  ℕ, zero, suc, Bool, true, false, not, List, [], ◌∷◌, some, ◌≡◌, refl, arith, if◌then◌else◌,
  is_empty, Option-cases, inl, inr, length,
}
use bigtable_postgres_blog_s.Base.Text.{Bytes}
use bigtable_postgres_blog_s.Config.{keys, member}
use bigtable_postgres_blog_s.ConfigParser.Handlers.{scan_token, end_block}
use bigtable_postgres_blog_s.ConfigParser.Locations.{Scan}
use bigtable_postgres_blog_s.ConfigParser.Loop.{
  Parser, Round, again, return_value, act, normal_token, start_block, close_block, is_normal,
  ends_statement, ends_file, ParseResult, returned, thrown, out_of_fuel, parse_loop, parse,
  new_loop,
}
use bigtable_postgres_blog_s.ConfigParser.Named.{
  Good, IsPortOrNone, scan_token-Good, end_block-Good, token-Good,
}
use bigtable_postgres_blog_s.ConfigParser.Owed.{owed}
use bigtable_postgres_blog_s.ConfigParser.Statements.{Statements}
use bigtable_postgres_blog_s.ConfigParser.Tokens.{
  TokenType, token_type_start, token_type_normal, token_type_start_block, token_type_end_block,
  token_type_comment, token_type_statement_end, token_type_eof, token_type_error, parse_token,
}
use bigtable_postgres_blog_s.Dispatcher.Registered.{IsNamed, get_handler-new_dispatcher}
use bigtable_postgres_blog_s.Dispatcher.{RequestDispatcher, branch, new_dispatcher, get_handler}
use bigtable_postgres_blog_s.Handlers.{RequestHandler}

abbrev GoodRound : Round → Type 0
GoodRound (again p) = Good p.scan
GoodRound (return_value b p) = Good p.scan

either_round :
    (flag : Bool) (x y : Round) → GoodRound x → GoodRound y → GoodRound (if flag then x else y)
either_round true x y g h = g
either_round false x y g h = h

normal_token-GoodRound :
    (scan : Scan) (inner : Statements) (outer : List Statements) (last : TokenType)
    → Good scan
    → GoodRound (
        normal_token (record { scan = scan; inner = inner; outer = outer; last_token_type = last }))
unfolding normal_token
normal_token-GoodRound scan inner outer token_type_comment g = g
normal_token-GoodRound scan inner outer token_type_eof g = g
normal_token-GoodRound scan inner outer token_type_error g = g
normal_token-GoodRound scan inner outer token_type_normal g = g
normal_token-GoodRound scan inner outer token_type_start g = g
normal_token-GoodRound scan inner outer token_type_start_block g = g
normal_token-GoodRound scan inner outer token_type_end_block g = g
normal_token-GoodRound scan inner outer token_type_statement_end g = g

close_block-GoodRound :
    (scan : Scan) (inner : Statements) (outer : List Statements) (last : TokenType)
    → Good scan
    → GoodRound
        (close_block (record { scan = scan; inner = inner; outer = outer; last_token_type = last }))
unfolding close_block
close_block-GoodRound scan inner [] last g = g
close_block-GoodRound scan inner (s ∷ outer) last g =
    either_round (ends_statement last) _ _ (unfold end_block in end_block-Good scan g) g

act-GoodRound : (t : TokenType) (p : Parser) → Good p.scan → GoodRound (act t p)
unfolding act start_block
act-GoodRound token_type_error p g = g
act-GoodRound token_type_comment p g = g
act-GoodRound token_type_start p g = g
act-GoodRound token_type_normal p g =
    normal_token-GoodRound p.scan p.inner p.outer p.last_token_type g
act-GoodRound token_type_statement_end p g = either_round (is_normal p.last_token_type) _ _ g g
act-GoodRound token_type_start_block p g = either_round (is_normal p.last_token_type) _ _ g g
act-GoodRound token_type_end_block p g =
    close_block-GoodRound p.scan p.inner p.outer p.last_token_type g
act-GoodRound token_type_eof p g = either_round (ends_file p.last_token_type) _ _ g g

abbrev GoodResult : ParseResult → Type 0
GoodResult (returned b p) = Good p.scan
GoodResult thrown = Unit
GoodResult out_of_fuel = Unit

Round-elim :
    (r : Round) (f : Parser → ParseResult)
    → GoodRound r
    → ((p : Parser) → Good p.scan → GoodResult (f p))
    → GoodResult (elim r [ return_value b p ↦ returned b p | again p ↦ f p ])
Round-elim (again p) f g all = all p g
Round-elim (return_value b p) f g all = g

parse_loop-GoodResult :
    (fuel : ℕ) (input : Bytes) (p : Parser) → Good p.scan → GoodResult (parse_loop fuel input p)
unfolding parse_loop
parse_loop-GoodResult zero input p g = tt
parse_loop-GoodResult (suc fuel) input p g =
    let t = parse_token input in
    elim (Option-cases (scan_token (record p.scan { token = t.value }))) [
      | inl stopped ↦ rw (stopped, parse_loop) tt
      | inr (scan, scanned) ↦
          rw (scanned, parse_loop)
            (Round-elim (act t.token_type (record p { scan = scan }))
              (λ p'. parse_loop fuel t.rest p')
              (act-GoodRound t.token_type (record p { scan = scan })
                (scan_token-Good (record p.scan { token = t.value }) scan
                  (token-Good p.scan t.value g) scanned))
              (λ p' g'. parse_loop-GoodResult fuel t.rest p' g'))
    ]

member-ne : (k : Bytes) (xs : List Bytes) → member k xs ≡ true → not (is_empty xs) ≡ true
unfolding member
member-ne k [] h = cc
member-ne k (x ∷ xs) h = refl

-- The locations of a handler type are owed.
branch-owed : (st : Scan) (t k : Bytes) → member k (branch st.config t).1 ≡ true → owed st t ≡ true
unfolding branch owed
branch-owed st t k h = ground (
  arith,
  member-ne k st.config.echo_locations,
  member-ne k (keys st.config.static_locations),
  member-ne k st.config.status_locations,
  member-ne k (keys st.config.proxy_locations),
  member-ne k (keys st.config.redirect_locations),
  member-ne k st.config.health_locations,
  member-ne k st.config.upload_form_locations,
  member-ne k (keys st.config.blog_ips),
  member-ne k [],
)

new_loop-Good : Good new_loop.scan
unfolding owed member
new_loop-Good = record { named = λ t h. ground arith; seen = λ t h. cc; port = refl }

returned-Good : (input : Bytes) (b : Bool) (p : Parser) → parse input ≡ returned b p → Good p.scan
unfolding parse
returned-Good input b p e =
    rw e at (parse_loop-GoodResult (suc (length input)) input new_loop new_loop-Good)

-- Whatever `parse` returns, the configuration names the type of every handler that has a location.
pub parse-IsNamed :
    (input : Bytes) (b : Bool) (p : Parser) → parse input ≡ returned b p → IsNamed p.scan.config
parse-IsNamed input b p e t k h = (returned-Good input b p e).named t (branch-owed p.scan t k h)

-- Whatever `parse` returns, the port number is at most 65535, or the -1 that says that there is none.
pub parse-IsPortOrNone :
    (input : Bytes) (b : Bool) (p : Parser)
    → parse input ≡ returned b p
    → IsPortOrNone p.scan.config.port_number
parse-IsPortOrNone input b p e = (returned-Good input b p e).port

-- A server whose configuration has been parsed, rightly or not, and whose dispatcher has been made
-- from it has a handler, never a null pointer, for every URI.
pub get_handler-parse :
    (input : Bytes) (b : Bool) (p : Parser) (rd : RequestDispatcher) (uri : Bytes)
    → parse input ≡ returned b p
    → new_dispatcher p.scan.config ≡ some rd
    → (h : RequestHandler) × (get_handler rd uri ≡ some h)
get_handler-parse input b p rd uri e made =
    get_handler-new_dispatcher p.scan.config rd uri (parse-IsNamed input b p e) made
