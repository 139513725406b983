-- ===== src/ConfigParser/Fuel.antt =====
-- The loop of `Parse` of src/NginxConfigParser.cc ends on every input.
use bigtable_postgres_blog_s.Base.{
  ℕ, zero, suc, ◌<◌, Bool, ◌≡◌, ◌≢◌, ◌⊎◌, inl, inr, refl, arith, Option-cases, length,
}
use bigtable_postgres_blog_s.Base.Text.{Bytes}
use bigtable_postgres_blog_s.ConfigParser.Handlers.{scan_token}
use bigtable_postgres_blog_s.ConfigParser.Loop.{
  Parser, Round, again, return_value, act, out_of_fuel, parse_loop, parse, new_loop,
}
use bigtable_postgres_blog_s.ConfigParser.Tokens.{
  token_type_eof, token_type_error, Token, parse_token, Progress, parse_token-Progress,
}

Round-cases :
    (r : Round)
    → ((p : Parser) × (r ≡ again p)) ⊎ ((b : Bool) × (p : Parser) × (r ≡ return_value b p))
Round-cases (again p) = inl (p, refl)
Round-cases (return_value b p) = inr (b, p, refl)

act_eof : (p p' : Parser) → act token_type_eof p ≢ again p'
unfolding act
act_eof p p' = λ e. ground arith

act_error : (p p' : Parser) → act token_type_error p ≢ again p'
unfolding act
act_error p p' = λ e. cc

-- A round that is not the last takes a byte at least.
again-lt :
    (input : Bytes) (t : Token) (p p' : Parser)
    → Progress input t
    → act t.token_type p ≡ again p'
    → length t.rest < length input
again-lt input t p p' (inl h) e = absurd (act_eof p p' (rw h at e))
again-lt input t p p' (inr (inl h)) e = absurd (act_error p p' (rw h at e))
again-lt input t p p' (inr (inr h)) e = h

parse_loop-ne :
    (fuel : ℕ) (input : Bytes) (p : Parser)
    → length input < fuel
    → parse_loop fuel input p ≢ out_of_fuel
unfolding parse_loop
parse_loop-ne zero input p h = absurd (omega arith)
parse_loop-ne (suc fuel) input p h = λ e.
    elim (Option-cases (scan_token (record p.scan { token = (parse_token input).value }))) [
      | inl stopped ↦ let k = rw (stopped, parse_loop) at e in cc
      | inr (scan, scanned) ↦
          elim (Round-cases (act (parse_token input).token_type (record p { scan = scan }))) [
            | inr (b, p', ended) ↦
                let k = rw (ended, parse_loop) at (rw (scanned, parse_loop) at e) in cc
            | inl (p', more) ↦
                let lt =
                  again-lt input (parse_token input) (record p { scan = scan }) p'
                    (parse_token-Progress input) more in
                parse_loop-ne fuel (parse_token input).rest p' (omega arith)
                  (rw (more, parse_loop) at (rw (scanned, parse_loop) at e))
          ]
    ]

-- `parse` does not run out of fuel: it returns or throws, whatever the input.
pub parse-ne : (input : Bytes) → parse input ≢ out_of_fuel
parse-ne input = unfold parse in parse_loop-ne (suc (length input)) input new_loop (omega arith)
