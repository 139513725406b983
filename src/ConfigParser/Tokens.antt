-- ===== src/ConfigParser/Tokens.antt =====
-- `ParseToken` of src/NginxConfigParser.cc. The stream is the bytes that are left; `unget` puts the
-- last one back. At the end of the input `get` fails, and the loop ends.
use bigtable_postgres_blog_s.Base.{
  ℕ, suc, ◌≤◌, ◌<◌, Bool, ◌||◌, [], ◌∷◌, ◌++◌, ◌≡◌, ◌≢◌, ◌⊎◌, inl, inr, refl, arith, ◌==◌,
  if◌then◌else◌, length,
}
use bigtable_postgres_blog_s.Base.Text.{Bytes}

pub data TokenType : Type 0 where
  token_type_start : TokenType
  token_type_normal : TokenType
  token_type_start_block : TokenType
  token_type_end_block : TokenType
  token_type_comment : TokenType
  token_type_statement_end : TokenType
  token_type_eof : TokenType
  token_type_error : TokenType

pub data TokenParserState : Type 0 where
  initial_whitespace : TokenParserState
  single_quote : TokenParserState
  double_quote : TokenParserState
  comment : TokenParserState
  normal : TokenParserState

-- The token's type and value, and the input behind it.
pub record Token : Type 0 where
  pub token_type : TokenType
  pub value : Bytes
  pub rest : Bytes

-- What the loop does with a byte: it goes on in a state, or returns, with the byte put back or not.
pub data Next : Type 0 where
  go_on : TokenParserState → Bytes → Next
  return_token : TokenType → Bytes → Next
  unget_byte : Next

abbrev pub is_end_of_normal : ℕ → Bool
is_end_of_normal c =
    c == b' ' || c == b'\t' || c == b'\n' || c == b'\t' || c == b';' || c == b'{' || c == b'}'

unfoldable pub step_token : TokenParserState → Bytes → ℕ → Next
step_token initial_whitespace value c =
    if c == b'{'
    then return_token token_type_start_block (c ∷ [])
    else if c == b'}'
    then return_token token_type_end_block (c ∷ [])
    else if c == b'#'
    then go_on comment (c ∷ [])
    else if c == b'"'
    then go_on double_quote (c ∷ [])
    else if c == b'\''
    then go_on single_quote (c ∷ [])
    else if c == b';'
    then return_token token_type_statement_end (c ∷ [])
    else if c == b' ' || c == b'\t' || c == b'\n' || c == b'\r'
    then go_on initial_whitespace value
    else go_on normal (value ++ c ∷ [])
step_token single_quote value c =
    if c == b'\''
    then return_token token_type_normal (value ++ c ∷ [])
    else go_on single_quote (value ++ c ∷ [])
step_token double_quote value c =
    if c == b'"'
    then return_token token_type_normal (value ++ c ∷ [])
    else go_on double_quote (value ++ c ∷ [])
step_token comment value c =
    if c == b'\n' || c == b'\r'
    then return_token token_type_comment value
    else go_on comment (value ++ c ∷ [])
step_token normal value c =
    if is_end_of_normal c then unget_byte else go_on normal (value ++ c ∷ [])

-- Behind the loop: the end of the file.
unfoldable pub end_of_file : TokenParserState → TokenType
end_of_file single_quote = token_type_error
end_of_file double_quote = token_type_error
end_of_file _ = token_type_eof

unfoldable pub parse_from_state : TokenParserState → Bytes → Bytes → Token
unfolding step_token end_of_file
parse_from_state st value [] = record { token_type = end_of_file st; value = value; rest = [] }
parse_from_state st value (c ∷ s) = elim (step_token st value c) [
  | go_on st' value' ↦ parse_from_state st' value' s
  | return_token t value' ↦ record { token_type = t; value = value'; rest = s }
  | unget_byte ↦ record { token_type = token_type_normal; value = value; rest = c ∷ s }
]

unfoldable pub parse_token : Bytes → Token
unfolding parse_from_state
parse_token s = parse_from_state initial_whitespace [] s

-- The token ends the parse, or takes a byte at least.
abbrev pub Progress : Bytes → Token → Type 0
Progress s t =
    (t.token_type ≡ token_type_eof)
    ⊎ ((t.token_type ≡ token_type_error) ⊎ (length t.rest < length s))

abbrev Within : ℕ → Token → Type 0
Within n t =
    (t.token_type ≡ token_type_eof) ⊎ ((t.token_type ≡ token_type_error) ⊎ (length t.rest ≤ n))

Within-suc : (n : ℕ) (t : Token) → Within n t → Within (suc n) t
Within-suc n t (inl e) = inl e
Within-suc n t (inr (inl e)) = inr (inl e)
Within-suc n t (inr (inr h)) = inr (inr (omega arith))

end_of_file_cases :
    (st : TokenParserState)
    → (end_of_file st ≡ token_type_eof) ⊎ (end_of_file st ≡ token_type_error)
unfolding end_of_file
end_of_file_cases initial_whitespace = inl refl
end_of_file_cases single_quote = inr refl
end_of_file_cases double_quote = inr refl
end_of_file_cases comment = inl refl
end_of_file_cases normal = inl refl

Next-cases :
    (n : Next)
    → ((st : TokenParserState) × (v : Bytes) × (n ≡ go_on st v))
      ⊎ (((t : TokenType) × (v : Bytes) × (n ≡ return_token t v)) ⊎ (n ≡ unget_byte))
Next-cases (go_on st v) = inl (st, v, refl)
Next-cases (return_token t v) = inr (inl (t, v, refl))
Next-cases unget_byte = inr (inr refl)

parse_from_state-Within :
    (s : Bytes) (st : TokenParserState) (value : Bytes)
    → Within (length s) (parse_from_state st value s)
unfolding parse_from_state
parse_from_state-Within [] st value = elim (end_of_file_cases st) [
  | inl e ↦ inl e
  | inr e ↦ inr (inl e)
]
parse_from_state-Within (c ∷ s) st value = elim (Next-cases (step_token st value c)) [
  | inl (st', v, e) ↦
      rw (e, parse_from_state)
        (Within-suc (length s) (parse_from_state st' v s) (parse_from_state-Within s st' v))
  | inr (inl (t, v, e)) ↦ rw (e, parse_from_state) (inr (inr (omega arith)))
  | inr (inr e) ↦ rw (e, parse_from_state) (inr (inr (omega arith)))
]

-- The first byte of a token is never put back.
initial_takes : (value : Bytes) (c : ℕ) → step_token initial_whitespace value c ≢ unget_byte
unfolding step_token
initial_takes value c = λ e. ground arith

parse_initial-Progress :
    (s value : Bytes) → Progress s (parse_from_state initial_whitespace value s)
unfolding parse_from_state
parse_initial-Progress [] value = inl refl
parse_initial-Progress (c ∷ s) value = elim (Next-cases (step_token initial_whitespace value c)) [
  | inl (st', v, e) ↦
      rw (e, parse_from_state)
        (elim (parse_from_state-Within s st' v) [
          | inl x ↦ inl x
          | inr (inl x) ↦ inr (inl x)
          | inr (inr h) ↦ inr (inr (omega arith))
        ])
  | inr (inl (t, v, e)) ↦ rw (e, parse_from_state) (inr (inr (omega arith)))
  | inr (inr e) ↦ absurd (initial_takes value c e)
]

pub parse_token-Progress : (s : Bytes) → Progress s (parse_token s)
parse_token-Progress s = unfold parse_token in parse_initial-Progress s []
