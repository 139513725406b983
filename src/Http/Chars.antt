-- ===== src/Http/Chars.antt =====
-- The character classes of src/request_parser.cc and src/response_parser.cc.
-- A `char` is its byte, 0 to 255. On the target `char` is signed: a byte of 128 or more is negative
-- as an `int`, so `c >= 0` is `c < 128` here, and no other test of the classes holds of it.
use bigtable_postgres_blog_s.Base.{
  ℕ, ◌≤◌, ◌≡◌, ◌≢◌, Bool, true, false, not, ◌&&◌, ◌||◌, ltb, leb, ◌==◌, arith,
}

abbrev nonneg : ℕ → Bool
nonneg c = ltb c 128

unfoldable pub is_char : ℕ → Bool
is_char c = nonneg c && leb c 127

unfoldable pub is_ctl : ℕ → Bool
is_ctl c = (nonneg c && leb c 31) || c == 127

unfoldable pub is_tspecial : ℕ → Bool
is_tspecial c =
    c == b'('
    || c == b')'
    || c == b'<'
    || c == b'>'
    || c == b'@'
    || c == b','
    || c == b';'
    || c == b':'
    || c == b'\\'
    || c == b'"'
    || c == b'/'
    || c == b'['
    || c == b']'
    || c == b'?'
    || c == b'='
    || c == b'{'
    || c == b'}'
    || c == b' '
    || c == b'\t'

unfoldable pub is_digit : ℕ → Bool
is_digit c = leb b'0' c && leb c b'9'

unfoldable pub is_hex : ℕ → Bool
unfolding is_digit
is_hex c =
    is_digit c
    || (c == b'A' || c == b'B' || c == b'C' || c == b'D' || c == b'E' || c == b'F')
    || (c == b'a' || c == b'b' || c == b'c' || c == b'd' || c == b'e' || c == b'f')

-- What `!is_char(c) || is_ctl(c) || is_tspecial(c)` lets through: a token of HTTP.
unfoldable pub is_token : ℕ → Bool
is_token c = not (not (is_char c) || is_ctl c || is_tspecial c)

-- What the classes say of a byte, as ranges.
abbrev pub IsNameByte : ℕ → Type 0
IsNameByte c = (33 ≤ c) × (c ≤ 126) × (c ≢ b':')

abbrev pub IsUriByte : ℕ → Type 0
IsUriByte c = (33 ≤ c) × (c ≢ 127)

abbrev pub IsTextByte : ℕ → Type 0
IsTextByte c = (32 ≤ c) × (c ≢ 127)

pub is_ctl-IsTextByte : (c : ℕ) → is_ctl c ≡ false → IsTextByte c
unfolding is_ctl
is_ctl-IsTextByte c h = ground arith

not_special : (c : ℕ) → is_tspecial c ≡ false → (c ≢ b':') × (c ≢ b' ')
unfolding is_tspecial
not_special c h = (λ e. ground arith, λ e. ground arith)

pub token-IsNameByte :
    (c : ℕ) → is_char c ≡ true → is_ctl c ≡ false → is_tspecial c ≡ false → IsNameByte c
unfolding is_char is_ctl
token-IsNameByte c h k l = ground (arith, not_special c l)
