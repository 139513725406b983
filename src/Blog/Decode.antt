-- ===== src/Blog/Decode.antt =====
-- `from_hex` and `urldecode` of src/blog_upload_request_handler.cc, against the encoding of forms.
use Prim.Native.Nat.{bit_or}
use bigtable_postgres_blog_s.Base.{
  and-parts, Bool-cases, inl, inr, ℕ, zero, suc, ◌+◌, ◌-◌, ◌*◌, ◌/◌, ◌%◌, ◌<◌, Bool, true, false,
  ◌&&◌, ◌||◌, [], ◌∷◌, ◌++◌, ◌≡◌, ◌≢◌, refl, ap, ◌∙◌, arith, append_assoc, leb, ◌==◌, ==_iff,
  if◌then◌else◌, All,
}
use bigtable_postgres_blog_s.Base.Text.{Bytes}

unfoldable pub from_hex : ℕ → ℕ
from_hex ch =
    if leb ch b'9' && leb b'0' ch
    then ch - 48
    else if leb ch b'f' && leb b'a' ch
    then ch - (97 - 10)
    else if leb ch b'F' && leb b'A' ch
    then ch - (65 - 10)
    else 0

-- `(ch1 << 4) | ch2` as an `unsigned char`
unfoldable pub hex_byte : ℕ → ℕ → ℕ
unfolding from_hex
hex_byte a b = bit_or (from_hex a * 16) (from_hex b) % 256

unfoldable pub urldecode : Bytes → Bytes
unfolding hex_byte
urldecode [] = []
urldecode (c ∷ []) = (if c == b'+' then b' ' else c) ∷ []
urldecode (c ∷ a ∷ []) = (if c == b'+' then b' ' else c) ∷ urldecode (a ∷ [])
urldecode (c ∷ a ∷ b ∷ s) = elim (c == b'+') [
  | true ↦ b' ' ∷ urldecode (a ∷ b ∷ s)
  | false ↦ elim (c == b'%') [
    | true ↦ hex_byte a b ∷ urldecode s
    | false ↦ c ∷ urldecode (a ∷ b ∷ s)
  ]
]

-- How a browser encodes a form's value: letters, digits and four marks as they are, a space as "+",
-- and every other byte by two digits.
abbrev is_plain : ℕ → Bool
is_plain c =
    (leb b'a' c && leb c b'z')
    || (leb b'A' c && leb c b'Z')
    || (leb b'0' c && leb c b'9')
    || c == b'*'
    || c == b'-'
    || c == b'.'
    || c == b'_'

abbrev hex_digit : ℕ → ℕ
hex_digit d = if leb d 9 then b'0' + d else b'A' + d - 10

unfoldable pub encode_byte : ℕ → Bytes
encode_byte c =
    if is_plain c
    then c ∷ []
    else if c == b' '
    then b'+' ∷ []
    else b'%' ∷ hex_digit (c / 16) ∷ hex_digit (c % 16) ∷ []

unfoldable pub urlencode : Bytes → Bytes
unfolding encode_byte
urlencode [] = []
urlencode (c ∷ s) = encode_byte c ++ urlencode s

-- The byte that the two digits of `c` stand for.
abbrev reread : ℕ → ℕ
reread c = hex_byte (hex_digit (c / 16)) (hex_digit (c % 16))

-- Whether it is `c` itself, for every byte under the bound.
rereads_under : ℕ → Bool
rereads_under zero = true
rereads_under (suc bound) = rereads_under bound && (reread bound == bound)

reread-under : (bound c : ℕ) → c < bound → rereads_under bound ≡ true → reread c ≡ c
unfolding rereads_under
reread-under zero c small all = absurd (omega arith)
reread-under (suc bound) c small all =
    let (before, last) = and-parts (rereads_under bound) (reread bound == bound) all in
    elim (Bool-cases (c == bound)) [
      | inl same ↦ rw ((==_iff c bound).0 same) ((==_iff _ bound).0 last)
      | inr other ↦ reread-under bound c (ground arith) before
    ]

rereads_bytes : rereads_under 256 ≡ true
unfolding rereads_under hex_byte
rereads_bytes = refl

hex_byte_digits : (c : ℕ) → c < 256 → reread c ≡ c
hex_byte_digits c small = reread-under 256 c small rereads_bytes

-- A byte with no meaning of its own stays, whatever follows.
pub urldecode_other :
    (c : ℕ) (rest : Bytes) → c ≢ b'+' → c ≢ b'%' → urldecode (c ∷ rest) ≡ c ∷ urldecode rest
unfolding urldecode
urldecode_other c [] h k = ground arith
urldecode_other c (a ∷ []) h k = ground arith
urldecode_other c (a ∷ b ∷ rest) h k = ground arith

urldecode_plus : (rest : Bytes) → urldecode (b'+' ∷ rest) ≡ b' ' ∷ urldecode rest
unfolding urldecode
urldecode_plus [] = refl
urldecode_plus (a ∷ []) = refl
urldecode_plus (a ∷ b ∷ rest) = refl

urldecode_percent :
    (a b : ℕ) (rest : Bytes) → urldecode (b'%' ∷ a ∷ b ∷ rest) ≡ hex_byte a b ∷ urldecode rest
unfolding urldecode
urldecode_percent a b rest = refl

urldecode-encode_byte :
    (c : ℕ) (rest : Bytes) → c < 256 → urldecode (encode_byte c ++ rest) ≡ c ∷ urldecode rest
unfolding encode_byte
urldecode-encode_byte c rest h = ground (
  arith,
  urldecode_other c rest,
  urldecode_plus rest,
  urldecode_percent (hex_digit (c / 16)) (hex_digit (c % 16)) rest,
  hex_byte_digits c h,
)

-- Decoding reads back what a browser encodes, with any text behind it.
pub urldecode-urlencode :
    (s rest : Bytes) → All (λ c. c < 256) s → urldecode (urlencode s ++ rest) ≡ s ++ urldecode rest
unfolding urlencode
urldecode-urlencode [] rest t = refl
urldecode-urlencode (c ∷ s) rest (h, t) =
    rw append_assoc
      (urldecode-encode_byte c (urlencode s ++ rest) h ∙ ap (◌∷◌ c) (urldecode-urlencode s rest t))
