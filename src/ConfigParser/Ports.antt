-- ===== src/ConfigParser/Ports.antt =====
-- The port numbers of src/NginxConfigParser.cc.
use bigtable_postgres_blog_s.Base.{
  ℕ, ◌+◌, Bool, false, Option, none, some, leb, if◌then◌else◌, drop,
}
use bigtable_postgres_blog_s.Base.Int.{ℤ, pos, negsuc}
use bigtable_postgres_blog_s.Base.Text.Decimal.{stoi}
use bigtable_postgres_blog_s.Base.Text.{Bytes, find_first}

-- What stands behind the first colon, or the whole text.
unfoldable pub behind_colon : Bytes → Bytes
behind_colon port_token = elim (find_first b':' port_token) [
  | none ↦ port_token
  | some i ↦ drop (i + 1) port_token
]

abbrev pub max_port : ℕ
max_port = 65535

abbrev pub is_port : ℤ → Bool
is_port (pos n) = leb n max_port
is_port (negsuc n) = false

-- `IsValidPortNum`; `none` is the end of the function without a `return`, behind a caught exception.
unfoldable pub is_valid_port_num : Bytes → Option Bool
unfolding behind_colon
is_valid_port_num port_token = elim (stoi (behind_colon port_token)) [
  | none ↦ none
  | some n ↦ some (is_port n)
]

-- `SetConfigPortNumberFromToken`, on the port number alone. An exception leaves it as it is.
unfoldable pub set_port_number : Bytes → ℤ → ℤ
unfolding behind_colon
set_port_number port_token port_number = elim (stoi (behind_colon port_token)) [
  | none ↦ port_number
  | some n ↦ if is_port n then n else port_number
]
