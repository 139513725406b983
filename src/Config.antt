-- ===== src/Config.antt =====
-- `class NginxConfig` of include/config_parser.h, without the statements that the parser keeps in it.
-- An `unordered_map` or `unordered_set` is the list of its entries in the order of iteration.
use bigtable_postgres_blog_s.Base.{Bool, true, false, List, [], ◌∷◌, if◌then◌else◌}
use bigtable_postgres_blog_s.Base.Int.{ℤ}
use bigtable_postgres_blog_s.Base.Text.{Bytes, str_eq}

pub record NginxConfig : Type 0 where
  pub port_number : ℤ
  -- key: client path, value: server path
  pub static_locations : List (Bytes × Bytes)
  pub echo_locations : List Bytes
  pub status_locations : List Bytes
  pub proxy_locations : List (Bytes × (Bytes × ℤ))
  pub redirect_locations : List (Bytes × Bytes)
  pub health_locations : List Bytes
  pub upload_form_locations : List Bytes
  pub blog_ips : List (Bytes × Bytes)
  pub blog_ports : List (Bytes × Bytes)
  pub blog_usernames : List (Bytes × Bytes)
  pub blog_passwords : List (Bytes × Bytes)
  pub handler_types : List Bytes

-- `find(...) != end()` of an `unordered_set`
unfoldable pub member : Bytes → List Bytes → Bool
member k [] = false
member k (x ∷ xs) = if str_eq x k then true else member k xs

-- The keys of an `unordered_map`.
abbrev pub keys {ℓ} : {V : Type ℓ} → List (Bytes × V) → List Bytes
keys [] = []
keys ((k, v) ∷ m) = k ∷ keys m
