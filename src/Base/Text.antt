-- ===== src/Base/Text.antt =====
-- Text as a list of bytes, 0 to 255: literals, equality, order, search, decimal printing, and the
-- standard library's `stoi`, `isdigit` and `strcasecmp` in the "C" locale.
mod Equal
pub mod Decimal
pub use Equal.{
  Bytes, codes, str_eq_iff, str_eq_refl, starts_with_append, contains-length, contains-eq, to_lower,
}
unfoldable pub use Equal.{str_eq, str_lt, starts_with, contains, find_first, find_last, case_eq}
