-- ===== src/Prelude/Bytes.antt =====
-- Go strings and byte slices as lists of byte values, and Go maps with such keys.
mod Defs
pub mod Hex
pub mod Dict
pub mod Text
unfoldable pub use Defs.{Bytes, IsByte, bytes_eq}
pub use Defs.{bytes_eq_iff, bytes_eq_self, bytes_eq_ne, Bytes-cases}
