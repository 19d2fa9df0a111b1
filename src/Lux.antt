-- ===== src/Lux.antt =====
-- libs/lux/src: the errors and the image of lib.rs and error.rs, and code that may also panic.
pub mod Tiff
pub mod Bayer
pub mod Demosaic
pub mod Arw
pub mod Tests
use una_os.Prelude.{ℕ, List}
use una_os.Prelude.Checked.{Checked}
pub use una_os.Prelude.Checked.{panicked, failed, parsed, ◌>>=◌, Ensures, Ensures-bind, Ensures-if}
pub use una_os.Prelude.Checked.{Yields, Yields-bind, Ensures-of_Yields}

pub data LuxError : Type 0 where
  buffer_too_small : LuxError
  invalid_magic : LuxError
  unsupported_endianness : LuxError
  missing_data : LuxError
  unsupported_compression : ℕ → LuxError
  unsupported_cfa : LuxError
  corrupt_data : LuxError

pub record RgbBuffer (F : Type 0) : Type 0 where
  pub width : ℕ
  pub height : ℕ
  pub pixels : List F

-- `Result<A, LuxError>` of code that may index out of bounds.
abbrev pub Parsed : Type 0 → Type 0
Parsed A = Checked LuxError A
