-- ===== src/Journal/Format.antt =====
-- journal/format.rs: the constants and errors of the file format. The packed structures stand in the
-- modules below. An `i64` is its two's complement bit pattern, a number below 2^64.
pub mod Header
pub mod Schema
pub mod Footer
pub mod Record
pub mod Kind
pub mod Packed
use ai_systems_verification.Base.{ℕ, Option, List, [], ◌∷◌}

-- "BLKBOXJL", "BLKBOXSC" and "BLKBOXND".
abbrev pub file_magic : List ℕ
file_magic = b'B' ∷ b'L' ∷ b'K' ∷ b'B' ∷ b'O' ∷ b'X' ∷ b'J' ∷ b'L' ∷ []

abbrev pub schema_magic : List ℕ
schema_magic = b'B' ∷ b'L' ∷ b'K' ∷ b'B' ∷ b'O' ∷ b'X' ∷ b'S' ∷ b'C' ∷ []

abbrev pub footer_magic : List ℕ
footer_magic = b'B' ∷ b'L' ∷ b'K' ∷ b'B' ∷ b'O' ∷ b'X' ∷ b'N' ∷ b'D' ∷ []

abbrev pub format_version_major : ℕ
format_version_major = 1

abbrev pub format_version_minor : ℕ
format_version_minor = 2

abbrev pub schema_version_major : ℕ
schema_version_major = 1

abbrev pub schema_version_minor : ℕ
schema_version_minor = 0

abbrev pub file_header_size : ℕ
file_header_size = 128

abbrev pub record_header_size : ℕ
record_header_size = 24

abbrev pub schema_block_header_size : ℕ
schema_block_header_size = 32

abbrev pub file_footer_size : ℕ
file_footer_size = 32

-- `HeaderError`.
pub data HeaderError : Type 0 where
  invalid_magic : HeaderError
  invalid_schema_magic : HeaderError
  invalid_footer_magic : HeaderError
  unsupported_version : ℕ → ℕ → HeaderError

-- `Result<(), HeaderError>`: no error, or the error.
abbrev pub Verdict : Type 0
Verdict = Option HeaderError
