-- ===== src/Record/Value.antt =====
-- The value model that src/row/record decodes into: the variants over which `encode.rs` matches
-- without a wildcard, and their payloads.
use db_storage.Prelude.{ℕ, ◌/◌, ◌%◌, ◌^◌, Bool, List, All, IsByte, IsU64, ◌==◌, ◌&&◌, not}
use db_storage.Prelude.{ℤ, IsI64}
use db_storage.Text.{IsScalar}

-- An `f64` is its bit pattern, a text the list of its characters.
pub data Value : Type 0 where
  null : Value
  integer : ℤ → Value
  real : ℕ → Value
  text : List ℕ → Value
  blob : List ℕ → Value

pub data TextEncoding : Type 0 where
  utf8 utf16_le utf16_be : TextEncoding

-- `f64::is_nan`: all bits of the exponent, and some of the fraction.
abbrev pub is_nan : ℕ → Bool
is_nan bits = (bits / 2 ^ 52 % 2 ^ 11 == 0x7ff) && not (bits % 2 ^ 52 == 0)

-- The payload is one of the Rust type's.
abbrev pub IsValue : Value → Type 0
IsValue null = Unit
IsValue (integer i) = IsI64 i
IsValue (real bits) = IsU64 bits
IsValue (text s) = All IsScalar s
IsValue (blob b) = All IsByte b
