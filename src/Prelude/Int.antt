-- ===== src/Prelude/Int.antt =====
-- Signed integers over the native numbers, under the library's names, and two's complement.
use Prim.Native.Nat.{ℕ, ◌-◌, ◌^◌, ◌<◌}
use mathlib.Core.Bool.{Bool}
use db_storage.Prelude.Tests.{leb, ltb, if◌then◌else◌}

-- `negsuc n` is -(n + 1).
pub data ℤ : Type 0 where
  pos : ℕ → ℤ
  negsuc : ℕ → ℤ

-- `-half <= i && i <= half - 1`
abbrev pub in_width : ℕ → ℤ → Bool
in_width half (pos n) = ltb n half
in_width half (negsuc n) = ltb n half

-- An `i64`: from `-2^63` to `2^63 - 1`.
abbrev pub IsI64 : ℤ → Type 0
IsI64 (pos n) = n < 2 ^ 63
IsI64 (negsuc n) = n < 2 ^ 63

-- `i as u64`: the bit pattern of an `i64`.
unfoldable pub bits64 : ℤ → ℕ
bits64 (pos n) = n
bits64 (negsuc n) = 2 ^ 64 - 1 - n

-- The integer of a pattern of which `m` is the modulus, `2 ^ w`, and `h` is half of it.
abbrev pub signed : ℕ → ℕ → ℕ → ℤ
signed h m v = if ltb v h then pos v else negsuc (m - 1 - v)

-- `a - b` where it does not overflow.
abbrev pub sub_ℕ : ℕ → ℕ → ℤ
sub_ℕ a b = if leb b a then pos (a - b) else negsuc (b - a - 1)
