-- ===== src/Text.antt =====
-- Rust's `str`: a text is the list of its Unicode scalar values, with the standard library's
-- conversions from and to UTF-8 and UTF-16.
pub mod Utf8
pub mod Utf16
use db_storage.Prelude.{ℕ, ◌≤◌, ◌<◌, ◌⊎◌, Bool, ltb, leb, ◌&&◌, ◌||◌}

-- A `char`: no surrogate, and at most 0x10ffff.
abbrev pub IsScalar : ℕ → Type 0
IsScalar c = (c < 0xd800) ⊎ ((0xe000 ≤ c) × (c < 0x110000))

abbrev pub is_scalar : ℕ → Bool
is_scalar c = ltb c 0xd800 || (leb 0xe000 c && ltb c 0x110000)
