-- ===== src/Text/Utf8.antt =====
-- UTF-8 as the standard library writes and validates it (`str::as_bytes`, `str::from_utf8`).
use db_storage.Prelude.{ℕ, zero, suc, ◌+◌, ◌-◌, ◌*◌, ◌/◌, ◌%◌, ◌≤◌, ◌≡◌, refl, ap, ◌∙◌}
use db_storage.Prelude.{List, [], ◌∷◌, ◌++◌, length, length-append, All, All-append, IsByte, arith}
use db_storage.Prelude.{Option, none, some, Bool, ltb, leb, if◌then◌else◌, ◌&&◌}
use db_storage.Text.{IsScalar, is_scalar}

pub utf8_char : ℕ → List ℕ
utf8_char c =
    if ltb c 0x80
    then c ∷ []
    else if ltb c 0x800
    then (0xc0 + c / 64) ∷ (0x80 + c % 64) ∷ []
    else if ltb c 0x10000
    then (0xe0 + c / 4096) ∷ (0x80 + c / 64 % 64) ∷ (0x80 + c % 64) ∷ []
    else (0xf0 + c / 262144) ∷ (0x80 + c / 4096 % 64) ∷ (0x80 + c / 64 % 64) ∷ (0x80 + c % 64) ∷ []

-- `s.as_bytes()`
unfoldable pub utf8_bytes : List ℕ → List ℕ
unfolding utf8_char
utf8_bytes [] = []
utf8_bytes (c ∷ cs) = utf8_char c ++ utf8_bytes cs

is_continuation : ℕ → Bool
is_continuation b = leb 0x80 b && ltb b 0xc0

two_bytes : ℕ → List ℕ → Option (ℕ × List ℕ)
two_bytes b (x ∷ rest) =
    let c = (b - 0xc0) * 64 + (x - 0x80) in
    if is_continuation x && leb 0x80 c then some (c, rest) else none
two_bytes b _ = none

three_bytes : ℕ → List ℕ → Option (ℕ × List ℕ)
three_bytes b (x ∷ y ∷ rest) =
    let c = (b - 0xe0) * 4096 + (x - 0x80) * 64 + (y - 0x80) in
    if is_continuation x && (is_continuation y && (leb 0x800 c && is_scalar c))
    then some (c, rest)
    else none
three_bytes b _ = none

four_bytes : ℕ → List ℕ → Option (ℕ × List ℕ)
four_bytes b (x ∷ y ∷ z ∷ rest) =
    let c = (b - 0xf0) * 262144 + (x - 0x80) * 4096 + (y - 0x80) * 64 + (z - 0x80) in
    if is_continuation x
      && (is_continuation y && (is_continuation z && (leb 0x10000 c && is_scalar c)))
    then some (c, rest)
    else none
four_bytes b _ = none

-- The scalar value that a lead byte begins, and the bytes behind it.
next_char : ℕ → List ℕ → Option (ℕ × List ℕ)
unfolding two_bytes three_bytes four_bytes is_continuation
next_char b rest =
    if ltb b 0x80
    then some (b, rest)
    else if leb 0xc0 b && ltb b 0xe0
    then two_bytes b rest
    else if leb 0xe0 b && ltb b 0xf0
    then three_bytes b rest
    else if leb 0xf0 b && ltb b 0xf8
    then four_bytes b rest
    else none

prepend : ℕ → Option (List ℕ) → Option (List ℕ)
prepend c none = none
prepend c (some cs) = some (c ∷ cs)

-- A character takes at least a byte, so `length bytes` rounds are enough.
utf8_loop : ℕ → List ℕ → Option (List ℕ)
utf8_loop fuel [] = some []
utf8_loop zero (b ∷ bs) = none
utf8_loop (suc fuel) (b ∷ bs) = elim (next_char b bs) [
  | none ↦ none
  | some (c, rest) ↦ prepend c (utf8_loop fuel rest)
]

-- `str::from_utf8(bytes).ok()`
unfoldable pub from_utf8 : List ℕ → Option (List ℕ)
unfolding next_char prepend utf8_loop
from_utf8 bytes = utf8_loop (length bytes) bytes

pub utf8_char-IsByte : (c : ℕ) → IsScalar c → All IsByte (utf8_char c)
unfolding utf8_char
utf8_char-IsByte c h = ground arith

pub utf8_bytes-IsByte : (cs : List ℕ) → All IsScalar cs → All IsByte (utf8_bytes cs)
unfolding utf8_bytes
utf8_bytes-IsByte [] h = tt
utf8_bytes-IsByte (c ∷ cs) h =
    All-append IsByte (utf8_char c) (utf8_bytes cs) (utf8_char-IsByte c h.0)
      (utf8_bytes-IsByte cs h.1)

utf8_loop-char :
    (fuel c : ℕ) (rest : List ℕ)
    → IsScalar c
    → utf8_loop (suc fuel) (utf8_char c ++ rest) ≡ prepend c (utf8_loop fuel rest)
unfolding utf8_loop utf8_char next_char
utf8_loop-char fuel c rest h = ground arith

one-le-length-utf8_char : (c : ℕ) → 1 ≤ length (utf8_char c)
unfolding utf8_char
one-le-length-utf8_char c = ground arith

utf8_loop-bytes :
    (cs : List ℕ) (fuel : ℕ)
    → All IsScalar cs
    → length (utf8_bytes cs) ≤ fuel
    → utf8_loop fuel (utf8_bytes cs) ≡ some cs
unfolding utf8_bytes
utf8_loop-bytes [] fuel h enough = unfold utf8_loop in refl
utf8_loop-bytes (c ∷ cs) zero h enough =
    absurd (omega (arith, length-append (utf8_char c) (utf8_bytes cs), one-le-length-utf8_char c))
utf8_loop-bytes (c ∷ cs) (suc fuel) h enough =
    utf8_loop-char fuel c (utf8_bytes cs) h.0
    ∙ ap (prepend c) (
        utf8_loop-bytes cs fuel h.1
          (omega (arith, length-append (utf8_char c) (utf8_bytes cs), one-le-length-utf8_char c)))
    ∙ unfold prepend in refl

-- A text is read back from its bytes.
pub from_utf8-utf8_bytes : (cs : List ℕ) → All IsScalar cs → from_utf8 (utf8_bytes cs) ≡ some cs
unfolding from_utf8
from_utf8-utf8_bytes cs h = utf8_loop-bytes cs _ h (omega arith)
