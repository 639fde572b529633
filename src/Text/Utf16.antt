-- ===== src/Text/Utf16.antt =====
-- UTF-16 as the standard library writes and reads it (`str::encode_utf16`, `char::decode_utf16`).
use db_storage.Prelude.{ℕ, ◌+◌, ◌-◌, ◌*◌, ◌/◌, ◌%◌, ◌≡◌, refl, ap, ◌∙◌}
use db_storage.Prelude.{List, [], ◌∷◌, ◌++◌, All, All-append, IsU16, arith}
use db_storage.Prelude.{Option, none, some, Bool, ltb, leb, if◌then◌else◌, ◌&&◌}
use db_storage.Text.{IsScalar}

pub utf16_char : ℕ → List ℕ
utf16_char c =
    if ltb c 0x10000
    then c ∷ []
    else (0xd800 + (c - 0x10000) / 1024) ∷ (0xdc00 + (c - 0x10000) % 1024) ∷ []

-- `s.encode_utf16()`
unfoldable pub encode_utf16 : List ℕ → List ℕ
unfolding utf16_char
encode_utf16 [] = []
encode_utf16 (c ∷ cs) = utf16_char c ++ encode_utf16 cs

is_surrogate : ℕ → Bool
is_surrogate u = leb 0xd800 u && ltb u 0xe000

-- A high surrogate and the low one behind it.
is_pair : ℕ → ℕ → Bool
is_pair u w = ltb u 0xdc00 && (leb 0xdc00 w && ltb w 0xe000)

prepend : ℕ → Option (List ℕ) → Option (List ℕ)
prepend c none = none
prepend c (some cs) = some (c ∷ cs)

-- `char::decode_utf16(units).collect::<Result<String, _>>().ok()`
unfoldable pub decode_utf16 : List ℕ → Option (List ℕ)
unfolding is_surrogate is_pair prepend
decode_utf16 [] = some []
decode_utf16 (u ∷ []) = if is_surrogate u then none else some (u ∷ [])
decode_utf16 (u ∷ w ∷ rest) =
    let alone = prepend u (decode_utf16 (w ∷ rest)) in
    let paired = prepend (0x10000 + (u - 0xd800) * 1024 + (w - 0xdc00)) (decode_utf16 rest) in
    if is_surrogate u then (if is_pair u w then paired else none) else alone

pub encode_utf16-IsU16 : (cs : List ℕ) → All IsScalar cs → All IsU16 (encode_utf16 cs)
unfolding encode_utf16
encode_utf16-IsU16 [] h = tt
encode_utf16-IsU16 (c ∷ cs) h =
    All-append IsU16 (utf16_char c) (encode_utf16 cs) (char c h.0) (encode_utf16-IsU16 cs h.1)
  where
    char : (c : ℕ) → IsScalar c → All IsU16 (utf16_char c)
    char c h = ground arith

decode_utf16-char :
    (c : ℕ) (rest : List ℕ)
    → IsScalar c
    → decode_utf16 (utf16_char c ++ rest) ≡ prepend c (decode_utf16 rest)
unfolding decode_utf16 utf16_char
decode_utf16-char c [] h = ground arith
decode_utf16-char c (w ∷ rest) h = ground arith

-- A text is read back from its code units.
pub decode_utf16-encode_utf16 :
    (cs : List ℕ) → All IsScalar cs → decode_utf16 (encode_utf16 cs) ≡ some cs
unfolding encode_utf16
decode_utf16-encode_utf16 [] h = unfold decode_utf16 in refl
decode_utf16-encode_utf16 (c ∷ cs) h =
    decode_utf16-char c (encode_utf16 cs) h.0
    ∙ ap (prepend c) (decode_utf16-encode_utf16 cs h.1)
    ∙ unfold prepend in refl
