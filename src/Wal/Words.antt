-- ===== src/Wal/Words.antt =====
-- Big-endian words one after another, as the headers of src/row/pager/wal.rs have them.
use db_storage.Prelude.{
  ℕ, zero, suc, ◌*◌, ◌≤◌, ◌≡◌, refl, sym, ◌∙◌, ap, List, [], ◌∷◌, ◌++◌, some, arith, length,
  length-append, append_assoc, drop, get_elem?, slice?, slice?-append, be_bytes, length-be_bytes,
  from_be-be_bytes, IsU32, sat_add, Bool, ◌/◌,
}
use db_storage.Wal.{Sum, words, read_u32_opt, checksum_chunks, checksum}

pub length-words : (vs : List ℕ) → length (words vs) ≡ 4 * length vs
unfolding words
length-words [] = refl
length-words (v ∷ vs) =
    omega (arith, length-append (be_bytes 4 v) (words vs), length-be_bytes 4 v, length-words vs)

-- The word with index `i`, and what stands before and behind it.
words-split :
    (vs : List ℕ) (i v : ℕ)
    → get_elem? vs i ≡ some v
    → (front : List ℕ) × (back : List ℕ) × (words vs ≡ front ++ (be_bytes 4 v ++ back))
      × (length front ≡ 4 * i)
unfolding words
words-split [] i v h = absurd cc
words-split (w ∷ vs) zero v h = ([], words vs, (let e : w ≡ v = cc in rw e refl), refl)
words-split (w ∷ vs) (suc i) v h =
    let (front, back, e, at) = words-split vs i v h in
    (
      be_bytes 4 w ++ front,
      back,
      (rw e (sym (append_assoc (be_bytes 4 w) front (be_bytes 4 v ++ back)))),
      omega (arith, length-append (be_bytes 4 w) front, length-be_bytes 4 w),
    )

-- A word is read back, whatever follows the words.
pub read_u32_opt-words :
    (vs rest : List ℕ) (i v start : ℕ)
    → start ≡ 4 * i
    → start ≤ 100
    → get_elem? vs i ≡ some v
    → IsU32 v
    → read_u32_opt (words vs ++ rest) start ≡ some v
unfolding read_u32_opt
read_u32_opt-words vs rest i v start at near h fits =
    let (front, back, e, size) = words-split vs i v h in
    let whole : words vs ++ rest ≡ front ++ (be_bytes 4 v ++ (back ++ rest)) =
      ap (λ l. l ++ rest) e
      ∙ append_assoc front (be_bytes 4 v ++ back) rest
      ∙ ap (λ l. front ++ l) (append_assoc (be_bytes 4 v) back rest) in
    let part : slice? (words vs ++ rest) start (sat_add start 4) ≡ some (be_bytes 4 v) =
      ap (λ l. slice? l start (sat_add start 4)) whole
      ∙ slice?-append front (be_bytes 4 v) (back ++ rest) start (sat_add start 4)
          (omega (arith, size)) (omega (arith, size, length-be_bytes 4 v)) in
    rw (read_u32_opt, part) (ap some (from_be-be_bytes 4 v (omega arith)))

abbrev pub IsSum : Sum → Type 0
IsSum s = IsU32 s.0 × IsU32 s.1

module _ (from_ne_bytes : List ℕ → ℕ) where
  checksum_chunks-IsSum :
      (n : ℕ) (native : Bool) (chunk : List ℕ) (s : Sum)
      → IsSum s
      → IsSum (checksum_chunks from_ne_bytes n native chunk s)
  unfolding checksum_chunks
  checksum_chunks-IsSum zero native chunk (s1, s2) h = h
  checksum_chunks-IsSum (suc n) native chunk (s1, s2) h =
      checksum_chunks-IsSum n native (drop 8 chunk) _ (omega arith, omega arith)

  -- A running checksum stays two 32-bit words.
  pub checksum-IsSum :
      (native : Bool) (bytes : List ℕ) (s : Sum)
      → IsSum s
      → IsSum (checksum from_ne_bytes native bytes s)
  unfolding checksum
  checksum-IsSum native bytes s h = checksum_chunks-IsSum (length bytes / 8) native bytes s h
