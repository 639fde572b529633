-- ===== src/Journal/Header.antt =====
-- The header of the rollback journal is read back.
use db_storage.Prelude.{ℕ, ◌≡◌, refl, ap, sym, ◌∙◌, List, [], ◌++◌, arith}
use db_storage.Prelude.{
  ok, length, take, drop, length-append, take-append, drop-append, append-nil, append_assoc,
}
use db_storage.Prelude.{be_bytes, from_be, length-be_bytes, from_be-be_bytes, IsU32, slice?-append}
use db_storage.Journal.{JournalHeader, parse, serialize}

abbrev pub IsJournalHeader : JournalHeader → Type 0
IsJournalHeader h =
    IsU32 h.n_rec
    × IsU32 h.nonce
    × IsU32 h.initial_page_count
    × IsU32 h.sector_size
    × IsU32 h.page_size

-- The word behind `front`.
word_at :
    (front : List ℕ) (v : ℕ) (rest : List ℕ) (start : ℕ)
    → start ≡ length front
    → IsU32 v
    → from_be (take 4 (drop start (front ++ (be_bytes 4 v ++ rest)))) ≡ v
word_at front v rest start at fits =
    let four : 4 ≡ length (be_bytes 4 v) = omega (arith, length-be_bytes 4 v) in
    let word : take 4 (be_bytes 4 v ++ rest) ≡ be_bytes 4 v =
      ap (λ k. take k (be_bytes 4 v ++ rest)) four ∙ take-append (be_bytes 4 v) rest in
    rw (at, drop-append front (be_bytes 4 v ++ rest), word) (from_be-be_bytes 4 v (omega arith))

pub length-serialize :
    (h : JournalHeader) (magic : List ℕ) → length magic ≡ 8 → length (serialize h magic) ≡ 28
unfolding serialize
length-serialize h magic eight = omega (
  arith,
  length-append magic (
      be_bytes 4 h.n_rec
      ++ (be_bytes 4 h.nonce
          ++ (be_bytes 4 h.initial_page_count
              ++ (be_bytes 4 h.sector_size ++ be_bytes 4 h.page_size)))),
  length-append (be_bytes 4 h.n_rec) (
      be_bytes 4 h.nonce
      ++ (be_bytes 4 h.initial_page_count ++ (be_bytes 4 h.sector_size ++ be_bytes 4 h.page_size))),
  length-append (be_bytes 4 h.nonce)
      (be_bytes 4 h.initial_page_count ++ (be_bytes 4 h.sector_size ++ be_bytes 4 h.page_size)),
  length-append (be_bytes 4 h.initial_page_count)
      (be_bytes 4 h.sector_size ++ be_bytes 4 h.page_size),
  length-append (be_bytes 4 h.sector_size) (be_bytes 4 h.page_size),
  length-be_bytes 4 h.n_rec,
  length-be_bytes 4 h.nonce,
  length-be_bytes 4 h.initial_page_count,
  length-be_bytes 4 h.sector_size,
  length-be_bytes 4 h.page_size,
)

-- `parse` reads back the header that `serialize` wrote, in front of any bytes, where the magic has
-- eight bytes and the fields are 32-bit words.
pub parse-serialize :
    (h : JournalHeader) (magic rest : List ℕ)
    → length magic ≡ 8
    → IsJournalHeader h
    → parse (serialize h magic ++ rest) ≡ ok h
unfolding parse serialize
parse-serialize h magic rest eight (f1, f2, f3, f4, f5) =
    let w1 = be_bytes 4 h.n_rec in
    let w2 = be_bytes 4 h.nonce in
    let w3 = be_bytes 4 h.initial_page_count in
    let w4 = be_bytes 4 h.sector_size in
    let w5 = be_bytes 4 h.page_size in
    let all : List ℕ = magic ++ (w1 ++ (w2 ++ (w3 ++ (w4 ++ w5)))) in
    let front3 = (magic ++ w1) ++ w2 in
    let at2 : 12 ≡ length (magic ++ w1) =
      omega (arith, length-append magic w1, length-be_bytes 4 h.n_rec) in
    let at3 : 16 ≡ length front3 =
      omega (arith, length-append (magic ++ w1) w2, length-be_bytes 4 h.nonce) in
    let at4 : 20 ≡ length (front3 ++ w3) =
      omega (arith, length-append front3 w3, length-be_bytes 4 h.initial_page_count) in
    let at5 : 24 ≡ length ((front3 ++ w3) ++ w4) =
      omega (arith, length-append (front3 ++ w3) w4, length-be_bytes 4 h.sector_size) in
    let e2 : all ≡ (magic ++ w1) ++ (w2 ++ (w3 ++ (w4 ++ w5))) = sym (append_assoc magic w1 _) in
    let e3 : all ≡ front3 ++ (w3 ++ (w4 ++ w5)) = e2 ∙ sym (append_assoc (magic ++ w1) w2 _) in
    let e4 : all ≡ (front3 ++ w3) ++ (w4 ++ w5) = e3 ∙ sym (append_assoc front3 w3 _) in
    let e5 : all ≡ ((front3 ++ w3) ++ w4) ++ (w5 ++ []) =
      e4
      ∙ sym (append_assoc (front3 ++ w3) w4 w5)
      ∙ ap (λ t. ((front3 ++ w3) ++ w4) ++ t) (sym (append-nil w5)) in
    let be32 = λ (bytes : List ℕ) (start : ℕ). from_be (take 4 (drop start bytes)) in
    let r1 : be32 all 8 ≡ h.n_rec = word_at magic h.n_rec _ 8 (sym eight) f1 in
    let r2 : be32 all 12 ≡ h.nonce =
      ap (λ t. be32 t 12) e2 ∙ word_at (magic ++ w1) h.nonce _ 12 at2 f2 in
    let r3 : be32 all 16 ≡ h.initial_page_count =
      ap (λ t. be32 t 16) e3 ∙ word_at front3 h.initial_page_count _ 16 at3 f3 in
    let r4 : be32 all 20 ≡ h.sector_size =
      ap (λ t. be32 t 20) e4 ∙ word_at (front3 ++ w3) h.sector_size _ 20 at4 f4 in
    let r5 : be32 all 24 ≡ h.page_size =
      ap (λ t. be32 t 24) e5 ∙ word_at ((front3 ++ w3) ++ w4) h.page_size _ 24 at5 f5 in
    let size : length all ≡ 28 = unfold serialize in length-serialize h magic eight in
    rw (slice?-append [] all rest 0 28 refl (omega (arith, size)), r1, r2, r3, r4, r5) refl
