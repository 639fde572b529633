-- ===== src/Wal/Frames.antt =====
-- A frame that `append_frame` builds is a valid one of the walks (src/row/pager/wal.rs).
use db_storage.Prelude.{
  ℕ, ◌+◌, ◌*◌, ◌≤◌, ◌≡◌, refl, sym, ◌∙◌, ap, true, List, [], ◌∷◌, ◌++◌, some, arith, length,
  length-append, append_assoc, append-nil, slice?, slice?-append, IsU32, ◌==◌, ==_iff, sat_add,
  u64_max, get_elem?,
}
use db_storage.Wal.{WalHeader, Sum, frame_header_len, frame_size, words, read_u32_opt, checksum}
use db_storage.Wal.Header.{words-append, sum_eq-same}
use db_storage.Wal.Log.{Frame, check_frame, frame_at}
use db_storage.Wal.Words.{length-words, read_u32_opt-words, checksum-IsSum, IsSum}
use db_storage.Wal.Writer.{frame_bytes}

eq-same : (n : ℕ) → (n == n) ≡ true
eq-same n = (==_iff n n).1 refl

-- A word of a frame header.
word_of :
    (vs : List ℕ) (i v start : ℕ)
    → start ≡ 4 * i
    → start ≤ 100
    → get_elem? vs i ≡ some v
    → IsU32 v
    → read_u32_opt (words vs) start ≡ some v
word_of vs i v start at near h fits =
    ap (λ l. read_u32_opt l start) (sym (append-nil (words vs)))
    ∙ read_u32_opt-words vs [] i v start at near h fits

module _ (from_ne_bytes : List ℕ → ℕ) (h : WalHeader) where
  -- The checksum behind a frame.
  abbrev pub sum_after : Sum → ℕ → List ℕ → ℕ → Sum
  sum_after running n bytes commit =
      checksum from_ne_bytes h.native_checksum bytes
        (checksum from_ne_bytes h.native_checksum (words (n ∷ commit ∷ [])) running)

  abbrev head_fields : Sum → ℕ → List ℕ → ℕ → List ℕ
  head_fields running n bytes commit =
      n
      ∷ commit
      ∷ h.salt1
      ∷ h.salt2
      ∷ (sum_after running n bytes commit).0
      ∷ (sum_after running n bytes commit).1
      ∷ []

  abbrev pub frame_of : Sum → ℕ → List ℕ → ℕ → Frame
  frame_of running n bytes commit = record {
    page_number = n;
    db_size = commit;
    content = bytes;
    after_page = sum_after running n bytes commit;
  }

  pub sum_after-IsSum :
      (running : Sum) (n : ℕ) (bytes : List ℕ) (commit : ℕ)
      → IsSum running
      → IsSum (sum_after running n bytes commit)
  sum_after-IsSum running n bytes commit s =
      checksum-IsSum from_ne_bytes h.native_checksum bytes _
        (checksum-IsSum from_ne_bytes h.native_checksum (words (n ∷ commit ∷ [])) running s)

  pub length-frame_bytes :
      (running : Sum) (n : ℕ) (bytes : List ℕ) (commit : ℕ)
      → length (frame_bytes from_ne_bytes h running n bytes commit).0 ≡ 24 + length bytes
  unfolding frame_bytes
  length-frame_bytes running n bytes commit = omega (
    arith,
    length-append (words (head_fields running n bytes commit)) bytes,
    length-words (head_fields running n bytes commit),
  )

  header_slice :
      (front rest : List ℕ) (running : Sum) (n : ℕ) (bytes : List ℕ) (commit offset : ℕ)
      → offset ≡ length front
      → length front + 24 + length bytes ≤ u64_max
      → slice?
          (front ++ ((frame_bytes from_ne_bytes h running n bytes commit).0 ++ rest))
          offset
          (sat_add offset frame_header_len)
        ≡ some (words (head_fields running n bytes commit))
  unfolding frame_bytes
  header_slice front rest running n bytes commit offset at fits =
      let fh = words (head_fields running n bytes commit) in
      let wide = length-words (head_fields running n bytes commit) in
      ap (λ l. slice? l offset (sat_add offset frame_header_len))
        (ap (λ l. front ++ l) (append_assoc fh bytes rest))
      ∙ slice?-append front fh (bytes ++ rest) _ _ at (omega (arith, at, wide))

  module _ (salt1 : IsU32 h.salt1) (salt2 : IsU32 h.salt2) where
    check_frame-frame_bytes :
        (front rest : List ℕ) (running : Sum) (n : ℕ) (bytes : List ℕ) (commit offset : ℕ)
        → offset ≡ length front
        → length bytes ≡ h.page_size
        → IsSum running
        → length front + 24 + length bytes ≤ u64_max
        → check_frame from_ne_bytes h
            (front ++ ((frame_bytes from_ne_bytes h running n bytes commit).0 ++ rest))
            offset
            running
            (words (head_fields running n bytes commit))
          ≡ some (bytes, sum_after running n bytes commit)
    unfolding check_frame frame_bytes frame_size words
    check_frame-frame_bytes front rest running n bytes commit offset at size sum fits =
        let vs = head_fields running n bytes commit in
        let fh = words vs in
        let whole = front ++ ((fh ++ bytes) ++ rest) in
        let (s1, s2) = sum_after-IsSum running n bytes commit sum in
        let wide : length fh ≡ 24 = length-words vs in
        let w2 = word_of vs 2 h.salt1 8 refl (omega arith) refl salt1 in
        let w3 = word_of vs 3 h.salt2 12 refl (omega arith) refl salt2 in
        let w4 = word_of vs 4 (sum_after running n bytes commit).0 16 refl (omega arith) refl s1 in
        let w5 = word_of vs 5 (sum_after running n bytes commit).1 20 refl (omega arith) refl s2 in
        let e : whole ≡ (front ++ fh) ++ (bytes ++ rest) =
          ap (λ l. front ++ l) (append_assoc fh bytes rest)
          ∙ sym (append_assoc front fh (bytes ++ rest)) in
        let content : slice? whole (sat_add offset frame_header_len) (sat_add offset (frame_size h))
            ≡ some bytes =
          ap (λ l. slice? l (sat_add offset frame_header_len) (sat_add offset (frame_size h))) e
          ∙ slice?-append (front ++ fh) bytes rest _ _
              (omega (arith, at, length-append front fh, wide))
              (let lf = length-append front fh in omega (arith, at, wide, size)) in
        let head : slice? fh 0 8 ≡ some (words (n ∷ commit ∷ [])) =
          ap (λ l. slice? l 0 8)
            (sym (
              words-append (n ∷ commit ∷ []) (
                h.salt1
                ∷ h.salt2
                ∷ (sum_after running n bytes commit).0
                ∷ (sum_after running n bytes commit).1
                ∷ [])))
          ∙ slice?-append [] (words (n ∷ commit ∷ [])) _ 0 8 refl
              (sym (length-words (n ∷ commit ∷ []))) in
        rw
          (
            check_frame,
            w2,
            w3,
            w4,
            w5,
            eq-same h.salt1,
            eq-same h.salt2,
            content,
            head,
            sum_eq-same (sum_after running n bytes commit),
          )
          refl

    -- A frame behind any bytes and in front of any bytes is read.
    pub frame_at-frame_bytes :
        (front rest : List ℕ) (running : Sum) (n : ℕ) (bytes : List ℕ) (commit offset : ℕ)
        → offset ≡ length front
        → length bytes ≡ h.page_size
        → IsSum running
        → IsU32 n
        → IsU32 commit
        → length front + 24 + length bytes ≤ u64_max
        → frame_at from_ne_bytes h
            (front ++ ((frame_bytes from_ne_bytes h running n bytes commit).0 ++ rest))
            offset
            running
          ≡ some (frame_of running n bytes commit)
    unfolding frame_at
    frame_at-frame_bytes front rest running n bytes commit offset at size sum page count fits =
        let vs = head_fields running n bytes commit in
        let whole = front ++ ((frame_bytes from_ne_bytes h running n bytes commit).0 ++ rest) in
        let header : slice? whole offset (sat_add offset frame_header_len) ≡ some (words vs) =
          header_slice front rest running n bytes commit offset at fits in
        let w0 = word_of vs 0 n 0 refl (omega arith) refl page in
        let w1 = word_of vs 1 commit 4 refl (omega arith) refl count in
        let checked =
          check_frame-frame_bytes front rest running n bytes commit offset at size sum fits in
        rw (frame_at, header, w0, w1, checked) refl
