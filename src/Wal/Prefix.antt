-- ===== src/Wal/Prefix.antt =====
-- What follows the end of a log does not change the walks over it (src/row/pager/wal.rs).
use db_storage.Prelude.{
  ℕ, zero, suc, ◌+◌, ◌≤◌, ◌<◌, ◌-◌, ◌≡◌, refl, sym, ◌∙◌, ap, true, false, List, [], ◌∷◌, ◌++◌,
  Option, some, none, and_then, arith, length, length-append, slice?, slice?-append_le,
  slice?-eq-some, sat_add, u64_max, leb, leb→le, Bool-cases, Option-cases, ◌⊎◌, inl, inr, take,
  drop, length-take, length-drop, from_be,
}
use db_storage.Wal.{WalHeader, Sum, frame_header_len, frame_size, read_u32_opt}
use db_storage.Wal.Committed.{frames_from}
use db_storage.Wal.Append.{frames_from-goes, frames_from-stops}
use db_storage.Wal.Log.{Frame, check_frame, frame_at, skip_valid}
use mathlib.Core.Option

read_u32_opt-inside :
    (buf : List ℕ) (start : ℕ)
    → start + 4 ≤ length buf
    → length buf ≤ u64_max
    → (v : ℕ) × (read_u32_opt buf start ≡ some v)
unfolding read_u32_opt
read_u32_opt-inside buf start inside fits =
    let end : sat_add start 4 ≡ start + 4 = omega arith in
    (
      _,
      ap (Option.map from_be)
          (ap (slice? buf start) end ∙ slice?-eq-some buf start (start + 4) (omega arith) inside),
    )

leb→lt : (a b : ℕ) → leb a b ≡ false → b < a
leb→lt a b h = ground arith

module _ (from_ne_bytes : List ℕ → ℕ) (h : WalHeader) where
  check_frame-append :
      (file more fh : List ℕ) (offset : ℕ) (running : Sum)
      → sat_add offset (frame_size h) ≤ length file
      → check_frame from_ne_bytes h (file ++ more) offset running fh
        ≡ check_frame from_ne_bytes h file offset running fh
  unfolding check_frame frame_size
  check_frame-append file more fh offset running inside =
      let same : slice? (file ++ more) (sat_add offset frame_header_len)
            (sat_add offset (frame_size h))
          ≡ slice? file (sat_add offset frame_header_len) (sat_add offset (frame_size h)) =
        slice?-append_le file more _ _ (omega arith) inside in
      rw (check_frame, same) refl

  -- The frame header at `offset`.
  abbrev header_at : List ℕ → ℕ → List ℕ
  header_at file offset = take (sat_add offset frame_header_len - offset) (drop offset file)

  header_at-slice :
      (file : List ℕ) (offset : ℕ)
      → sat_add offset (frame_size h) ≤ length file
      → offset ≤ length file
      → length file ≤ u64_max
      → slice? file offset (sat_add offset frame_header_len) ≡ some (header_at file offset)
  unfolding frame_size
  header_at-slice file offset inside before small =
      slice?-eq-some file offset (sat_add offset frame_header_len) (omega arith) (omega arith)

  frame_at-append :
      (file more : List ℕ) (offset : ℕ) (running : Sum)
      → sat_add offset (frame_size h) ≤ length file
      → offset ≤ length file
      → length file ≤ u64_max
      → frame_at from_ne_bytes h (file ++ more) offset running
        ≡ frame_at from_ne_bytes h file offset running
  unfolding frame_at frame_size
  frame_at-append file more offset running inside before small =
      let same : slice? (file ++ more) offset (sat_add offset frame_header_len)
          ≡ slice? file offset (sat_add offset frame_header_len) =
        slice?-append_le file more _ _ (omega arith) (omega arith) in
      rw
        (
          frame_at,
          same,
          header_at-slice file offset inside before small,
          check_frame-append file more (header_at file offset) offset running inside,
        )
        refl

  -- The test of `last_valid_frame_state` for a frame.
  abbrev passes : List ℕ → ℕ → Sum → Option (List ℕ × Sum)
  passes file offset running =
      and_then (slice? file offset (sat_add offset frame_header_len))
        (check_frame from_ne_bytes h file offset running)

  -- Both walks break at the same frames.
  passes-cases :
      (file : List ℕ) (offset : ℕ) (running : Sum)
      → sat_add offset (frame_size h) ≤ length file
      → offset ≤ length file
      → length file < u64_max
      → (passes file offset running ≡ none)
        ⊎ ((f : Frame) × (frame_at from_ne_bytes h file offset running ≡ some f)
            × (passes file offset running ≡ some (f.content, f.after_page)))
  unfolding frame_at frame_size
  passes-cases file offset running inside before small =
      let fh = header_at file offset in
      let part = header_at-slice file offset inside before (omega arith) in
      let wide : length fh ≡ 24 = omega (
        arith,
        length-take (sat_add offset frame_header_len - offset) (drop offset file),
        length-drop offset file,
      ) in
      let (n, w0) = read_u32_opt-inside fh 0 (omega arith) (omega arith) in
      let (size, w1) = read_u32_opt-inside fh 4 (omega arith) (omega arith) in
      elim (Option-cases (check_frame from_ne_bytes h file offset running fh)) [
        | inl broken ↦ inl (rw (part, broken) refl)
        | inr ((content, after), valid) ↦ inr (
          record { page_number = n; db_size = size; content = content; after_page = after },
          (rw (frame_at, part, w0, w1, valid) refl),
          (rw (part, valid) refl),
        )
      ]

  skip-stops :
      (fuel : ℕ) (file : List ℕ) (offset : ℕ) (running : Sum)
      → leb (sat_add offset (frame_size h)) (length file) ≡ false
      → skip_valid from_ne_bytes (suc fuel) h file offset running ≡ (offset, running)
  unfolding skip_valid
  skip-stops fuel file offset running ends = rw (skip_valid, ends) refl

  skip-breaks :
      (fuel : ℕ) (file : List ℕ) (offset : ℕ) (running : Sum)
      → leb (sat_add offset (frame_size h)) (length file) ≡ true
      → passes file offset running ≡ none
      → skip_valid from_ne_bytes (suc fuel) h file offset running ≡ (offset, running)
  unfolding skip_valid
  skip-breaks fuel file offset running goes broken = rw (skip_valid, goes, broken) refl

  skip-goes :
      (fuel : ℕ) (file : List ℕ) (offset : ℕ) (running : Sum) (content : List ℕ) (after : Sum)
      → leb (sat_add offset (frame_size h)) (length file) ≡ true
      → passes file offset running ≡ some (content, after)
      → skip_valid from_ne_bytes (suc fuel) h file offset running
        ≡ skip_valid from_ne_bytes fuel h file (sat_add offset (frame_size h)) after
  unfolding skip_valid
  skip-goes fuel file offset running content after goes valid = rw (skip_valid, goes, valid) refl

  -- Where the walk reaches the end of the file, it goes on as it would from there on.
  abbrev pub GoesOn : ℕ → List ℕ → List ℕ → ℕ → Sum → Sum → Type 0
  GoesOn fuel file more offset running last =
      (rounds : ℕ) × (rounds ≤ fuel)
      × ((left : ℕ)
          → frames_from from_ne_bytes (rounds + left) h (file ++ more) offset running
            ≡ frames_from from_ne_bytes fuel h file offset running
              ++ frames_from from_ne_bytes left h (file ++ more) (length file) last)

  stopped :
      (fuel : ℕ) (file more : List ℕ) (offset : ℕ) (running last : Sum)
      → offset ≡ length file
      → running ≡ last
      → frames_from from_ne_bytes fuel h file offset running ≡ []
      → GoesOn fuel file more offset running last
  stopped fuel file more offset running last at same nothing = (
    0,
    omega arith,
    (λ left. let start : 0 + left ≡ left = omega arith in rw (nothing, at, same, start) refl),
  )

  pub frames_from-append :
      (fuel : ℕ) (file more : List ℕ) (offset : ℕ) (running last : Sum)
      → skip_valid from_ne_bytes fuel h file offset running ≡ (length file, last)
      → offset ≤ length file
      → length file + 24 + h.page_size < u64_max
      → GoesOn fuel file more offset running last
  unfolding frame_size skip_valid
  frames_from-append zero file more offset running last reached before small =
      stopped 0 file more offset running last (ap (λ (x : ℕ × Sum). x.0) reached)
        (ap (λ (x : ℕ × Sum). x.1) reached) (unfold frames_from in refl)
  frames_from-append (suc fuel) file more offset running last reached before small =
      elim (Bool-cases (leb (sat_add offset (frame_size h)) (length file))) [
        | inr ends ↦
            let here = sym (skip-stops fuel file offset running ends) ∙ reached in
            stopped (suc fuel) file more offset running last (ap (λ (x : ℕ × Sum). x.0) here)
              (ap (λ (x : ℕ × Sum). x.1) here)
              (frames_from-stops from_ne_bytes h (suc fuel) file running offset (leb→lt _ _ ends))
        | inl goes ↦
            let inside = leb→le _ _ goes in
            elim (passes-cases file offset running inside before (omega arith)) [
              | inl broken ↦
                  let here = sym (skip-breaks fuel file offset running goes broken) ∙ reached in
                  let at = ap (λ (x : ℕ × Sum). x.0) here in absurd (omega (arith, at, inside))
              | inr (f, valid, passed) ↦
                  let next = sat_add offset (frame_size h) in
                  let on =
                    sym (skip-goes fuel file offset running f.content f.after_page goes passed)
                    ∙ reached in
                  let (rounds, few, rest) =
                    frames_from-append fuel file more next f.after_page last on inside small in
                  let longer : sat_add offset (frame_size h) ≤ length (file ++ more) =
                    omega (arith, inside, length-append file more) in
                  (
                    suc rounds,
                    omega (arith, few),
                    (λ left.
                        let start : suc rounds + left ≡ suc (rounds + left) = omega arith in
                        ap (λ k. frames_from from_ne_bytes k h (file ++ more) offset running) start
                        ∙ frames_from-goes from_ne_bytes h (rounds + left) (file ++ more) running
                            offset f longer
                            (frame_at-append file more offset running inside before (omega arith)
                              ∙ valid)
                        ∙ ap (λ l. f ∷ l) (rest left)
                        ∙ ap
                            (λ l.
                              l
                              ++ frames_from from_ne_bytes left h (file ++ more) (length file) last)
                            (sym (
                              frames_from-goes from_ne_bytes h fuel file running offset f inside
                                valid))),
                  )
            ]
      ]
