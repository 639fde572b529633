-- ===== src/Wal/Append.antt =====
-- The frames of a transaction behind the frames of a log (src/row/pager/wal.rs).
use db_storage.Prelude.{
  ℕ, zero, suc, ◌+◌, ◌*◌, ◌≤◌, ◌<◌, ◌≡◌, refl, sym, ◌∙◌, ap, List, [], ◌∷◌, ◌++◌, some, arith,
  length, length-append, append_assoc, IsU32, sat_add, u64_max, All, leb, le→leb, leb→le,
  Bool-cases, inl, inr,
}
use db_storage.Pager.{Page}
use db_storage.Wal.{WalHeader, Sum, frame_size}
use db_storage.Wal.Committed.{frames_from}
use db_storage.Wal.Frames.{
  sum_after, frame_of, sum_after-IsSum, length-frame_bytes, frame_at-frame_bytes,
}
use db_storage.Wal.Log.{Frame, frame_at}
use db_storage.Wal.Words.{IsSum}
use db_storage.Wal.Writer.{frame_bytes}
use mathlib.Core.Path.{ap₂}

-- The `commit_db_size` of a frame: that of the transaction on the last one.
abbrev pub commit_of : List Page → ℕ → ℕ
commit_of [] post = post
commit_of (page ∷ pages) post = 0

-- A page that a frame can take.
abbrev pub Fits : WalHeader → Page → Type 0
Fits h d = IsU32 d.0 × (length d.1 ≡ h.page_size)

module _ (from_ne_bytes : List ℕ → ℕ) (h : WalHeader) where
  -- The frames of the pages, and their bytes.
  unfoldable pub frames_of : Sum → List Page → ℕ → List Frame
  frames_of running [] post = []
  frames_of running ((n, bytes) ∷ pages) post =
      frame_of from_ne_bytes h running n bytes (commit_of pages post)
      ∷ frames_of (sum_after from_ne_bytes h running n bytes (commit_of pages post)) pages post

  unfoldable pub log_of : Sum → List Page → ℕ → List ℕ
  log_of running [] post = []
  log_of running ((n, bytes) ∷ pages) post =
      (frame_bytes from_ne_bytes h running n bytes (commit_of pages post)).0
      ++ log_of (sum_after from_ne_bytes h running n bytes (commit_of pages post)) pages post

  commit_of-IsU32 : (pages : List Page) (post : ℕ) → IsU32 post → IsU32 (commit_of pages post)
  commit_of-IsU32 [] post fits = fits
  commit_of-IsU32 (page ∷ pages) post fits = omega arith

  pub length-log_of :
      (running : Sum) (pages : List Page) (post : ℕ)
      → 24 * length pages ≤ length (log_of running pages post)
  unfolding log_of
  length-log_of running [] post = omega arith
  length-log_of running ((n, bytes) ∷ pages) post =
      let frame = frame_bytes from_ne_bytes h running n bytes (commit_of pages post) in
      let after = sum_after from_ne_bytes h running n bytes (commit_of pages post) in
      omega (
        arith,
        length-append frame.0 (log_of after pages post),
        length-frame_bytes from_ne_bytes h running n bytes (commit_of pages post),
        length-log_of after pages post,
      )

  pub frames_from-stops :
      (fuel : ℕ) (wal_bytes : List ℕ) (running : Sum) (offset : ℕ)
      → length wal_bytes < sat_add offset (frame_size h)
      → frames_from from_ne_bytes fuel h wal_bytes offset running ≡ []
  unfolding frames_from
  frames_from-stops zero wal_bytes running offset short = refl
  frames_from-stops (suc fuel) wal_bytes running offset short =
      elim (Bool-cases (leb (sat_add offset (frame_size h)) (length wal_bytes))) [
        | inl goes ↦ absurd (omega (arith, leb→le _ _ goes))
        | inr ends ↦ rw (frames_from, ends) refl
      ]

  pub frames_from-goes :
      (fuel : ℕ) (wal_bytes : List ℕ) (running : Sum) (offset : ℕ) (f : Frame)
      → sat_add offset (frame_size h) ≤ length wal_bytes
      → frame_at from_ne_bytes h wal_bytes offset running ≡ some f
      → frames_from from_ne_bytes (suc fuel) h wal_bytes offset running
        ≡ f
          ∷ frames_from from_ne_bytes fuel h wal_bytes (sat_add offset (frame_size h)) f.after_page
  unfolding frames_from
  frames_from-goes fuel wal_bytes running offset f long valid =
      rw (frames_from, le→leb _ _ long, valid) refl

  module _ (salt1 : IsU32 h.salt1) (salt2 : IsU32 h.salt2) where
    -- Behind any bytes, the walk finds the frames of the pages.
    pub frames_from-log_of :
        (fuel : ℕ) (front : List ℕ) (running : Sum) (pages : List Page) (post : ℕ)
        → All (Fits h) pages
        → IsU32 post
        → IsSum running
        → length front + length (log_of running pages post) + 24 + h.page_size < u64_max
        → length pages ≤ fuel
        → frames_from from_ne_bytes fuel h
            (front ++ log_of running pages post)
            (length front)
            running
          ≡ frames_of running pages post
    unfolding log_of frames_of frame_size
    frames_from-log_of zero front running [] post fits count sum small enough =
        unfold frames_from in refl
    frames_from-log_of zero front running (page ∷ pages) post fits count sum small enough =
        absurd (omega arith)
    frames_from-log_of (suc fuel) front running [] post fits count sum small enough =
        frames_from-stops (suc fuel) (front ++ []) running (length front)
          (omega (arith, length-append front []))
    frames_from-log_of (suc fuel) front running ((n, bytes) ∷ pages) post ((page, size), fits) count
          sum small enough =
        let commit = commit_of pages post in
        let frame = (frame_bytes from_ne_bytes h running n bytes commit).0 in
        let after = sum_after from_ne_bytes h running n bytes commit in
        let more = log_of after pages post in
        let width = length-frame_bytes from_ne_bytes h running n bytes commit in
        let total = length-append frame more in
        let all = length-append front (frame ++ more) in
        let there = length-append front frame in
        let valid =
          frame_at-frame_bytes from_ne_bytes h salt1 salt2 front more running n bytes commit
            (length front) refl size sum page (commit_of-IsU32 pages post count)
            (omega (arith, total, width)) in
        let next : sat_add (length front) (frame_size h) ≡ length (front ++ frame) =
          omega (arith, there, width, size, total) in
        frames_from-goes fuel (front ++ (frame ++ more)) running (length front) _
          (omega (arith, all, total, width, size)) valid
        ∙ ap (λ l. frame_of from_ne_bytes h running n bytes commit ∷ l)
            (ap₂ (λ w o. frames_from from_ne_bytes fuel h w o after)
                (sym (append_assoc front frame more)) next
              ∙ frames_from-log_of fuel (front ++ frame) after pages post fits count
                  (sum_after-IsSum from_ne_bytes h running n bytes commit sum)
                  (omega (arith, there, total)) (omega arith))
