-- ===== src/Wal/Flush.antt =====
-- What `flush_wal_locked` of src/row/pager/mod.rs leaves in the log.
use db_storage.Prelude.{
  ℕ, zero, suc, ◌+◌, ◌≤◌, ◌<◌, ◌-◌, ◌≡◌, refl, sym, ◌∙◌, ap, true, List, [], ◌∷◌, ◌++◌, some, none,
  arith, length, length-append, append_assoc, append-nil, drop, u64_max, All, IsU32, ok, err, ◌==◌,
  ==_iff, Bool-cases, Option-cases, inl, inr, ltb, ltb→le,
}
use db_storage.Pager.{Page}
use db_storage.Vfs.Memory.{write_at, write_at-append}
use db_storage.Wal.{WalHeader, Sum, header_too_short, header_len, parse}
use db_storage.Wal.Append.{Fits, frames_of, log_of, length-log_of, frames_from-log_of}
use db_storage.Wal.Committed.{frames_from, valid_frames}
use db_storage.Wal.Log.{last_valid_frame_state}
use db_storage.Wal.Prefix.{frames_from-append}
use db_storage.Wal.Words.{IsSum}
use db_storage.Wal.Writer.{
  WalWriter, off, normal, full, frame_bytes, append_frame, append_pages, sync, open_existing,
  resume, synced_file, flush_wal,
}
use mathlib.Core.Path.{ap₂}

-- Where the next `sync` writes.
abbrev start_of : WalWriter → ℕ
start_of w = elim w.pending_offset [ none ↦ w.offset | some offset ↦ offset ]

module _ (from_ne_bytes : List ℕ → ℕ) where
  append_frame-start :
      (w : WalWriter) (n : ℕ) (bytes : List ℕ) (commit : ℕ)
      → (append_frame from_ne_bytes w n bytes commit).pending_offset ≡ some (start_of w)
  unfolding append_frame
  append_frame-start w n bytes commit = elim (Option-cases w.pending_offset) [
    | inl e ↦ rw e refl
    | inr (offset, e) ↦ rw e refl
  ]

  append_pages-start :
      (w : WalWriter) (page : Page) (pages : List Page) (post : ℕ)
      → (append_pages from_ne_bytes w (page ∷ pages) post).pending_offset ≡ some (start_of w)
  unfolding append_pages
  append_pages-start w (n, bytes) [] post = append_frame-start w n bytes post
  append_pages-start w (n, bytes) (page ∷ pages) post =
      append_pages-start (append_frame from_ne_bytes w n bytes 0) page pages post
      ∙ ap
          (λ o. some (elim o [
            | none ↦ (append_frame from_ne_bytes w n bytes 0).offset
            | some offset ↦ offset
          ]))
          (append_frame-start w n bytes 0)

  append_pages-pending :
      (w : WalWriter) (pages : List Page) (post : ℕ)
      → ((append_pages from_ne_bytes w pages post).pending
          ≡ w.pending ++ log_of from_ne_bytes w.header w.running pages post)
        × ((append_pages from_ne_bytes w pages post).file ≡ w.file)
  unfolding append_pages log_of append_frame frame_bytes
  append_pages-pending w [] post = (sym (append-nil w.pending), refl)
  append_pages-pending w ((n, bytes) ∷ []) post =
      (ap (λ l. w.pending ++ l) (sym (append-nil _)), refl)
  append_pages-pending w ((n, bytes) ∷ page ∷ pages) post =
      let next = append_frame from_ne_bytes w n bytes 0 in
      let (pending, file) = append_pages-pending next (page ∷ pages) post in
      (pending ∙ append_assoc w.pending _ _, file)

  synced-nothing :
      (w : WalWriter) (post : ℕ)
      → w.pending_offset ≡ none
      → (sync (append_pages from_ne_bytes w [] post)).file
        ≡ w.file ++ log_of from_ne_bytes w.header w.running [] post
  unfolding sync append_pages log_of
  synced-nothing w post nothing = rw (sync, nothing) (sym (append-nil w.file))

  drop-nil : (n : ℕ) → drop {A = ℕ} n [] ≡ []
  drop-nil zero = refl
  drop-nil (suc n) = refl

  -- The file after `sync`.
  synced :
      (w : WalWriter) (pages : List Page) (post : ℕ)
      → w.pending ≡ []
      → w.pending_offset ≡ none
      → w.offset ≡ length w.file
      → length w.file + length (log_of from_ne_bytes w.header w.running pages post) ≤ u64_max
      → (sync (append_pages from_ne_bytes w pages post)).file
        ≡ w.file ++ log_of from_ne_bytes w.header w.running pages post
  unfolding sync
  synced w [] post empty nothing at small = synced-nothing w post nothing
  synced w (page ∷ pages) post empty nothing at small =
      let log = log_of from_ne_bytes w.header w.running (page ∷ pages) post in
      let appended = append_pages from_ne_bytes w (page ∷ pages) post in
      let (pending, file) = append_pages-pending w (page ∷ pages) post in
      let start : appended.pending_offset ≡ some (start_of w) =
        append_pages-start w page pages post in
      let here : start_of w ≡ length w.file = rw nothing at in
      let all : appended.pending ≡ log = pending ∙ ap (λ l. l ++ log) empty in
      rw (sync, start)
        (ap₂ (λ f p. write_at f p (start_of w)) (file ∙ sym (append-nil w.file)) all
          ∙ write_at-append w.file [] log (start_of w) here small
          ∙ ap (λ l. (w.file ++ log) ++ l) (drop-nil (length log))
          ∙ append-nil (w.file ++ log))

  parse-long :
      (bytes : List ℕ) (h : WalHeader)
      → parse from_ne_bytes bytes ≡ ok h
      → header_len ≤ length bytes
  unfolding parse
  parse-long bytes h e = elim (Bool-cases (ltb (length bytes) header_len)) [
    | inr long ↦ ltb→le _ _ long
    | inl short ↦
        let failed : parse from_ne_bytes bytes ≡ err (header_too_short (length bytes)) =
          rw (parse, short) refl in
        absurd cc
  ]

  opened : List ℕ → WalHeader → Sum → WalWriter
  opened file h last = record {
    file = file;
    header = h;
    running = last;
    offset = length file;
    pending_offset = none;
    pending = [];
  }

  open_existing-opened :
      (file : List ℕ) (page_size : ℕ) (h : WalHeader) (last : Sum)
      → parse from_ne_bytes file ≡ ok h
      → h.page_size ≡ page_size
      → last_valid_frame_state from_ne_bytes h file ≡ (length file, last)
      → open_existing from_ne_bytes file page_size ≡ ok (opened file h last)
  unfolding open_existing resume opened
  open_existing-opened file page_size h last parsed size state =
      let same : (h.page_size == page_size) ≡ true = (==_iff _ _).1 size in
      rw (open_existing, parsed, resume, same, state) refl

  valid_frames-log_of :
      (file : List ℕ) (h : WalHeader) (last : Sum) (pages : List Page) (post : ℕ)
      → header_len ≤ length file
      → last_valid_frame_state from_ne_bytes h file ≡ (length file, last)
      → IsU32 h.salt1
      → IsU32 h.salt2
      → IsSum last
      → All (Fits h) pages
      → IsU32 post
      → length file + length (log_of from_ne_bytes h last pages post) + 24 + h.page_size < u64_max
      → valid_frames from_ne_bytes h (file ++ log_of from_ne_bytes h last pages post)
        ≡ valid_frames from_ne_bytes h file ++ frames_of from_ne_bytes h last pages post
  unfolding valid_frames last_valid_frame_state
  valid_frames-log_of file h last pages post long state s1 s2 sum fits count small =
      let log = log_of from_ne_bytes h last pages post in
      let start = h.header_checksum in
      let (rounds, few, on) =
        frames_from-append from_ne_bytes h (length file) file log header_len start last state long
          (omega arith) in
      let total = length-append file log in
      let left = length (file ++ log) - rounds in
      let fuel : length (file ++ log) ≡ rounds + left = omega (arith, total, few) in
      let enough : length pages ≤ left =
        omega (arith, total, few, length-log_of from_ne_bytes h last pages post) in
      ap (λ k. frames_from from_ne_bytes k h (file ++ log) header_len start) fuel
      ∙ on left
      ∙ ap (λ l. frames_from from_ne_bytes (length file) h file header_len start ++ l)
          (frames_from-log_of from_ne_bytes h s1 s2 left file last pages post fits count sum small
            enough)

  -- What a flush leaves in the log, in each of the modes.
  pub record Flushed (file : List ℕ) (page_size : ℕ) (pages : List Page) (post : ℕ) (h : WalHeader)
      (last : Sum) : Type 0 where
    pub after : List ℕ
    pub with_full : flush_wal from_ne_bytes file page_size full pages post ≡ ok after
    pub frames :
        valid_frames from_ne_bytes h after
        ≡ valid_frames from_ne_bytes h file ++ frames_of from_ne_bytes h last pages post
    pub with_normal : flush_wal from_ne_bytes file page_size normal pages post ≡ ok file
    pub with_off : flush_wal from_ne_bytes file page_size off pages post ≡ ok file

  -- A commit to the log with `synchronous` FULL keeps the valid frames of the log and puts one for
  -- each page of the transaction behind them; with NORMAL or OFF it returns `Ok` and leaves the log
  -- as it was, so that the pages are not written at all. The log's frames are valid up to its end,
  -- its header is parsed and has the page size of the pager, the salts, the checksum, the page
  -- numbers and the page count are 32-bit words, the pages have the page size, and the sizes fit in
  -- 64 bits.
  pub flush_wal-Flushed :
      (file : List ℕ) (page_size : ℕ) (pages : List Page) (post : ℕ) (h : WalHeader) (last : Sum)
      → parse from_ne_bytes file ≡ ok h
      → h.page_size ≡ page_size
      → last_valid_frame_state from_ne_bytes h file ≡ (length file, last)
      → IsU32 h.salt1
      → IsU32 h.salt2
      → IsSum last
      → All (Fits h) pages
      → IsU32 post
      → length file + length (log_of from_ne_bytes h last pages post) + 24 + h.page_size < u64_max
      → Flushed file page_size pages post h last
  unfolding flush_wal synced_file opened
  flush_wal-Flushed file page_size pages post h last parsed size state s1 s2 sum fits count small =
      let w = opened file h last in
      let log = log_of from_ne_bytes h last pages post in
      let open_ok = open_existing-opened file page_size h last parsed size state in
      let (_, untouched) = append_pages-pending w pages post in
      record {
        after = file ++ log;
        with_full =
            rw (flush_wal, open_ok) (ap ok (synced w pages post refl refl refl (omega arith)));
        frames =
            valid_frames-log_of file h last pages post (parse-long file h parsed) state s1 s2 sum
              fits count small;
        with_normal = rw (flush_wal, open_ok) (ap ok untouched);
        with_off = rw (flush_wal, open_ok) (ap ok untouched);
      }
