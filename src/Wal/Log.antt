-- ===== src/Wal/Log.antt =====
-- src/row/pager/wal.rs: the walks over the frames of a log.
use db_storage.Prelude.{
  ℕ, zero, suc, ◌||◌, not, List, [], ◌∷◌, Option, some, none, and_then, if◌then◌else◌, leb, ◌==◌,
  length, slice?, sat_add,
}
use db_storage.Pager.{Page}
use db_storage.Pager.Allocate.{lookup, insert}
use db_storage.Wal.{
  header_len, frame_header_len, Sum, WalHeader, read_u32_opt, sum_eq, frame_size, checksum,
}

-- What a valid frame says.
pub record Frame : Type 0 where
  pub page_number : ℕ
  pub db_size : ℕ
  pub content : List ℕ
  pub after_page : Sum

-- What `committed_pages` keeps from frame to frame: the map of pages, and the log of what each insert
-- replaced since the last commit, the newest first.
pub record Scan : Type 0 where
  pub offset : ℕ
  pub running : Sum
  pub pages : List Page
  pub undo : List (ℕ × Option (List ℕ))
  pub committed_db_size : ℕ

-- The map's `remove`.
unfoldable pub remove : List Page → ℕ → List Page
remove [] n = []
remove ((m, bytes) ∷ pages) n =
    let rest = remove pages n in if m == n then rest else (m, bytes) ∷ rest

-- The rest of an iteration, with a frame that is valid.
unfoldable pub take_frame : WalHeader → Scan → Frame → Scan
unfolding insert lookup frame_size
take_frame h s f =
    let undo = (f.page_number, lookup s.pages f.page_number) ∷ s.undo in
    let commits = not (f.db_size == 0) in
    record {
      offset = sat_add s.offset (frame_size h);
      running = f.after_page;
      pages = insert s.pages f.page_number f.content;
      undo = if commits then [] else undo;
      committed_db_size = if commits then f.db_size else s.committed_db_size;
    }

unfoldable pub restore : List Page → ℕ → Option (List ℕ) → List Page
unfolding insert remove
restore pages n (some content) = insert pages n content
restore pages n none = remove pages n

-- The loop over the log, from its end.
unfoldable pub unwind : List (ℕ × Option (List ℕ)) → List Page → List Page
unfolding restore
unwind [] pages = pages
unwind ((n, pre_image) ∷ undo) pages = unwind undo (restore pages n pre_image)

module _ (from_ne_bytes : List ℕ → ℕ) where
  -- The tests that both walks make of a frame: the salts, and the checksum of its first eight bytes
  -- and its page. The page, and the running checksum behind it.
  unfoldable pub check_frame : WalHeader → List ℕ → ℕ → Sum → List ℕ → Option (List ℕ × Sum)
  check_frame h wal_bytes offset running fh = and_then (read_u32_opt fh 8) λ salt1.
      and_then (read_u32_opt fh 12) λ salt2. and_then (read_u32_opt fh 16) λ c1.
        and_then (read_u32_opt fh 20) λ c2.
          if not (salt1 == h.salt1) || not (salt2 == h.salt2)
          then none
          else and_then
              (slice? wal_bytes (sat_add offset frame_header_len) (sat_add offset (frame_size h)))
              λ content. and_then (slice? fh 0 8) λ head.
                let after_page =
                  checksum from_ne_bytes h.native_checksum content
                    (checksum from_ne_bytes h.native_checksum head running) in
                if sum_eq after_page (c1, c2) then some (content, after_page) else none

  -- An iteration of `committed_pages`, `none` where it breaks.
  unfoldable pub frame_at : WalHeader → List ℕ → ℕ → Sum → Option Frame
  frame_at h wal_bytes offset running =
      and_then (slice? wal_bytes offset (sat_add offset frame_header_len)) λ fh.
        and_then (read_u32_opt fh 0) λ page_number. and_then (read_u32_opt fh 4) λ db_size.
          and_then (check_frame h wal_bytes offset running fh) λ checked. some (record {
            page_number = page_number;
            db_size = db_size;
            content = checked.0;
            after_page = checked.1;
          })

  -- The loop of `committed_pages`, on fuel.
  unfoldable pub scan : ℕ → WalHeader → List ℕ → Scan → Scan
  unfolding take_frame frame_size
  scan zero h wal_bytes s = s
  scan (suc fuel) h wal_bytes s =
      let next : Scan = elim (frame_at h wal_bytes s.offset s.running) [
        | none ↦ s
        | some f ↦ scan fuel h wal_bytes (take_frame h s f)
      ] in
      if leb (sat_add s.offset (frame_size h)) (length wal_bytes) then next else s

  abbrev pub scan_start : WalHeader → Scan
  scan_start h = record {
    offset = header_len;
    running = h.header_checksum;
    pages = [];
    undo = [];
    committed_db_size = 0;
  }

  -- A frame has 24 bytes or more, so there are fewer iterations than bytes.
  unfoldable pub committed_pages : WalHeader → List ℕ → List Page × ℕ
  unfolding scan unwind
  committed_pages h wal_bytes =
      let last = scan (length wal_bytes) h wal_bytes (scan_start h) in
      (unwind last.undo last.pages, last.committed_db_size)

  -- The loop of `last_valid_frame_state`, on fuel.
  unfoldable pub skip_valid : ℕ → WalHeader → List ℕ → ℕ → Sum → ℕ × Sum
  unfolding frame_size
  skip_valid zero h wal_bytes offset running = (offset, running)
  skip_valid (suc fuel) h wal_bytes offset running =
      let next : ℕ × Sum =
        elim (and_then (slice? wal_bytes offset (sat_add offset frame_header_len))
          (check_frame h wal_bytes offset running)) [
            | none ↦ (offset, running)
            | some (content, after_page) ↦
                skip_valid fuel h wal_bytes (sat_add offset (frame_size h)) after_page
          ] in
      if leb (sat_add offset (frame_size h)) (length wal_bytes) then next else (offset, running)

  unfoldable pub last_valid_frame_state : WalHeader → List ℕ → ℕ × Sum
  unfolding skip_valid
  last_valid_frame_state h wal_bytes =
      skip_valid (length wal_bytes) h wal_bytes header_len h.header_checksum
