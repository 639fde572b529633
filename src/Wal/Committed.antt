-- ===== src/Wal/Committed.antt =====
-- `committed_pages` of src/row/pager/wal.rs against a definition that keeps a copy of the map at each
-- commit.
use db_storage.Prelude.{
  ℕ, zero, suc, ◌≡◌, refl, sym, ◌∙◌, ap, true, false, List, [], ◌∷◌, Option, some, none,
  if◌then◌else◌, leb, ◌==◌, ==_iff, length, inl, inr, Bool-cases, Option-cases, sat_add,
}
use db_storage.Pager.{Page}
use db_storage.Pager.Allocate.{lookup, insert}
use db_storage.Pager.Allocate.Patch.{lookup-insert_self, lookup-insert_ne}
use db_storage.Wal.{WalHeader, Sum, frame_size, header_len}
use db_storage.Wal.Log.{
  Frame, Scan, remove, restore, unwind, take_frame, frame_at, scan, scan_start, committed_pages,
}
use mathlib.Core.Path.{subst}

-- The map with all frames so far, the map and the database size at the last commit.
pub record Snapshot : Type 0 where
  pub candidate : List Page
  pub published : List Page
  pub db_size : ℕ

unfoldable pub publish : Snapshot → Frame → Snapshot
unfolding insert
publish t f =
    let candidate = insert t.candidate f.page_number f.content in
    if f.db_size == 0
    then record t { candidate = candidate }
    else record { candidate = candidate; published = candidate; db_size = f.db_size }

unfoldable pub publish_all : Snapshot → List Frame → Snapshot
unfolding publish
publish_all t [] = t
publish_all t (f ∷ frames) = publish_all (publish t f) frames

abbrev pub no_frames : Snapshot
no_frames = record { candidate = []; published = []; db_size = 0 }

eq-page : (m n : ℕ) → (m == n) ≡ true → m ≡ n
eq-page m n h = (==_iff m n).0 h

lookup-remove_self : (pages : List Page) (n : ℕ) → lookup (remove pages n) n ≡ none
unfolding lookup remove
lookup-remove_self [] n = refl
lookup-remove_self ((m, bytes) ∷ pages) n = elim (Bool-cases (m == n)) [
  | inl same ↦ rw same (lookup-remove_self pages n)
  | inr other ↦ rw (other, other) (lookup-remove_self pages n)
]

lookup-remove_ne :
    (pages : List Page) (n k : ℕ) → (n == k) ≡ false → lookup (remove pages n) k ≡ lookup pages k
unfolding lookup remove
lookup-remove_ne [] n k h = refl
lookup-remove_ne ((m, bytes) ∷ pages) n k h = elim (Bool-cases (m == n)) [
  | inl same ↦
      let e : (m == k) ≡ false = rw (eq-page m n same) h in
      rw (same, e) (lookup-remove_ne pages n k h)
  | inr other ↦ rw (other, lookup-remove_ne pages n k h) refl
]

-- The same map, whatever the order of its entries.
abbrev pub Same : List Page → List Page → Type 0
Same a b = (k : ℕ) → lookup a k ≡ lookup b k

restore-Same :
    (a b : List Page) (n : ℕ) (pre : Option (List ℕ))
    → Same a b
    → Same (restore a n pre) (restore b n pre)
unfolding restore
restore-Same a b n (some old) same k = elim (Bool-cases (n == k)) [
  | inl here ↦
      subst (λ j. lookup (insert a n old) j ≡ lookup (insert b n old) j) (eq-page n k here)
        (lookup-insert_self a n old ∙ sym (lookup-insert_self b n old))
  | inr away ↦ lookup-insert_ne a n old k away ∙ same k ∙ sym (lookup-insert_ne b n old k away)
]
restore-Same a b n none same k = elim (Bool-cases (n == k)) [
  | inl here ↦
      subst (λ j. lookup (remove a n) j ≡ lookup (remove b n) j) (eq-page n k here)
        (lookup-remove_self a n ∙ sym (lookup-remove_self b n))
  | inr away ↦ lookup-remove_ne a n k away ∙ same k ∙ sym (lookup-remove_ne b n k away)
]

unwind-Same :
    (undo : List (ℕ × Option (List ℕ))) (a b : List Page)
    → Same a b
    → Same (unwind undo a) (unwind undo b)
unfolding unwind
unwind-Same [] a b same = same
unwind-Same ((n, pre) ∷ undo) a b same =
    unwind-Same undo (restore a n pre) (restore b n pre) (restore-Same a b n pre same)

-- The pre-image takes an insert back.
restore-insert :
    (pages : List Page) (n : ℕ) (bytes : List ℕ)
    → Same (restore (insert pages n bytes) n (lookup pages n)) pages
unfolding restore
restore-insert pages n bytes k = elim (Option-cases (lookup pages n)) [
  | inr (old, found) ↦ rw found elim (Bool-cases (n == k)) [
    | inl here ↦
        subst (λ j. lookup (insert (insert pages n bytes) n old) j ≡ lookup pages j)
          (eq-page n k here) (lookup-insert_self (insert pages n bytes) n old ∙ sym found)
    | inr away ↦
        lookup-insert_ne (insert pages n bytes) n old k away ∙ lookup-insert_ne pages n bytes k away
  ]
  | inl missing ↦ rw missing elim (Bool-cases (n == k)) [
    | inl here ↦
        subst (λ j. lookup (remove (insert pages n bytes) n) j ≡ lookup pages j) (eq-page n k here)
          (lookup-remove_self (insert pages n bytes) n ∙ sym missing)
    | inr away ↦
        lookup-remove_ne (insert pages n bytes) n k away ∙ lookup-insert_ne pages n bytes k away
  ]
]

-- The walk and the copies agree: on the map, on the map with the log undone, and on the size.
pub record Agrees (s : Scan) (t : Snapshot) : Type 0 where
  pub same_pages : s.pages ≡ t.candidate
  pub undone : Same (unwind s.undo s.pages) t.published
  pub same_size : s.committed_db_size ≡ t.db_size

take_frame-Agrees :
    (h : WalHeader) (s : Scan) (t : Snapshot) (f : Frame)
    → Agrees s t
    → Agrees (take_frame h s f) (publish t f)
unfolding take_frame publish unwind
take_frame-Agrees h s t f agrees =
    let inserted : insert s.pages f.page_number f.content
        ≡ insert t.candidate f.page_number f.content =
      ap (λ l. insert l f.page_number f.content) agrees.same_pages in
    elim (Bool-cases (f.db_size == 0)) [
      | inl open_frame ↦
          rw (take_frame, publish, open_frame)
            (record {
              same_pages = inserted;
              undone = λ k.
                  unwind-Same s.undo _ s.pages (restore-insert s.pages f.page_number f.content) k
                  ∙ agrees.undone k;
              same_size = agrees.same_size;
            })
      | inr commits ↦
          rw (take_frame, publish, commits)
            (record {
              same_pages = inserted;
              undone = λ k. ap (λ l. lookup l k) inserted;
              same_size = refl;
            })
    ]

module _ (from_ne_bytes : List ℕ → ℕ) where
  -- The frames from `offset` on, up to the first that is not valid.
  unfoldable pub frames_from : ℕ → WalHeader → List ℕ → ℕ → Sum → List Frame
  unfolding frame_size
  frames_from zero h wal_bytes offset running = []
  frames_from (suc fuel) h wal_bytes offset running =
      let next : List Frame = elim (frame_at from_ne_bytes h wal_bytes offset running) [
        | none ↦ []
        | some f ↦ f ∷ frames_from fuel h wal_bytes (sat_add offset (frame_size h)) f.after_page
      ] in
      if leb (sat_add offset (frame_size h)) (length wal_bytes) then next else []

  unfoldable pub valid_frames : WalHeader → List ℕ → List Frame
  unfolding frames_from
  valid_frames h wal_bytes = frames_from (length wal_bytes) h wal_bytes header_len h.header_checksum

  scan-Agrees :
      (fuel : ℕ) (h : WalHeader) (wal_bytes : List ℕ) (s : Scan) (t : Snapshot)
      → Agrees s t
      → Agrees
          (scan from_ne_bytes fuel h wal_bytes s)
          (publish_all t (frames_from fuel h wal_bytes s.offset s.running))
  unfolding scan frames_from publish_all
  scan-Agrees zero h wal_bytes s t agrees = agrees
  scan-Agrees (suc fuel) h wal_bytes s t agrees =
      elim (Bool-cases (leb (sat_add s.offset (frame_size h)) (length wal_bytes))) [
        | inr ends ↦ rw (scan, frames_from, ends) agrees
        | inl goes ↦ elim (Option-cases (frame_at from_ne_bytes h wal_bytes s.offset s.running)) [
          | inl invalid ↦ rw (scan, frames_from, goes, invalid) agrees
          | inr (f, valid) ↦
              rw (scan, frames_from, goes, valid)
                (scan-Agrees fuel h wal_bytes (take_frame h s f) (publish t f)
                  (take_frame-Agrees h s t f agrees))
        ]
      ]

  -- `committed_pages`, with its one map and the log of what to undo, gives for every page number
  -- the page of the map that was copied at the last commit frame, and that frame's database size.
  pub committed_pages-publish_all :
      (h : WalHeader) (wal_bytes : List ℕ)
      → ((k : ℕ)
          → lookup (committed_pages from_ne_bytes h wal_bytes).0 k
            ≡ lookup (publish_all no_frames (valid_frames h wal_bytes)).published k)
        × ((committed_pages from_ne_bytes h wal_bytes).1
            ≡ (publish_all no_frames (valid_frames h wal_bytes)).db_size)
  unfolding committed_pages valid_frames
  committed_pages-publish_all h wal_bytes =
      let agrees =
        scan-Agrees (length wal_bytes) h wal_bytes (scan_start from_ne_bytes h) no_frames
          (record { same_pages = refl; undone = λ k. refl; same_size = refl }) in
      (agrees.undone, agrees.same_size)
