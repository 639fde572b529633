-- ===== src/Pager/Mode.antt =====
-- src/row/pager/mod.rs: the journal mode in bytes 18 and 19 of page 1.
use db_storage.Prelude.{ℕ, ◌≤◌, ◌<◌, ◌≡◌, refl, List, [], ◌∷◌, length, arith, some}
use db_storage.Prelude.{
  Result, ok, ok_or, if◌then◌else◌, ◌==◌, ◌&&◌, slice?, write_slice?, overwrite, ◌⊎◌,
}
use db_storage.Prelude.{
  le→leb, slice?-overwrite_self, length-overwrite, get_elem?, get_elem?-overwrite_ne,
}
use db_storage.Header.{JournalMode, wal, legacy, slice_is, bytes_eq}
use db_storage.Vfs.PageSource.{short_read}
use db_storage.Pager.{PagerError, page}

unfoldable pub journal_mode_from_page1 : List ℕ → JournalMode
unfolding slice_is bytes_eq slice?
journal_mode_from_page1 page1 = if slice_is (slice? page1 18 20) (2 ∷ 2 ∷ []) then wal else legacy

-- The page after the write of the two bytes.
unfoldable pub patch_journal_mode_bytes : List ℕ → ℕ → ℕ → Result PagerError (List ℕ)
unfolding write_slice? overwrite
patch_journal_mode_bytes page1 first second =
    ok_or (write_slice? page1 18 (first ∷ second ∷ [])) (page (short_read 1 20 (length page1)))

two_versions :
    (first second : ℕ)
    → (if bytes_eq (first ∷ second ∷ []) (2 ∷ 2 ∷ []) then wal else legacy)
      ≡ (if (first == 2) && (second == 2) then wal else legacy)
unfolding bytes_eq
two_versions first second = ground arith

-- A page of 20 bytes or more takes the two bytes; the page is then in WAL mode if and only if both
-- are 2, and its length and all other bytes are as before.
pub journal_mode_from_page1-patch_journal_mode_bytes :
    (page1 : List ℕ) (first second : ℕ)
    → 20 ≤ length page1
    → (after : List ℕ) × (patch_journal_mode_bytes page1 first second ≡ ok after)
      × (journal_mode_from_page1 after ≡ (if (first == 2) && (second == 2) then wal else legacy))
      × (length after ≡ length page1)
      × ((j : ℕ) → (j < 18) ⊎ (20 ≤ j) → get_elem? after j ≡ get_elem? page1 j)
unfolding patch_journal_mode_bytes write_slice? journal_mode_from_page1 slice_is
journal_mode_from_page1-patch_journal_mode_bytes page1 first second long =
    let bytes : List ℕ = first ∷ second ∷ [] in
    let found : slice? (overwrite page1 18 bytes) 18 20 ≡ some bytes =
      slice?-overwrite_self page1 18 bytes (omega arith) in
    (
      overwrite page1 18 bytes,
      (rw (le→leb 20 (length page1) long) refl),
      (rw found (two_versions first second)),
      length-overwrite page1 18 bytes (omega arith),
      λ j apart. get_elem?-overwrite_ne page1 18 bytes j (omega arith) apart,
    )
