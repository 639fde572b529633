-- ===== src/Journal/Replay.antt =====
-- A whole journal: `create`, the records, and `recover` on the result.
use db_storage.Prelude.{ℕ, ◌+◌, ◌≤◌, ◌≡◌, refl, ap, sym, ◌∙◌, List, [], ◌++◌, arith}
use db_storage.Prelude.{
  length, drop, replicate, overwrite, length-append, length-replicate, length-drop, append_assoc,
}
use db_storage.Prelude.{ok, leb, leb→le, Bool-cases, inl, inr, All, u64_max}
use db_storage.Prelude.{}
use db_storage.Vfs.Memory.{write_at, write_at-append}
use db_storage.Journal.{
  JournalHeader, journal_magic, parse, serialize, create, recover, recover_from,
}
use db_storage.Journal.Header.{IsJournalHeader, parse-serialize, length-serialize}
use db_storage.Journal.Records.{
  PreImage, IsPreImage, records, write_records, restore, record_offset,
}
use db_storage.Journal.Records.{write_records-records, recover_from-records}

-- The header region: the header, and zeros up to the sector size.
abbrev region : JournalHeader → List ℕ
region h = serialize h journal_magic ++ drop 28 (replicate h.sector_size 0)

-- `create` refuses a sector without room for the header, and else writes the region.
pub create-region :
    (stale : List ℕ) (h : JournalHeader) {file : List ℕ}
    → h.sector_size ≤ u64_max
    → create stale h ≡ ok file
    → (length (region h) ≡ h.sector_size) × (file ≡ region h ++ drop (length (region h)) stale)
unfolding create overwrite
create-region stale h {file} small made =
    let zeros : List ℕ = replicate h.sector_size 0 in
    let size : length zeros ≡ h.sector_size = length-replicate {A = ℕ} h.sector_size 0 in
    let size_header = length-serialize h journal_magic refl in
    let eight : 0 + length (serialize h journal_magic) ≡ 28 = omega (arith, size_header) in
    let written : overwrite zeros 0 (serialize h journal_magic) ≡ region h =
      ap (λ k. serialize h journal_magic ++ drop k zeros) eight in
    elim (Bool-cases (leb 28 (length zeros))) [
      | inl room ↦
          let fits = leb→le 28 (length zeros) room in
          let wide : length (region h) ≡ h.sector_size = omega (
            arith,
            length-append (serialize h journal_magic) (drop 28 zeros),
            length-drop 28 zeros,
            size_header,
          ) in
          let result : write_at stale (overwrite zeros 0 (serialize h journal_magic)) 0
              ≡ region h ++ drop (length (region h)) stale =
            ap (λ t. write_at stale t 0) written
            ∙ write_at-append [] stale (region h) 0 refl (omega arith) in
          let value : create stale h ≡ ok (region h ++ drop (length (region h)) stale) =
            rw room (ap ok result) in
          (wide, cc)
      | inr short ↦ let e = (rw short at made) in cc
    ]

recover_from-zero :
    (h : JournalHeader) (journal : List ℕ) (index : ℕ) (db_file : List ℕ)
    → recover_from 0 h journal index db_file ≡ db_file
unfolding recover_from
recover_from-zero h journal index db_file = refl

recover-parsed :
    (journal : List ℕ) (h : JournalHeader) (db_file : List ℕ)
    → parse journal ≡ ok h
    → recover journal db_file
      ≡ ok (
        record { initial_page_count = h.initial_page_count; page_size = h.page_size },
        recover_from h.n_rec h journal 0 db_file,
      )
unfolding recover
recover-parsed journal h db_file parsed = rw parsed refl

module _ (stale : List ℕ) (h : JournalHeader) (pages : List PreImage) (file : List ℕ)
    (made : create stale h ≡ ok file) (good : IsJournalHeader h)
    (fits : record_offset h (length pages) ≤ u64_max)
    (whole : All (IsPreImage h.page_size) pages) where
  -- The journal is the header region, the records, and what an older journal left behind them.
  pub journal-layout :
      (tail : List ℕ) × (write_records file h 0 pages ≡ region h ++ (records h.nonce pages ++ tail))
  journal-layout =
      let (_, nonce_fits, _, _, size_fits) = good in
      let (wide, same) = create-region stale h (omega arith) made in
      let rest = drop (length (region h)) stale in
      let (tail, laid) =
        write_records-records h pages (region h) rest 0 (size_fits, nonce_fits, small) whole
          (omega (arith, wide)) in
      (tail, ap (λ f. write_records f h 0 pages) same ∙ laid)
    where
      small : record_offset h (0 + length pages) ≤ u64_max
      small = let e : 0 + length pages ≡ length pages = omega arith in rw e fits

  -- On a journal that `create` and `write_record` made over any old journal file, with 32-bit
  -- header fields, whole pages and the number of its records in its header, `recover` writes every
  -- page back in order and returns the page count and the page size.
  pub recover-write_records :
      (db_file : List ℕ)
      → h.n_rec ≡ length pages
      → recover (write_records file h 0 pages) db_file
        ≡ ok (
          record { initial_page_count = h.initial_page_count; page_size = h.page_size },
          restore h.page_size pages db_file,
        )
  recover-write_records db_file counted =
      let (tail, laid) = journal-layout in
      let (_, nonce_fits, _, _, size_fits) = good in
      let (wide, same) = create-region stale h (omega arith) made in
      let behind = records h.nonce pages ++ tail in
      let zeros : List ℕ = drop 28 (replicate h.sector_size 0) in
      let parsed : parse (region h ++ behind) ≡ ok h =
        ap parse (append_assoc (serialize h journal_magic) zeros behind)
        ∙ parse-serialize h journal_magic (zeros ++ behind) refl good in
      let start : length (region h) ≡ record_offset h 0 = omega (arith, wide) in
      let count : length pages + 0 ≡ length pages = omega arith in
      let e : 0 + length pages ≡ length pages = omega arith in
      let small : record_offset h (0 + length pages) ≤ u64_max = rw e fits in
      let replayed : recover_from (length pages) h (region h ++ behind) 0 db_file
          ≡ restore h.page_size pages db_file =
        ap (λ k. recover_from k h (region h ++ behind) 0 db_file) (sym count)
        ∙ recover_from-records h pages (region h) tail 0 0 db_file (size_fits, nonce_fits, small)
            whole start
        ∙ recover_from-zero h (region h ++ behind) (0 + length pages)
            (restore h.page_size pages db_file) in
      ap (λ j. recover j db_file) laid
      ∙ recover-parsed (region h ++ behind) h db_file parsed
      ∙ ap
          (λ k. ok (
            record { initial_page_count = h.initial_page_count; page_size = h.page_size },
            recover_from k h (region h ++ behind) 0 db_file,
          ))
          counted
      ∙ ap
          (λ r.
            ok (record { initial_page_count = h.initial_page_count; page_size = h.page_size }, r))
          replayed
