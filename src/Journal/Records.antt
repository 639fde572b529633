-- ===== src/Journal/Records.antt =====
-- The records of the rollback journal: what `write_record` writes, `recover` reads back.
use db_storage.Prelude.{ℕ, suc, ◌+◌, ◌-◌, ◌*◌, ◌≤◌, ◌≡◌, refl, ap, sym, ◌∙◌, List, [], ◌∷◌, ◌++◌}
use db_storage.Prelude.{length, drop, length-append, append_assoc, arith, IsU32, u64_max}
use db_storage.Prelude.{All, sat_add, sat_mul, be_bytes, length-be_bytes, from_be-be_bytes, some}
use db_storage.Prelude.{slice?, slice_from?, slice?-append, slice_from?-append, ◌==◌, ==_iff, true}
use db_storage.Vfs.Memory.{write_at, write_at-append}
use db_storage.Journal.{
  JournalHeader, record_len, record_bytes, write_record, valid_record, word?, recover_from,
  page_checksum,
}
use db_storage.Journal.Checksum.{page_checksum-IsU32}

-- A page number and the page's content.
abbrev pub PreImage : Type 0
PreImage = ℕ × List ℕ

abbrev pub IsPreImage : ℕ → PreImage → Type 0
IsPreImage page_size (page_num, page) = IsU32 page_num × (length page ≡ page_size)

pub record_len_lem : (page_size : ℕ) → IsU32 page_size → record_len page_size ≡ page_size + 8
unfolding record_len
record_len_lem page_size h = omega arith

pub length-record_bytes :
    (nonce page_num : ℕ) (page : List ℕ)
    → length (record_bytes nonce page_num page) ≡ length page + 8
unfolding record_bytes
length-record_bytes nonce page_num page = omega (
  arith,
  length-append (be_bytes 4 page_num) (page ++ be_bytes 4 (page_checksum nonce page)),
  length-append page (be_bytes 4 (page_checksum nonce page)),
  length-be_bytes 4 page_num,
  length-be_bytes 4 (page_checksum nonce page),
)

word?-some : (v : ℕ) → IsU32 v → word? (some (be_bytes 4 v)) ≡ some v
unfolding word?
word?-some v h = rw (length-be_bytes 4 v, from_be-be_bytes 4 v (omega arith)) refl

-- The place of record `index`.
abbrev pub record_offset : JournalHeader → ℕ → ℕ
record_offset h index = h.sector_size + index * (h.page_size + 8)

-- The record at its place is read back.
valid_record-record_bytes :
    (h : JournalHeader) (front tail : List ℕ) (index page_num : ℕ) (page : List ℕ)
    → IsU32 h.page_size
    → IsU32 h.nonce
    → IsPreImage h.page_size (page_num, page)
    → length front ≡ record_offset h index
    → record_offset h index + h.page_size + 8 ≤ u64_max
    → valid_record h (front ++ (record_bytes h.nonce page_num page ++ tail)) index
      ≡ some (page_num, page)
unfolding valid_record
valid_record-record_bytes h front tail index page_num page hp hn (fits, size) at small =
    let len = record_len_lem h.page_size hp in
    let bytes = record_bytes h.nonce page_num page in
    let w1 = be_bytes 4 page_num in
    let w2 = be_bytes 4 (page_checksum h.nonce page) in
    let n1 : length w1 ≡ 4 = length-be_bytes 4 page_num in
    let n2 : length w2 ≡ 4 = length-be_bytes 4 (page_checksum h.nonce page) in
    let size_bytes = length-record_bytes h.nonce page_num page in
    let offset : sat_add h.sector_size (sat_mul index (record_len h.page_size))
        ≡ record_offset h index =
      rw len (omega arith) in
    let body : List ℕ = page ++ w2 in
    let s1 : slice? (w1 ++ (page ++ w2)) 0 4 ≡ some w1 =
      slice?-append [] w1 body 0 4 refl (omega (arith, n1)) in
    let s2 : slice? (w1 ++ (page ++ w2)) 4 (sat_add 4 h.page_size) ≡ some page =
      slice?-append w1 page w2 4 (sat_add 4 h.page_size) (omega (arith, n1)) (omega (arith, n1)) in
    let s3 : slice_from? (w1 ++ (page ++ w2)) (sat_add 4 h.page_size) ≡ some w2 =
      ap (λ t. slice_from? t (sat_add 4 h.page_size)) (sym (append_assoc w1 page w2))
      ∙ slice_from?-append (w1 ++ page) w2 (sat_add 4 h.page_size)
          (omega (arith, length-append w1 page, n1)) in
    let parts : bytes ≡ w1 ++ (page ++ w2) = unfold record_bytes in refl in
    let whole : slice? (front ++ (bytes ++ tail)) (record_offset h index)
          (sat_add (record_offset h index) (record_len h.page_size))
        ≡ some bytes =
      slice?-append front bytes tail (record_offset h index)
        (sat_add (record_offset h index) (record_len h.page_size)) (sym at)
        (rw len (omega (arith, size_bytes))) in
    let word1 = word?-some page_num fits in
    let word2 = word?-some (page_checksum h.nonce page) (page_checksum-IsU32 h.nonce page hn) in
    let same : (page_checksum h.nonce page == page_checksum h.nonce page) ≡ true =
      (==_iff _ _).1 refl in
    rw (offset, whole) rw (parts, s1, word1, s2, s3, word2, same) refl

-- The records of `pages`, one behind the other.
unfoldable pub records : ℕ → List PreImage → List ℕ
records nonce [] = []
records nonce ((page_num, page) ∷ pages) = record_bytes nonce page_num page ++ records nonce pages

-- The records of `pages` written one after the other, from record `index` on.
unfoldable pub write_records : List ℕ → JournalHeader → ℕ → List PreImage → List ℕ
unfolding write_record
write_records file h index [] = file
write_records file h index ((page_num, page) ∷ pages) =
    write_records (write_record file h index page_num page) h (index + 1) pages

-- The pages written back one after the other.
unfoldable pub restore : ℕ → List PreImage → List ℕ → List ℕ
unfolding write_at
restore page_size [] db_file = db_file
restore page_size ((page_num, page) ∷ pages) db_file =
    restore page_size pages (write_at db_file page (sat_mul (page_num - 1) page_size))

abbrev pub Fits : JournalHeader → ℕ → Type 0
Fits h end = IsU32 h.page_size × IsU32 h.nonce × (record_offset h end ≤ u64_max)

next_front :
    (h : JournalHeader) (front : List ℕ) (index page_num : ℕ) (page : List ℕ)
    → length page ≡ h.page_size
    → length front ≡ record_offset h index
    → length (front ++ record_bytes h.nonce page_num page) ≡ record_offset h (index + 1)
next_front h front index page_num page size at = omega (
  arith,
  length-append front (record_bytes h.nonce page_num page),
  length-record_bytes h.nonce page_num page,
)

write_record-append :
    (h : JournalHeader) (front stale : List ℕ) (index page_num : ℕ) (page : List ℕ)
    → IsU32 h.page_size
    → length page ≡ h.page_size
    → length front ≡ record_offset h index
    → record_offset h (index + 1) ≤ u64_max
    → write_record (front ++ stale) h index page_num page
      ≡ (front ++ record_bytes h.nonce page_num page)
        ++ drop (length (record_bytes h.nonce page_num page)) stale
unfolding write_record
write_record-append h front stale index page_num page hp size at small =
    let len = record_len_lem h.page_size hp in
    let offset : sat_add h.sector_size (sat_mul index (record_len h.page_size)) ≡ length front =
      rw len (omega arith) in
    let bytes = length-record_bytes h.nonce page_num page in
    write_at-append front stale (record_bytes h.nonce page_num page) _ offset (omega (arith, bytes))

-- Written behind `front`, the records stand there one after the other.
pub write_records-records :
    (h : JournalHeader) (pages : List PreImage) (front stale : List ℕ) (index : ℕ)
    → Fits h (index + length pages)
    → All (IsPreImage h.page_size) pages
    → length front ≡ record_offset h index
    → (tail : List ℕ) × (write_records (front ++ stale) h index pages
        ≡ front ++ (records h.nonce pages ++ tail))
unfolding write_records records
write_records-records h [] front stale index fits good at = (stale, refl)
write_records-records h ((page_num, page) ∷ pages) front stale index fits (good, goods) at =
    let bytes = record_bytes h.nonce page_num page in
    let size = length-record_bytes h.nonce page_num page in
    let rest =
      write_records-records h pages (front ++ bytes) (drop (length bytes) stale) (index + 1)
        (fits.0, fits.1, omega (arith, fits.2)) goods
        (next_front h front index page_num page good.1 at) in
    let one =
      write_record-append h front stale index page_num page fits.0 good.1 at
        (omega (arith, fits.2, good.1)) in
    (
      rest.0,
      ap (λ t. write_records t h (index + 1) pages) one
          ∙ rest.1
          ∙ append_assoc front bytes (records h.nonce pages ++ rest.0)
          ∙ ap (λ t. front ++ t) (sym (append_assoc bytes (records h.nonce pages) rest.0)),
    )

-- One iteration that finds a record.
pub recover_from-some :
    (n : ℕ) (h : JournalHeader) (journal : List ℕ) (index : ℕ) (db_file : List ℕ) {page_num : ℕ}
    {page : List ℕ}
    → valid_record h journal index ≡ some (page_num, page)
    → recover_from (suc n) h journal index db_file
      ≡ recover_from n h journal
          (index + 1)
          (write_at db_file page (sat_mul (page_num - 1) h.page_size))
unfolding recover_from
recover_from-some n h journal index db_file found = rw (recover_from, found) refl

-- `recover` applies the records that stand behind `front`, and goes on behind them.
pub recover_from-records :
    (h : JournalHeader) (pages : List PreImage) (front tail : List ℕ) (index more : ℕ)
    (db_file : List ℕ)
    → Fits h (index + length pages)
    → All (IsPreImage h.page_size) pages
    → length front ≡ record_offset h index
    → recover_from (length pages + more) h (front ++ (records h.nonce pages ++ tail)) index db_file
      ≡ recover_from more h
          (front ++ (records h.nonce pages ++ tail))
          (index + length pages)
          (restore h.page_size pages db_file)
unfolding records restore
recover_from-records h [] front tail index more db_file fits good at =
    let e1 : 0 + more ≡ more = omega arith in
    let e2 : index + 0 ≡ index = omega arith in rw (e1, e2) refl
recover_from-records h ((page_num, page) ∷ pages) front tail index more db_file fits (good, goods)
      at =
    let bytes = record_bytes h.nonce page_num page in
    let next = write_at db_file page (sat_mul (page_num - 1) h.page_size) in
    let e1 : length ((page_num, page) ∷ pages) + more ≡ suc (length pages + more) = omega arith in
    let e2 : index + length ((page_num, page) ∷ pages) ≡ index + 1 + length pages = omega arith in
    let all : List ℕ = (bytes ++ records h.nonce pages) ++ tail in
    let assoc : all ≡ bytes ++ (records h.nonce pages ++ tail) =
      append_assoc bytes (records h.nonce pages) tail in
    let e3 : front ++ all ≡ (front ++ bytes) ++ (records h.nonce pages ++ tail) =
      ap (λ t. front ++ t) assoc ∙ sym (append_assoc front bytes (records h.nonce pages ++ tail)) in
    let found : valid_record h (front ++ all) index ≡ some (page_num, page) =
      ap (λ t. valid_record h (front ++ t) index) assoc
      ∙ valid_record-record_bytes h front (records h.nonce pages ++ tail) index page_num page fits.0
          fits.1 good at (omega (arith, fits.2)) in
    let rest =
      recover_from-records h pages (front ++ bytes) tail (index + 1) more next
        (fits.0, fits.1, omega (arith, fits.2)) goods
        (next_front h front index page_num page good.1 at) in
    ap (λ k. recover_from k h (front ++ all) index db_file) e1
    ∙ recover_from-some (length pages + more) h (front ++ all) index db_file found
    ∙ ap (λ t. recover_from (length pages + more) h t (index + 1) next) e3
    ∙ rest
    ∙ ap (λ t. recover_from more h t (index + 1 + length pages) (restore h.page_size pages next))
        (sym e3)
    ∙ ap (λ k. recover_from more h (front ++ all) k (restore h.page_size pages next)) (sym e2)
