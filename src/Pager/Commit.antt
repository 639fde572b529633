-- ===== src/Pager/Commit.antt =====
-- The two loops of `flush_locked`: the pre-images that the journal gets, and the bytes of the main
-- file that the dirty pages leave alone.
use db_storage.Prelude.{
  ℕ, suc, ◌+◌, ◌-◌, ◌*◌, ◌≤◌, ◌<◌, ◌≡◌, refl, ap, sym, ◌∙◌, List, [], ◌∷◌, arith,
}
use db_storage.Prelude.{length, get_elem?, Result, ok, err, >>=-eq-ok, map_err, All, IsU32, u64_max}
use db_storage.Prelude.{◌⊎◌, inl, inr, Bool-cases, leb, leb→le, sat_mul}
use native.Mathlib.Nat.{mul-le-mul_right}
use db_storage.Vfs.Memory.{write_at}
use db_storage.Vfs.PageSource.{read_page, write_page}
use db_storage.Vfs.Written.{page_end}
use db_storage.Vfs.Pages.{read_page-ok, write_page-ok, write_at-keeps}
use db_storage.Journal.{JournalHeader, write_record}
use db_storage.Journal.Records.{PreImage, IsPreImage, write_records}
use db_storage.Journal.Rollback.{IsPageOf, InPage, InPages, length-page}
use db_storage.Pager.{Page, page, write_originals, write_pages}

pub map_err-eq-ok :
    {E F A : Type 0} (f : E → F) (r : Result E A) {a : A} → map_err f r ≡ ok a → r ≡ ok a
map_err-eq-ok f (ok b) {a} h = cc
map_err-eq-ok f (err e) h = cc

-- Byte `j` of the file is in one of the pages with these numbers.
abbrev pub InNumbers : ℕ → List ℕ → ℕ → Type 0
InNumbers page_size [] j = ⊥
InNumbers page_size (n ∷ page_nums) j = InPage page_size n j ⊎ InNumbers page_size page_nums j

-- The pages that `write_originals` puts into the journal.
pub record Originals (source : List ℕ) (page_size : ℕ) (h : JournalHeader) (file : List ℕ)
    (index : ℕ) (page_nums : List ℕ) (journal : List ℕ) : Type 0 where
  pub pages : List PreImage
  pub count : length pages ≡ length page_nums
  pub whole : All (IsPreImage page_size) pages
  pub right : All (IsPageOf page_size source) pages
  pub covers : (j : ℕ) → InNumbers page_size page_nums j → InPages page_size pages j
  pub written : journal ≡ write_records file h index pages

pub write_originals-ok :
    (source : List ℕ) (page_size : ℕ) (h : JournalHeader) (file : List ℕ) (index : ℕ)
    (page_nums : List ℕ) {journal : List ℕ}
    → 0 < page_size
    → length source ≤ u64_max
    → All IsU32 page_nums
    → write_originals source page_size h file index page_nums ≡ ok journal
    → Originals source page_size h file index page_nums journal
unfolding write_originals write_records
write_originals-ok source page_size h file index [] {journal} pos small fits e =
    let same : journal ≡ file = cc in
    record {
      pages = [];
      count = refl;
      whole = tt;
      right = tt;
      covers = λ j none_. none_;
      written = same;
    }
write_originals-ok source page_size h file index (n ∷ page_nums) {journal} pos small (fit, fits) e =
    let (original, read, rest) = >>=-eq-ok (map_err page (read_page source page_size n)) _ e in
    let (positive, same, inside) =
      read_page-ok source page_size n pos small
        (map_err-eq-ok page (read_page source page_size n) read) in
    let others =
      write_originals-ok source page_size h (write_record file h index n original) (index + 1)
        page_nums pos small fits rest in
    let size : length original ≡ page_size =
      length-page page_size source small (n, original) (same, inside) in
    record {
      pages = (n, original) ∷ others.pages;
      count = ap suc others.count;
      whole = ((fit, size), others.whole);
      right = ((same, inside), others.right);
      covers =
          λ j known. elim known [ inl here ↦ inl here | inr later ↦ inr (others.covers j later) ];
      written = others.written;
    }

-- Byte `j` of the file is in one of the pages that stand in it, of those to be written.
abbrev pub InDirty : ℕ → ℕ → List Page → ℕ → Type 0
InDirty initial page_size [] j = ⊥
InDirty initial page_size ((n, bytes) ∷ pages) j =
    ((n ≤ initial) × InPage page_size n j) ⊎ InDirty initial page_size pages j

abbrev pub Small : ℕ → List Page → Type 0
Small page_size pages = All (λ (p : Page). p.0 * page_size ≤ u64_max) pages

-- A byte that stands in the file is in a page of the file, or in none that is written.
place :
    (initial page_size n j : ℕ)
    → 1 ≤ n
    → j < initial * page_size
    → ((n ≤ initial) × InPage page_size n j)
      ⊎ ((j < (n - 1) * page_size) ⊎ ((n - 1) * page_size + page_size ≤ j))
place initial page_size n j positive h = elim (Bool-cases (leb n initial)) [
  | inl old ↦ let le = leb→le n initial old in ground arith
  | inr new ↦
      let le : initial ≤ n - 1 = ground arith in
      let far = mul-le-mul_right page_size le in inr (inl (omega arith))
]

pub write_pages-keeps :
    (initial page_size : ℕ) (pages : List Page) (source : List ℕ) {after : List ℕ}
    → initial * page_size ≤ length source
    → Small page_size pages
    → write_pages source page_size pages ≡ ok after
    → (length source ≤ length after)
      × ((j : ℕ)
          → j < initial * page_size
          → InDirty initial page_size pages j ⊎ (get_elem? after j ≡ get_elem? source j))
unfolding write_pages
write_pages-keeps initial page_size [] source {after} long small e =
    let same : source ≡ after = cc in rw (sym same) (omega arith, λ j h. inr refl)
write_pages-keeps initial page_size ((n, bytes) ∷ pages) source {after} long (fits, small) e =
    let (next, wrote, rest) = >>=-eq-ok (map_err page (write_page source page_size n bytes)) _ e in
    let (positive, size, same) =
      write_page-ok source page_size n bytes
        (map_err-eq-ok page (write_page source page_size n bytes) wrote) in
    let end = page_end n page_size positive in
    let offset : sat_mul (n - 1) page_size ≡ (n - 1) * page_size = omega arith in
    let next_is : next ≡ write_at source bytes ((n - 1) * page_size) =
      same ∙ ap (write_at source bytes) offset in
    let (longer, keeps) =
      (rw (sym next_is) at (write_at-keeps source bytes ((n - 1) * page_size) (omega arith))) in
    let (longest, others) =
      write_pages-keeps initial page_size pages next (omega arith) small rest in
    (
      omega arith,
      λ j h. elim (others j h) [
        | inl later ↦ inl (inr later)
        | inr after_next ↦ elim (place initial page_size n j positive h) [
          | inl here ↦ inl (inl here)
          | inr apart ↦ inr (after_next ∙ keeps j (omega arith) (omega (arith, apart, size)))
        ]
      ],
    )
