-- ===== src/Pager/Sorted.antt =====
-- The sorted dirty pages and the page numbers of the journal: what holds of the dirty pages.
use db_storage.Prelude.{ℕ, suc, ◌≤◌, ◌≡◌, refl, ap, ◌∙◌, List, [], ◌∷◌, arith}
use db_storage.Prelude.{length, All}
use db_storage.Prelude.{inl, inr, Bool-cases, leb}
use db_storage.Pager.{Page, to_journal, sort_pages, insert_page}

pub insert_page-All :
    (P : Page → Type 0) (p : Page) (pages : List Page)
    → P p
    → All P pages
    → All P (insert_page p pages)
unfolding insert_page
insert_page-All P (n, bytes) [] h hs = (h, tt)
insert_page-All P (n, bytes) ((m, other) ∷ pages) h (first, others) = elim (Bool-cases (leb n m)) [
  | inl before ↦ rw before (h, (first, others))
  | inr behind ↦ rw behind (first, insert_page-All P (n, bytes) pages h others)
]

pub sort_pages-All :
    (P : Page → Type 0) (pages : List Page) → All P pages → All P (sort_pages pages)
unfolding sort_pages
sort_pages-All P [] h = tt
sort_pages-All P (p ∷ pages) h =
    insert_page-All P p (sort_pages pages) h.0 (sort_pages-All P pages h.1)

length-insert_page :
    (p : Page) (pages : List Page) → length (insert_page p pages) ≡ suc (length pages)
unfolding insert_page
length-insert_page (n, bytes) [] = refl
length-insert_page (n, bytes) ((m, other) ∷ pages) = elim (Bool-cases (leb n m)) [
  | inl before ↦ rw before refl
  | inr behind ↦ rw behind (ap suc (length-insert_page (n, bytes) pages))
]

pub length-sort_pages : (pages : List Page) → length (sort_pages pages) ≡ length pages
unfolding sort_pages
length-sort_pages [] = refl
length-sort_pages (p ∷ pages) =
    length-insert_page p (sort_pages pages) ∙ ap suc (length-sort_pages pages)

pub length-to_journal :
    (initial : ℕ) (pages : List Page) → length (to_journal initial pages) ≤ length pages
unfolding to_journal
length-to_journal initial [] = omega arith
length-to_journal initial ((n, bytes) ∷ pages) =
    let rest = length-to_journal initial pages in
    elim (Bool-cases (leb n initial)) [
      | inl old ↦ rw old (omega arith)
      | inr new ↦ rw new (omega arith)
    ]
