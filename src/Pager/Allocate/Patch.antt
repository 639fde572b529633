-- ===== src/Pager/Allocate/Patch.antt =====
-- Dirty pages by their number, and page 1 with another freelist.
use db_storage.Prelude.{ℕ, ◌+◌, ◌*◌, ◌^◌, ◌≤◌, ◌<◌, ◌≡◌, refl, ◌∙◌, List, [], ◌∷◌, ◌++◌, arith}
use db_storage.Prelude.{length, some, Result, ok, >>=-eq-ok, map_err, ◌==◌, ==_iff, true, false}
use db_storage.Prelude.{Bool-cases, inl, inr, IsU32, be_bytes, overwrite}
use db_storage.Freelist.{read_u32, TrunkPage, parse, write, FreelistError}
use db_storage.Freelist.Trunk.{
  write_u32-ok, read_u32-written_self, read_u32-written_ne, length-written, parse-write, IsTrunk,
}
use db_storage.Pager.{Pager, Page, freelist}
use db_storage.Pager.Commit.{map_err-eq-ok}
use db_storage.Pager.Allocate.{
  lookup, insert, read_dirty_page, with_page, change_page, set_freelist, pop,
}

pub lookup-insert_self :
    (pages : List Page) (n : ℕ) (bytes : List ℕ) → lookup (insert pages n bytes) n ≡ some bytes
unfolding lookup insert
lookup-insert_self [] n bytes = let same : (n == n) ≡ true = (==_iff n n).1 refl in rw same refl
lookup-insert_self ((m, old) ∷ pages) n bytes = elim (Bool-cases (m == n)) [
  | inl same ↦ let here : (n == n) ≡ true = (==_iff n n).1 refl in rw (same, here) refl
  | inr other ↦ rw (other, other) (lookup-insert_self pages n bytes)
]

pub lookup-insert_ne :
    (pages : List Page) (n : ℕ) (bytes : List ℕ) (k : ℕ)
    → (n == k) ≡ false
    → lookup (insert pages n bytes) k ≡ lookup pages k
unfolding lookup insert
lookup-insert_ne [] n bytes k h = rw h refl
lookup-insert_ne ((m, old) ∷ pages) n bytes k h =
    let rest = lookup-insert_ne pages n bytes k h in
    elim (Bool-cases (m == n)) [
      | inl same ↦ let e : (m == k) ≡ false = rw ((==_iff m n).0 same) h in rw (same, h, e) refl
      | inr other ↦ rw (other, rest) refl
    ]

pub read-with_page_self :
    (p : Pager) (n : ℕ) (bytes : List ℕ) → read_dirty_page (with_page p n bytes) n ≡ ok bytes
unfolding read_dirty_page with_page
read-with_page_self p n bytes = rw (read_dirty_page, lookup-insert_self p.dirty n bytes) refl

pub read-with_page_ne :
    (p : Pager) (n : ℕ) (bytes : List ℕ) (k : ℕ)
    → (n == k) ≡ false
    → read_dirty_page (with_page p n bytes) k ≡ read_dirty_page p k
unfolding read_dirty_page with_page
read-with_page_ne p n bytes k h = rw (read_dirty_page, lookup-insert_ne p.dirty n bytes k h) refl

-- What a successful change of a page does.
change_page-ok :
    (p : Pager) (n : ℕ) (change : List ℕ → Result FreelistError (List ℕ)) {q : Pager}
    → change_page p n change ≡ ok q
    → (bytes : List ℕ) × (changed : List ℕ) × (read_dirty_page p n ≡ ok bytes)
      × (change bytes ≡ ok changed)
      × (q ≡ with_page p n changed)
unfolding change_page
change_page-ok p n change {q} h =
    let (bytes, read, e1) = >>=-eq-ok (read_dirty_page p n) _ h in
    let (changed, wrote, e2) = >>=-eq-ok (map_err freelist (change bytes)) _ e1 in
    let result : q ≡ with_page p n changed = cc in
    (bytes, changed, read, map_err-eq-ok freelist (change bytes) wrote, result)

-- Page 1 with another freelist.
abbrev pub patched : List ℕ → ℕ → ℕ → List ℕ
patched header trunk_page free_count =
    overwrite (overwrite header 32 (be_bytes 4 trunk_page)) 36 (be_bytes 4 free_count)

abbrev pub IsHeader : List ℕ → Type 0
IsHeader header = (40 ≤ length header) × (length header < 2 ^ 32)

module _ (header : List ℕ) (trunk_page free_count : ℕ) (long : IsHeader header) where
  first_length : length (overwrite header 32 (be_bytes 4 trunk_page)) ≡ length header
  first_length = length-written header 32 trunk_page (omega (arith, long))

  pub length-patched : length (patched header trunk_page free_count) ≡ length header
  length-patched =
      length-written (overwrite header 32 (be_bytes 4 trunk_page)) 36 free_count
        (omega (arith, long, first_length))
      ∙ first_length

  pub page_count-patched : read_u32 (patched header trunk_page free_count) 28 ≡ read_u32 header 28
  page_count-patched =
      read_u32-written_ne (overwrite header 32 (be_bytes 4 trunk_page)) 36 free_count 28
        (omega (arith, long, first_length)) (omega (arith, long, first_length)) (inl (omega arith))
      ∙ read_u32-written_ne header 32 trunk_page 28 (omega (arith, long)) (omega (arith, long))
          (inl (omega arith))

  pub trunk-patched :
      IsU32 trunk_page → read_u32 (patched header trunk_page free_count) 32 ≡ ok trunk_page
  trunk-patched fits =
      read_u32-written_ne (overwrite header 32 (be_bytes 4 trunk_page)) 36 free_count 32
        (omega (arith, long, first_length)) (omega (arith, long, first_length)) (inl (omega arith))
      ∙ read_u32-written_self header 32 trunk_page (omega (arith, long)) (omega (arith, long)) fits

  pub count-patched :
      IsU32 free_count → read_u32 (patched header trunk_page free_count) 36 ≡ ok free_count
  count-patched fits =
      read_u32-written_self (overwrite header 32 (be_bytes 4 trunk_page)) 36 free_count
        (omega (arith, long, first_length)) (omega (arith, long, first_length)) fits

  pub set_freelist-patched :
      (p : Pager)
      → read_dirty_page p 1 ≡ ok header
      → set_freelist p trunk_page free_count
        ≡ ok (with_page p 1 (patched header trunk_page free_count))
  unfolding set_freelist change_page
  set_freelist-patched p read =
      let one = write_u32-ok header 32 trunk_page (omega (arith, long)) in
      let two =
        write_u32-ok (overwrite header 32 (be_bytes 4 trunk_page)) 36 free_count
          (omega (arith, long, first_length)) in
      rw (read, one, two) refl

pub pop-append : (leaves : List ℕ) (n : ℕ) → pop (leaves ++ (n ∷ [])) ≡ some (n, leaves)
unfolding pop
pop-append [] n = refl
pop-append (leaf ∷ leaves) n = rw (pop, pop-append leaves n) refl

pub change_page-write :
    (p : Pager) (n : ℕ) (trunk : TrunkPage) (bytes : List ℕ)
    → read_dirty_page p n ≡ ok bytes
    → IsTrunk trunk
    → 8 + length trunk.leaves * 4 ≤ length bytes
    → length bytes < 2 ^ 32
    → (after : List ℕ) × (change_page p n (write trunk) ≡ ok (with_page p n after))
      × (length after ≡ length bytes)
      × (parse after ≡ ok trunk)
unfolding change_page
change_page-write p n trunk bytes read good room small =
    let (after, wrote, size, parsed) = parse-write trunk bytes good room small in
    (after, (rw (read, wrote) refl), size, parsed)
