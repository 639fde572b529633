-- ===== src/Header/Page1.antt =====
-- The first page of a new database file.
use db_storage.Prelude.{ℕ, zero, suc, ◌+◌, ◌-◌, ◌^◌, ◌≤◌, ◌<◌, ◌≡◌, refl, ap, ◌∙◌}
use db_storage.Prelude.{List, [], ◌∷◌, ◌++◌, length, arith, ltb, false}
use db_storage.Prelude.{ok, All, sat_add}
use db_storage.Prelude.{
  slice?, get_elem?-some, get_elem?-append_lt, slice?-append_le, slice?-eq-some,
}
use db_storage.Prelude.{
  length-append, le→ltb, le→leb, overwrite, overwrite-append, length-overwrite,
}
use db_storage.Prelude.{replicate, replicate-append, be_bytes}
use native.Mathlib.Nat.{pow-le-pow_right}
use db_storage.Record.Value.{utf8}
use db_storage.Header.{DatabaseHeader, parse, read_u8, read_u32, fields, put}
use db_storage.Header.{new_empty_page1, header_len, magic, field16}
use db_storage.Header.{}

module _ (xs ys : List ℕ) where
  read_u8-append : (i : ℕ) → i < length xs → read_u8 (xs ++ ys) i ≡ read_u8 xs i
  unfolding read_u8
  read_u8-append i h =
      let (b, e) = get_elem?-some xs i h in rw (get_elem?-append_lt xs ys i h, e) refl

  read_u32-append : (i : ℕ) → i + 4 ≤ length xs → read_u32 (xs ++ ys) i ≡ read_u32 xs i
  unfolding read_u32
  read_u32-append i h =
      rw
        (
          slice?-append_le xs ys i (i + 4) (omega arith) h,
          slice?-eq-some xs i (i + 4) (omega arith) h,
        )
        refl

  fields-append :
      (ps wv rv rs : ℕ)
      → header_len ≤ length xs
      → fields (xs ++ ys) ps wv rv rs ≡ fields xs ps wv rv rs
  unfolding fields
  fields-append ps wv rv rs h =
      rw
        (
          read_u32-append 28 (omega arith),
          read_u32-append 32 (omega arith),
          read_u32-append 36 (omega arith),
          read_u32-append 40 (omega arith),
          read_u32-append 44 (omega arith),
          read_u32-append 52 (omega arith),
          read_u32-append 56 (omega arith),
          read_u32-append 60 (omega arith),
          read_u32-append 68 (omega arith),
        )
        refl

  -- `parse` reads nothing behind the 100 bytes of the header: what follows does not matter.
  pub parse-append : header_len ≤ length xs → parse (xs ++ ys) ≡ parse xs
  unfolding parse
  parse-append h =
      let short : ltb (length (xs ++ ys)) header_len ≡ false =
        le→ltb _ _ (omega (arith, length-append xs ys)) in
      let same : (ps wv rv rs : ℕ) → fields (xs ++ ys) ps wv rv rs ≡ fields xs ps wv rv rs =
        λ ps wv rv rs. fields-append ps wv rv rs h in
      rw
        (
          short,
          le→ltb (length xs) header_len h,
          slice?-append_le xs ys 0 16 (omega arith) (omega arith),
          read_u8-append 16 (omega arith),
          read_u8-append 17 (omega arith),
          read_u8-append 18 (omega arith),
          read_u8-append 19 (omega arith),
          read_u8-append 20 (omega arith),
        )
        (simp same)

-- The writes of `new_empty_page1` in their order.
page1_writes : ℕ → List (ℕ × List ℕ)
page1_writes page_size =
    (0, magic)
    ∷ (16, be_bytes 2 (field16 page_size 1))
    ∷ (18, 1 ∷ [])
    ∷ (19, 1 ∷ [])
    ∷ (21, 64 ∷ [])
    ∷ (22, 32 ∷ [])
    ∷ (23, 32 ∷ [])
    ∷ (28, be_bytes 4 1)
    ∷ (44, be_bytes 4 4)
    ∷ (56, be_bytes 4 1)
    ∷ (header_len, 0x0d ∷ [])
    ∷ (header_len + 5, be_bytes 2 (field16 page_size 0))
    ∷ []

put_all : List ℕ → List (ℕ × List ℕ) → List ℕ
put_all buf [] = buf
put_all buf ((offset, bytes) ∷ rest) = put_all (put buf offset bytes) rest

abbrev InFirst : ℕ → ℕ × List ℕ → Type 0
InFirst n w = w.0 + length w.1 ≤ n

length-put-in :
    (buf : List ℕ) (i : ℕ) (bs : List ℕ)
    → i + length bs ≤ length buf
    → length (put buf i bs) ≡ length buf
unfolding put
length-put-in buf i bs h =
    rw (le→leb (sat_add i (length bs)) (length buf) (omega arith)) (length-overwrite buf i bs h)

put-append :
    (xs ys : List ℕ) (i : ℕ) (bs : List ℕ)
    → i + length bs ≤ length xs
    → put (xs ++ ys) i bs ≡ put xs i bs ++ ys
unfolding put
put-append xs ys i bs h =
    rw
      (
        le→leb (sat_add i (length bs)) (length (xs ++ ys)) (omega (arith, length-append xs ys)),
        le→leb (sat_add i (length bs)) (length xs) (omega arith),
      )
      (overwrite-append xs ys i bs h)

put_all-append :
    (ws : List (ℕ × List ℕ)) (xs ys : List ℕ)
    → All (InFirst (length xs)) ws
    → put_all (xs ++ ys) ws ≡ put_all xs ws ++ ys
unfolding put_all
put_all-append [] xs ys h = refl
put_all-append ((i, bs) ∷ ws) xs ys h =
    rw (put-append xs ys i bs h.0)
      (put_all-append ws (put xs i bs) ys (rw (length-put-in xs i bs h.0) h.1))

new_empty_page1-put_all :
    (page_size : ℕ)
    → new_empty_page1 page_size ≡ put_all (replicate page_size 0) (page1_writes page_size)
unfolding new_empty_page1 put_all page1_writes
new_empty_page1-put_all page_size = refl

-- The bytes of the header and of the b-tree header behind it.
page1_prefix : ℕ → List ℕ
page1_prefix page_size = put_all (replicate 112 0) (page1_writes page_size)

new_empty_page1-prefix :
    (page_size : ℕ)
    → 112 ≤ page_size
    → new_empty_page1 page_size ≡ page1_prefix page_size ++ replicate (page_size - 112) 0
unfolding page1_prefix
new_empty_page1-prefix page_size h =
    let split : page_size ≡ 112 + (page_size - 112) = omega arith in
    new_empty_page1-put_all page_size
    ∙ ap (λ k. put_all (replicate k 0) (page1_writes page_size)) split
    ∙ ap (λ t. put_all t (page1_writes page_size)) (replicate-append 112 (page_size - 112) 0)
    ∙ put_all-append (page1_writes page_size) (replicate 112 0) (replicate (page_size - 112) 0)
        (unfold page1_writes be_bytes in omega arith)

-- The header that a new database begins with.
abbrev pub fresh_header : ℕ → DatabaseHeader
fresh_header page_size = record {
  page_size = page_size;
  write_version = 1;
  read_version = 1;
  reserved_space = 0;
  page_count = 1;
  freelist_trunk_page = 0;
  freelist_page_count = 0;
  schema_cookie = 0;
  schema_format = 4;
  largest_root_btree_page = 0;
  text_encoding = utf8;
  user_version = 0;
  application_id = 0;
}

parse-page1_prefix :
    (k : ℕ) → k ≤ 7 → parse (page1_prefix (2 ^ (9 + k))) ≡ ok (fresh_header (2 ^ (9 + k)))
unfolding parse fields page1_prefix put_all page1_writes put overwrite slice? field16 be_bytes
parse-page1_prefix zero h = refl
parse-page1_prefix (suc zero) h = refl
parse-page1_prefix (suc (suc zero)) h = refl
parse-page1_prefix (suc (suc (suc zero))) h = refl
parse-page1_prefix (suc (suc (suc (suc zero)))) h = refl
parse-page1_prefix (suc (suc (suc (suc (suc zero))))) h = refl
parse-page1_prefix (suc (suc (suc (suc (suc (suc zero)))))) h = refl
parse-page1_prefix (suc (suc (suc (suc (suc (suc (suc zero))))))) h = refl
parse-page1_prefix (suc (suc (suc (suc (suc (suc (suc (suc k)))))))) h = absurd (omega arith)

length-page1_prefix : (page_size : ℕ) → length (page1_prefix page_size) ≡ 112
unfolding page1_prefix put_all page1_writes put overwrite be_bytes
length-page1_prefix page_size = refl

-- For every page size of the format, from 512 to 65536, `parse` accepts the page that
-- `new_empty_page1` builds, as one page of UTF-8 text with an empty freelist.
pub parse-new_empty_page1 :
    (k : ℕ) → k ≤ 7 → parse (new_empty_page1 (2 ^ (9 + k))) ≡ ok (fresh_header (2 ^ (9 + k)))
parse-new_empty_page1 k h =
    let size : 512 ≤ 2 ^ (9 + k) =
      pow-le-pow_right {n = 2} (omega arith) {i = 9} {j = 9 + k} (omega arith) in
    let e : new_empty_page1 (2 ^ (9 + k)) ≡ _ =
      new_empty_page1-prefix (2 ^ (9 + k)) (omega arith) in
    rw e (
      parse-append (page1_prefix (2 ^ (9 + k))) (replicate (2 ^ (9 + k) - 112) 0)
        (omega (arith, length-page1_prefix (2 ^ (9 + k))))
      ∙ parse-page1_prefix k h)
