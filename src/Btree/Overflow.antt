-- ===== src/Btree/Overflow.antt =====
-- `reassemble_payload` of src/row/btree/mod.rs reads what `write_overflow_chain` of table/insert.rs
-- wrote.
use db_storage.Prelude.{
  ℕ, zero, suc, ◌+◌, ◌-◌, ◌≤◌, ◌<◌, ◌≡◌, refl, sym, ◌∙◌, ap, true, false, List, [], ◌∷◌, ◌++◌,
  append-nil, append_assoc, ◌^◌, leb→le, some, none, ok, >>=-eq-ok, map_err, leb, ◌==◌, ==_iff,
  length, take, drop, slice?, write_slice?, overwrite, sat_add, be_bytes, min, Bool-cases, inl, inr,
  arith, IsU32, length-take, length-drop, length-be_bytes, from_be-be_bytes, slice?-overwrite_self,
  slice?-overwrite_ne, length-overwrite, take-append-drop,
}
use mathlib.Core.Path.{subst}
use db_storage.Pager.{Pager}
use db_storage.Pager.Allocate.{read_dirty_page, with_page}
use db_storage.Pager.Allocate.Patch.{read-with_page_self, read-with_page_ne}
use db_storage.Btree.{
  Source, max_pages_visited, read_u32, seen, chain_error, read_link, read_chain, put, chunks_of,
  first_of, write_links,
}

-- Page numbers of a chain: different ones, that none of the visited is.
unfoldable pub IsFresh : List ℕ → List ℕ → Type 0
unfolding seen
IsFresh visited [] = Unit
IsFresh visited (n ∷ page_nums) =
    (0 < n) × IsU32 n × (seen n visited ≡ false) × IsFresh (n ∷ visited) page_nums

-- A source that shows the dirty pages.
abbrev pub Shows : Source → Pager → Type 0
Shows source q = (n : ℕ) (bytes : List ℕ) → read_dirty_page q n ≡ ok bytes → source n ≡ ok bytes

seen-ne :
    (m n : ℕ) (visited : List ℕ) → seen m visited ≡ false → seen n visited ≡ true → (m == n) ≡ false
seen-ne m n visited new old = elim (Bool-cases (m == n)) [
  | inl same ↦ let clash : seen n visited ≡ false = rw (sym ((==_iff m n).0 same)) new in cc
  | inr other ↦ other
]

seen-cons : (m n : ℕ) (visited : List ℕ) → seen n visited ≡ true → seen n (m ∷ visited) ≡ true
unfolding seen
seen-cons m n visited h = elim (Bool-cases (m == n)) [
  | inl same ↦ rw same refl
  | inr other ↦ rw (other, h) refl
]

put-eq-ok :
    (buf : List ℕ) (offset : ℕ) (bytes : List ℕ) (page_num : ℕ) {changed : List ℕ}
    → put buf offset bytes page_num ≡ ok changed
    → (offset + length bytes ≤ length buf) × (changed ≡ overwrite buf offset bytes)
unfolding put write_slice?
put-eq-ok buf offset bytes page_num h =
    elim (Bool-cases (leb (offset + length bytes) (length buf))) [
      | inl fits ↦ (leb→le _ _ fits, cc)
      | inr long ↦ cc
    ]

-- The page that an iteration writes.
abbrev link : List ℕ → ℕ → List ℕ → List ℕ
link buf next chunk = overwrite (overwrite buf 0 (be_bytes 4 next)) 4 chunk

-- What a successful iteration does.
write_links-step :
    (p : Pager) (n : ℕ) (page_nums : List ℕ) (chunk : List ℕ) (chunks : List (List ℕ)) {q : Pager}
    → write_links p (n ∷ page_nums) (chunk ∷ chunks) ≡ ok q
    → (buf : List ℕ) × (4 + length chunk ≤ length buf)
      × (write_links (with_page p n (link buf (first_of page_nums) chunk)) page_nums chunks ≡ ok q)
unfolding write_links
write_links-step p n page_nums chunk chunks {q} h =
    let word = be_bytes 4 (first_of page_nums) in
    let (buf, read, e1) = >>=-eq-ok (map_err _ (read_dirty_page p n)) _ h in
    let (b1, put1, e2) = >>=-eq-ok (put buf 0 word n) _ e1 in
    let (b2, put2, e3) = >>=-eq-ok (put b1 4 chunk n) _ e2 in
    let (long1, is1) = put-eq-ok buf 0 word n put1 in
    let (long2, is2) = put-eq-ok b1 4 chunk n put2 in
    let size : length b1 ≡ length buf = ap length is1 ∙ length-overwrite buf 0 word long1 in
    let same : b2 ≡ link buf (first_of page_nums) chunk = is2 ∙ ap (λ b. overwrite b 4 chunk) is1 in
    let rest : write_links (with_page p n (link buf (first_of page_nums) chunk)) page_nums chunks
        ≡ ok q =
      subst (λ b. write_links (with_page p n b) page_nums chunks ≡ ok q) same e3 in
    (buf, omega (arith, long2, size), rest)

-- A page that is not of the chain.
write_links-keeps :
    (p : Pager) (visited page_nums : List ℕ) (chunks : List (List ℕ)) {q : Pager} (n : ℕ)
    → IsFresh visited page_nums
    → seen n visited ≡ true
    → write_links p page_nums chunks ≡ ok q
    → read_dirty_page q n ≡ read_dirty_page p n
unfolding IsFresh write_links
write_links-keeps p visited page_nums [] n fresh here h = cc
write_links-keeps p visited [] (chunk ∷ chunks) n fresh here h = cc
write_links-keeps p visited (m ∷ page_nums) (chunk ∷ chunks) n fresh here h =
    let (buf, long, rest) = write_links-step p m page_nums chunk chunks h in
    let other : (m == n) ≡ false = seen-ne m n visited fresh.2 here in
    write_links-keeps (with_page p m (link buf (first_of page_nums) chunk)) (m ∷ visited) page_nums
      chunks n fresh.3 (seen-cons m n visited here) rest
    ∙ read-with_page_ne p m (link buf (first_of page_nums) chunk) n other

read_link-written :
    (source : Source) (n next count : ℕ) (buf chunk : List ℕ)
    → IsU32 next
    → count ≡ length chunk
    → 4 + length chunk ≤ length buf
    → count < 2 ^ 33
    → source n ≡ ok (link buf next chunk)
    → read_link source n count ≡ ok (next, chunk)
unfolding read_link read_u32
read_link-written source n next count buf chunk fits same long small shown =
    let word = be_bytes 4 next in
    let four : length word ≡ 4 = length-be_bytes 4 next in
    let b1 = overwrite buf 0 word in
    let size : length b1 ≡ length buf = length-overwrite buf 0 word (omega (arith, four)) in
    let stop : 4 ≡ 0 + length word = omega (arith, four) in
    let first : slice? (link buf next chunk) 0 4 ≡ some word =
      slice?-overwrite_ne b1 4 chunk 0 4 (omega (arith, size)) (inl (omega arith))
      ∙ ap (slice? b1 0) stop
      ∙ slice?-overwrite_self buf 0 word (omega (arith, four)) in
    let end : sat_add 4 count ≡ 4 + length chunk = omega arith in
    let second : slice? (link buf next chunk) 4 (4 + length chunk) ≡ some chunk =
      slice?-overwrite_self b1 4 chunk (omega (arith, size)) in
    rw (shown, first, from_be-be_bytes 4 next (omega (arith, fits)), end, second) refl

positive-ne : (n : ℕ) → 0 < n → (n == 0) ≡ false
positive-ne n h = ground (arith)

pub first_of-fits :
    (visited page_nums : List ℕ) → IsFresh visited page_nums → IsU32 (first_of page_nums)
unfolding IsFresh
first_of-fits visited [] fresh = omega arith
first_of-fits visited (n ∷ page_nums) fresh = fresh.1

seen_self : (n : ℕ) (visited : List ℕ) → seen n (n ∷ visited) ≡ true
unfolding seen
seen_self n visited = let same : (n == n) ≡ true = (==_iff n n).1 refl in rw same refl

chain_error-none :
    (page_num n : ℕ) (visited : List ℕ) (hops : ℕ)
    → 0 < n
    → seen n visited ≡ false
    → hops ≤ max_pages_visited
    → chain_error page_num n visited hops ≡ none
unfolding chain_error
chain_error-none page_num n visited hops positive new short = rw new (ground arith)

module _ (source : Source) (q : Pager) (shows : Shows source q) (page_num available : ℕ)
    (positive : 0 < available) (fits : available < 2 ^ 32) where
  -- The walk from any page of the chain.
  pub read_chain-write_links :
      (fuel : ℕ) (rest : List ℕ) (p : Pager) (visited page_nums : List ℕ) (hops : ℕ)
      (result : List ℕ)
      → length rest ≤ fuel
      → IsFresh visited page_nums
      → hops + length page_nums ≤ max_pages_visited
      → write_links p page_nums (chunks_of fuel available rest) ≡ ok q
      → read_chain fuel source page_num available
          (length rest)
          (first_of page_nums)
          visited
          hops
          result
        ≡ ok (result ++ rest)
  unfolding read_chain chunks_of IsFresh write_links
  read_chain-write_links zero [] p visited page_nums hops result enough fresh short h =
      ap ok (sym (append-nil result))
  read_chain-write_links zero (b ∷ rest) p visited page_nums hops result enough fresh short h =
      absurd (omega arith)
  read_chain-write_links (suc fuel) [] p visited page_nums hops result enough fresh short h =
      ap ok (sym (append-nil result))
  read_chain-write_links (suc fuel) (b ∷ rest) p visited [] hops result enough fresh short h = cc
  read_chain-write_links (suc fuel) (b ∷ rest) p visited (n ∷ page_nums) hops result enough fresh
        short h =
      let bytes = b ∷ rest in
      let count = min (length bytes) available in
      let chunk = take count bytes in
      let tail = drop count bytes in
      let (buf, long, write_rest) =
        write_links-step p n page_nums chunk (chunks_of fuel available tail) h in
      let size : length chunk ≡ count = length-take count bytes ∙ omega arith in
      let size_tail : length tail ≡ length bytes - count = length-drop count bytes in
      let shown : source n ≡ ok (link buf (first_of page_nums) chunk) = shows n _ (
        write_links-keeps _ (n ∷ visited) page_nums (chunks_of fuel available tail) n fresh.3
          (seen_self n visited) write_rest
        ∙ read-with_page_self p n (link buf (first_of page_nums) chunk)) in
      let read : read_link source n count ≡ ok (first_of page_nums, chunk) =
        read_link-written source n (first_of page_nums) count buf chunk
          (first_of-fits (n ∷ visited) page_nums fresh.3) (sym size) long (omega arith) shown in
      let passes : chain_error page_num n visited (suc hops) ≡ none =
        chain_error-none page_num n visited (suc hops) fresh.0 fresh.2 (omega arith) in
      let induct : read_chain fuel source page_num available (length tail) (first_of page_nums)
            (n ∷ visited) (suc hops) (result ++ chunk)
          ≡ ok ((result ++ chunk) ++ tail) =
        read_chain-write_links fuel tail (with_page p n (link buf (first_of page_nums) chunk))
          (n ∷ visited) page_nums (suc hops) (result ++ chunk) (omega arith) fresh.3 (omega arith)
          write_rest in
      let whole : (result ++ chunk) ++ tail ≡ result ++ bytes =
        append_assoc result chunk tail ∙ ap (λ t. result ++ t) (take-append-drop count bytes) in
      let some_left : (length bytes == 0) ≡ false = positive-ne (length bytes) (omega arith) in
      rw (some_left, passes, read, sym size_tail, induct) (ap ok whole)
