-- ===== src/Freelist/Trunk.antt =====
-- `parse` reads back what `write` wrote.
use db_storage.Prelude.{ℕ, ◌+◌, ◌-◌, ◌*◌, ◌/◌, ◌%◌, ◌^◌, ◌≤◌, ◌<◌, ◌≡◌, refl, ap, ◌∙◌}
use db_storage.Prelude.{List, [], ◌∷◌, length, arith, min, sat_add, All, IsU32, u64_max}
use db_storage.Prelude.{write_slice?, overwrite, replicate, le→leb}
use db_storage.Prelude.{
  slice?-overwrite_self, slice?-overwrite_ne, length-overwrite, length-replicate,
}
use db_storage.Prelude.{ok, be_bytes, length-be_bytes, from_be-be_bytes}
use db_storage.Prelude.{◌⊎◌, inl}
use db_storage.Freelist.{read_u32, write_u32, TrunkPage, read_leaves, write_leaves, parse, write}
use db_storage.Freelist.{clear_from, leaf_offset}

-- A write in range succeeds.
pub write_u32-ok :
    (buf : List ℕ) (i v : ℕ)
    → i + 4 ≤ length buf
    → write_u32 buf i v ≡ ok (overwrite buf i (be_bytes 4 v))
unfolding write_u32 write_slice?
write_u32-ok buf i v h =
    rw (le→leb (i + length (be_bytes 4 v)) (length buf) (omega (arith, length-be_bytes 4 v))) refl

pub length-written :
    (buf : List ℕ) (i v : ℕ)
    → i + 4 ≤ length buf
    → length (overwrite buf i (be_bytes 4 v)) ≡ length buf
length-written buf i v h =
    length-overwrite buf i (be_bytes 4 v) (omega (arith, length-be_bytes 4 v))

-- The word that was written.
pub read_u32-written_self :
    (buf : List ℕ) (i v : ℕ)
    → i + 4 ≤ length buf
    → length buf ≤ u64_max
    → IsU32 v
    → read_u32 (overwrite buf i (be_bytes 4 v)) i ≡ ok v
unfolding read_u32
read_u32-written_self buf i v h small fits =
    let end : sat_add i 4 ≡ i + length (be_bytes 4 v) = omega (arith, length-be_bytes 4 v) in
    rw
      (
        end,
        slice?-overwrite_self buf i (be_bytes 4 v) (omega (arith, length-be_bytes 4 v)),
        from_be-be_bytes 4 v (omega arith),
      )
      refl

-- A word apart from the range that was written.
pub read_u32-overwrite_ne :
    (buf : List ℕ) (i : ℕ) (bs : List ℕ) (j : ℕ)
    → i + length bs ≤ length buf
    → length buf ≤ u64_max
    → (j + 4 ≤ i) ⊎ ((i + length bs ≤ j) × (j + 4 ≤ length buf))
    → read_u32 (overwrite buf i bs) j ≡ read_u32 buf j
unfolding read_u32
read_u32-overwrite_ne buf i bs j h small apart =
    rw (slice?-overwrite_ne buf i bs j (sat_add j 4) h (omega arith), length-overwrite buf i bs h)
      refl

pub read_u32-written_ne :
    (buf : List ℕ) (i v j : ℕ)
    → i + 4 ≤ length buf
    → length buf ≤ u64_max
    → (j + 4 ≤ i) ⊎ ((i + 4 ≤ j) × (j + 4 ≤ length buf))
    → read_u32 (overwrite buf i (be_bytes 4 v)) j ≡ read_u32 buf j
read_u32-written_ne buf i v j h small apart =
    read_u32-overwrite_ne buf i (be_bytes 4 v) j (omega (arith, length-be_bytes 4 v)) small
      (omega (arith, length-be_bytes 4 v))

-- The buffer with the leaves written from index `i` on.
with_leaves : List ℕ → List ℕ → ℕ → List ℕ
with_leaves [] buf i = buf
with_leaves (leaf ∷ leaves) buf i =
    with_leaves leaves (overwrite buf (8 + i * 4) (be_bytes 4 leaf)) (i + 1)

abbrev Room : List ℕ → List ℕ → ℕ → Type 0
Room leaves buf i = (8 + (i + length leaves) * 4 ≤ length buf) × (length buf ≤ u64_max)

length-with_leaves :
    (leaves buf : List ℕ) (i : ℕ)
    → Room leaves buf i
    → length (with_leaves leaves buf i) ≡ length buf
unfolding with_leaves
length-with_leaves [] buf i h = refl
length-with_leaves (leaf ∷ leaves) buf i h =
    let one = length-written buf (8 + i * 4) leaf (omega arith) in
    length-with_leaves leaves _ (i + 1) (omega (arith, one)) ∙ one

write_leaves-with_leaves :
    (leaves buf : List ℕ) (i : ℕ)
    → Room leaves buf i
    → write_leaves leaves buf i ≡ ok (with_leaves leaves buf i)
unfolding write_leaves with_leaves
write_leaves-with_leaves [] buf i h = refl
write_leaves-with_leaves (leaf ∷ leaves) buf i h =
    let at : leaf_offset i ≡ 8 + i * 4 = omega arith in
    let one = length-written buf (8 + i * 4) leaf (omega arith) in
    rw (at, write_u32-ok buf (8 + i * 4) leaf (omega arith))
      (write_leaves-with_leaves leaves (overwrite buf (8 + i * 4) (be_bytes 4 leaf)) (i + 1)
        (omega (arith, one)))

-- What stands before leaf `i` is kept.
read_u32-with_leaves_ne :
    (leaves buf : List ℕ) (i j : ℕ)
    → Room leaves buf i
    → j + 4 ≤ 8 + i * 4
    → read_u32 (with_leaves leaves buf i) j ≡ read_u32 buf j
unfolding with_leaves
read_u32-with_leaves_ne [] buf i j h lt = refl
read_u32-with_leaves_ne (leaf ∷ leaves) buf i j h lt =
    let one = length-written buf (8 + i * 4) leaf (omega arith) in
    read_u32-with_leaves_ne leaves (overwrite buf (8 + i * 4) (be_bytes 4 leaf)) (i + 1) j
      (omega (arith, one)) (omega arith)
    ∙ read_u32-written_ne buf (8 + i * 4) leaf j (omega arith) h.1 (inl lt)

-- The leaves are read from any buffer that has their words.
HasLeaves : List ℕ → List ℕ → ℕ → Type 0
HasLeaves [] buf i = Unit
HasLeaves (leaf ∷ leaves) buf i =
    (read_u32 buf (8 + i * 4) ≡ ok leaf) × HasLeaves leaves buf (i + 1)

with_leaves-HasLeaves :
    (leaves buf : List ℕ) (i : ℕ)
    → Room leaves buf i
    → All IsU32 leaves
    → HasLeaves leaves (with_leaves leaves buf i) i
unfolding with_leaves HasLeaves
with_leaves-HasLeaves [] buf i h fits = tt
with_leaves-HasLeaves (leaf ∷ leaves) buf i h fits =
    let next = overwrite buf (8 + i * 4) (be_bytes 4 leaf) in
    let one = length-written buf (8 + i * 4) leaf (omega arith) in
    (
      read_u32-with_leaves_ne leaves next (i + 1) (8 + i * 4) (omega (arith, one)) (omega arith)
          ∙ read_u32-written_self buf (8 + i * 4) leaf (omega arith) h.1 fits.0,
      with_leaves-HasLeaves leaves next (i + 1) (omega (arith, one)) fits.1,
    )

read_leaves-HasLeaves :
    (leaves buf : List ℕ) (i : ℕ)
    → Room leaves buf i
    → HasLeaves leaves buf i
    → read_leaves (length leaves) buf i ≡ ok leaves
unfolding read_leaves HasLeaves
read_leaves-HasLeaves [] buf i room h = refl
read_leaves-HasLeaves (leaf ∷ leaves) buf i room h =
    let at : leaf_offset i ≡ 8 + i * 4 = omega arith in
    rw (at, h.0, read_leaves-HasLeaves leaves buf (i + 1) (omega arith) h.1) refl

length-clear_from :
    (buf : List ℕ) (start : ℕ) → start ≤ length buf → length (clear_from buf start) ≡ length buf
unfolding clear_from
length-clear_from buf start h = rw (le→leb start (length buf) h) (
    length-overwrite buf start (replicate (length buf - start) 0)
      (omega (arith, length-replicate {A = ℕ} (length buf - start) 0)))

read_u32-clear_from :
    (buf : List ℕ) (start j : ℕ)
    → start ≤ length buf
    → length buf ≤ u64_max
    → j + 4 ≤ start
    → read_u32 (clear_from buf start) j ≡ read_u32 buf j
unfolding clear_from
read_u32-clear_from buf start j h small before = rw (le→leb start (length buf) h) (
    read_u32-overwrite_ne buf start (replicate (length buf - start) 0) j
      (omega (arith, length-replicate {A = ℕ} (length buf - start) 0)) small (inl before))

-- Clearing what lies behind the leaves keeps them.
clear_from-HasLeaves :
    (leaves buf : List ℕ) (i start : ℕ)
    → start ≤ length buf
    → length buf ≤ u64_max
    → 8 + (i + length leaves) * 4 ≤ start
    → HasLeaves leaves buf i
    → HasLeaves leaves (clear_from buf start) i
unfolding HasLeaves
clear_from-HasLeaves [] buf i start in_buf small before h = tt
clear_from-HasLeaves (leaf ∷ leaves) buf i start in_buf small before h = (
  read_u32-clear_from buf start (8 + i * 4) in_buf small (omega arith) ∙ h.0,
  clear_from-HasLeaves leaves buf (i + 1) start in_buf small (omega arith) h.1,
)

abbrev pub IsTrunk : TrunkPage → Type 0
IsTrunk t = IsU32 t.next_trunk × All IsU32 t.leaves

-- A trunk whose leaves fit in the page is written without an error, into a page of the same length,
-- and `parse` reads it back.
pub parse-write :
    (trunk : TrunkPage) (buf : List ℕ)
    → IsTrunk trunk
    → 8 + length trunk.leaves * 4 ≤ length buf
    → length buf < 2 ^ 32
    → (page : List ℕ) × (write trunk buf ≡ ok page)
      × (length page ≡ length buf)
      × (parse page ≡ ok trunk)
unfolding write parse
parse-write trunk buf valid room small =
    let leaves = trunk.leaves in
    let n = length leaves in
    let b1 = overwrite buf 0 (be_bytes 4 trunk.next_trunk) in
    let b2 = overwrite b1 4 (be_bytes 4 (n % 2 ^ 32)) in
    let b3 = with_leaves leaves b2 0 in
    let start : leaf_offset n ≡ 8 + n * 4 = omega arith in
    let count : n % 2 ^ 32 ≡ n = omega arith in
    let l1 = length-written buf 0 trunk.next_trunk (omega arith) in
    let l2 = length-written b1 4 (n % 2 ^ 32) (omega arith) in
    let l3 = length-with_leaves leaves b2 0 (omega arith) in
    let page = clear_from b3 (8 + n * 4) in
    let lp = length-clear_from b3 (8 + n * 4) (omega arith) in
    let size : length page ≡ length buf = omega arith in
    let next : read_u32 page 0 ≡ ok trunk.next_trunk =
      read_u32-clear_from b3 (8 + n * 4) 0 (omega arith) (omega arith) (omega arith)
      ∙ read_u32-with_leaves_ne leaves b2 0 0 (omega arith) (omega arith)
      ∙ read_u32-written_ne b1 4 (n % 2 ^ 32) 0 (omega arith) (omega arith) (inl (omega arith))
      ∙ read_u32-written_self buf 0 trunk.next_trunk (omega arith) (omega arith) valid.0 in
    let claimed : read_u32 page 4 ≡ ok n =
      read_u32-clear_from b3 (8 + n * 4) 4 (omega arith) (omega arith) (omega arith)
      ∙ read_u32-with_leaves_ne leaves b2 0 4 (omega arith) (omega arith)
      ∙ read_u32-written_self b1 4 (n % 2 ^ 32) (omega arith) (omega arith) (omega arith)
      ∙ ap ok count in
    let has =
      clear_from-HasLeaves leaves b3 0 (8 + n * 4) (omega arith) (omega arith) (omega arith)
        (with_leaves-HasLeaves leaves b2 0 (omega arith) valid.1) in
    let fits : min n ((length page - 8) / 4) ≡ n = omega arith in
    (
      page,
      rw
          (
            write_u32-ok buf 0 trunk.next_trunk (omega arith),
            write_u32-ok b1 4 (n % 2 ^ 32) (omega arith),
            write_leaves-with_leaves leaves b2 0 (omega arith),
            start,
          )
          refl,
      size,
      rw (next, claimed, fits, read_leaves-HasLeaves leaves page 0 (omega arith) has) refl,
    )
