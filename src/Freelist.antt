-- ===== src/Freelist.antt =====
-- src/row/pager/freelist.rs: the trunk pages of the freelist. `read_be_u32` and `write_be_u32` of
-- src/row/pager/mod.rs have the same bodies as `read_u32` and `write_u32` here.
pub mod Trunk
use db_storage.Prelude.{ℕ, zero, suc, ◌+◌, ◌-◌, ◌*◌, ◌/◌, ◌%◌, ◌^◌, ◌≤◌, ◌<◌, List, [], ◌∷◌, length}
use db_storage.Prelude.{
  min, sat_add, sat_mul, slice?, write_slice?, overwrite, drop, replicate, leb,
}
use db_storage.Prelude.{Result, ok, err, ◌>>=◌, ok_or, be_bytes, from_be, if◌then◌else◌}

pub data FreelistError : Type 0 where
  page_too_short : ℕ → ℕ → FreelistError

unfoldable pub read_u32 : List ℕ → ℕ → Result FreelistError ℕ
unfolding from_be
read_u32 buf offset = do
  bytes ← ok_or (slice? buf offset (sat_add offset 4)) (page_too_short offset (length buf))
  ok (from_be bytes)

-- The buffer after the write.
unfoldable pub write_u32 : List ℕ → ℕ → ℕ → Result FreelistError (List ℕ)
unfolding be_bytes
write_u32 buf offset value =
    ok_or (write_slice? buf offset (be_bytes 4 value)) (page_too_short offset (length buf))

unfoldable pub max_leaves_per_trunk : ℕ → ℕ
max_leaves_per_trunk page_size = (page_size - 8) / 4

pub record TrunkPage : Type 0 where
  pub next_trunk : ℕ
  pub leaves : List ℕ

-- The offset of leaf `i`.
abbrev pub leaf_offset : ℕ → ℕ
leaf_offset i = sat_add 8 (sat_mul i 4)

-- The rounds of `for i in 0..leaf_count` that are left.
unfoldable pub read_leaves : ℕ → List ℕ → ℕ → Result FreelistError (List ℕ)
unfolding read_u32
read_leaves zero buf i = ok []
read_leaves (suc left) buf i = do
  leaf ← read_u32 buf (leaf_offset i)
  leaves ← read_leaves left buf (i + 1)
  ok (leaf ∷ leaves)

-- A count that claims more leaves than fit is cut down.
unfoldable pub parse : List ℕ → Result FreelistError TrunkPage
unfolding read_leaves
parse buf = do
  next_trunk ← read_u32 buf 0
  claimed_count ← read_u32 buf 4
  leaves ← read_leaves (min claimed_count ((length buf - 8) / 4)) buf 0
  ok (record { next_trunk = next_trunk; leaves = leaves })

unfoldable pub write_leaves : List ℕ → List ℕ → ℕ → Result FreelistError (List ℕ)
unfolding write_u32
write_leaves [] buf i = ok buf
write_leaves (leaf ∷ leaves) buf i = do
  buf' ← write_u32 buf (leaf_offset i) leaf
  write_leaves leaves buf' (i + 1)

-- `tail.fill(0)` on what lies behind `start`, if there is such a range.
unfoldable pub clear_from : List ℕ → ℕ → List ℕ
unfolding overwrite
clear_from buf start =
    if leb start (length buf) then overwrite buf start (replicate (length buf - start) 0) else buf

-- `self.leaves.len() as u32`
unfoldable pub write : TrunkPage → List ℕ → Result FreelistError (List ℕ)
unfolding write_leaves clear_from
write trunk buf = do
  b1 ← write_u32 buf 0 trunk.next_trunk
  b2 ← write_u32 b1 4 (length trunk.leaves % 2 ^ 32)
  b3 ← write_leaves trunk.leaves b2 0
  ok (clear_from b3 (leaf_offset (length trunk.leaves)))
