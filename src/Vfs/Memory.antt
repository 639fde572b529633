-- ===== src/Vfs/Memory.antt =====
-- src/row/vfs/memory.rs: a file of `MemoryVfs` is its bytes. The mutex around them is never
-- poisoned here: one thread uses the file.
use db_storage.Prelude.{ℕ, ◌+◌, ◌-◌, ◌≤◌, ◌<◌, ◌≡◌, refl, sym, List, [], ◌++◌}
use db_storage.Prelude.{
  length, length-append, take, drop, replicate, min, sat_add, leb, ltb, arith, u64_max,
}
use db_storage.Prelude.{overwrite, length-replicate, length-take, if◌then◌else◌, le→ltb}
use db_storage.Prelude.{
  lt→ltb, ltb→lt, ltb→le, Bool-cases, inl, inr, false, drop_all, append-nil, append_assoc,
  drop-drop, take-append, drop-append,
}

-- The bytes that `read_at` copies into a buffer of `len` bytes.
unfoldable pub read_at : List ℕ → ℕ → ℕ → List ℕ
read_at file len offset =
    if leb (length file) offset
    then []
    else take (min len (length (drop offset file))) (drop offset file)

-- `Vec::resize` with zeros.
unfoldable pub resize : List ℕ → ℕ → List ℕ
resize file len =
    if leb len (length file) then take len file else file ++ replicate (len - length file) 0

unfoldable pub write_at : List ℕ → List ℕ → ℕ → List ℕ
unfolding resize overwrite
write_at file buf offset =
    let end = sat_add offset (length buf) in
    overwrite (if ltb (length file) end then resize file end else file) offset buf

unfoldable pub truncate : List ℕ → ℕ → List ℕ
unfolding resize
truncate file len = resize file len

pub length-resize : (file : List ℕ) (len : ℕ) → length (resize file len) ≡ len
unfolding resize
length-resize file len = ground (
  arith,
  length-take len file,
  length-append file (replicate (len - length file) 0),
  length-replicate {A = ℕ} (len - length file) 0,
)

-- A write inside of the file.
pub write_at-inside :
    (file buf : List ℕ) (offset : ℕ)
    → offset + length buf ≤ length file
    → write_at file buf offset ≡ overwrite file offset buf
unfolding write_at
write_at-inside file buf offset h =
    rw (le→ltb (length file) (sat_add offset (length buf)) (omega arith)) refl

-- A write behind the end grows the file first.
pub write_at-outside :
    (file buf : List ℕ) (offset : ℕ)
    → length file < offset + length buf
    → offset + length buf ≤ u64_max
    → write_at file buf offset ≡ overwrite (resize file (offset + length buf)) offset buf
unfolding write_at
write_at-outside file buf offset h small =
    let end : sat_add offset (length buf) ≡ offset + length buf = omega arith in
    rw (end, lt→ltb (length file) (offset + length buf) h) refl

le→leb_false : (a b : ℕ) → b < a → leb a b ≡ false
le→leb_false a b h = ground arith

-- A write from the end of `front` on replaces what stands there.
pub write_at-append :
    (front stale buf : List ℕ) (offset : ℕ)
    → offset ≡ length front
    → length front + length buf ≤ u64_max
    → write_at (front ++ stale) buf offset ≡ (front ++ buf) ++ drop (length buf) stale
unfolding write_at resize overwrite
write_at-append front stale buf offset at small =
    let file = front ++ stale in
    let size = length-append front stale in
    let end : sat_add offset (length buf) ≡ length front + length buf = omega arith in
    let zeros : List ℕ = replicate (length front + length buf - length file) 0 in
    let size_zeros = length-replicate {A = ℕ} (length front + length buf - length file) 0 in
    elim (Bool-cases (ltb (length file) (length front + length buf))) [
      | inl grows ↦
          let longer = ltb→lt _ _ grows in
          let all = length-append file zeros in
          rw
            (
              end,
              grows,
              le→leb_false (length front + length buf) (length file) longer,
              append_assoc front stale zeros,
              at,
              take-append front (stale ++ zeros),
              sym (append_assoc front stale zeros),
              drop_all (length front + length buf) (file ++ zeros) (omega arith),
              drop_all (length buf) stale (omega arith),
              append-nil buf,
              append-nil (front ++ buf),
            )
            refl
      | inr same ↦
          let shorter = ltb→le _ _ same in
          rw
            (
              end,
              same,
              at,
              take-append front stale,
              sym (drop-drop (length buf) (length front) (front ++ stale)),
              drop-append front stale,
              append_assoc front buf (drop (length buf) stale),
            )
            refl
    ]
