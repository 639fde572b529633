-- ===== src/Prelude/Slices.antt =====
-- Ranges of a byte buffer: `buf.get(i..j)`, `buf.get(i..)`, `buf.get_mut(i..j)` with
-- `copy_from_slice`.
use Prim.Native.Nat.{ℕ, ◌+◌, ◌-◌, ◌≤◌}
use mathlib.Core.Path.{◌≡◌, refl, ap, sym, ◌∙◌}
use mathlib.Core.Bool.{◌&&◌}
use mathlib.Core.Logic.{◌⊎◌, inl, inr}
use mathlib.Core.List.{List, ◌++◌, append_assoc}
use mathlib.Core.Option.{Option, none, some}
use native.Mathlib.Omega.{arith}
use db_storage.Prelude.Tests.{leb, if◌then◌else◌}
use db_storage.Prelude.Lists.{length, take, drop, length-append, length-take, length-drop}
use db_storage.Prelude.Lists.{take-append, drop-append, take-append_le, drop-append_le}
use db_storage.Prelude.Lists.{drop-append_ge, drop-drop, take-drop-take}

module _ {A : Type 0} where
  -- `buf.get(i..j)`
  unfoldable pub slice? : List A → ℕ → ℕ → Option (List A)
  slice? buf i j = if leb i j && leb j (length buf) then some (take (j - i) (drop i buf)) else none

  -- `buf.get(i..)`
  unfoldable pub slice_from? : List A → ℕ → Option (List A)
  slice_from? buf i = if leb i (length buf) then some (drop i buf) else none

  -- The buffer after `buf[i..i + len(bs)]` was overwritten with `bs`.
  unfoldable pub overwrite : List A → ℕ → List A → List A
  overwrite buf i bs = take i buf ++ (bs ++ drop (i + length bs) buf)

  -- `buf.get_mut(i..i + len(bs))` and `copy_from_slice(bs)`
  unfoldable pub write_slice? : List A → ℕ → List A → Option (List A)
  write_slice? buf i bs =
      if leb (i + length bs) (length buf) then some (overwrite buf i bs) else none

module _ {A : Type 0} where
  pub slice?-eq-some :
      (buf : List A) (i j : ℕ)
      → i ≤ j
      → j ≤ length buf
      → slice? buf i j ≡ some (take (j - i) (drop i buf))
  unfolding slice?
  slice?-eq-some buf i j h k = ground arith

  -- The middle of three parts.
  pub slice?-append :
      (xs ys zs : List A) (i j : ℕ)
      → i ≡ length xs
      → j ≡ length xs + length ys
      → slice? (xs ++ (ys ++ zs)) i j ≡ some ys
  slice?-append xs ys zs i j hi hj =
      let size : length (xs ++ (ys ++ zs)) ≡ length xs + (length ys + length zs) =
        rw (length-append xs (ys ++ zs), length-append ys zs) in
      let width : j - i ≡ length ys = omega arith in
      slice?-eq-some _ i j (omega arith) (omega arith)
      ∙ ap some (rw (width, hi, drop-append xs (ys ++ zs)) (take-append ys zs))

  pub slice_from?-append :
      (xs ys : List A) (i : ℕ) → i ≡ length xs → slice_from? (xs ++ ys) i ≡ some ys
  unfolding slice_from?
  slice_from?-append xs ys i hi =
      let e : drop i (xs ++ ys) ≡ ys = rw hi (drop-append xs ys) in
      ground (arith, length-append xs ys)

  pub length-overwrite :
      (buf : List A) (i : ℕ) (bs : List A)
      → i + length bs ≤ length buf
      → length (overwrite buf i bs) ≡ length buf
  unfolding overwrite
  length-overwrite buf i bs h = omega (
    arith,
    length-append (take i buf) (bs ++ drop (i + length bs) buf),
    length-append bs (drop (i + length bs) buf),
    length-take i buf,
    length-drop (i + length bs) buf,
  )

  pub slice?-overwrite_self :
      (buf : List A) (i : ℕ) (bs : List A)
      → i + length bs ≤ length buf
      → slice? (overwrite buf i bs) i (i + length bs) ≡ some bs
  unfolding overwrite
  slice?-overwrite_self buf i bs h =
      slice?-append (take i buf) bs (drop (i + length bs) buf) i (i + length bs)
        (omega (arith, length-take i buf)) (omega (arith, length-take i buf))

  -- A range that ends before the write, or starts behind it.
  pub take-drop-overwrite :
      (buf : List A) (i n m : ℕ) (bs : List A)
      → i + length bs ≤ length buf
      → (m + n ≤ i) ⊎ (i + length bs ≤ m)
      → take n (drop m (overwrite buf i bs)) ≡ take n (drop m buf)
  unfolding overwrite
  take-drop-overwrite buf i n m bs h (inl before) =
      let rest = bs ++ drop (i + length bs) buf in
      ap (take n) (drop-append_le m (take i buf) rest (omega (arith, length-take i buf)))
      ∙ take-append_le n (drop m (take i buf)) rest
          (omega (arith, length-take i buf, length-drop m (take i buf)))
      ∙ take-drop-take n m i buf before
  take-drop-overwrite buf i n m bs h (inr behind) =
      let rest = drop (i + length bs) buf in
      let front : length (take i buf) ≡ i = omega (arith, length-take i buf) in
      let step : m - length (take i buf) - length bs ≡ m - (i + length bs) = omega arith in
      let sum : i + length bs + (m - (i + length bs)) ≡ m = omega arith in
      ap (take n) (
        drop-append_ge m (take i buf) (bs ++ rest) (omega arith)
        ∙ drop-append_ge (m - length (take i buf)) bs rest (omega arith)
        ∙ ap (λ k. drop k rest) step
        ∙ drop-drop (m - (i + length bs)) (i + length bs) buf
        ∙ ap (λ k. drop k buf) sum)

  pub slice?-overwrite_ne :
      (buf : List A) (i : ℕ) (bs : List A) (j k : ℕ)
      → i + length bs ≤ length buf
      → (k ≤ i) ⊎ (i + length bs ≤ j)
      → slice? (overwrite buf i bs) j k ≡ slice? buf j k
  unfolding slice?
  slice?-overwrite_ne buf i bs j k h apart = rw (length-overwrite buf i bs h) split
    where
      same : j ≤ k → take (k - j) (drop j (overwrite buf i bs)) ≡ take (k - j) (drop j buf)
      same le = take-drop-overwrite buf i (k - j) j bs h (omega arith)

      split :
          (if leb j k && leb k (length buf)
            then some (take (k - j) (drop j (overwrite buf i bs)))
            else none)
          ≡ slice? buf j k
      split = ground (arith, same)

module _ {A : Type 0} where
  -- A range in the first of two parts.
  pub slice?-append_le :
      (xs ys : List A) (i j : ℕ) → i ≤ j → j ≤ length xs → slice? (xs ++ ys) i j ≡ slice? xs i j
  slice?-append_le xs ys i j h k =
      slice?-eq-some (xs ++ ys) i j h (omega (arith, length-append xs ys))
      ∙ ap some (
          ap (take (j - i)) (drop-append_le i xs ys (omega arith))
          ∙ take-append_le (j - i) (drop i xs) ys (omega (arith, length-drop i xs)))
      ∙ sym (slice?-eq-some xs i j h k)

  pub overwrite-append :
      (xs ys : List A) (i : ℕ) (bs : List A)
      → i + length bs ≤ length xs
      → overwrite (xs ++ ys) i bs ≡ overwrite xs i bs ++ ys
  unfolding overwrite
  overwrite-append xs ys i bs h =
      rw
        (
          take-append_le i xs ys (omega arith),
          drop-append_le (i + length bs) xs ys h,
          append_assoc (take i xs) (bs ++ drop (i + length bs) xs) ys,
          append_assoc bs (drop (i + length bs) xs) ys,
        )
        refl
