-- ===== src/Prelude/Elements.antt =====
-- The elements of a list by their index.
use Prim.Native.Nat.{ℕ, zero, suc, ◌+◌, ◌-◌, ◌≤◌, ◌<◌}
use mathlib.Core.Path.{◌≡◌, refl, ap, sym, ◌∙◌}
use mathlib.Core.Logic.{◌⊎◌, inl, inr}
use mathlib.Core.List.{List, [], ◌∷◌, ◌++◌}
use mathlib.Core.Option.{none, some}
use native.Mathlib.Omega.{arith}
use db_storage.Prelude.Lists.{length, get_elem?, take, drop, length-take}
use db_storage.Prelude.Slices.{overwrite}

module _ {A : Type 0} where
  pub get_elem?-append_lt :
      (xs ys : List A) (i : ℕ) → i < length xs → get_elem? (xs ++ ys) i ≡ get_elem? xs i
  get_elem?-append_lt [] ys i h = absurd (omega arith)
  get_elem?-append_lt (x ∷ xs) ys zero h = refl
  get_elem?-append_lt (x ∷ xs) ys (suc i) h = get_elem?-append_lt xs ys i (omega arith)

  get_elem?-append_ge :
      (xs ys : List A) (i : ℕ)
      → length xs ≤ i
      → get_elem? (xs ++ ys) i ≡ get_elem? ys (i - length xs)
  get_elem?-append_ge [] ys i h = let e : i ≡ i - 0 = omega arith in ap (get_elem? ys) e
  get_elem?-append_ge (x ∷ xs) ys zero h = absurd (omega arith)
  get_elem?-append_ge (x ∷ xs) ys (suc i) h =
      let e : i - length xs ≡ suc i - suc (length xs) = omega arith in
      get_elem?-append_ge xs ys i (omega arith) ∙ ap (get_elem? ys) e

  pub get_elem?-take :
      (n : ℕ) (xs : List A) (i : ℕ) → i < n → get_elem? (take n xs) i ≡ get_elem? xs i
  get_elem?-take zero xs i h = absurd (omega arith)
  get_elem?-take (suc n) [] i h = refl
  get_elem?-take (suc n) (x ∷ xs) zero h = refl
  get_elem?-take (suc n) (x ∷ xs) (suc i) h = get_elem?-take n xs i (omega arith)

  get_elem?-nil : (i : ℕ) → get_elem? {A = A} [] i ≡ none
  get_elem?-nil zero = refl
  get_elem?-nil (suc i) = refl

  pub get_elem?-drop :
      (n : ℕ) (xs : List A) (i : ℕ) → get_elem? (drop n xs) i ≡ get_elem? xs (n + i)
  get_elem?-drop zero xs i = let e : i ≡ 0 + i = omega arith in ap (get_elem? xs) e
  get_elem?-drop (suc n) [] i = get_elem?-nil i ∙ sym (get_elem?-nil (suc n + i))
  get_elem?-drop (suc n) (x ∷ xs) i =
      let e : suc n + i ≡ suc (n + i) = omega arith in rw e (get_elem?-drop n xs i)

  -- An element outside of the range that is written.
  pub get_elem?-overwrite_ne :
      (buf : List A) (i : ℕ) (bs : List A) (j : ℕ)
      → i + length bs ≤ length buf
      → (j < i) ⊎ (i + length bs ≤ j)
      → get_elem? (overwrite buf i bs) j ≡ get_elem? buf j
  unfolding overwrite
  get_elem?-overwrite_ne buf i bs j h (inl before) =
      get_elem?-append_lt (take i buf) (bs ++ drop (i + length bs) buf) j
        (omega (arith, length-take i buf))
      ∙ get_elem?-take i buf j before
  get_elem?-overwrite_ne buf i bs j h (inr behind) =
      let rest = drop (i + length bs) buf in
      let front : length (take i buf) ≡ i = omega (arith, length-take i buf) in
      let sum : i + length bs + (j - length (take i buf) - length bs) ≡ j = omega arith in
      get_elem?-append_ge (take i buf) (bs ++ rest) j (omega arith)
      ∙ get_elem?-append_ge bs rest (j - length (take i buf)) (omega arith)
      ∙ get_elem?-drop (i + length bs) buf (j - length (take i buf) - length bs)
      ∙ ap (get_elem? buf) sum

  -- An element of the range that is written.
  pub get_elem?-overwrite_self :
      (buf : List A) (i : ℕ) (bs : List A) (j : ℕ)
      → i + length bs ≤ length buf
      → i ≤ j
      → j < i + length bs
      → get_elem? (overwrite buf i bs) j ≡ get_elem? bs (j - i)
  unfolding overwrite
  get_elem?-overwrite_self buf i bs j h lo hi =
      let rest = drop (i + length bs) buf in
      let front : length (take i buf) ≡ i = omega (arith, length-take i buf) in
      let same : j - length (take i buf) ≡ j - i = omega arith in
      get_elem?-append_ge (take i buf) (bs ++ rest) j (omega arith)
      ∙ ap (get_elem? (bs ++ rest)) same
      ∙ get_elem?-append_lt bs rest (j - i) (omega arith)

  some_injective : (x y : A) → some x ≡ some y → x ≡ y
  some_injective x y h = cc

  -- A list that has the elements of `ys` in front starts with `ys`.
  pub take-get_elem? :
      (xs ys : List A)
      → length ys ≤ length xs
      → ((j : ℕ) → j < length ys → get_elem? xs j ≡ get_elem? ys j)
      → take (length ys) xs ≡ ys
  take-get_elem? xs [] h same = refl
  take-get_elem? [] (y ∷ ys) h same = absurd (omega arith)
  take-get_elem? (x ∷ xs) (y ∷ ys) h same =
      let first = some_injective x y (same 0 (omega arith)) in
      rw (first, take-get_elem? xs ys (omega arith) (λ j lt. same (suc j) (omega arith))) refl
