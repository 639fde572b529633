-- ===== src/Pager/Cache/Entries.antt =====
-- The entries and the heap of the page cache (src/row/pager/mod.rs).
use db_storage.Prelude.{
  ℕ, suc, ◌+◌, ◌≤◌, ◌<◌, ◌≡◌, refl, sym, ◌∙◌, ap, List, [], ◌∷◌, Option, some, none, true, false,
  ◌||◌, ◌&&◌, ltb, ◌==◌, ==_iff, length, arith, ◌⊎◌, inl, inr, Bool-cases, Option-cases, ltb→lt,
  ltb→le,
}
use db_storage.Pager.Cache.{Entry, Candidate, find, put, discard, before, pop_least}
use mathlib.Core.Path.{subst, subst₂}

pub some_inj : {x y : Entry} → some x ≡ some y → x ≡ y
some_inj {x} h = ap (λ o. elim o [ none ↦ x | some v ↦ v ]) h

taken :
    {a b : Candidate} {xs ys : List Candidate}
    → ◌≡◌ {A = Option (Candidate × List Candidate)} (some (a, xs)) (some (b, ys))
    → a ≡ b
taken {a} h = ap (λ o. elim o [ none ↦ a | some v ↦ v.0 ]) h

left :
    {a b : Candidate} {xs ys : List Candidate}
    → ◌≡◌ {A = Option (Candidate × List Candidate)} (some (a, xs)) (some (b, ys))
    → xs ≡ ys
left {xs = xs} h = ap (λ o. elim o [ none ↦ xs | some v ↦ v.1 ]) h

-- A candidate of the heap.
abbrev pub Listed : Candidate → List Candidate → Type 0
Listed c [] = ⊥
Listed c (d ∷ heap) = (c ≡ d) ⊎ Listed c heap

pub eq-page : (m n : ℕ) → (m == n) ≡ true → m ≡ n
eq-page m n h = (==_iff m n).0 h

pub same-page : (n : ℕ) → (n == n) ≡ true
same-page n = (==_iff n n).1 refl

pub find-here :
    (x : Entry) (entries : List Entry) (n : ℕ)
    → (x.page_num == n) ≡ true
    → find (x ∷ entries) n ≡ some x
unfolding find
find-here x entries n h = rw h refl

pub find-there :
    (x : Entry) (entries : List Entry) (n : ℕ)
    → (x.page_num == n) ≡ false
    → find (x ∷ entries) n ≡ find entries n
unfolding find
find-there x entries n h = rw h refl

pub find-page :
    (entries : List Entry) (n : ℕ) (e : Entry) → find entries n ≡ some e → e.page_num ≡ n
unfolding find
find-page [] n e h = absurd cc
find-page (x ∷ entries) n e h = elim (Bool-cases (x.page_num == n)) [
  | inl same ↦
      let found : x ≡ e = some_inj (sym (find-here x entries n same) ∙ h) in
      ap (λ (y : Entry). y.page_num) (sym found) ∙ eq-page _ _ same
  | inr other ↦ find-page entries n e (sym (find-there x entries n other) ∙ h)
]

pub find-put_self :
    (entries : List Entry) (new : Entry) → find (put entries new) new.page_num ≡ some new
unfolding find put
find-put_self [] new = rw (same-page new.page_num) refl
find-put_self (x ∷ entries) new = elim (Bool-cases (x.page_num == new.page_num)) [
  | inl same ↦ rw (same, same-page new.page_num) refl
  | inr other ↦ rw (other, other) (find-put_self entries new)
]

pub find-put_ne :
    (entries : List Entry) (new : Entry) (n : ℕ)
    → (new.page_num == n) ≡ false
    → find (put entries new) n ≡ find entries n
unfolding find put
find-put_ne [] new n h = rw h refl
find-put_ne (x ∷ entries) new n h = elim (Bool-cases (x.page_num == new.page_num)) [
  | inl same ↦ let e : (x.page_num == n) ≡ false = rw (eq-page _ _ same) h in rw (same, h, e) refl
  | inr other ↦ rw (other, find-put_ne entries new n h) refl
]

pub find-discard_self : (entries : List Entry) (n : ℕ) → find (discard entries n) n ≡ none
unfolding find discard
find-discard_self [] n = refl
find-discard_self (x ∷ entries) n = elim (Bool-cases (x.page_num == n)) [
  | inl same ↦ rw same (find-discard_self entries n)
  | inr other ↦ rw (other, other) (find-discard_self entries n)
]

pub find-discard_ne :
    (entries : List Entry) (n k : ℕ)
    → (n == k) ≡ false
    → find (discard entries n) k ≡ find entries k
unfolding find discard
find-discard_ne [] n k h = refl
find-discard_ne (x ∷ entries) n k h = elim (Bool-cases (x.page_num == n)) [
  | inl same ↦
      let e : (x.page_num == k) ≡ false = rw (eq-page _ _ same) h in
      rw (same, e) (find-discard_ne entries n k h)
  | inr other ↦ rw (other, find-discard_ne entries n k h) refl
]

pub length-put :
    (entries : List Entry) (new : Entry) → length (put entries new) ≤ length entries + 1
unfolding put
length-put [] new = omega arith
length-put (x ∷ entries) new = elim (Bool-cases (x.page_num == new.page_num)) [
  | inl same ↦ rw same (omega arith)
  | inr other ↦ rw other (omega (arith, length-put entries new))
]

pub length-put_found :
    (entries : List Entry) (new e : Entry)
    → find entries new.page_num ≡ some e
    → length (put entries new) ≡ length entries
unfolding put find
length-put_found [] new e h = absurd cc
length-put_found (x ∷ entries) new e h = elim (Bool-cases (x.page_num == new.page_num)) [
  | inl same ↦ rw same refl
  | inr other ↦
      rw other (ap suc (length-put_found entries new e (sym (find-there x entries _ other) ∙ h)))
]

pub length-discard : (entries : List Entry) (n : ℕ) → length (discard entries n) ≤ length entries
unfolding discard
length-discard [] n = omega arith
length-discard (x ∷ entries) n = elim (Bool-cases (x.page_num == n)) [
  | inl same ↦ rw same (omega (arith, length-discard entries n))
  | inr other ↦ rw other (omega (arith, length-discard entries n))
]

pub length-discard_found :
    (entries : List Entry) (n : ℕ) (e : Entry)
    → find entries n ≡ some e
    → length (discard entries n) < length entries
unfolding discard find
length-discard_found [] n e h = absurd cc
length-discard_found (x ∷ entries) n e h = elim (Bool-cases (x.page_num == n)) [
  | inl same ↦ rw same (omega (arith, length-discard entries n))
  | inr other ↦
      rw other
        (omega (arith, length-discard_found entries n e (sym (find-there x entries n other) ∙ h)))
]

-- What `pop` takes off the heap, and what it leaves.
pub record Popped (heap : List Candidate) (c : Candidate) (others : List Candidate) : Type 0 where
  pub size : length heap ≡ suc (length others)
  pub first : Listed c heap
  pub kept : (d : Candidate) → Listed d heap → (d ≡ c) ⊎ Listed d others
  pub least : (d : Candidate) → Listed d heap → c.0 ≤ d.0

before-le : (c d : Candidate) → before c d ≡ true → c.0 ≤ d.0
unfolding before
before-le (t, p) (u, q) h = elim (Bool-cases (ltb t u)) [
  | inl lt ↦ let l = ltb→lt _ _ lt in omega arith
  | inr ge ↦ elim (Bool-cases (t == u)) [
    | inl same ↦ let e = eq-page _ _ same in omega arith
    | inr other ↦
        let e : (ltb t u || ((t == u) && ltb p q)) ≡ false = rw (ge, other) refl in absurd cc
  ]
]

before-ge : (c d : Candidate) → before c d ≡ false → d.0 ≤ c.0
unfolding before
before-ge (t, p) (u, q) h = elim (Bool-cases (ltb t u)) [
  | inl lt ↦ let e : (ltb t u || ((t == u) && ltb p q)) ≡ true = rw lt refl in absurd cc
  | inr ge ↦ let l = ltb→le _ _ ge in omega arith
]

-- The three results of `pop` on a heap that is not empty.
pop_least-cases :
    (P : Option (Candidate × List Candidate) → Type 0) (c : Candidate) (heap : List Candidate)
    → (pop_least heap ≡ none → P (some (c, [])))
    → ((d : Candidate) (others : List Candidate)
        → pop_least heap ≡ some (d, others)
        → before d c ≡ true
        → P (some (d, c ∷ others)))
    → ((d : Candidate) (others : List Candidate)
        → pop_least heap ≡ some (d, others)
        → before d c ≡ false
        → P (some (c, heap)))
    → P (pop_least (c ∷ heap))
unfolding pop_least
pop_least-cases P c heap alone lower higher = elim (Option-cases (pop_least heap)) [
  | inl e ↦ rw e (alone e)
  | inr ((d, others), e) ↦ elim (Bool-cases (before d c)) [
    | inl low ↦ rw (e, low) (lower d others e low)
    | inr high ↦ rw (e, high) (higher d others e high)
  ]
]

pub pop_least-none : (heap : List Candidate) → pop_least heap ≡ none → heap ≡ []
pop_least-none [] = λ h. refl
pop_least-none (c ∷ heap) =
    pop_least-cases (λ o. o ≡ none → (c ∷ heap) ≡ []) c heap (λ e h. absurd cc)
      (λ d others e b h. absurd cc) (λ d others e b h. absurd cc)

Popped-alone : (c : Candidate) → Popped (c ∷ []) c []
Popped-alone c = record {
  size = refl;
  first = inl refl;
  kept = λ d l. elim l [ inl e ↦ inl e | inr n ↦ absurd n ];
  least = λ d l. elim l [ inl e ↦ omega (arith, ap (λ (x : Candidate). x.0) e) | inr n ↦ absurd n ];
}

Popped-lower :
    (c d : Candidate) (heap others : List Candidate)
    → Popped heap d others
    → before d c ≡ true
    → Popped (c ∷ heap) d (c ∷ others)
Popped-lower c d heap others p low = record {
  size = ap suc p.size;
  first = inr p.first;
  kept = λ x l. elim l [
    | inl e ↦ inr (inl e)
    | inr m ↦ elim (p.kept x m) [ inl e ↦ inl e | inr o ↦ inr (inr o) ]
  ];
  least = λ x l. elim l [
    | inl e ↦ omega (arith, before-le d c low, ap (λ (y : Candidate). y.0) e)
    | inr m ↦ p.least x m
  ];
}

Popped-higher :
    (c d : Candidate) (heap others : List Candidate)
    → Popped heap d others
    → before d c ≡ false
    → Popped (c ∷ heap) c heap
Popped-higher c d heap others p high = record {
  size = refl;
  first = inl refl;
  kept = λ x l. l;
  least = λ x l. elim l [
    | inl e ↦ omega (arith, ap (λ (y : Candidate). y.0) e)
    | inr m ↦ omega (arith, before-ge d c high, p.least x m)
  ];
}

pub pop_least-Popped :
    (heap : List Candidate) (c : Candidate) (others : List Candidate)
    → pop_least heap ≡ some (c, others)
    → Popped heap c others
unfolding pop_least
pop_least-Popped [] c others = λ h. absurd cc
pop_least-Popped (x ∷ heap) c others =
    pop_least-cases (λ o. o ≡ some (c, others) → Popped (x ∷ heap) c others) x heap
      (λ e h.
        subst₂ (λ d o. Popped (x ∷ heap) d o) (taken h) (left h)
          (subst (λ l. Popped (x ∷ l) x []) (sym (pop_least-none heap e)) (Popped-alone x)))
      (λ d rest e low h.
        subst₂ (λ d o. Popped (x ∷ heap) d o) (taken h) (left h)
          (Popped-lower x d heap rest (pop_least-Popped heap d rest e) low))
      (λ d rest e high h.
        subst₂ (λ d o. Popped (x ∷ heap) d o) (taken h) (left h)
          (Popped-higher x d heap rest (pop_least-Popped heap d rest e) high))
