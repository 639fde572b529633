-- ===== src/Pager/Cache/Evict.antt =====
-- `evict_one` of the page cache (src/row/pager/mod.rs): the entry that it takes out.
use db_storage.Prelude.{
  ℕ, zero, suc, ◌≤◌, ◌≡◌, refl, sym, ◌∙◌, ap, List, [], ◌∷◌, Option, some, none, true, false, ◌==◌,
  ==_iff, length, arith, ◌⊎◌, inl, inr, Bool-cases, Option-cases,
}
use db_storage.Pager.Cache.{
  Entry, Candidate, PageCache, find, discard, pop_least, evict_from, evict_one,
}
use db_storage.Pager.Cache.Entries.{
  Listed, some_inj, same-page, eq-page, find-page, find-discard_self, find-discard_ne, Popped,
  pop_least-none, pop_least-Popped,
}
use mathlib.Core.Path.{subst}

-- Every entry has a candidate with its tick.
abbrev pub Indexed : PageCache → Type 0
Indexed c = (n : ℕ) (e : Entry) → find c.entries n ≡ some e → Listed (e.tick, n) c.eviction_heap

-- What `evict_one` does to a cache with entries.
pub record Evicted (c after : PageCache) (e : Entry) : Type 0 where
  pub found : find c.entries e.page_num ≡ some e
  pub gone : after.entries ≡ discard c.entries e.page_num
  pub capacity_eq : after.capacity ≡ c.capacity
  pub tick_eq : after.tick ≡ c.tick
  pub indexed : Indexed after
  pub oldest : (n : ℕ) (x : Entry) → find c.entries n ≡ some x → e.tick ≤ x.tick

-- The result of `evict_one`: there was no entry, or the oldest is out.
abbrev pub Eviction : PageCache → PageCache × Option Entry → Type 0
Eviction c r =
    ((c.entries ≡ []) × (r.1 ≡ none) × (r.0.entries ≡ []) × (r.0.capacity ≡ c.capacity))
    ⊎ ((e : Entry) × (r.1 ≡ some e) × Evicted c r.0 e)

find-first : (x : Entry) (entries : List Entry) → find (x ∷ entries) x.page_num ≡ some x
unfolding find
find-first x entries = rw (same-page x.page_num) refl

-- No candidates, no entries.
Indexed-empty : (c : PageCache) → Indexed c → c.eviction_heap ≡ [] → c.entries ≡ []
Indexed-empty c indexed empty = go c.entries refl
  where
    go : (entries : List Entry) → c.entries ≡ entries → c.entries ≡ []
    go [] e = e
    go (x ∷ entries) e = absurd (
        subst (Listed (x.tick, x.page_num)) empty
          (indexed x.page_num x (ap (λ l. find l x.page_num) e ∙ find-first x entries)))

abbrev with_heap : PageCache → List Candidate → PageCache
with_heap c heap = record c { eviction_heap = heap }

-- A candidate that no entry stands for can go.
Indexed-stale :
    (c : PageCache) (candidate : Candidate) (heap : List Candidate)
    → Indexed c
    → Popped c.eviction_heap candidate heap
    → ((e : Entry) → find c.entries candidate.1 ≡ some e → (e.tick == candidate.0) ≡ false)
    → Indexed (with_heap c heap)
Indexed-stale c candidate heap indexed popped stale n e found =
    elim (popped.kept (e.tick, n) (indexed n e found)) [
      | inr l ↦ l
      | inl same ↦
          let at_page = ap (λ (x : Candidate). x.1) same in
          let at_tick = ap (λ (x : Candidate). x.0) same in
          let other = stale e (ap (find c.entries) (sym at_page) ∙ found) in
          let equal : (e.tick == candidate.0) ≡ true = (==_iff _ _).1 at_tick in absurd cc
    ]

-- The same entries, so the same eviction.
Eviction-stale :
    (c : PageCache) (heap : List Candidate) (r : PageCache × Option Entry)
    → Eviction (with_heap c heap) r
    → Eviction c r
Eviction-stale c heap r h = elim h [
  | inl empty ↦ inl empty
  | inr (e, out, evicted) ↦ inr (
    e,
    out,
    record {
      found = evicted.found;
      gone = evicted.gone;
      capacity_eq = evicted.capacity_eq;
      tick_eq = evicted.tick_eq;
      indexed = evicted.indexed;
      oldest = evicted.oldest;
    },
  )
]

pub discarded-found :
    (entries : List Entry) (n k : ℕ) (e : Entry)
    → find (discard entries n) k ≡ some e
    → (find entries k ≡ some e) × ((n == k) ≡ false)
discarded-found entries n k e h = elim (Bool-cases (n == k)) [
  | inl same ↦
      let none_left =
        subst (λ j. find (discard entries n) j ≡ none) (eq-page n k same)
          (find-discard_self entries n) in
      absurd cc
  | inr other ↦ (sym (find-discard_ne entries n k other) ∙ h, other)
]

-- The candidate of an entry: the entry is the oldest.
Eviction-current :
    (c : PageCache) (candidate : Candidate) (heap : List Candidate) (e : Entry)
    → Indexed c
    → Popped c.eviction_heap candidate heap
    → find c.entries candidate.1 ≡ some e
    → (e.tick == candidate.0) ≡ true
    → Eviction c (record (with_heap c heap) { entries = discard c.entries candidate.1 }, some e)
Eviction-current c candidate heap e indexed popped found current =
    let at_page = find-page c.entries candidate.1 e found in
    let tick_eq = eq-page e.tick candidate.0 current in
    inr (
      e,
      refl,
      record {
        found = ap (find c.entries) at_page ∙ found;
        gone = ap (discard c.entries) (sym at_page);
        capacity_eq = refl;
        tick_eq = refl;
        indexed = λ n x h.
            let (before, apart) = discarded-found c.entries candidate.1 n x h in
            elim (popped.kept (x.tick, n) (indexed n x before)) [
              | inr l ↦ l
              | inl same ↦
                  let here : (candidate.1 == n) ≡ true =
                    (==_iff _ _).1 (sym (ap (λ (y : Candidate). y.1) same)) in
                  absurd cc
            ];
        oldest = λ n x h. omega (arith, tick_eq, popped.least (x.tick, n) (indexed n x h));
      },
    )

-- The three ways of a round.
evict_from-cases :
    (P : PageCache × Option Entry → Type 0) (fuel : ℕ) (c : PageCache)
    → (pop_least c.eviction_heap ≡ none → P (c, none))
    → ((candidate : Candidate) (heap : List Candidate) (e : Entry)
        → pop_least c.eviction_heap ≡ some (candidate, heap)
        → find c.entries candidate.1 ≡ some e
        → (e.tick == candidate.0) ≡ true
        → P (record (with_heap c heap) { entries = discard c.entries candidate.1 }, some e))
    → ((candidate : Candidate) (heap : List Candidate)
        → pop_least c.eviction_heap ≡ some (candidate, heap)
        → ((e : Entry) → find c.entries candidate.1 ≡ some e → (e.tick == candidate.0) ≡ false)
        → P (evict_from fuel (with_heap c heap)))
    → P (evict_from (suc fuel) c)
unfolding evict_from
evict_from-cases P fuel c empty current stale = elim (Option-cases (pop_least c.eviction_heap)) [
  | inl e ↦ rw (evict_from, e) (empty e)
  | inr ((candidate, heap), e) ↦ elim (Option-cases (find c.entries candidate.1)) [
    | inl missing ↦ rw (evict_from, e, missing) (stale candidate heap e (λ x found. absurd cc))
    | inr (x, found) ↦ elim (Bool-cases (x.tick == candidate.0)) [
      | inl same ↦ rw (evict_from, e, found, same) (current candidate heap x e found same)
      | inr other ↦
          rw (evict_from, e, found, other)
            (stale candidate heap e (λ y f.
              subst (λ (z : Entry). (z.tick == candidate.0) ≡ false) (some_inj (sym found ∙ f))
                other))
    ]
  ]
]

no_heap : {A : Type 0} (heap : List A) → length heap ≤ 0 → heap ≡ []
no_heap [] h = refl
no_heap (x ∷ heap) h = absurd (omega arith)

evict_from-Eviction :
    (fuel : ℕ) (c : PageCache)
    → length c.eviction_heap ≤ fuel
    → Indexed c
    → Eviction c (evict_from fuel c)
unfolding evict_from
evict_from-Eviction zero c h indexed =
    let empty = Indexed-empty c indexed (no_heap c.eviction_heap h) in
    inl (empty, refl, empty, refl)
evict_from-Eviction (suc fuel) c h indexed =
    evict_from-cases (Eviction c) fuel c
      (λ e.
        let empty = Indexed-empty c indexed (pop_least-none c.eviction_heap e) in
        inl (empty, refl, empty, refl))
      (λ candidate heap x e found same.
        Eviction-current c candidate heap x indexed
          (pop_least-Popped c.eviction_heap candidate heap e) found same)
      (λ candidate heap e stale.
        let popped = pop_least-Popped c.eviction_heap candidate heap e in
        Eviction-stale c heap (evict_from fuel (with_heap c heap)) (
          evict_from-Eviction fuel (with_heap c heap) (omega (arith, popped.size))
            (Indexed-stale c candidate heap indexed popped stale)))

-- Where every entry has a candidate with its tick, `evict_one` takes out the entry with the
-- smallest tick wherever the cache has entries, and nothing else; every entry that stays has a
-- candidate.
pub evict_one-Eviction : (c : PageCache) → Indexed c → Eviction c (evict_one c)
unfolding evict_one
evict_one-Eviction c indexed = evict_from-Eviction (length c.eviction_heap) c (omega arith) indexed
