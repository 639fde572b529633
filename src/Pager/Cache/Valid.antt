-- ===== src/Pager/Cache/Valid.antt =====
-- What every operation of the page cache (src/row/pager/mod.rs) keeps.
use db_storage.Prelude.{
  ℕ, suc, ◌≤◌, ◌≡◌, refl, sym, ◌∙◌, ap, List, [], ◌∷◌, some, none, ltb, ◌==◌, length, map, arith,
  inl, inr, Bool-cases, Option-cases, ltb→le,
}
use db_storage.Pager.Cache.{
  Entry, Candidate, PageCache, find, put, discard, evict_one, new_cache, next_tick,
  compact_eviction_heap, heap_limit, touch, get, insert_cached, evict_one_if_full, invalidate,
}
use db_storage.Pager.Cache.Entries.{
  Listed, some_inj, find-here, find-there, eq-page, find-page, find-put_self, find-put_ne,
  find-discard_self, find-discard_ne, length-put, length-put_found, length-discard,
  length-discard_found,
}
use db_storage.Pager.Cache.Evict.{Indexed, evict_one-Eviction}
use mathlib.Core.Path.{subst, ap₂}

some_bytes_inj : {x y : List ℕ} → some x ≡ some y → x ≡ y
some_bytes_inj {x} h = ap (λ o. elim o [ none ↦ x | some v ↦ v ]) h

-- What holds of every entry.
abbrev pub Each : (ℕ → Entry → Type 0) → List Entry → Type 0
Each Q entries = (n : ℕ) (e : Entry) → find entries n ≡ some e → Q n e

Each-put :
    (Q : ℕ → Entry → Type 0) (entries : List Entry) (new : Entry)
    → Each Q entries
    → Q new.page_num new
    → Each Q (put entries new)
Each-put Q entries new each fits n e h = elim (Bool-cases (new.page_num == n)) [
  | inl same ↦
      let here = eq-page _ _ same in
      let e_new : new ≡ e =
        some_inj (sym (find-put_self entries new) ∙ ap (find (put entries new)) here ∙ h) in
      subst (λ x. Q n x) e_new (subst (λ k. Q k new) here fits)
  | inr other ↦ each n e (sym (find-put_ne entries new n other) ∙ h)
]

Each-discard :
    (Q : ℕ → Entry → Type 0) (entries : List Entry) (k : ℕ)
    → Each Q entries
    → Each Q (discard entries k)
Each-discard Q entries k each n e h = elim (Bool-cases (k == n)) [
  | inl same ↦
      let gone =
        subst (λ j. find (discard entries k) j ≡ none) (eq-page k n same)
          (find-discard_self entries k) in
      absurd cc
  | inr other ↦ each n e (sym (find-discard_ne entries k n other) ∙ h)
]

-- Rebuilt from the entries, the heap has a candidate for each.
Listed-compact :
    (entries : List Entry) (n : ℕ) (e : Entry)
    → find entries n ≡ some e
    → Listed (e.tick, n) (map (λ (x : Entry). (x.tick, x.page_num)) entries)
unfolding find
Listed-compact [] n e h = absurd cc
Listed-compact (x ∷ entries) n e h = elim (Bool-cases (x.page_num == n)) [
  | inl same ↦
      let e_x : x ≡ e = some_inj (sym (find-here x entries n same) ∙ h) in
      let tick_eq : e.tick ≡ x.tick = ap (λ (y : Entry). y.tick) (sym e_x) in
      let page_eq : n ≡ x.page_num = sym (eq-page _ _ same) in
      inl (ap₂ (λ (t p : ℕ). (t, p)) tick_eq page_eq)
  | inr other ↦ inr (Listed-compact entries n e (sym (find-there x entries n other) ∙ h))
]

module _ (P : ℕ → List ℕ → Type 0) where
  -- At most `capacity` entries, each with a candidate in the heap, and the bytes of each satisfy `P`
  -- for its page number.
  pub record Valid (c : PageCache) : Type 0 where
    pub indexed : Indexed c
    pub bounded : length c.entries ≤ c.capacity
    pub agrees : Each (λ n e. P n e.bytes) c.entries

  pub new_cache-Valid : (capacity : ℕ) → Valid (new_cache capacity)
  unfolding new_cache find
  new_cache-Valid capacity = record {
    indexed = λ n e h. absurd cc;
    bounded = omega arith;
    agrees = λ n e h. absurd cc;
  }

  pub invalidate-Valid : (c : PageCache) (n : ℕ) → Valid c → Valid (invalidate c n)
  unfolding invalidate
  invalidate-Valid c n valid = record {
    indexed = Each-discard (λ k e. Listed (e.tick, k) c.eviction_heap) c.entries n valid.indexed;
    bounded = omega (arith, length-discard c.entries n, valid.bounded);
    agrees = Each-discard (λ k e. P k e.bytes) c.entries n valid.agrees;
  }

  Valid-empty : (c : PageCache) → c.entries ≡ [] → Valid c
  unfolding find
  Valid-empty c empty =
      let nothing = λ (n : ℕ) (e : Entry) (h : find c.entries n ≡ some e).
        subst (λ l. find l n ≡ some e) empty h in
      record {
        indexed = λ n e h. let missing = nothing n e h in absurd cc;
        bounded = omega (arith, ap length empty);
        agrees = λ n e h. let missing = nothing n e h in absurd cc;
      }

  -- An eviction leaves a valid cache, with an entry less where there was one.
  evict_one-Valid :
      (c : PageCache)
      → Indexed c
      → Each (λ n e. P n e.bytes) c.entries
      → length c.entries ≤ suc c.capacity
      → Valid (evict_one c).0
  evict_one-Valid c indexed agrees room = elim (evict_one-Eviction c indexed) [
    | inl (empty, out, empty_after, capacity) ↦ Valid-empty (evict_one c).0 empty_after
    | inr (e, out, evicted) ↦ record {
      indexed = evicted.indexed;
      bounded =
          let smaller = length-discard_found c.entries e.page_num e evicted.found in
          let left = ap length evicted.gone in omega (arith, evicted.capacity_eq);
      agrees =
          subst (λ l. Each (λ k x. P k x.bytes) l) (sym evicted.gone)
            (Each-discard (λ k x. P k x.bytes) c.entries e.page_num agrees);
    }
  ]

  -- An entry put in with the tick of its candidate.
  Indexed-put :
      (entries : List Entry) (heap : List Candidate) (new : Entry)
      → Each (λ n e. Listed (e.tick, n) heap) entries
      → Each (λ n e. Listed (e.tick, n) ((new.tick, new.page_num) ∷ heap)) (put entries new)
  Indexed-put entries heap new indexed =
      Each-put (λ n e. Listed (e.tick, n) ((new.tick, new.page_num) ∷ heap)) entries new
        (λ n e h. inr (indexed n e h)) (inl refl)

  touch-Valid :
      (c : PageCache) (e : Entry)
      → Valid c
      → find c.entries e.page_num ≡ some e
      → P e.page_num e.bytes
      → Valid (touch c e)
  unfolding touch compact_eviction_heap
  touch-Valid c e valid found fits =
      let new = record e { tick = c.tick } in
      let bounded : length (put c.entries new) ≤ c.capacity =
        omega (arith, length-put_found c.entries new e found, valid.bounded) in
      let agrees = Each-put (λ k x. P k x.bytes) c.entries new valid.agrees fits in
      elim (Bool-cases (ltb (heap_limit c.capacity) (suc (length c.eviction_heap)))) [
        | inl long ↦
            rw (touch, long)
              (record {
                indexed = Listed-compact (put c.entries new);
                bounded = bounded;
                agrees = agrees;
              })
        | inr short ↦
            rw (touch, short)
              (record {
                indexed = Indexed-put c.entries c.eviction_heap new valid.indexed;
                bounded = bounded;
                agrees = agrees;
              })
      ]

  ticked-Valid : (c : PageCache) → Valid c → Valid (next_tick c)
  ticked-Valid c valid = record {
    indexed = valid.indexed;
    bounded = valid.bounded;
    agrees = valid.agrees;
  }

  -- A hit returns bytes that satisfy `P`; hit or miss, the cache stays valid.
  pub get-Valid :
      (c : PageCache) (n : ℕ)
      → Valid c
      → Valid (get c n).0 × ((bytes : List ℕ) → (get c n).1 ≡ some bytes → P n bytes)
  unfolding get
  get-Valid c n valid = elim (Option-cases (find c.entries n)) [
    | inl missing ↦ rw (get, missing) (ticked-Valid c valid, (λ bytes h. absurd cc))
    | inr (e, found) ↦
        let here = find-page c.entries n e found in
        let fits = valid.agrees n e found in
        rw (get, found)
          (
            touch-Valid (next_tick c) e (ticked-Valid c valid)
                (subst (λ k. find c.entries k ≡ some e) (sym here) found)
                (subst (λ k. P k e.bytes) (sym here) fits),
            (λ bytes h. subst (P n) (some_bytes_inj h) fits),
          )
  ]

  pub insert_cached-Valid :
      (c : PageCache) (n : ℕ) (bytes : List ℕ)
      → Valid c
      → P n bytes
      → Valid (insert_cached c n bytes)
  unfolding insert_cached
  insert_cached-Valid c n bytes valid fits =
      let ticked = next_tick c in
      let new : Entry = record { page_num = n; bytes = bytes; tick = ticked.tick } in
      let indexed = Indexed-put c.entries c.eviction_heap new valid.indexed in
      let agrees = Each-put (λ k x. P k x.bytes) c.entries new valid.agrees fits in
      let room = length-put c.entries new in
      let inserted : PageCache = record ticked {
        entries = put c.entries new;
        eviction_heap = (ticked.tick, n) ∷ c.eviction_heap;
      } in
      elim (Bool-cases (ltb c.capacity (length (put c.entries new)))) [
        | inl full ↦
            rw (insert_cached, full)
              (evict_one-Valid inserted indexed agrees (omega (arith, valid.bounded)))
        | inr fine ↦
            rw (insert_cached, fine)
              (record { indexed = indexed; bounded = ltb→le _ _ fine; agrees = agrees })
      ]

  pub evict_one_if_full-Valid : (c : PageCache) → Valid c → Valid (evict_one_if_full c).0
  unfolding evict_one_if_full
  evict_one_if_full-Valid c valid = elim (Bool-cases (ltb (length c.entries) c.capacity)) [
    | inl room ↦ rw (evict_one_if_full, room) valid
    | inr full ↦
        rw (evict_one_if_full, full)
          (evict_one-Valid c valid.indexed valid.agrees (omega (arith, valid.bounded)))
  ]
