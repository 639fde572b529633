-- ===== src/Pager/Allocate/Reuse.antt =====
-- A page that was returned to the freelist is the next one that is allocated.
use db_storage.Prelude.{
  ℕ, ◌+◌, ◌-◌, ◌*◌, ◌^◌, ◌≤◌, ◌<◌, ◌≡◌, refl, ap, sym, ◌∙◌, List, [], ◌∷◌, ◌++◌, arith,
}
use db_storage.Prelude.{
  length, length-append, none, Result, ok, err, ◌>>=◌, ◌==◌, ==_iff, true, false,
}
use db_storage.Prelude.{
  Bool-cases, inl, inr, ◌⊎◌, IsU32, u32_max, sat_add32, All-append, ltb, ltb→lt,
}
use mathlib.Core.Path.{subst}
use db_storage.Freelist.{TrunkPage, parse, write, max_leaves_per_trunk}
use db_storage.Freelist.Trunk.{IsTrunk}
use db_storage.Pager.{Pager}
use db_storage.Pager.Allocate.{
  read_dirty_page, with_page, change_page, set_freelist, pop, take_leaf,
}
use db_storage.Pager.Allocate.{allocate_page, deallocate_page, push_trunk, push_page}
use db_storage.Pager.Allocate.Patch.{read-with_page_self, pop-append, change_page-write}
use db_storage.Pager.Allocate.Patch.{}
use db_storage.Pager.Allocate.Fields.{
  HasFreelist, set-HasFreelist, with_page-HasFreelist, allocate_page-trunk,
}
use db_storage.Pager.Allocate.Fields.{deallocate_page-first, deallocate_page-more}

recount :
    (p : Pager) (page_count trunk_page : ℕ) {m n : ℕ}
    → m ≡ n
    → HasFreelist p page_count trunk_page m
    → HasFreelist p page_count trunk_page n
recount p page_count trunk_page e f = subst (λ k. HasFreelist p page_count trunk_page k) e f

-- `n` is returned without an error, allocated next, and then the freelist is as before.
abbrev pub Reused : Pager → ℕ → ℕ → ℕ → ℕ → Type 0
Reused p n page_count trunk_page free_count =
    (q : Pager) × (r : Pager) × (deallocate_page p n ≡ ok q)
    × (allocate_page q ≡ ok (n, r))
    × HasFreelist r page_count trunk_page free_count

flip : (n : ℕ) → (n == 1) ≡ false → (1 == n) ≡ false
flip n h = ground arith

push_page-full :
    (p : Pager) (n trunk_page : ℕ) (trunk : TrunkPage)
    → ltb (length trunk.leaves) (max_leaves_per_trunk p.page_size) ≡ false
    → push_page p n trunk_page trunk ≡ push_trunk p n trunk_page
unfolding push_page
push_page-full p n trunk_page trunk full = rw (push_page, full) refl

push_page-room :
    (p : Pager) (n trunk_page : ℕ) (trunk : TrunkPage)
    → ltb (length trunk.leaves) (max_leaves_per_trunk p.page_size) ≡ true
    → push_page p n trunk_page trunk ≡ (
        change_page p trunk_page
          (write (record { next_trunk = trunk.next_trunk; leaves = trunk.leaves ++ (n ∷ []) }))
        >>= λ p1. ok (p1, trunk_page))
unfolding push_page
push_page-room p n trunk_page trunk room = rw (push_page, room) refl

-- What fits below `max_leaves_per_trunk` fits in the page.
room-max_leaves_per_trunk :
    (count page_size : ℕ)
    → ltb count (max_leaves_per_trunk page_size) ≡ true
    → 8 + (count + 1) * 4 ≤ page_size
unfolding max_leaves_per_trunk
room-max_leaves_per_trunk count page_size h = let lt = ltb→lt _ _ h in omega arith

>>=-assoc :
    {E A B C : Type 0} (m : Result E A) (g : A → B) (k : B → Result E C)
    → ((m >>= λ a. ok (g a)) >>= k) ≡ (m >>= λ a. k (g a))
>>=-assoc (ok a) g k = refl
>>=-assoc (err e) g k = refl

module _ (p : Pager) (n page_count trunk_page free_count : ℕ)
    (f : HasFreelist p page_count trunk_page free_count) (fits : IsU32 trunk_page)
    (few : free_count < u32_max) where
  same_count : sat_add32 free_count 1 - 1 ≡ free_count
  same_count = omega arith

  -- `n` becomes the first trunk page.
  trunk-Reused :
      (bytes : List ℕ)
      → IsU32 n
      → (n == 0) ≡ false
      → (n == 1) ≡ false
      → (1 == n) ≡ false
      → read_dirty_page p n ≡ ok bytes
      → 8 ≤ length bytes
      → length bytes < 2 ^ 32
      → deallocate_page p n ≡ (
          push_trunk p n trunk_page >>= λ pushed.
          set_freelist pushed.0 pushed.1 (sat_add32 free_count 1))
      → Reused p n page_count trunk_page free_count
  trunk-Reused bytes small nonzero other apart read room short step =
      let trunk : TrunkPage = record { next_trunk = trunk_page; leaves = [] } in
      let (after, wrote, size, parsed) =
        change_page-write p n trunk bytes read (fits, tt) (omega arith) short in
      let p1 = with_page p n after in
      let pushed : push_trunk p n trunk_page ≡ ok (p1, n) = unfold push_trunk in rw wrote refl in
      let f1 = with_page-HasFreelist p n after page_count trunk_page free_count other f in
      let (q, set, fq, keep) =
        set-HasFreelist p1 page_count trunk_page free_count n (sat_add32 free_count 1) f1 small
          (omega arith) in
      let there = keep n apart ∙ read-with_page_self p n after in
      let (r, set2, fr, _) =
        set-HasFreelist q page_count n (sat_add32 free_count 1) trunk_page
          (sat_add32 free_count 1 - 1) fq fits (omega arith) in
      let alloc =
        allocate_page-trunk q page_count n (sat_add32 free_count 1) after trunk fq nonzero there
          parsed in
      let nothing : pop [] ≡ none = unfold pop in refl in
      let taken : take_leaf q n trunk (pop []) ≡ ok (q, n, trunk_page) =
        unfold take_leaf in rw nothing refl in
      (
        q,
        r,
        step ∙ (rw (pushed, set) refl),
        alloc ∙ (rw (taken, set2) refl),
        recount r page_count trunk_page same_count fr,
      )

  -- `n` becomes the last leaf of the first trunk page.
  leaf-Reused :
      (bytes : List ℕ) (trunk : TrunkPage)
      → IsU32 n
      → (trunk_page == 0) ≡ false
      → (trunk_page == 1) ≡ false
      → (1 == trunk_page) ≡ false
      → IsTrunk trunk
      → 8 + (length trunk.leaves + 1) * 4 ≤ length bytes
      → length bytes < 2 ^ 32
      → read_dirty_page p trunk_page ≡ ok bytes
      → deallocate_page p n ≡ (
          change_page p trunk_page
            (write (record { next_trunk = trunk.next_trunk; leaves = trunk.leaves ++ (n ∷ []) }))
          >>= λ p1. set_freelist p1 trunk_page (sat_add32 free_count 1))
      → Reused p n page_count trunk_page free_count
  leaf-Reused bytes trunk small nonzero other apart (next_fits, leaves_fit) room short read step =
      let more : TrunkPage = record {
        next_trunk = trunk.next_trunk;
        leaves = trunk.leaves ++ (n ∷ []);
      } in
      let count = length-append trunk.leaves (n ∷ []) in
      let (after, wrote, size, parsed) =
        change_page-write p trunk_page more bytes read
          (next_fits, All-append IsU32 trunk.leaves (n ∷ []) leaves_fit (small, tt))
          (omega (arith, count)) short in
      let p1 = with_page p trunk_page after in
      let f1 = with_page-HasFreelist p trunk_page after page_count trunk_page free_count other f in
      let (q, set, fq, keep) =
        set-HasFreelist p1 page_count trunk_page free_count trunk_page (sat_add32 free_count 1) f1
          fits (omega arith) in
      let there = keep trunk_page apart ∙ read-with_page_self p trunk_page after in
      let (after2, wrote2, _, _) =
        change_page-write q trunk_page
          (record { next_trunk = trunk.next_trunk; leaves = trunk.leaves }) after there
          (next_fits, leaves_fit) (omega (arith, size)) (omega (arith, size)) in
      let s = with_page q trunk_page after2 in
      let fs =
        with_page-HasFreelist q trunk_page after2 page_count trunk_page (sat_add32 free_count 1)
          other fq in
      let (r, set2, fr, _) =
        set-HasFreelist s page_count trunk_page (sat_add32 free_count 1) trunk_page
          (sat_add32 free_count 1 - 1) fs fits (omega arith) in
      let alloc =
        allocate_page-trunk q page_count trunk_page (sat_add32 free_count 1) after more fq nonzero
          there parsed in
      let taken : take_leaf q trunk_page more (pop more.leaves) ≡ ok (s, n, trunk_page) =
        unfold take_leaf in rw (pop-append trunk.leaves n, wrote2) refl in
      (
        q,
        r,
        step ∙ (rw (wrote, set) refl),
        alloc ∙ (rw (taken, set2) refl),
        recount r page_count trunk_page same_count fr,
      )

  empty-Reused :
      (bytes : List ℕ)
      → IsU32 n
      → (n == 0) ≡ false
      → (n == 1) ≡ false
      → read_dirty_page p n ≡ ok bytes
      → 8 ≤ length bytes
      → length bytes < 2 ^ 32
      → trunk_page ≡ 0
      → Reused p n page_count trunk_page free_count
  empty-Reused bytes small nonzero other read room short empty =
      let none_ : (trunk_page == 0) ≡ true = (==_iff trunk_page 0).1 empty in
      let first : deallocate_page p n ≡ (
          push_trunk p n trunk_page >>= λ pushed.
          set_freelist pushed.0 pushed.1 (sat_add32 free_count 1)) =
        deallocate_page-first p n page_count trunk_page free_count f none_
        ∙ ap
            (λ k. push_trunk p n k >>= λ pushed.
              set_freelist pushed.0 pushed.1 (sat_add32 free_count 1))
            (sym empty) in
      trunk-Reused bytes small nonzero other (flip n other) read room short first

  -- A page other than 0 and 1, with eight bytes or more, is returned without an error,
  -- `allocate_page` gives the same page next, and after that page 1 has the page count, the first
  -- trunk page and the number of free pages of before. That is so on an empty freelist, on one
  -- whose first trunk page has room, and on one whose first trunk page is full; page 1 has the
  -- freelist's fields, the trunk page is another one, is read and parsed and has the size of a
  -- page, and the count of free pages is not the largest `u32`.
  pub allocate_page-deallocate_page :
      (bytes trunk_bytes : List ℕ) (trunk : TrunkPage)
      → IsU32 n
      → (n == 0) ≡ false
      → (n == 1) ≡ false
      → (trunk_page == 1) ≡ false
      → read_dirty_page p n ≡ ok bytes
      → 8 ≤ length bytes
      → length bytes < 2 ^ 32
      → (trunk_page ≡ 0)
        ⊎ ((read_dirty_page p trunk_page ≡ ok trunk_bytes)
            × (parse trunk_bytes ≡ ok trunk)
            × IsTrunk trunk
            × (length trunk_bytes ≡ p.page_size)
            × (p.page_size < 2 ^ 32))
      → Reused p n page_count trunk_page free_count
  allocate_page-deallocate_page bytes trunk_bytes trunk small nonzero other trunk_other read room
        short (inl empty) =
      empty-Reused bytes small nonzero other read room short empty
  allocate_page-deallocate_page bytes trunk_bytes trunk small nonzero other trunk_other read room
        short (inr (trunk_read, parsed, good, size, narrow)) =
      elim (Bool-cases (trunk_page == 0)) [
        | inl none_ ↦
            empty-Reused bytes small nonzero other read room short ((==_iff trunk_page 0).0 none_)
        | inr some_ ↦
            let more =
              deallocate_page-more p n page_count trunk_page free_count trunk_bytes trunk f some_
                trunk_read parsed in
            elim (Bool-cases (ltb (length trunk.leaves) (max_leaves_per_trunk p.page_size))) [
              | inl fit ↦
                  let below = room-max_leaves_per_trunk (length trunk.leaves) p.page_size fit in
                  leaf-Reused trunk_bytes trunk small some_ trunk_other
                    (flip trunk_page trunk_other) good (omega arith) (omega arith) trunk_read
                    (more
                      ∙ ap
                          (λ m.
                            m >>= λ pushed. set_freelist pushed.0 pushed.1 (sat_add32 free_count 1))
                          (push_page-room p n trunk_page trunk fit)
                      ∙ >>=-assoc
                          (change_page p trunk_page (
                            write (record {
                              next_trunk = trunk.next_trunk;
                              leaves = trunk.leaves ++ (n ∷ []);
                            })))
                          (λ p1. (p1, trunk_page))
                          (λ pushed. set_freelist pushed.0 pushed.1 (sat_add32 free_count 1)))
              | inr full ↦ trunk-Reused bytes small nonzero other (flip n other) read room short (
                  more
                  ∙ ap
                      (λ m. m >>= λ pushed. set_freelist pushed.0 pushed.1 (sat_add32 free_count 1))
                      (push_page-full p n trunk_page trunk full))
            ]
      ]
