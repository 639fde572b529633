-- ===== src/Vfs/Lock/Level.antt =====
-- The level that `set_level` ends at.
use db_storage.Prelude.{
  ℕ, zero, suc, ◌+◌, ◌-◌, ◌≤◌, ◌<◌, ◌≡◌, refl, true, false, arith, ◌⊎◌, inl, inr, none, some,
}
use db_storage.Prelude.{ltb, max, min, ltb→lt, ltb→le, Bool-cases, Option-cases}
use db_storage.Vfs.Lock.{
  LockKind, LockLevel, unlocked, shared, reserved, pending, exclusive, rank, SetLock, Locked,
}
use db_storage.Vfs.Lock.{locking, step_up, step_down, climb, descend, set_level}

module _ {Table : Type 0} (fcntl_lock : SetLock Table) where
  -- What holds where a call is refused and where it is granted holds.
  pub locking-cases :
      (P : Locked Table → Type 0) (table : Table) (level : LockLevel) (kind : LockKind)
      (start len : ℕ) (next : Table → Locked Table)
      → (fcntl_lock table kind start len ≡ none
          → P (record { table = table; level = level; is_ok = false }))
      → ((after : Table) → fcntl_lock table kind start len ≡ some after → P (next after))
      → P (locking fcntl_lock table level kind start len next)
  unfolding locking
  locking-cases P table level kind start len next refused granted =
      elim (Option-cases (fcntl_lock table kind start len)) [
        | inl e ↦ rw (locking, e) (refused e)
        | inr (after, e) ↦ rw (locking, e) (granted after e)
      ]

  -- One level on with `Ok`, or the same level with an error.
  abbrev Stepped : LockLevel → ℕ → Locked Table → Type 0
  Stepped level next r =
      ((rank r.level ≡ next) × (r.is_ok ≡ true)) ⊎ ((rank r.level ≡ rank level) × (r.is_ok ≡ false))

  step_up-Stepped :
      (table : Table) (level : LockLevel)
      → rank level < 4
      → Stepped level (rank level + 1) (step_up fcntl_lock table level)
  unfolding step_up
  step_up-Stepped table unlocked h =
      locking-cases (Stepped unlocked 1) table unlocked _ _ _ _ (λ e. inr (refl, refl))
        λ t1 e.
          locking-cases (Stepped unlocked 1) t1 unlocked _ _ _ _ (λ e. inr (refl, refl))
            λ t2 e.
              locking-cases (Stepped unlocked 1) t2 unlocked _ _ _ _ (λ e. inr (refl, refl))
                λ t3 e. inl (refl, refl)
  step_up-Stepped table shared h =
      locking-cases (Stepped shared 2) table shared _ _ _ _ (λ e. inr (refl, refl))
        λ t e. inl (refl, refl)
  step_up-Stepped table reserved h =
      locking-cases (Stepped reserved 3) table reserved _ _ _ _ (λ e. inr (refl, refl))
        λ t e. inl (refl, refl)
  step_up-Stepped table pending h =
      locking-cases (Stepped pending 4) table pending _ _ _ _ (λ e. inr (refl, refl))
        λ t e. inl (refl, refl)
  step_up-Stepped table exclusive h = absurd (omega arith)

  step_down-Stepped :
      (table : Table) (level : LockLevel)
      → 0 < rank level
      → Stepped level (rank level - 1) (step_down fcntl_lock table level)
  unfolding step_down
  step_down-Stepped table exclusive h =
      locking-cases (Stepped exclusive 3) table exclusive _ _ _ _ (λ e. inr (refl, refl))
        λ t e. inl (refl, refl)
  step_down-Stepped table pending h =
      locking-cases (Stepped pending 2) table pending _ _ _ _ (λ e. inr (refl, refl))
        λ t e. inl (refl, refl)
  step_down-Stepped table reserved h =
      locking-cases (Stepped reserved 1) table reserved _ _ _ _ (λ e. inr (refl, refl))
        λ t e. inl (refl, refl)
  step_down-Stepped table shared h =
      locking-cases (Stepped shared 0) table shared _ _ _ _ (λ e. inr (refl, refl))
        λ t e. inl (refl, refl)
  step_down-Stepped table unlocked h = absurd (omega arith)

  pub rank-4 : (level : LockLevel) → rank level ≤ 4
  rank-4 unlocked = omega arith
  rank-4 shared = omega arith
  rank-4 reserved = omega arith
  rank-4 pending = omega arith
  rank-4 exclusive = omega arith

  climb-ends :
      (fuel : ℕ) (table : Table) (level target : LockLevel)
      → rank target - rank level ≤ fuel
      → (rank level ≤ rank (climb fcntl_lock fuel table level target).level)
        × (((climb fcntl_lock fuel table level target).is_ok ≡ true)
            → rank target ≤ rank (climb fcntl_lock fuel table level target).level)
        × (rank (climb fcntl_lock fuel table level target).level ≤ max (rank level) (rank target))
  unfolding climb
  climb-ends zero table level target h = (omega arith, (λ e. omega arith), omega arith)
  climb-ends (suc fuel) table level target h =
      let top = rank-4 target in
      let after = step_up fcntl_lock table level in
      elim (Bool-cases (ltb (rank level) (rank target))) [
        | inr done ↦
            let le = ltb→le _ _ done in rw done (omega arith, (λ e. omega arith), omega arith)
        | inl more ↦
            let lt = ltb→lt _ _ more in
            elim (step_up-Stepped table level (omega arith)) [
              | inl (higher, fine) ↦
                  let rest = climb-ends fuel after.table after.level target (omega arith) in
                  rw (more, fine) (omega (arith, rest.0), (λ e. rest.1 e), omega (arith, rest.2))
              | inr (same, refused) ↦
                  rw (more, refused) (omega arith, (λ e. absurd cc), omega arith)
            ]
      ]

  descend-ends :
      (fuel : ℕ) (table : Table) (level target : LockLevel)
      → rank level - rank target ≤ fuel
      → (rank (descend fcntl_lock fuel table level target).level ≤ rank level)
        × (((descend fcntl_lock fuel table level target).is_ok ≡ true)
            → rank (descend fcntl_lock fuel table level target).level ≤ rank target)
        × (min (rank level) (rank target) ≤ rank (descend fcntl_lock fuel table level target).level)
  unfolding descend
  descend-ends zero table level target h = (omega arith, (λ e. omega arith), omega arith)
  descend-ends (suc fuel) table level target h =
      let after = step_down fcntl_lock table level in
      elim (Bool-cases (ltb (rank target) (rank level))) [
        | inr done ↦
            let le = ltb→le _ _ done in rw done (omega arith, (λ e. omega arith), omega arith)
        | inl more ↦
            let lt = ltb→lt _ _ more in
            elim (step_down-Stepped table level (omega arith)) [
              | inl (lower, fine) ↦
                  let rest = descend-ends fuel after.table after.level target (omega arith) in
                  rw (more, fine) (omega (arith, rest.0), (λ e. rest.1 e), omega (arith, rest.2))
              | inr (same, refused) ↦
                  rw (more, refused) (omega arith, (λ e. absurd cc), omega arith)
            ]
      ]

  -- Whatever calls are refused: with `Ok`, `set_level` ends at the level that was asked for; with
  -- an error it ends at a level between that and the level it started from.
  pub set_level-level :
      (table : Table) (level target : LockLevel)
      → (((set_level fcntl_lock table level target).is_ok ≡ true)
          → rank (set_level fcntl_lock table level target).level ≡ rank target)
        × (min (rank level) (rank target) ≤ rank (set_level fcntl_lock table level target).level)
        × (rank (set_level fcntl_lock table level target).level ≤ max (rank level) (rank target))
  unfolding set_level
  set_level-level table level target =
      let top = rank-4 target in
      let start = rank-4 level in
      let up = climb fcntl_lock 4 table level target in
      let high = rank-4 up.level in
      let (grown, reaches, bounded) = climb-ends 4 table level target (omega arith) in
      let (shrunk, ends, kept) = descend-ends 4 up.table up.level target (omega arith) in
      elim (Bool-cases up.is_ok) [
        | inr refused ↦ rw refused ((λ e. absurd cc), omega arith, omega arith)
        | inl fine ↦
            let there = reaches fine in
            rw fine ((λ e. let low = ends e in omega arith), omega arith, omega arith)
      ]
