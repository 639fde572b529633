-- ===== src/Vfs/Lock/Progress.antt =====
-- `set_level` of a process that no other stands against.
use db_storage.Prelude.{
  ℕ, zero, suc, ◌≤◌, ◌<◌, ◌≡◌, ◌≢◌, refl, ◌∙◌, arith, true, inl, inr, ltb, Bool-cases,
}
use db_storage.Vfs.Lock.{
  LockKind, unlck, rdlck, wrlck, LockLevel, unlocked, shared, reserved, pending, exclusive, rank,
  Locked, step_up, step_down, climb, descend, set_level, pending_byte, locking,
}
use db_storage.Vfs.Lock.Level.{locking-cases, set_level-level}
use db_storage.Vfs.Lock.Processes.{Admits, RangeLocks}

Admits-unlck : (kind other : LockKind) → other ≡ unlck → Admits kind other
Admits-unlck unlck other e = refl
Admits-unlck rdlck other e = λ w. absurd cc
Admits-unlck wrlck other e = e

module _ {Table : Type 0} {count : ℕ} (locks : RangeLocks Table count) (p : ℕ)
    (lt : p < count) where
  -- No other process has a lock on a byte of the ladder.
  abbrev pub Uncontended : Table → Type 0
  Uncontended t = (q b : ℕ) → q ≢ p → pending_byte ≤ b → locks.held t q b ≡ unlck

  abbrev Fine : Locked Table → Type 0
  Fine r = (r.is_ok ≡ true) × Uncontended r.table

  locking-Fine :
      (t : Table) (level : LockLevel) (kind : LockKind) (first len : ℕ)
      (next : Table → Locked Table)
      → pending_byte ≤ first
      → Uncontended t
      → ((u : Table) → Uncontended u → Fine (next u))
      → Fine (locking (locks.set_lock p) t level kind first len next)
  locking-Fine t level kind first len next ladder alone rest =
      locking-cases (locks.set_lock p) Fine t level kind first len next
        (λ refused.
          let (u, granted) =
            locks.set_lock-grants p t kind first len lt
              (λ q b apart i. Admits-unlck kind _ (alone q b apart (omega (arith, i)))) in
          absurd cc)
        (λ u granted. rest u (λ q b apart i.
          locks.set_lock-other p q t u kind first len b granted apart ∙ alone q b apart i))

  step_up-Fine :
      (t : Table) (level : LockLevel) → Uncontended t → Fine (step_up (locks.set_lock p) t level)
  unfolding step_up
  step_up-Fine t unlocked alone = locking-Fine t unlocked _ _ _ _ (omega arith) alone λ t1 a1.
      locking-Fine t1 unlocked _ _ _ _ (omega arith) a1
        λ t2 a2. locking-Fine t2 unlocked _ _ _ _ (omega arith) a2 λ t3 a3. (refl, a3)
  step_up-Fine t shared alone = locking-Fine t shared _ _ _ _ (omega arith) alone λ u a. (refl, a)
  step_up-Fine t reserved alone =
      locking-Fine t reserved _ _ _ _ (omega arith) alone λ u a. (refl, a)
  step_up-Fine t pending alone = locking-Fine t pending _ _ _ _ (omega arith) alone λ u a. (refl, a)
  step_up-Fine t exclusive alone = (refl, alone)

  step_down-Fine :
      (t : Table) (level : LockLevel) → Uncontended t → Fine (step_down (locks.set_lock p) t level)
  unfolding step_down
  step_down-Fine t exclusive alone =
      locking-Fine t exclusive _ _ _ _ (omega arith) alone λ u a. (refl, a)
  step_down-Fine t pending alone =
      locking-Fine t pending _ _ _ _ (omega arith) alone λ u a. (refl, a)
  step_down-Fine t reserved alone =
      locking-Fine t reserved _ _ _ _ (omega arith) alone λ u a. (refl, a)
  step_down-Fine t shared alone = locking-Fine t shared _ _ _ _ (omega arith) alone λ u a. (refl, a)
  step_down-Fine t unlocked alone = (refl, alone)

  climb-Fine :
      (fuel : ℕ) (t : Table) (level target : LockLevel)
      → Uncontended t
      → Fine (climb (locks.set_lock p) fuel t level target)
  unfolding climb
  climb-Fine zero t level target alone = (refl, alone)
  climb-Fine (suc fuel) t level target alone =
      let after = step_up (locks.set_lock p) t level in
      let (fine, free) = step_up-Fine t level alone in
      elim (Bool-cases (ltb (rank level) (rank target))) [
        | inr done ↦ rw done (refl, alone)
        | inl more ↦ rw (more, fine) (climb-Fine fuel after.table after.level target free)
      ]

  descend-Fine :
      (fuel : ℕ) (t : Table) (level target : LockLevel)
      → Uncontended t
      → Fine (descend (locks.set_lock p) fuel t level target)
  unfolding descend
  descend-Fine zero t level target alone = (refl, alone)
  descend-Fine (suc fuel) t level target alone =
      let after = step_down (locks.set_lock p) t level in
      let (fine, free) = step_down-Fine t level alone in
      elim (Bool-cases (ltb (rank target) (rank level))) [
        | inr done ↦ rw done (refl, alone)
        | inl more ↦ rw (more, fine) (descend-Fine fuel after.table after.level target free)
      ]

  set_level-Fine :
      (t : Table) (level target : LockLevel)
      → Uncontended t
      → Fine (set_level (locks.set_lock p) t level target)
  unfolding set_level
  set_level-Fine t level target alone =
      let up = climb (locks.set_lock p) 4 t level target in
      let (fine, free) = climb-Fine 4 t level target alone in
      rw fine (descend-Fine 4 up.table up.level target free)

  -- Where no other process has a lock on a byte of the ladder, `set_level` returns `Ok` at the
  -- level that was asked for, from any level to any level.
  pub set_level-Uncontended :
      (t : Table) (level target : LockLevel)
      → Uncontended t
      → ((set_level (locks.set_lock p) t level target).is_ok ≡ true)
        × (rank (set_level (locks.set_lock p) t level target).level ≡ rank target)
  set_level-Uncontended t level target alone =
      let (fine, free) = set_level-Fine t level target alone in
      (fine, (set_level-level (locks.set_lock p) t level target).0 fine)
