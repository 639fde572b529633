-- ===== src/Vfs/Lock/Exclusion.antt =====
-- What the ladder of locks is for: one writer, and none beside readers.
use db_storage.Prelude.{
  ℕ, ◌≤◌, ◌≡◌, ◌≢◌, refl, sym, ◌∙◌, arith, true, false, not, some, none, Option, inl, inr, ltb,
  ltb→le, Bool-cases, Option-cases,
}
use db_storage.Vfs.Lock.{
  LockKind, unlck, rdlck, wrlck, unlocked, rank, pending_byte, reserved_byte, shared_first,
  shared_size, is_write_locked, check_reserved, step_up, is_unlck, locking,
}
use db_storage.Vfs.Lock.Processes.{InRange, RangeLocks, level_of, System, Reach}
use db_storage.Vfs.Lock.Holds.{Reach-Valid, wrlck-unlck, rdlck-unlck}
use mathlib.Core.Option
use mathlib.Core.Path.{subst}
use native.Mathlib.Decide.{dec_le}

clear_unlck :
    (answer : Option LockKind)
    → Option.map (λ kind. not (is_unlck kind)) answer ≡ some false
    → answer ≡ some unlck
clear_unlck none h = absurd cc
clear_unlck (some unlck) h = refl
clear_unlck (some rdlck) h = absurd cc
clear_unlck (some wrlck) h = absurd cc

taken_other :
    (answer : Option LockKind)
    → Option.map (λ kind. not (is_unlck kind)) answer ≡ some true
    → (kind : LockKind) × (answer ≡ some kind) × (kind ≢ unlck)
taken_other none h = absurd cc
taken_other (some unlck) h = absurd cc
taken_other (some rdlck) h = (rdlck, refl, rdlck-unlck)
taken_other (some wrlck) h = (wrlck, refl, wrlck-unlck)

module _ {Table : Type 0} {count : ℕ} (locks : RangeLocks Table count) where
  -- However the calls of the processes interleave: beside a process at RESERVED or above, every
  -- other is at UNLOCKED or SHARED, and beside one at EXCLUSIVE, every other is at UNLOCKED.
  pub level_of-alone :
      (s : System Table)
      → Reach locks s
      → (p q : ℕ) → q ≢ p
      → (2 ≤ rank (level_of (s.processes p)) → rank (level_of (s.processes q)) ≤ 1)
        × (rank (level_of (s.processes p)) ≡ 4 → rank (level_of (s.processes q)) ≡ 0)
  level_of-alone s reach p q apart =
      let valid = Reach-Valid locks reach in
      let mine = valid.holds p in
      let theirs = valid.holds q in
      (
        (λ writes. elim (dec_le (rank (level_of (s.processes q))) 1) [
          | yes low ↦ low
          | no high ↦ absurd (
              wrlck-unlck (
                sym (theirs.reserves (omega (arith, high)))
                ∙ valid.alone p q _ apart (mine.reserves writes)))
        ]),
        (λ alone. elim (dec_le (rank (level_of (s.processes q))) 0) [
          | yes low ↦ omega (arith, low)
          | no high ↦
              let at_first : InRange shared_first shared_size shared_first =
                (omega arith, omega arith) in
              absurd (
                theirs.reads (omega (arith, high)) shared_first at_first (
                  valid.alone p q _ apart
                    (mine.excludes (omega (arith, alone)) shared_first at_first)))
        ]),
      )

  -- `check_reserved` of a process that returns `false`: no other process is write-locked. One that
  -- returns `true`: another process has a lock on the RESERVED byte.
  pub check_reserved-is_write_locked :
      (s : System Table)
      → Reach locks s
      → (p : ℕ)
      → ((check_reserved (locks.get_lock p) s.table ≡ some false)
          → (q : ℕ) → q ≢ p
          → is_write_locked (level_of (s.processes q)) ≡ false)
        × ((check_reserved (locks.get_lock p) s.table ≡ some true)
            → (q : ℕ) × (q ≢ p) × (locks.held s.table q reserved_byte ≢ unlck))
  unfolding check_reserved is_write_locked
  check_reserved-is_write_locked s reach p =
      let valid = Reach-Valid locks reach in
      (
        (λ clear q apart. elim (Bool-cases (ltb (rank (level_of (s.processes q))) 2)) [
          | inl low ↦ rw low refl
          | inr high ↦
              let free =
                locks.get_lock-free p q s.table wrlck reserved_byte 1 reserved_byte
                  (clear_unlck (locks.get_lock p s.table wrlck reserved_byte 1) clear) apart
                  (omega arith, omega arith) in
              absurd (wrlck-unlck (sym ((valid.holds q).reserves (ltb→le _ _ high)) ∙ free))
        ]),
        (λ taken.
            let (kind, answer, other) =
              taken_other (locks.get_lock p s.table wrlck reserved_byte 1) taken in
            let (q, b, apart, i, busy) =
              locks.get_lock-taken p s.table wrlck kind reserved_byte 1 answer other in
            (
              q,
              apart,
              (λ free. busy (subst (λ c. locks.held s.table q c ≡ unlck) (omega (arith, i)) free)),
            )),
      )

  -- A new reader does not start beside a process at PENDING or above: its probe of the PENDING byte is
  -- refused, and `step_up` leaves it at UNLOCKED with the locks as they were.
  pub step_up-pending :
      (s : System Table)
      → Reach locks s
      → (p q : ℕ) → q ≢ p
      → 3 ≤ rank (level_of (s.processes p))
      → step_up (locks.set_lock q) s.table unlocked
        ≡ record { table = s.table; level = unlocked; is_ok = false }
  unfolding step_up locking
  step_up-pending s reach p q apart high =
      let valid = Reach-Valid locks reach in
      elim (Option-cases (locks.set_lock q s.table rdlck pending_byte 1)) [
        | inl refused ↦ rw (step_up, locking, refused) refl
        | inr (u, granted) ↦ absurd (
            locks.set_lock-Admits q p s.table u rdlck pending_byte 1 pending_byte granted
              (λ e. apart (sym e)) (omega arith, omega arith) ((valid.holds p).announces high))
      ]
