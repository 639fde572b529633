-- ===== src/Vfs/Lock/Processes.antt =====
-- src/row/vfs/lock.rs with several processes on one file: what fcntl promises of byte-range locks,
-- and the calls of the processes in any order. One move is one call of `step_up` or `step_down`.
use db_storage.Prelude.{ℕ, ◌+◌, ◌≤◌, ◌<◌, ◌≡◌, ◌≢◌, some, none}
use db_storage.Vfs.Lock.{
  LockKind, unlck, rdlck, wrlck, LockLevel, unlocked, shared, reserved, pending, exclusive, SetLock,
  GetLock, pending_byte, reserved_byte, shared_first, shared_size,
}
use mathlib.Core.Logic.{ite}
use native.Mathlib.Decide.{ℕ_discrete}

-- Whether a lock that another process holds on a byte lets a call have its kind of lock there.
abbrev pub Admits : LockKind → LockKind → Type 0
Admits unlck other = other ≡ other
Admits rdlck other = other ≢ wrlck
Admits wrlck other = other ≡ unlck

abbrev pub InRange : ℕ → ℕ → ℕ → Type 0
InRange start len b = (start ≤ b) × (b < start + len)

-- POSIX record locks: what a process has on each byte, `F_SETLK` and `F_GETLK` of a process, and what
-- the manual says of a call that is granted, of when it is, and of the answer to a query. Processes have the numbers below `count`.
pub record RangeLocks (Table : Type 0) (count : ℕ) : Type 0 where
  pub held : Table → ℕ → ℕ → LockKind
  pub set_lock : ℕ → SetLock Table
  pub set_lock-own :
      (p : ℕ) (t u : Table) (kind : LockKind) (start len b : ℕ)
      → set_lock p t kind start len ≡ some u
      → InRange start len b
      → held u p b ≡ kind
  pub set_lock-outside :
      (p : ℕ) (t u : Table) (kind : LockKind) (start len b : ℕ)
      → set_lock p t kind start len ≡ some u
      → ¬ (InRange start len b)
      → held u p b ≡ held t p b
  pub set_lock-other :
      (p q : ℕ) (t u : Table) (kind : LockKind) (start len b : ℕ)
      → set_lock p t kind start len ≡ some u
      → q ≢ p
      → held u q b ≡ held t q b
  pub set_lock-Admits :
      (p q : ℕ) (t u : Table) (kind : LockKind) (start len b : ℕ)
      → set_lock p t kind start len ≡ some u
      → q ≢ p
      → InRange start len b
      → Admits kind (held t q b)
  pub set_lock-grants :
      (p : ℕ) (t : Table) (kind : LockKind) (start len : ℕ)
      → p < count
      → ((q b : ℕ) → q ≢ p → InRange start len b → Admits kind (held t q b))
      → (u : Table) × (set_lock p t kind start len ≡ some u)
  pub get_lock : ℕ → GetLock Table
  pub get_lock-free :
      (p q : ℕ) (t : Table) (kind : LockKind) (start len b : ℕ)
      → get_lock p t kind start len ≡ some unlck
      → q ≢ p
      → InRange start len b
      → Admits kind (held t q b)
  pub get_lock-taken :
      (p : ℕ) (t : Table) (kind other : LockKind) (start len : ℕ)
      → get_lock p t kind start len ≡ some other
      → other ≢ unlck
      → (q : ℕ) × (b : ℕ) × (q ≢ p) × InRange start len b × ¬ Admits kind (held t q b)

-- Where a process is: it holds a level, or it is inside the three calls from UNLOCKED to SHARED.
pub data Process : Type 0 where
  holding : LockLevel → Process
  probing probed : Process

-- `self.level`, which the three calls leave until all are granted.
abbrev pub level_of : Process → LockLevel
level_of (holding level) = level
level_of probing = unlocked
level_of probed = unlocked

pub record System (Table : Type 0) : Type 0 where
  pub table : Table
  pub processes : ℕ → Process

abbrev pub update : (ℕ → Process) → ℕ → Process → ℕ → Process
update f p a q = ite (ℕ_discrete p q) a (f q)

module _ {Table : Type 0} {count : ℕ} (locks : RangeLocks Table count) where
  -- One call of process `p`. A refused call that leaves the process where it is, is no move.
  pub data Move (p : ℕ) (t : Table) : Process → Table → Process → Type 0 where
    probe :
        {u : Table}
        → locks.set_lock p t rdlck pending_byte 1 ≡ some u
        → Move p t (holding unlocked) u probing
    unprobe :
        {u : Table} → locks.set_lock p t unlck pending_byte 1 ≡ some u → Move p t probing u probed
    probe_kept :
        locks.set_lock p t unlck pending_byte 1 ≡ none → Move p t probing t (holding unlocked)
    share :
        {u : Table}
        → locks.set_lock p t rdlck shared_first shared_size ≡ some u
        → Move p t probed u (holding shared)
    share_refused :
        locks.set_lock p t rdlck shared_first shared_size ≡ none
        → Move p t probed t (holding unlocked)
    reserve :
        {u : Table}
        → locks.set_lock p t wrlck reserved_byte 1 ≡ some u
        → Move p t (holding shared) u (holding reserved)
    announce :
        {u : Table}
        → locks.set_lock p t wrlck pending_byte 1 ≡ some u
        → Move p t (holding reserved) u (holding pending)
    exclude :
        {u : Table}
        → locks.set_lock p t wrlck shared_first shared_size ≡ some u
        → Move p t (holding pending) u (holding exclusive)
    share_again :
        {u : Table}
        → locks.set_lock p t rdlck shared_first shared_size ≡ some u
        → Move p t (holding exclusive) u (holding pending)
    withdraw :
        {u : Table}
        → locks.set_lock p t unlck pending_byte 1 ≡ some u
        → Move p t (holding pending) u (holding reserved)
    unreserve :
        {u : Table}
        → locks.set_lock p t unlck reserved_byte 1 ≡ some u
        → Move p t (holding reserved) u (holding shared)
    unshare :
        {u : Table}
        → locks.set_lock p t unlck shared_first shared_size ≡ some u
        → Move p t (holding shared) u (holding unlocked)

  pub data Step (s : System Table) : System Table → Type 0 where
    pick :
        (p : ℕ) {u : Table} {a : Process}
        → p < count
        → Move p s.table (s.processes p) u a
        → Step s (record { table = u; processes = update s.processes p a })

  -- From a table without locks, where no process has called yet.
  pub data Reach : System Table → Type 0 where
    start :
        (t : Table)
        → ((p b : ℕ) → locks.held t p b ≡ unlck)
        → Reach (record { table = t; processes = λ _. holding unlocked })
    later : {s s' : System Table} → Reach s → Step s s' → Reach s'
