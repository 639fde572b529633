-- ===== src/Vfs/Lock.antt =====
-- src/row/vfs/lock.rs: the ladder of file locks over byte ranges. `fcntl(F_SETLK)` is the operating
-- system's: a parameter, on a table of locks that all processes share.
use db_storage.Prelude.{
  ℕ, zero, suc, ◌+◌, Bool, true, false, Option, some, none, if◌then◌else◌, ltb, not,
}
use mathlib.Core.Option
pub mod Level
pub mod Processes
pub mod Holds
pub mod Exclusion
pub mod Runs
pub mod Progress

pub data LockKind : Type 0 where
  unlck rdlck wrlck : LockKind

pub data LockLevel : Type 0 where
  unlocked shared reserved pending exclusive : LockLevel

-- The derived order.
abbrev pub rank : LockLevel → ℕ
rank unlocked = 0
rank shared = 1
rank reserved = 2
rank pending = 3
rank exclusive = 4

abbrev pub pending_byte : ℕ
pending_byte = 0x40000000

abbrev pub reserved_byte : ℕ
reserved_byte = pending_byte + 1

abbrev pub shared_first : ℕ
shared_first = pending_byte + 2

abbrev pub shared_size : ℕ
shared_size = 510

-- `fcntl(F_SETLK)` of a process on `len` bytes from `start` on: the table after it, or `none` where
-- another process has a lock against it or the call fails. A refused call changes nothing.
abbrev pub SetLock : Type 0 → Type 0
SetLock Table = Table → LockKind → ℕ → ℕ → Option Table

-- `fcntl(F_GETLK)`: the kind of a lock that another process has against such a lock, `unlck` where
-- there is none, or `none` where the call fails. It changes nothing.
abbrev pub GetLock : Type 0 → Type 0
GetLock Table = Table → LockKind → ℕ → ℕ → Option LockKind

-- The locks, the level of the process, and whether the call returned `Ok`.
pub record Locked (Table : Type 0) : Type 0 where
  pub table : Table
  pub level : LockLevel
  pub is_ok : Bool

module _ {Table : Type 0} (fcntl_lock : SetLock Table) where
  -- One call, and what follows it; `?` returns with the level that was reached.
  unfoldable pub locking :
      Table → LockLevel → LockKind → ℕ → ℕ → (Table → Locked Table) → Locked Table
  locking table level kind start len next = elim (fcntl_lock table kind start len) [
    | none ↦ record { table = table; level = level; is_ok = false }
    | some after ↦ next after
  ]

  abbrev pub reached : LockLevel → Table → Locked Table
  reached level table = record { table = table; level = level; is_ok = true }

  unfoldable pub step_up : Table → LockLevel → Locked Table
  unfolding locking
  step_up table unlocked = locking table unlocked rdlck pending_byte 1 λ t1.
      locking t1 unlocked unlck pending_byte 1
        λ t2. locking t2 unlocked rdlck shared_first shared_size (reached shared)
  step_up table shared = locking table shared wrlck reserved_byte 1 (reached reserved)
  step_up table reserved = locking table reserved wrlck pending_byte 1 (reached pending)
  step_up table pending = locking table pending wrlck shared_first shared_size (reached exclusive)
  step_up table exclusive = reached exclusive table

  unfoldable pub step_down : Table → LockLevel → Locked Table
  unfolding locking
  step_down table exclusive =
      locking table exclusive rdlck shared_first shared_size (reached pending)
  step_down table pending = locking table pending unlck pending_byte 1 (reached reserved)
  step_down table reserved = locking table reserved unlck reserved_byte 1 (reached shared)
  step_down table shared = locking table shared unlck shared_first shared_size (reached unlocked)
  step_down table unlocked = reached unlocked table

  -- `while self.level < target { self.step_up()?; }`, on fuel, and what follows it.
  unfoldable pub climb : ℕ → Table → LockLevel → LockLevel → Locked Table
  unfolding step_up
  climb zero table level target = reached level table
  climb (suc fuel) table level target =
      let after = step_up table level in
      let rest = climb fuel after.table after.level target in
      if ltb (rank level) (rank target)
      then (if after.is_ok then rest else after)
      else reached level table

  -- `while self.level > target { self.step_down()?; }`, on fuel.
  unfoldable pub descend : ℕ → Table → LockLevel → LockLevel → Locked Table
  unfolding step_down
  descend zero table level target = reached level table
  descend (suc fuel) table level target =
      let after = step_down table level in
      let rest = descend fuel after.table after.level target in
      if ltb (rank target) (rank level)
      then (if after.is_ok then rest else after)
      else reached level table

  -- A ladder of five levels: each loop has at most four rounds.
  unfoldable pub set_level : Table → LockLevel → LockLevel → Locked Table
  unfolding climb descend
  set_level table level target =
      let up = climb 4 table level target in
      let down = descend 4 up.table up.level target in if up.is_ok then down else up

-- `is_write_locked`
unfoldable pub is_write_locked : LockLevel → Bool
is_write_locked level = if ltb (rank level) (rank reserved) then false else true

abbrev pub is_unlck : LockKind → Bool
is_unlck unlck = true
is_unlck rdlck = false
is_unlck wrlck = false

-- `check_reserved`
unfoldable pub check_reserved : {Table : Type 0} → GetLock Table → Table → Option Bool
check_reserved fcntl_getlk table =
    Option.map (λ kind. not (is_unlck kind)) (fcntl_getlk table wrlck reserved_byte 1)

-- `drop`, which forgets an error.
unfoldable pub drop_lock : {Table : Type 0} → SetLock Table → Table → LockLevel → Table
unfolding set_level
drop_lock fcntl_lock table level = (set_level fcntl_lock table level unlocked).table
