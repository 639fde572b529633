-- ===== src/Tests/Lock.antt =====
-- src/row/vfs/lock.rs against a table that counts calls and refuses all after the fifth.
use db_storage.Prelude.{ℕ, zero, suc, ◌≤◌, ◌≡◌, refl, true, some, none, min, max}
use db_storage.Vfs.Lock.{shared, exclusive, unlocked, rank, SetLock, set_level}
use db_storage.Vfs.Lock.Level.{set_level-level}

abbrev five_calls : SetLock ℕ
five_calls zero kind start len = none
five_calls (suc left) kind start len = some left

-- Three calls to SHARED and one each to RESERVED and PENDING; EXCLUSIVE is refused.
stops_at_pending : rank (set_level five_calls 5 unlocked exclusive).level ≡ 3
unfolding set_level
stops_at_pending = refl

set_level-level_example :
    (((set_level five_calls 5 unlocked shared).is_ok ≡ true)
      → rank (set_level five_calls 5 unlocked shared).level ≡ 1)
    × (min 0 1 ≤ rank (set_level five_calls 5 unlocked shared).level)
    × (rank (set_level five_calls 5 unlocked shared).level ≤ max 0 1)
set_level-level_example = set_level-level five_calls 5 unlocked shared
