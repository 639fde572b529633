-- ===== src/Tests/Processes.antt =====
-- src/row/vfs/lock.rs with two processes, against a table of the kind of lock of each on each byte.
use db_storage.Prelude.{ℕ, zero, suc, ◌≤◌, ◌≡◌, ◌≢◌, refl, ◌∙◌, ap, arith, true, false, some}
use db_storage.Vfs.Lock.{unlck, unlocked, exclusive, rank, set_level, reserved_byte}
use db_storage.Vfs.Lock.{check_reserved, is_write_locked, step_up}
use db_storage.Vfs.Lock.Exclusion.{level_of-alone, check_reserved-is_write_locked, step_up-pending}
use db_storage.Vfs.Lock.Holds.{Valid, Reach-Valid}
use db_storage.Vfs.Lock.Processes.{System, holding, level_of, Reach, start}
use db_storage.Vfs.Lock.Progress.{set_level-Uncontended}
use db_storage.Vfs.Lock.Runs.{Runs, set_level-Runs, Steps-Reach}
use db_storage.Tests.TwoProcesses.{Both, held_by, set_lock_of, get_lock_of, two_processes}

abbrev nothing : Both
nothing = record { one = λ _. unlck; two = λ _. unlck }

abbrev idle : System Both
idle = record { table = nothing; processes = λ _. holding unlocked }

nothing-held : (p b : ℕ) → held_by nothing p b ≡ unlck
unfolding held_by
nothing-held zero b = refl
nothing-held (suc zero) b = refl
nothing-held (suc (suc p)) b = refl

idle-Reach : Reach two_processes idle
idle-Reach = start nothing nothing-held

-- The first process climbs to EXCLUSIVE.
abbrev climbing : Runs two_processes 0 idle (set_level (set_lock_of 0) nothing unlocked exclusive)
climbing = set_level-Runs two_processes idle 0 unlocked exclusive (omega arith) refl

set_level-Runs_example :
    Runs two_processes 0 idle (set_level (set_lock_of 0) nothing unlocked exclusive)
set_level-Runs_example = set_level-Runs two_processes idle 0 unlocked exclusive (omega arith) refl

climbing-Reach : Reach two_processes climbing.last
climbing-Reach = Steps-Reach two_processes climbing.steps idle-Reach

set_level-Uncontended_example :
    ((set_level (set_lock_of 0) nothing unlocked exclusive).is_ok ≡ true)
    × (rank (set_level (set_lock_of 0) nothing unlocked exclusive).level ≡ 4)
set_level-Uncontended_example =
    set_level-Uncontended two_processes 0 (omega arith) nothing unlocked exclusive
      (λ q b n h. nothing-held q b)

Reach-Valid_example : Valid two_processes climbing.last
Reach-Valid_example = Reach-Valid two_processes climbing-Reach

level_of-alone_example :
    (2 ≤ rank (level_of (climbing.last.processes 0))
      → rank (level_of (climbing.last.processes 1)) ≤ 1)
    × (rank (level_of (climbing.last.processes 0)) ≡ 4
        → rank (level_of (climbing.last.processes 1)) ≡ 0)
level_of-alone_example =
    level_of-alone two_processes climbing.last climbing-Reach 0 1 (λ e. absurd cc)

check_reserved-is_write_locked_example :
    ((check_reserved (get_lock_of 1) climbing.last.table ≡ some false)
      → (q : ℕ) → q ≢ 1
      → is_write_locked (level_of (climbing.last.processes q)) ≡ false)
    × ((check_reserved (get_lock_of 1) climbing.last.table ≡ some true)
        → (q : ℕ) × (q ≢ 1) × (held_by climbing.last.table q reserved_byte ≢ unlck))
check_reserved-is_write_locked_example =
    check_reserved-is_write_locked two_processes climbing.last climbing-Reach 1

-- The climb did reach EXCLUSIVE.
climbing-exclusive : rank (level_of (climbing.last.processes 0)) ≡ 4
climbing-exclusive =
    ap (λ a. rank (level_of a)) climbing.process_eq ∙ set_level-Uncontended_example.1

step_up-pending_example :
    step_up (set_lock_of 1) climbing.last.table unlocked
    ≡ record { table = climbing.last.table; level = unlocked; is_ok = false }
step_up-pending_example =
    step_up-pending two_processes climbing.last climbing-Reach 0 1 (λ e. absurd cc)
      (omega (arith, climbing-exclusive))
