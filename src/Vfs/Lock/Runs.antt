-- ===== src/Vfs/Lock/Runs.antt =====
-- `step_up`, `step_down` and `set_level` of one process as moves of the system.
use db_storage.Prelude.{ℕ, zero, suc, ◌<◌, ◌≡◌, ◌≢◌, refl, sym, ◌∙◌, inl, inr, ltb, Bool-cases}
use db_storage.Vfs.Lock.{
  LockLevel, unlocked, shared, reserved, pending, exclusive, rank, Locked, step_up, step_down,
  climb, descend, set_level,
}
use db_storage.Vfs.Lock.Level.{locking-cases}
use db_storage.Vfs.Lock.Processes.{
  RangeLocks, Process, holding, System, update, Move, probe, unprobe, probe_kept, share,
  share_refused, reserve, announce, exclude, share_again, withdraw, unreserve, unshare, Step, pick,
  Reach, later,
}
use mathlib.Core.Logic.{ite}
use mathlib.Core.Path.{subst}
use native.Mathlib.Decide.{ℕ_discrete}

update-same : (f : ℕ → Process) (p : ℕ) (a : Process) → update f p a p ≡ a
update-same f p a = elim (ℕ_discrete p p) as (λ d. ite d a (f p) ≡ a) [
  | yes e ↦ refl
  | no n ↦ absurd (n refl)
]

update-other : (f : ℕ → Process) (p q : ℕ) (a : Process) → q ≢ p → update f p a q ≡ f q
update-other f p q a apart = elim (ℕ_discrete p q) as (λ d. ite d a (f q) ≡ f q) [
  | yes e ↦ absurd (apart (sym e))
  | no n ↦ refl
]

module _ {Table : Type 0} {count : ℕ} (locks : RangeLocks Table count) where
  pub data Steps (s : System Table) : System Table → Type 0 where
    stay : Steps s s
    on : {s' t : System Table} → Steps s s' → Step locks s' t → Steps s t

  -- What the moves of process `p` from `s` have done at `s'`: the locks are `u`, the process is at
  -- `a`, and the others are where they were.
  pub record Ran (p : ℕ) (s : System Table) (u : Table) (a : Process) : Type 0 where
    pub last : System Table
    pub steps : Steps s last
    pub table_eq : last.table ≡ u
    pub process_eq : last.processes p ≡ a
    pub others : (q : ℕ) → q ≢ p → last.processes q ≡ s.processes q

  -- The locks and the level that a call of the ladder leaves are those of a run of moves.
  abbrev pub Runs : ℕ → System Table → Locked Table → Type 0
  Runs p s r = Ran p s r.table (holding r.level)

  stayed : {p : ℕ} {s : System Table} {a : Process} → s.processes p ≡ a → Ran p s s.table a
  stayed {p} {s} e = record {
    last = s;
    steps = stay;
    table_eq = refl;
    process_eq = e;
    others = λ q n. refl;
  }

  module _ {p : ℕ} (lt : p < count) {s : System Table} where
    -- One more move.
    moved : {t u : Table} {a b : Process} → Ran p s t a → Move locks p t a u b → Ran p s u b
    moved {t} {u} {a} {b} ran move =
        let here : Move locks p ran.last.table (ran.last.processes p) u b =
          subst (λ x. Move locks p x (ran.last.processes p) u b) (sym ran.table_eq)
            (subst (λ x. Move locks p t x u b) (sym ran.process_eq) move) in
        record {
          last = record { table = u; processes = update ran.last.processes p b };
          steps = on ran.steps (pick p lt here);
          table_eq = refl;
          process_eq = update-same ran.last.processes p b;
          others = λ q n. update-other ran.last.processes p q b n ∙ ran.others q n;
        }

    step_up-Runs :
        (t : Table) (level : LockLevel)
        → Ran p s t (holding level)
        → Runs p s (step_up (locks.set_lock p) t level)
    unfolding step_up
    step_up-Runs t unlocked r =
        locking-cases (locks.set_lock p) (Runs p s) t unlocked _ _ _ _ (λ e. r)
          λ t1 e1.
            locking-cases (locks.set_lock p) (Runs p s) t1 unlocked _ _ _ _
              (λ e. moved (moved r (probe e1)) (probe_kept e))
              λ t2 e2.
                locking-cases (locks.set_lock p) (Runs p s) t2 unlocked _ _ _ _
                  (λ e. moved (moved (moved r (probe e1)) (unprobe e2)) (share_refused e))
                  λ t3 e3. moved (moved (moved r (probe e1)) (unprobe e2)) (share e3)
    step_up-Runs t shared r =
        locking-cases (locks.set_lock p) (Runs p s) t shared _ _ _ _ (λ e. r)
          λ u e. moved r (reserve e)
    step_up-Runs t reserved r =
        locking-cases (locks.set_lock p) (Runs p s) t reserved _ _ _ _ (λ e. r)
          λ u e. moved r (announce e)
    step_up-Runs t pending r =
        locking-cases (locks.set_lock p) (Runs p s) t pending _ _ _ _ (λ e. r)
          λ u e. moved r (exclude e)
    step_up-Runs t exclusive r = r

    step_down-Runs :
        (t : Table) (level : LockLevel)
        → Ran p s t (holding level)
        → Runs p s (step_down (locks.set_lock p) t level)
    unfolding step_down
    step_down-Runs t exclusive r =
        locking-cases (locks.set_lock p) (Runs p s) t exclusive _ _ _ _ (λ e. r)
          λ u e. moved r (share_again e)
    step_down-Runs t pending r =
        locking-cases (locks.set_lock p) (Runs p s) t pending _ _ _ _ (λ e. r)
          λ u e. moved r (withdraw e)
    step_down-Runs t reserved r =
        locking-cases (locks.set_lock p) (Runs p s) t reserved _ _ _ _ (λ e. r)
          λ u e. moved r (unreserve e)
    step_down-Runs t shared r =
        locking-cases (locks.set_lock p) (Runs p s) t shared _ _ _ _ (λ e. r)
          λ u e. moved r (unshare e)
    step_down-Runs t unlocked r = r

    climb-Runs :
        (fuel : ℕ) (t : Table) (level target : LockLevel)
        → Ran p s t (holding level)
        → Runs p s (climb (locks.set_lock p) fuel t level target)
    unfolding climb
    climb-Runs zero t level target r = r
    climb-Runs (suc fuel) t level target r =
        let after = step_up (locks.set_lock p) t level in
        let stepped = step_up-Runs t level r in
        elim (Bool-cases (ltb (rank level) (rank target))) [
          | inr done ↦ rw done r
          | inl more ↦ elim (Bool-cases after.is_ok) [
            | inr refused ↦ rw (more, refused) stepped
            | inl fine ↦ rw (more, fine) (climb-Runs fuel after.table after.level target stepped)
          ]
        ]

    descend-Runs :
        (fuel : ℕ) (t : Table) (level target : LockLevel)
        → Ran p s t (holding level)
        → Runs p s (descend (locks.set_lock p) fuel t level target)
    unfolding descend
    descend-Runs zero t level target r = r
    descend-Runs (suc fuel) t level target r =
        let after = step_down (locks.set_lock p) t level in
        let stepped = step_down-Runs t level r in
        elim (Bool-cases (ltb (rank target) (rank level))) [
          | inr done ↦ rw done r
          | inl more ↦ elim (Bool-cases after.is_ok) [
            | inr refused ↦ rw (more, refused) stepped
            | inl fine ↦ rw (more, fine) (descend-Runs fuel after.table after.level target stepped)
          ]
        ]

  -- A call of `set_level` without other processes in between is a run of moves: it takes the system
  -- to the locks and the level that `set_level` returns, with or without `Ok`, and every other
  -- process is where it was.
  pub set_level-Runs :
      (s : System Table) (p : ℕ) (level target : LockLevel)
      → p < count
      → s.processes p ≡ holding level
      → Runs p s (set_level (locks.set_lock p) s.table level target)
  unfolding set_level
  set_level-Runs s p level target lt here =
      let up = climb (locks.set_lock p) 4 s.table level target in
      let climbed = climb-Runs lt 4 s.table level target (stayed here) in
      elim (Bool-cases up.is_ok) [
        | inr refused ↦ rw refused climbed
        | inl fine ↦ rw fine (descend-Runs lt 4 up.table up.level target climbed)
      ]

  -- A system that ran from a reachable one is reachable.
  pub Steps-Reach : {s t : System Table} → Steps s t → Reach locks s → Reach locks t
  Steps-Reach stay reach = reach
  Steps-Reach (on steps step) reach = later (Steps-Reach steps reach) step
