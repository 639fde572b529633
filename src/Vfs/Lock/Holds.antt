-- ===== src/Vfs/Lock/Holds.antt =====
-- What every reachable state of the processes keeps: each has the locks that its level stands for,
-- and a write lock is alone on its bytes.
use db_storage.Prelude.{ℕ, ◌+◌, ◌≤◌, ◌≡◌, ◌≢◌, refl, sym, ap, some, ◌∙◌, inl, inr, arith, ◌⊎◌}
use db_storage.Vfs.Lock.{
  LockKind, unlck, rdlck, wrlck, LockLevel, unlocked, rank, pending_byte, reserved_byte,
  shared_first, shared_size,
}
use db_storage.Vfs.Lock.Processes.{
  Admits, InRange, RangeLocks, Process, level_of, System, Move, probe, unprobe, probe_kept, share,
  share_refused, reserve, announce, exclude, share_again, withdraw, unreserve, unshare, Step, pick,
  Reach, start, later,
}
use mathlib.Core.Logic.{ite}
use mathlib.Core.Path.{subst}
use native.Mathlib.Decide.{dec_lt, dec_le, ℕ_discrete}

abbrev pub InShared : ℕ → Type 0
InShared b = InRange shared_first shared_size b

Admits-unlck : (kind other : LockKind) → Admits kind other → other ≡ wrlck → kind ≡ unlck
Admits-unlck unlck other h e = refl
Admits-unlck rdlck other h e = absurd (h e)
Admits-unlck wrlck other h e = absurd cc

pub rdlck-unlck : rdlck ≢ unlck
rdlck-unlck e = absurd cc

pub wrlck-unlck : wrlck ≢ unlck
wrlck-unlck e = absurd cc

module _ {Table : Type 0} {count : ℕ} (locks : RangeLocks Table count) where
  -- The locks on the bytes of the ladder that a process at `level` has.
  pub record Holds (t : Table) (p : ℕ) (level : LockLevel) : Type 0 where
    pub reads : 1 ≤ rank level → (b : ℕ) → InShared b → locks.held t p b ≢ unlck
    pub reserves : 2 ≤ rank level → locks.held t p reserved_byte ≡ wrlck
    pub announces : 3 ≤ rank level → locks.held t p pending_byte ≡ wrlck
    pub excludes : 4 ≤ rank level → (b : ℕ) → InShared b → locks.held t p b ≡ wrlck

  -- A write lock of one process is alone on its byte.
  pub record Valid (s : System Table) : Type 0 where
    pub holds : (p : ℕ) → Holds s.table p (level_of (s.processes p))
    pub alone :
        (p q b : ℕ) → q ≢ p → locks.held s.table p b ≡ wrlck → locks.held s.table q b ≡ unlck

  Holds-unlocked : (t : Table) (p : ℕ) → Holds t p unlocked
  Holds-unlocked t p = record {
    reads = λ h. absurd (omega arith);
    reserves = λ h. absurd (omega arith);
    announces = λ h. absurd (omega arith);
    excludes = λ h. absurd (omega arith);
  }

  -- Another process's call leaves them.
  Holds-other :
      (p q : ℕ) (t u : Table) (kind : LockKind) (first len : ℕ) (level : LockLevel)
      → locks.set_lock p t kind first len ≡ some u
      → q ≢ p
      → Holds t q level
      → Holds u q level
  Holds-other p q t u kind first len level granted other h =
      let same = λ (b : ℕ). locks.set_lock-other p q t u kind first len b granted other in
      record {
        reads = λ r b i e. h.reads r b i (sym (same b) ∙ e);
        reserves = λ r. same _ ∙ h.reserves r;
        announces = λ r. same _ ∙ h.announces r;
        excludes = λ r b i. same b ∙ h.excludes r b i;
      }

  InRange-cases : (first len b : ℕ) → InRange first len b ⊎ ¬ (InRange first len b)
  InRange-cases first len b = elim (dec_le first b) [
    | no low ↦ inr (λ i. low i.0)
    | yes le ↦ elim (dec_lt b (first + len)) [
      | no high ↦ inr (λ i. high i.1)
      | yes lt ↦ inl (le, lt)
    ]
  ]

  -- A granted call leaves every write lock alone on its byte.
  set_lock-alone :
      (p : ℕ) (t u : Table) (kind : LockKind) (first len : ℕ)
      → locks.set_lock p t kind first len ≡ some u
      → ((m q b : ℕ) → q ≢ m → locks.held t m b ≡ wrlck → locks.held t q b ≡ unlck)
      → (m q b : ℕ) → q ≢ m
      → locks.held u m b ≡ wrlck
      → locks.held u q b ≡ unlck
  set_lock-alone p t u kind first len granted alone m q b other h =
      let own = locks.set_lock-own p t u kind first len b granted in
      let outside = locks.set_lock-outside p t u kind first len b granted in
      let kept = λ (o : ℕ). locks.set_lock-other p o t u kind first len b granted in
      let admits = λ (o : ℕ). locks.set_lock-Admits p o t u kind first len b granted in
      let written = λ (mine : m ≡ p). sym (ap (λ x. locks.held u x b) mine) ∙ h in
      elim (ℕ_discrete m p) [
        | yes mine ↦
            let apart : q ≢ p = λ e. other (e ∙ sym mine) in
            elim (InRange-cases first len b) [
              | inl i ↦
                  kept q apart
                  ∙ subst (λ k. Admits k (locks.held t q b)) (sym (own i) ∙ written mine)
                      (admits q apart i)
              | inr o ↦ kept q apart ∙ alone p q b apart (sym (outside o) ∙ written mine)
            ]
        | no theirs ↦ elim (ℕ_discrete q p) [
          | yes mine ↦
              let held_before = sym (kept m theirs) ∙ h in
              ap (λ x. locks.held u x b) mine ∙ elim (InRange-cases first len b) [
                | inl i ↦ own i ∙ Admits-unlck kind _ (admits m theirs i) held_before
                | inr o ↦ outside o ∙ alone m p b (λ e. theirs (sym e)) held_before
              ]
          | no far ↦ kept q far ∙ alone m q b other (sym (kept m theirs) ∙ h)
        ]
      ]

  -- A granted call on the process's own bytes outside and inside its range.
  module _ {p : ℕ} {t u : Table} {kind : LockKind} {first len : ℕ}
      (granted : locks.set_lock p t kind first len ≡ some u) where
    own : (b : ℕ) → InRange first len b → locks.held u p b ≡ kind
    own b i = locks.set_lock-own p t u kind first len b granted i

    kept : (b : ℕ) → ¬ (InRange first len b) → locks.held u p b ≡ locks.held t p b
    kept b o = locks.set_lock-outside p t u kind first len b granted o

    -- A call on bytes below the SHARED range leaves it.
    below : first + len ≤ shared_first → (b : ℕ) → InShared b → locks.held u p b ≡ locks.held t p b
    below low b i = kept b (λ j. omega (arith, i.0, j.1))

    reads-below :
        {level : LockLevel}
        → first + len ≤ shared_first
        → Holds t p level
        → 1 ≤ rank level
        → (b : ℕ) → InShared b
        → locks.held u p b ≢ unlck
    reads-below low h r b i e = h.reads r b i (sym (below low b i) ∙ e)

  -- A move leaves the process with the locks of its level.
  Move-Holds :
      (p : ℕ) (t u : Table) {a b : Process}
      → Move locks p t a u b
      → Holds t p (level_of a)
      → Holds u p (level_of b)
  Move-Holds p t u (probe g) h = Holds-unlocked u p
  Move-Holds p t u (unprobe g) h = Holds-unlocked u p
  Move-Holds p t _ (probe_kept g) h = Holds-unlocked t p
  Move-Holds p t _ (share_refused g) h = Holds-unlocked t p
  Move-Holds p t u (share g) h = record {
    reads = λ r b i e. absurd (rdlck-unlck (sym (own g b i) ∙ e));
    reserves = λ r. absurd (omega arith);
    announces = λ r. absurd (omega arith);
    excludes = λ r. absurd (omega arith);
  }
  Move-Holds p t u (reserve g) h = record {
    reads = λ r. reads-below g (omega arith) h (omega arith);
    reserves = λ r. own g _ (omega arith, omega arith);
    announces = λ r. absurd (omega arith);
    excludes = λ r. absurd (omega arith);
  }
  Move-Holds p t u (announce g) h = record {
    reads = λ r. reads-below g (omega arith) h (omega arith);
    reserves = λ r. kept g _ (λ j. omega (arith, j.1)) ∙ h.reserves (omega arith);
    announces = λ r. own g _ (omega arith, omega arith);
    excludes = λ r. absurd (omega arith);
  }
  Move-Holds p t u (exclude g) h = record {
    reads = λ r b i e. absurd (wrlck-unlck (sym (own g b i) ∙ e));
    reserves = λ r. kept g _ (λ j. omega (arith, j.0)) ∙ h.reserves (omega arith);
    announces = λ r. kept g _ (λ j. omega (arith, j.0)) ∙ h.announces (omega arith);
    excludes = λ r. own g;
  }
  Move-Holds p t u (share_again g) h = record {
    reads = λ r b i e. absurd (rdlck-unlck (sym (own g b i) ∙ e));
    reserves = λ r. kept g _ (λ j. omega (arith, j.0)) ∙ h.reserves (omega arith);
    announces = λ r. kept g _ (λ j. omega (arith, j.0)) ∙ h.announces (omega arith);
    excludes = λ r. absurd (omega arith);
  }
  Move-Holds p t u (withdraw g) h = record {
    reads = λ r. reads-below g (omega arith) h (omega arith);
    reserves = λ r. kept g _ (λ j. omega (arith, j.1)) ∙ h.reserves (omega arith);
    announces = λ r. absurd (omega arith);
    excludes = λ r. absurd (omega arith);
  }
  Move-Holds p t u (unreserve g) h = record {
    reads = λ r. reads-below g (omega arith) h (omega arith);
    reserves = λ r. absurd (omega arith);
    announces = λ r. absurd (omega arith);
    excludes = λ r. absurd (omega arith);
  }
  Move-Holds p t u (unshare g) h = Holds-unlocked u p

  -- A move leaves the table, or it is a call that was granted.
  Move-calls :
      (p : ℕ) (t u : Table) {a b : Process}
      → Move locks p t a u b
      → (t ≡ u)
        ⊎ ((kind : LockKind) × (first : ℕ) × (len : ℕ) × (locks.set_lock p t kind first len
              ≡ some u))
  Move-calls p t u (probe g) = inr (_, _, _, g)
  Move-calls p t u (unprobe g) = inr (_, _, _, g)
  Move-calls p t _ (probe_kept g) = inl refl
  Move-calls p t _ (share_refused g) = inl refl
  Move-calls p t u (share g) = inr (_, _, _, g)
  Move-calls p t u (reserve g) = inr (_, _, _, g)
  Move-calls p t u (announce g) = inr (_, _, _, g)
  Move-calls p t u (exclude g) = inr (_, _, _, g)
  Move-calls p t u (share_again g) = inr (_, _, _, g)
  Move-calls p t u (withdraw g) = inr (_, _, _, g)
  Move-calls p t u (unreserve g) = inr (_, _, _, g)
  Move-calls p t u (unshare g) = inr (_, _, _, g)

  Step-Valid : {s s' : System Table} → Step locks s s' → Valid s → Valid s'
  Step-Valid {s} (pick p {u} {a} lt move) valid = record {
    holds = λ q. elim (ℕ_discrete p q) as (λ d. Holds u q (level_of (ite d a (s.processes q)))) [
      | yes same ↦
          subst (λ r. Holds u r (level_of a)) same (Move-Holds p s.table u move (valid.holds p))
      | no apart ↦ elim (Move-calls p s.table u move) [
        | inl e ↦ subst (λ v. Holds v q (level_of (s.processes q))) e (valid.holds q)
        | inr (kind, first, len, g) ↦
            Holds-other p q s.table u kind first len _ g (λ e. apart (sym e)) (valid.holds q)
      ]
    ];
    alone = elim (Move-calls p s.table u move) [
      | inl e ↦
          subst (λ v. (m q b : ℕ) → q ≢ m → locks.held v m b ≡ wrlck → locks.held v q b ≡ unlck) e
            valid.alone
      | inr (kind, first, len, g) ↦ set_lock-alone p s.table u kind first len g valid.alone
    ];
  }

  -- In every state that the processes reach, each has the locks of its level on the bytes of the
  -- ladder, and a write lock of one process is alone on its byte.
  pub Reach-Valid : {s : System Table} → Reach locks s → Valid s
  Reach-Valid (start t free) = record {
    holds = λ p. Holds-unlocked t p;
    alone = λ p q b apart h. free q b;
  }
  Reach-Valid (later reach step) = Step-Valid step (Reach-Valid reach)
