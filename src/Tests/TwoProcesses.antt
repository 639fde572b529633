-- ===== src/Tests/TwoProcesses.antt =====
-- Byte-range locks of two processes, as src/row/vfs/lock.rs asks fcntl for them: the kind of lock of
-- each on each byte.
use db_storage.Prelude.{
  ℕ, zero, suc, ◌+◌, ◌<◌, ◌≡◌, ◌≢◌, refl, sym, ◌∙◌, arith, some, none, Option, inl, inr, ltb, leb,
  ltb→lt, lt→ltb, leb→le, le→leb, Bool-cases, if◌then◌else◌, ◌&&◌,
}
use db_storage.Vfs.Lock.{LockKind, unlck, rdlck, wrlck, SetLock, GetLock}
use db_storage.Vfs.Lock.Processes.{Admits, InRange, RangeLocks}
use mathlib.Core.Option
use mathlib.Core.Path.{subst}
use native.Mathlib.Decide.{ℕ_discrete}

admits : (kind other : LockKind) → Dec (Admits kind other)
admits unlck other = yes refl
admits rdlck unlck = yes (λ e. absurd cc)
admits rdlck rdlck = yes (λ e. absurd cc)
admits rdlck wrlck = no (λ h. h refl)
admits wrlck unlck = yes refl
admits wrlck rdlck = no (λ h. absurd cc)
admits wrlck wrlck = no (λ h. absurd cc)

Admits-unlck : (kind : LockKind) → Admits kind unlck
Admits-unlck unlck = refl
Admits-unlck rdlck = λ e. absurd cc
Admits-unlck wrlck = refl

-- The kind of the first lock of the other process against a call, or `unlck`.
pub against : LockKind → (ℕ → LockKind) → ℕ → ℕ → LockKind
unfolding admits
against kind theirs first zero = unlck
against kind theirs first (suc len) = elim (admits kind (theirs first)) [
  | yes fits ↦ against kind theirs (first + 1) len
  | no clash ↦ theirs first
]

against-suc :
    (P : LockKind → Type 0) (kind : LockKind) (theirs : ℕ → LockKind) (first len : ℕ)
    → (Admits kind (theirs first) → P (against kind theirs (first + 1) len))
    → (¬ (Admits kind (theirs first)) → P (theirs first))
    → P (against kind theirs first (suc len))
unfolding against
against-suc P kind theirs first len fit clash =
    elim (admits kind (theirs first))
      as (λ d.
        P (elim d [ yes fits ↦ against kind theirs (first + 1) len | no n ↦ theirs first ])) [
          | yes fits ↦ fit fits
          | no n ↦ clash n
        ]

pub against-free :
    (kind : LockKind) (theirs : ℕ → LockKind) (first len : ℕ)
    → against kind theirs first len ≡ unlck
    → (b : ℕ) → InRange first len b
    → Admits kind (theirs b)
against-free kind theirs first zero = λ h b i. absurd (omega (arith, i))
against-free kind theirs first (suc len) =
    against-suc (λ k. k ≡ unlck → (b : ℕ) → InRange first (suc len) b → Admits kind (theirs b)) kind
      theirs first len
      (λ fits free b i. elim (ℕ_discrete first b) [
        | yes e ↦ subst (λ c. Admits kind (theirs c)) e fits
        | no n ↦
            against-free kind theirs (first + 1) len free b (omega (arith, i, n), omega (arith, i))
      ])
      (λ clash free. absurd (clash (subst (Admits kind) (sym free) (Admits-unlck kind))))

pub against-taken :
    (kind : LockKind) (theirs : ℕ → LockKind) (first len : ℕ)
    → against kind theirs first len ≢ unlck
    → (b : ℕ) × InRange first len b × ¬ (Admits kind (theirs b))
unfolding against
against-taken kind theirs first zero = λ h. absurd (h refl)
against-taken kind theirs first (suc len) =
    against-suc (λ k. k ≢ unlck → (b : ℕ) × InRange first (suc len) b × ¬ (Admits kind (theirs b)))
      kind theirs first len
      (λ fits taken.
        let (b, i, clash) = against-taken kind theirs (first + 1) len taken in
        (b, (omega (arith, i), omega (arith, i)), clash))
      (λ clash taken. (first, (omega arith, omega arith), clash))

against-all :
    (kind : LockKind) (theirs : ℕ → LockKind) (first len : ℕ)
    → ((b : ℕ) → InRange first len b → Admits kind (theirs b))
    → against kind theirs first len ≡ unlck
unfolding against
against-all kind theirs first zero h = refl
against-all kind theirs first (suc len) h =
    against-suc (λ k. k ≡ unlck) kind theirs first len
      (λ fits.
        against-all kind theirs (first + 1) len (λ b i. h b (omega (arith, i), omega (arith, i))))
      (λ clash. absurd (clash (h first (omega arith, omega arith))))

pub write_range : LockKind → ℕ → ℕ → (ℕ → LockKind) → ℕ → LockKind
write_range kind first len mine b = if leb first b && ltb b (first + len) then kind else mine b

grant : LockKind → (ℕ → LockKind) → LockKind → ℕ → ℕ → Option (ℕ → LockKind)
unfolding write_range
grant unlck mine kind first len = some (write_range kind first len mine)
grant rdlck mine kind first len = none
grant wrlck mine kind first len = none

pub record Both : Type 0 where
  pub one : ℕ → LockKind
  pub two : ℕ → LockKind

unfoldable pub held_by : Both → ℕ → ℕ → LockKind
held_by t zero = t.one
held_by t (suc zero) = t.two
held_by t (suc (suc p)) = λ _. unlck

-- What the other process holds.
pub other_than : Both → ℕ → ℕ → LockKind
other_than t zero = t.two
other_than t (suc p) = t.one

pub replaced : Both → ℕ → (ℕ → LockKind) → Both
replaced t zero mine = record { one = mine; two = t.two }
replaced t (suc p) mine = record { one = t.one; two = mine }

unfoldable pub set_lock_of : ℕ → SetLock Both
unfolding grant against held_by other_than replaced
set_lock_of zero t kind first len =
    Option.map (replaced t 0) (grant (against kind t.two first len) t.one kind first len)
set_lock_of (suc zero) t kind first len =
    Option.map (replaced t 1) (grant (against kind t.one first len) t.two kind first len)
set_lock_of (suc (suc p)) t kind first len = none

grant-some :
    (a kind : LockKind) (mine : ℕ → LockKind) (first len : ℕ) (f : (ℕ → LockKind) → Both) (u : Both)
    → Option.map f (grant a mine kind first len) ≡ some u
    → (a ≡ unlck) × (f (write_range kind first len mine) ≡ u)
unfolding grant
grant-some unlck kind mine first len f u h = (refl, cc)
grant-some rdlck kind mine first len f u h = absurd cc
grant-some wrlck kind mine first len f u h = absurd cc

pub set_lock_of-some :
    (p : ℕ) (t u : Both) (kind : LockKind) (first len : ℕ)
    → set_lock_of p t kind first len ≡ some u
    → (p < 2)
      × (against kind (other_than t p) first len ≡ unlck)
      × (replaced t p (write_range kind first len (held_by t p)) ≡ u)
unfolding set_lock_of
set_lock_of-some zero t u kind first len h =
    let (free, after) = grant-some _ kind t.one first len (replaced t 0) u h in
    (omega arith, free, after)
set_lock_of-some (suc zero) t u kind first len h =
    let (free, after) = grant-some _ kind t.two first len (replaced t 1) u h in
    (omega arith, free, after)
set_lock_of-some (suc (suc p)) t u kind first len h = absurd cc

pub held_by-replaced :
    (p : ℕ) (t : Both) (mine : ℕ → LockKind) (b : ℕ)
    → p < 2
    → held_by (replaced t p mine) p b ≡ mine b
unfolding held_by replaced
held_by-replaced zero t mine b h = refl
held_by-replaced (suc zero) t mine b h = refl
held_by-replaced (suc (suc p)) t mine b h = absurd (omega arith)

pub held_by-other :
    (p q : ℕ) (t : Both) (mine : ℕ → LockKind) (b : ℕ)
    → p < 2
    → q ≢ p
    → held_by (replaced t p mine) q b ≡ held_by t q b
unfolding held_by replaced
held_by-other zero zero t mine b h n = absurd (n refl)
held_by-other zero (suc zero) t mine b h n = refl
held_by-other zero (suc (suc q)) t mine b h n = refl
held_by-other (suc zero) zero t mine b h n = refl
held_by-other (suc zero) (suc zero) t mine b h n = absurd (n refl)
held_by-other (suc zero) (suc (suc q)) t mine b h n = refl
held_by-other (suc (suc p)) q t mine b h n = absurd (omega arith)

pub other_than-Admits :
    (p q : ℕ) (t : Both) (kind : LockKind) (b : ℕ)
    → p < 2
    → q ≢ p
    → Admits kind (other_than t p b)
    → Admits kind (held_by t q b)
unfolding held_by other_than
other_than-Admits zero zero t kind b h n a = absurd (n refl)
other_than-Admits zero (suc zero) t kind b h n a = a
other_than-Admits p (suc (suc q)) t kind b h n a = Admits-unlck kind
other_than-Admits (suc zero) zero t kind b h n a = a
other_than-Admits (suc zero) (suc zero) t kind b h n a = absurd (n refl)
other_than-Admits (suc (suc p)) q t kind b h n a = absurd (omega arith)

pub write_range-inside :
    (kind : LockKind) (first len : ℕ) (mine : ℕ → LockKind) (b : ℕ)
    → InRange first len b
    → write_range kind first len mine b ≡ kind
unfolding write_range
write_range-inside kind first len mine b i = rw (le→leb _ _ i.0, lt→ltb _ _ i.1) refl

pub write_range-outside :
    (kind : LockKind) (first len : ℕ) (mine : ℕ → LockKind) (b : ℕ)
    → ¬ (InRange first len b)
    → write_range kind first len mine b ≡ mine b
unfolding write_range
write_range-outside kind first len mine b o = elim (Bool-cases (leb first b)) [
  | inr low ↦ rw low refl
  | inl le ↦ elim (Bool-cases (ltb b (first + len))) [
    | inl lt ↦ absurd (o (leb→le _ _ le, ltb→lt _ _ lt))
    | inr high ↦ rw (le, high) refl
  ]
]

unfoldable pub get_lock_of : ℕ → GetLock Both
get_lock_of zero t kind first len = some (against kind t.two first len)
get_lock_of (suc zero) t kind first len = some (against kind t.one first len)
get_lock_of (suc (suc p)) t kind first len = none

pub get_lock_of-some :
    (p : ℕ) (t : Both) (kind other : LockKind) (first len : ℕ)
    → get_lock_of p t kind first len ≡ some other
    → (p < 2) × (against kind (other_than t p) first len ≡ other)
unfolding get_lock_of other_than
get_lock_of-some zero t kind other first len h = (omega arith, cc)
get_lock_of-some (suc zero) t kind other first len h = (omega arith, cc)
get_lock_of-some (suc (suc p)) t kind other first len h = absurd cc

-- The number of a process that is not `p`, with what it holds.
pub another : (p : ℕ) → ℕ
another zero = 1
another (suc p) = 0

pub held_by-another : (p : ℕ) (t : Both) (b : ℕ) → held_by t (another p) b ≡ other_than t p b
unfolding held_by another other_than
held_by-another zero t b = refl
held_by-another (suc p) t b = refl

pub another-apart : (p : ℕ) → another p ≢ p
unfolding another
another-apart zero e = absurd cc
another-apart (suc p) e = absurd cc

granted :
    (t : Both) (p : ℕ) (kind a : LockKind) (mine : ℕ → LockKind) (first len : ℕ)
    → a ≡ unlck
    → (u : Both) × (Option.map (replaced t p) (grant a mine kind first len) ≡ some u)
unfolding grant
granted t p kind unlck mine first len h = (_, refl)
granted t p kind rdlck mine first len h = absurd cc
granted t p kind wrlck mine first len h = absurd cc

pub set_lock_of-grants :
    (p : ℕ) (t : Both) (kind : LockKind) (first len : ℕ)
    → p < 2
    → ((q b : ℕ) → q ≢ p → InRange first len b → Admits kind (held_by t q b))
    → (u : Both) × (set_lock_of p t kind first len ≡ some u)
unfolding set_lock_of grant
set_lock_of-grants zero t kind first len lt h =
    granted t 0 kind (against kind t.two first len) _ first len
      (against-all kind t.two first len (λ b i. h 1 b (λ e. absurd cc) i))
set_lock_of-grants (suc zero) t kind first len lt h =
    granted t 1 kind (against kind t.one first len) _ first len
      (against-all kind t.one first len (λ b i. h 0 b (λ e. absurd cc) i))
set_lock_of-grants (suc (suc p)) t kind first len lt h = absurd (omega arith)

abbrev pub two_processes : RangeLocks Both 2
two_processes = record {
  held = held_by;
  set_lock = set_lock_of;
  set_lock-own = λ p t u kind first len b h i.
      let (lt, free, after) = set_lock_of-some p t u kind first len h in
      subst (λ v. held_by v p b ≡ kind) after
        (held_by-replaced p t _ b lt ∙ write_range-inside kind first len (held_by t p) b i);
  set_lock-outside = λ p t u kind first len b h o.
      let (lt, free, after) = set_lock_of-some p t u kind first len h in
      subst (λ v. held_by v p b ≡ held_by t p b) after
        (held_by-replaced p t _ b lt ∙ write_range-outside kind first len (held_by t p) b o);
  set_lock-other = λ p q t u kind first len b h n.
      let (lt, free, after) = set_lock_of-some p t u kind first len h in
      subst (λ v. held_by v q b ≡ held_by t q b) after (held_by-other p q t _ b lt n);
  set_lock-Admits = λ p q t u kind first len b h n i.
      let (lt, free, after) = set_lock_of-some p t u kind first len h in
      other_than-Admits p q t kind b lt n (against-free kind (other_than t p) first len free b i);
  set_lock-grants = set_lock_of-grants;
  get_lock = get_lock_of;
  get_lock-free = λ p q t kind first len b h n i.
      let (lt, free) = get_lock_of-some p t kind unlck first len h in
      other_than-Admits p q t kind b lt n (against-free kind (other_than t p) first len free b i);
  get_lock-taken = λ p t kind other first len h n.
      let (lt, taken) = get_lock_of-some p t kind other first len h in
      let (b, i, clash) = against-taken kind (other_than t p) first len (λ e. n (sym taken ∙ e)) in
      (
        another p,
        b,
        another-apart p,
        i,
        subst (λ k. ¬ (Admits kind k)) (sym (held_by-another p t b)) clash,
      );
}
