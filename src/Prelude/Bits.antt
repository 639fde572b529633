-- ===== src/Prelude/Bits.antt =====
-- `|` of disjoint fields and `&` with a mask of low bits, as arithmetic.
use Prim.Native.Nat.{ℕ, zero, suc, ◌+◌, ◌*◌, ◌/◌, ◌%◌, ◌^◌, ◌-◌, ◌≤◌, ◌<◌, min, max}
use Prim.Native.Nat.{bit_and, bit_or, digits, bit_and-bitwise, bit_or-bitwise}
use mathlib.Core.Path.{◌≡◌, refl, ap, sym, ◌∙◌}
use mathlib.Core.Bool.{Bool, true, false}
use native.Mathlib.Omega.{arith}
use db_storage.Prelude.Tests.{◌==◌, ==_iff, Bool-cases, if◌then◌else◌}
use mathlib.Core.Logic.{inl, inr}
use native.Mathlib.Nat.{pow-suc, one-le-pow}

-- An operation on binary digits, lowest first: `digit` on two digits, `tail` once the first number
-- has run out.
module _ (tail : ℕ → ℕ) (digit : ℕ → ℕ → ℕ) where
  -- A round more than the first number has digits changes nothing.
  one_more :
      (rounds a b : ℕ)
      → a ≤ rounds
      → digits tail digit (suc rounds) a b ≡ digits tail digit rounds a b
  one_more zero zero b h = refl
  one_more zero (suc a) b h = absurd (omega arith)
  one_more (suc rounds) zero b h = refl
  one_more (suc rounds) (suc a) b h =
      let rest = one_more rounds (suc a / 2) (b / 2) (omega arith) in
      ap (λ t. t * 2 + digit (suc a % 2) (b % 2)) rest

  more_rounds : (k a b : ℕ) → digits tail digit (a + k) a b ≡ digits tail digit a a b
  more_rounds zero a b = let e : a + 0 ≡ a = omega arith in ap (λ n. digits tail digit n a b) e
  more_rounds (suc k) a b =
      let e : a + suc k ≡ suc (a + k) = omega arith in
      ap (λ n. digits tail digit n a b) e ∙ one_more (a + k) a b (omega arith) ∙ more_rounds k a b

  -- The lowest digit, and the operation on the others.
  lowest_digit :
      (a b : ℕ)
      → digits tail digit (suc a) (suc a) b
        ≡ digits tail digit (suc a / 2) (suc a / 2) (b / 2) * 2 + digit (suc a % 2) (b % 2)
  lowest_digit a b =
      let half = suc a / 2 in
      let e : a ≡ half + (a - half) = omega arith in
      ap (λ t. t * 2 + digit (suc a % 2) (b % 2))
        (ap (λ n. digits tail digit n half (b / 2)) e ∙ more_rounds (a - half) half (b / 2))

bit_and_halves : (a b : ℕ) → bit_and a b ≡ bit_and (a / 2) (b / 2) * 2 + min (a % 2) (b % 2)
bit_and_halves zero b =
    let none_here = bit_and-bitwise 0 b in omega (arith, none_here, bit_and-bitwise 0 (b / 2))
bit_and_halves (suc a) b =
    bit_and-bitwise (suc a) b
    ∙ lowest_digit (λ k. zero) min a b
    ∙ ap (λ t. t * 2 + min (suc a % 2) (b % 2)) (sym (bit_and-bitwise (suc a / 2) (b / 2)))

bit_or_halves : (a b : ℕ) → bit_or a b ≡ bit_or (a / 2) (b / 2) * 2 + max (a % 2) (b % 2)
bit_or_halves zero b =
    let rest = bit_or-bitwise 0 (b / 2) in omega (arith, bit_or-bitwise 0 b, rest)
bit_or_halves (suc a) b =
    bit_or-bitwise (suc a) b
    ∙ lowest_digit (λ k. k) max a b
    ∙ ap (λ t. t * 2 + max (suc a % 2) (b % 2)) (sym (bit_or-bitwise (suc a / 2) (b / 2)))

-- No bits on the right.
right_zero : (bound a : ℕ) → a ≤ bound → (bit_or a 0 ≡ a) × (bit_and a 0 ≡ 0)
right_zero bound zero h = (refl, refl)
right_zero zero (suc a) h = absurd (omega arith)
right_zero (suc bound) (suc a) h =
    let (same, none_left) = right_zero bound (suc a / 2) (omega arith) in
    (
      omega (arith, bit_or_halves (suc a) 0, same),
      omega (arith, bit_and_halves (suc a) 0, none_left),
    )

-- `(q << k) | r` where `r` fits in `k` bits.
pub bit_or_shifted : (k q r : ℕ) → r < 2 ^ k → bit_or (q * 2 ^ k) r ≡ q * 2 ^ k + r
bit_or_shifted zero q r h = ground (arith, (right_zero q q (omega arith)).0)
bit_or_shifted (suc k) q r h = ground (
  arith,
  pow-suc 2 k,
  ap (λ (t : ℕ). q * t) (pow-suc 2 k),
  bit_or_halves (q * 2 ^ suc k) r,
  bit_or_shifted k q (r / 2) (omega (arith, pow-suc 2 k)),
)

bit_and_parts : (k q r : ℕ) → r < 2 ^ k → bit_and (q * 2 ^ k + r) (2 ^ k - 1) ≡ r
bit_and_parts zero q r h = ground (arith, (right_zero q q (omega arith)).1)
bit_and_parts (suc k) q r h = ground (
  arith,
  pow-suc 2 k,
  one-le-pow k 2,
  ap (λ (t : ℕ). q * t) (pow-suc 2 k),
  bit_and_halves (q * 2 ^ suc k + r) (2 ^ suc k - 1),
  bit_and_parts k q (r / 2) (omega (arith, pow-suc 2 k)),
)

-- `a & (2^k - 1)`
pub bit_and_low : (k a : ℕ) → bit_and a (2 ^ k - 1) ≡ a % 2 ^ k
bit_and_low k a = ground (arith, one-le-pow k 2, bit_and_parts k (a / 2 ^ k) (a % 2 ^ k))

-- A test of `count` numbers, from `start` on.
passes : (ℕ → Bool) → ℕ → ℕ → Bool
passes test zero start = true
passes test (suc count) start =
    let rest = passes test count (start + 1) in if test start then rest else false

passes-at :
    (test : ℕ → Bool) (count start x : ℕ)
    → passes test count start ≡ true
    → start ≤ x
    → x < start + count
    → test x ≡ true
unfolding passes
passes-at test zero start x h lo hi = absurd (omega arith)
passes-at test (suc count) start x h lo hi = elim (Bool-cases (test start)) [
  | inr fails ↦ let e = (rw fails at h) in cc
  | inl passed ↦
      let e = (rw passed at h) in
      elim (Bool-cases (start == x)) [
        | inl here ↦ rw (sym ((==_iff start x).0 here)) passed
        | inr there ↦ passes-at test count (start + 1) x e (ground arith) (omega arith)
      ]
]

bytes_pass : passes (λ b. bit_and b 0x80 == b / 128 * 128) 256 0 ≡ true
unfolding passes
bytes_pass = refl

groups_pass : passes (λ b. bit_or b 0x80 == b + 128) 128 0 ≡ true
unfolding passes
groups_pass = refl

-- The top bit of a byte.
pub bit_and_high : (b : ℕ) → b < 256 → bit_and b 0x80 ≡ b / 128 * 128
bit_and_high b h = (==_iff _ _).0 (passes-at _ 256 0 b bytes_pass (omega arith) (omega arith))

-- Setting the top bit above a group of seven bits.
pub bit_or_high : (b : ℕ) → b < 128 → bit_or b 0x80 ≡ b + 128
bit_or_high b h = (==_iff _ _).0 (passes-at _ 128 0 b groups_pass (omega arith) (omega arith))
