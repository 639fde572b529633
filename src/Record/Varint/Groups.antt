-- ===== src/Record/Varint/Groups.antt =====
-- The bytes of a varint in plain arithmetic.
use db_storage.Prelude.{
  ℕ, zero, suc, ◌+◌, ◌-◌, ◌*◌, ◌/◌, ◌%◌, ◌^◌, ◌≤◌, ◌<◌, ◌≡◌, refl, ap, sym, ◌∙◌,
}
use db_storage.Prelude.{
  List, [], ◌∷◌, ◌++◌, length, All, IsByte, arith, ◌==◌, true, false, ◌&&◌, ltb, leb, Bool-cases,
  inl, inr, bit_and, bit_or,
}
use db_storage.Prelude.Bits.{bit_and_low, bit_or_high}
use db_storage.Record.Varint.{count_groups, group_count, emit_groups, emit_top56}
use native.Mathlib.Nat.{pow-suc, div-div-eq-div-mul, mul_comm}
use native.Mathlib.Decide.{dec_lt}
use native.Mathlib.Numerals.{towards_suc}

-- `n` groups of seven bits of `v`, each with the continuation bit, highest first.
unfoldable pub flagged : ℕ → ℕ → List ℕ
flagged zero v = []
flagged (suc n) v = (v / 128 ^ n % 128 + 128) ∷ flagged n v

pub length-flagged : (n v : ℕ) → length (flagged n v) ≡ n
unfolding flagged
length-flagged zero v = refl
length-flagged (suc n) v = ap suc (length-flagged n v)

pub flagged-IsByte : (n v : ℕ) → All IsByte (flagged n v)
unfolding flagged
flagged-IsByte zero v = tt
flagged-IsByte (suc n) v = (omega arith, flagged-IsByte n v)

pub two_pow_seven : (n : ℕ) → 2 ^ (7 * n) ≡ 128 ^ n
two_pow_seven zero = refl
two_pow_seven (suc n) =
    let e : 7 * suc n ≡ 7 * n + 7 = omega arith in
    let step : 2 ^ (7 * n + 7) ≡ 128 * 2 ^ (7 * n) = simp towards_suc (omega arith) in
    ap (λ k. 2 ^ k) e ∙ step ∙ omega (arith, two_pow_seven n, pow-suc 128 n)

pub div_step : (v n : ℕ) → v / 128 ^ suc n ≡ v / 128 ^ n / 128
div_step v n = ap (λ k. v / k) (pow-suc 128 n) ∙ sym (div-div-eq-div-mul v (128 ^ n) 128)

pub div_first : (v n : ℕ) → v / 128 ^ suc n ≡ v / 128 / 128 ^ n
div_first v n =
    ap (λ k. v / k) (pow-suc 128 n ∙ mul_comm (128 ^ n) 128)
    ∙ sym (div-div-eq-div-mul v 128 (128 ^ n))

-- The group that is `7 * n` bits up.
group_at : (v n shift : ℕ) → shift ≡ 7 * n → bit_and (v / 2 ^ shift) 0x7f % 256 ≡ v / 128 ^ n % 128
group_at v n shift e =
    let whole : v / 2 ^ shift ≡ v / 128 ^ n =
      ap (λ k. v / 2 ^ k) e ∙ ap (λ k. v / k) (two_pow_seven n) in
    rw whole (omega (arith, bit_and_low 7 (v / 128 ^ n)))

flagged_at :
    (v n shift : ℕ)
    → shift ≡ 7 * n
    → bit_or (bit_and (v / 2 ^ shift) 0x7f % 256) 0x80 ≡ v / 128 ^ n % 128 + 128
flagged_at v n shift e = rw (group_at v n shift e) (bit_or_high _ (omega arith))

-- The short form: flagged groups, and the lowest group without the continuation bit.
pub emit_groups-flagged :
    (n i groups value : ℕ)
    → groups ≡ i + suc n
    → emit_groups (suc n) i groups value ≡ flagged n (value / 128) ++ (value % 128 ∷ [])
unfolding emit_groups flagged
emit_groups-flagged zero i groups value e =
    let last : (i == groups - 1) ≡ true = ground arith in
    rw (last, group_at value 0 (7 * (groups - 1 - i)) (omega arith))
      (ap (λ b. b ∷ []) (omega arith))
emit_groups-flagged (suc n) i groups value e =
    let inner : (i == groups - 1) ≡ false = ground arith in
    let head : value / 128 ^ suc n % 128 + 128 ≡ value / 128 / 128 ^ n % 128 + 128 =
      ap (λ k. k % 128 + 128) (div_first value n) in
    rw (inner, flagged_at value (suc n) (7 * (groups - 1 - i)) (omega arith), head)
      (ap (λ t. (value / 128 / 128 ^ n % 128 + 128) ∷ t)
        (emit_groups-flagged n (i + 1) groups value (omega arith)))

-- The first eight bytes of the 9-byte form.
pub emit_top56-flagged : (n i top56 : ℕ) → 8 ≡ i + n → emit_top56 n i top56 ≡ flagged n top56
unfolding emit_top56 flagged
emit_top56-flagged zero i top56 e = refl
emit_top56-flagged (suc n) i top56 e =
    rw (flagged_at top56 n (7 * (7 - i)) (omega arith)) (
      ap (λ t. (top56 / 128 ^ n % 128 + 128) ∷ t)
        (emit_top56-flagged n (i + 1) top56 (omega arith)))

-- `g` groups hold the value, and fewer do not.
pub record IsLeastCount (value g : ℕ) : Type 0 where
  pub one_le : 1 ≤ g
  pub le_eight : g ≤ 8
  pub fits : value < 2 ^ (7 * g)
  pub needed : 1 < g → 2 ^ (7 * (g - 1)) ≤ value

-- What the loop ends at.
count_groups-IsLeastCount :
    (fuel value groups : ℕ)
    → 1 ≤ groups
    → groups ≤ 8
    → 8 < groups + fuel
    → value < 2 ^ 56
    → (1 < groups → 2 ^ (7 * (groups - 1)) ≤ value)
    → IsLeastCount value (count_groups fuel value groups)
unfolding count_groups
count_groups-IsLeastCount zero value groups lo hi enough small least = absurd (omega arith)
count_groups-IsLeastCount (suc fuel) value groups lo hi enough small least =
    elim (Bool-cases (ltb groups 8 && leb (2 ^ (7 * groups)) value)) [
      | inl more ↦
          let below : groups < 8 = ground arith in
          let reached : 2 ^ (7 * groups) ≤ value = ground arith in
          let back : groups + 1 - 1 ≡ groups = omega arith in
          rw more (
            count_groups-IsLeastCount fuel value (groups + 1) (omega arith) (omega arith)
              (omega arith) small (λ _. rw back reached))
      | inr stop ↦ rw stop (record {
        one_le = lo;
        le_eight = hi;
        fits = elim (dec_lt groups 8) [
          | yes below ↦ ground arith
          | no top ↦ let e : groups ≡ 8 = omega arith in rw e small
        ];
        needed = least;
      })
    ]

pub group_count-IsLeastCount : (value : ℕ) → value < 2 ^ 56 → IsLeastCount value (group_count value)
unfolding group_count
group_count-IsLeastCount value small =
    count_groups-IsLeastCount 8 value 1 (omega arith) (omega arith) (omega arith) small
      (λ h. absurd (omega arith))
