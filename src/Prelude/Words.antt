-- ===== src/Prelude/Words.antt =====
-- Bytes, big-endian words and the saturating arithmetic of the machine integers.
use Prim.Native.Nat.{ℕ, zero, suc, ◌+◌, ◌*◌, ◌/◌, ◌%◌, ◌^◌, ◌<◌, min}
use mathlib.Core.Path.{◌≡◌, refl, ap}
use mathlib.Core.List.{List, [], ◌∷◌, ◌++◌}
use native.Mathlib.Omega.{arith}
use native.Mathlib.Nat.{pow-suc}
use db_storage.Prelude.Lists.{length, All, length-append, All-append}

abbrev pub IsByte : ℕ → Type 0
IsByte b = b < 256

abbrev pub IsU16 : ℕ → Type 0
IsU16 v = v < 2 ^ 16

abbrev pub IsU32 : ℕ → Type 0
IsU32 v = v < 2 ^ 32

abbrev pub IsU64 : ℕ → Type 0
IsU64 v = v < 2 ^ 64

-- `usize` and `u64` have 64 bits.
abbrev pub u64_max : ℕ
u64_max = 0xffff_ffff_ffff_ffff

abbrev pub u32_max : ℕ
u32_max = 0xffff_ffff

-- `saturating_add` and `saturating_mul` on `usize` and `u64`; `saturating_sub` is `-`.
abbrev pub sat_add : ℕ → ℕ → ℕ
sat_add a b = min (a + b) u64_max

abbrev pub sat_mul : ℕ → ℕ → ℕ
sat_mul a b = min (a * b) u64_max

-- `saturating_add` on `u32`
abbrev pub sat_add32 : ℕ → ℕ → ℕ
sat_add32 a b = min (a + b) u32_max

-- `to_be_bytes` of an unsigned word of `k` bytes, the most significant first.
unfoldable pub be_bytes : ℕ → ℕ → List ℕ
be_bytes zero v = []
be_bytes (suc k) v = be_bytes k (v / 256) ++ ((v % 256) ∷ [])

-- `from_be_bytes`
unfoldable pub from_be_acc : ℕ → List ℕ → ℕ
from_be_acc acc [] = acc
from_be_acc acc (b ∷ bs) = from_be_acc (acc * 256 + b) bs

unfoldable pub from_be : List ℕ → ℕ
unfolding from_be_acc
from_be bs = from_be_acc 0 bs

pub length-be_bytes : (k v : ℕ) → length (be_bytes k v) ≡ k
unfolding be_bytes
length-be_bytes zero v = refl
length-be_bytes (suc k) v =
    omega
      (arith, length-append (be_bytes k (v / 256)) ((v % 256) ∷ []), length-be_bytes k (v / 256))

pub be_bytes-IsByte : (k v : ℕ) → All IsByte (be_bytes k v)
unfolding be_bytes
be_bytes-IsByte zero v = tt
be_bytes-IsByte (suc k) v =
    All-append IsByte (be_bytes k (v / 256)) ((v % 256) ∷ []) (be_bytes-IsByte k (v / 256))
      (omega arith, tt)

from_be_acc-append :
    (acc : ℕ) (bs : List ℕ) (b : ℕ)
    → from_be_acc acc (bs ++ (b ∷ [])) ≡ from_be_acc acc bs * 256 + b
unfolding from_be_acc
from_be_acc-append acc [] b = refl
from_be_acc-append acc (x ∷ bs) b = from_be_acc-append (acc * 256 + x) bs b

-- A word of `k` bytes is read back.
pub from_be-be_bytes : (k v : ℕ) → v < 256 ^ k → from_be (be_bytes k v) ≡ v
unfolding from_be be_bytes from_be_acc
from_be-be_bytes zero v h = omega arith
from_be-be_bytes (suc k) v h = omega (
  arith,
  pow-suc 256 k,
  from_be_acc-append 0 (be_bytes k (v / 256)) (v % 256),
  from_be-be_bytes k (v / 256) (omega (arith, pow-suc 256 k)),
)

-- What `k` bytes can say is below `256 ^ k`.
from_be_acc_lt :
    (acc : ℕ) (bs : List ℕ) (m : ℕ)
    → All IsByte bs
    → acc < m
    → from_be_acc acc bs < m * 256 ^ length bs
unfolding from_be_acc
from_be_acc_lt acc [] m h hm = omega arith
from_be_acc_lt acc (b ∷ bs) m (hb, hbs) hm = omega (
  arith,
  ap (λ (t : ℕ). m * t) (pow-suc 256 (length bs)),
  from_be_acc_lt (acc * 256 + b) bs (m * 256) hbs (omega arith),
)

pub from_be_lt : (bs : List ℕ) → All IsByte bs → from_be bs < 256 ^ length bs
unfolding from_be
from_be_lt bs h = omega (arith, from_be_acc_lt 0 bs 1 h (omega arith))
