-- ===== src/Journal/Checksum.antt =====
-- `page_checksum`: the fuel of its loop is enough, and what it gives is a 32-bit word.
use db_storage.Prelude.{
  ℕ, zero, suc, ◌+◌, ◌-◌, ◌≤◌, ◌%◌, ◌^◌, ◌≡◌, refl, List, length, arith, IsU32,
}
use db_storage.Prelude.{ltb, ◌&&◌, false, Bool-cases, inl, inr, get_or, le→ltb}
use db_storage.Journal.{checksum_loop, page_checksum}

-- The loop of `page_checksum` ends in at most `idx` iterations: with that much fuel, more does not
-- change the sum.
pub checksum_loop-enough :
    (fuel more : ℕ) (page : List ℕ) (idx cksum : ℕ)
    → idx ≤ fuel
    → checksum_loop (fuel + more) page idx cksum ≡ checksum_loop fuel page idx cksum
unfolding checksum_loop
checksum_loop-enough zero zero page idx cksum h = refl
checksum_loop-enough zero (suc more) page idx cksum h =
    let stop : ltb 0 idx ≡ false = le→ltb 0 idx h in
    let e : 0 + suc more ≡ suc more = omega arith in rw (e, stop) refl
checksum_loop-enough (suc fuel) more page idx cksum h =
    let next =
      checksum_loop-enough fuel more page (idx - 200) ((cksum + get_or page idx 0) % 2 ^ 32) in
    let e : suc fuel + more ≡ suc (fuel + more) = omega arith in
    rw e elim (Bool-cases (ltb 0 idx && ltb idx (length page))) [
      | inl goes ↦ rw goes (next (omega arith))
      | inr stops ↦ rw stops refl
    ]

checksum_loop-IsU32 :
    (fuel : ℕ) (page : List ℕ) (idx cksum : ℕ)
    → IsU32 cksum
    → IsU32 (checksum_loop fuel page idx cksum)
unfolding checksum_loop
checksum_loop-IsU32 zero page idx cksum h = h
checksum_loop-IsU32 (suc fuel) page idx cksum h =
    ground (arith, checksum_loop-IsU32 fuel page (idx - 200) ((cksum + get_or page idx 0) % 2 ^ 32))

pub page_checksum-IsU32 :
    (nonce : ℕ) (page : List ℕ) → IsU32 nonce → IsU32 (page_checksum nonce page)
unfolding page_checksum
page_checksum-IsU32 nonce page h = checksum_loop-IsU32 (length page) page _ nonce h
