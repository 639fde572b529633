-- ===== src/Header/Parse.antt =====
-- What a header that `parse` accepts says.
use db_storage.Prelude.{ℕ, zero, suc, ◌-◌, ◌^◌, ◌≤◌, ◌<◌, ◌≡◌, refl, ◌∙◌}
use db_storage.Prelude.{List, [], ◌∷◌, length, arith, ltb, leb, ◌==◌, true, false, ◌||◌, not}
use db_storage.Prelude.{ok, Ensures, success, Ensures-bind, Ensures-ok, ◌⊎◌, inl, inr, Bool-cases}
use db_storage.Prelude.{slice?, ==_iff, from_be, Bool}
use db_storage.Header.{
  DatabaseHeader, HeaderError, parse, check, read_u8, read_u32, resolve_page_size,
}
use db_storage.Header.{header_len, magic, write, read, too_short, invalid_magic, invalid_page_size}
use db_storage.Header.{
  invalid_file_format_version, invalid_reserved_space, slice_is, text_encoding_of,
}
use db_storage.Header.{fields}
use db_storage.Header.{is_power_of_two, is_power_from, is_version, usable_page_size}

pub record IsValid (h : DatabaseHeader) : Type 0 where
  pub at_least_512 : 512 ≤ h.page_size
  pub power : (k : ℕ) × (k < 32) × (h.page_size ≡ 2 ^ k)
  pub write_version : (h.write_version ≡ 1) ⊎ (h.write_version ≡ 2)
  pub read_version : (h.read_version ≡ 1) ⊎ (h.read_version ≡ 2)
  pub usable : 1 ≤ usable_page_size h

is_power_from_sound : (n m : ℕ) → is_power_from n m ≡ true → (k : ℕ) × (k < n) × (m ≡ 2 ^ k)
unfolding is_power_from
is_power_from_sound zero m h = cc
is_power_from_sound (suc n) m h = elim (Bool-cases (m == 2 ^ n)) [
  | inl e ↦ (n, omega arith, (==_iff _ _).0 e)
  | inr ne ↦ let (k, lt, e) = is_power_from_sound n m (rw ne at h) in (k, omega arith, e)
]

check-eq-ok : (b : Bool) (e : HeaderError) {x : Unit {0}} → check b e ≡ ok x → b ≡ true
unfolding check
check-eq-ok true e h = refl
check-eq-ok false e h = cc

size_checks : (ps : ℕ) (b : Bool) → not (ltb ps 512 || not b) ≡ true → (512 ≤ ps) × (b ≡ true)
size_checks ps b h = ground arith

reserved_check : (ps rs : ℕ) → not (leb ps rs) ≡ true → 1 ≤ ps - rs
reserved_check ps rs h = ground arith

is_version-cases : (v : ℕ) → is_version v ≡ true → (v ≡ 1) ⊎ (v ≡ 2)
unfolding is_version
is_version-cases v h = ground arith

fields-IsValid :
    (ps wv rv rs : ℕ)
    → not (ltb ps 512 || not (is_power_of_two ps)) ≡ true
    → is_version wv ≡ true
    → is_version rv ≡ true
    → not (leb ps rs) ≡ true
    → (h : DatabaseHeader) → h.page_size ≡ ps
    → h.write_version ≡ wv
    → h.read_version ≡ rv
    → h.reserved_space ≡ rs
    → IsValid h
unfolding usable_page_size is_power_of_two
fields-IsValid ps wv rv rs c1 c2 c3 c4 h e1 e2 e3 e4 =
    let size = size_checks ps (is_power_of_two ps) c1 in
    let power : is_power_from 32 ps ≡ true = size.1 in
    let (k, lt, e) = is_power_from_sound 32 ps power in
    record {
      at_least_512 = omega (arith, size.0);
      power = (k, lt, e1 ∙ e);
      write_version = rw e2 (is_version-cases wv c2);
      read_version = rw e3 (is_version-cases rv c3);
      usable = rw (e1, e4) (reserved_check ps rs c4);
    }

-- The reads behind the checks leave the checked fields alone.
fields-Ensures :
    (buf : List ℕ) (ps wv rv rs : ℕ)
    → (P : DatabaseHeader → Type 0)
    → ((h : DatabaseHeader)
        → h.page_size ≡ ps
        → h.write_version ≡ wv
        → h.read_version ≡ rv
        → h.reserved_space ≡ rs
        → P h)
    → Ensures P (fields buf ps wv rv rs)
unfolding fields
fields-Ensures buf ps wv rv rs P holds = Ensures-bind (read_u32 buf 28) _ λ pc _.
    Ensures-bind (read_u32 buf 32) _ λ ft _. Ensures-bind (read_u32 buf 36) _ λ fc _.
      Ensures-bind (read_u32 buf 40) _ λ sc _. Ensures-bind (read_u32 buf 44) _ λ sf _.
        Ensures-bind (read_u32 buf 52) _ λ lr _. Ensures-bind (read_u32 buf 56) _ λ raw _.
          Ensures-bind (text_encoding_of raw) _ λ te _.
            Ensures-bind (read_u32 buf 60) _
              λ uv _. Ensures-bind (read_u32 buf 68) _ λ ai _. success (holds _ refl refl refl refl)

parse-Ensures : (buf : List ℕ) → Ensures IsValid (parse buf)
unfolding parse
parse-Ensures buf =
    Ensures-bind (check (not (ltb (length buf) header_len)) (too_short (length buf))) _ λ _ _.
      Ensures-bind (check (slice_is (slice? buf 0 16) magic) invalid_magic) _ λ _ _.
        Ensures-bind (read_u8 buf 16) _ λ b16 _. Ensures-bind (read_u8 buf 17) _ λ b17 _.
          let raw = from_be (b16 ∷ b17 ∷ []) in
          let ps = resolve_page_size raw in
          Ensures-bind
            (check (not (ltb ps 512 || not (is_power_of_two ps))) (invalid_page_size raw)) _
            λ _ size_ok. Ensures-bind (read_u8 buf 18) _ λ wv _.
              Ensures-bind (check (is_version wv) (invalid_file_format_version write wv)) _
                λ _ wv_ok. Ensures-bind (read_u8 buf 19) _ λ rv _.
                  Ensures-bind (check (is_version rv) (invalid_file_format_version read rv)) _
                    λ _ rv_ok. Ensures-bind (read_u8 buf 20) _ λ rs _.
                      Ensures-bind (check (not (leb ps rs)) (invalid_reserved_space rs ps)) _
                        λ _ rs_ok. fields-Ensures buf ps wv rv rs IsValid (λ h e1 e2 e3 e4.
                          fields-IsValid ps wv rv rs (check-eq-ok _ _ size_ok)
                            (check-eq-ok _ _ wv_ok) (check-eq-ok _ _ rv_ok) (check-eq-ok _ _ rs_ok)
                            h e1 e2 e3 e4)

-- A header that `parse` accepts has a power of two from 512 up as its page size, versions 1 or 2,
-- and at least one usable byte in a page.
pub parse-IsValid : (buf : List ℕ) (h : DatabaseHeader) → parse buf ≡ ok h → IsValid h
parse-IsValid buf h e = Ensures-ok (parse buf) (parse-Ensures buf) e
