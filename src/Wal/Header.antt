-- ===== src/Wal/Header.antt =====
-- The header of a new log (src/row/pager/wal.rs) is read back.
use db_storage.Prelude.{
  ℕ, ◌*◌, ◌≤◌, ◌≡◌, refl, sym, ◌∙◌, ap, Bool, true, false, List, [], ◌∷◌, ◌++◌, some, arith, length,
  length-append, append_assoc, take, take-append, slice?, slice?-append, ok, IsU32, ltb, ◌==◌,
  ==_iff, le→ltb, get_elem?, be_bytes,
}
use db_storage.Header.{is_power_of_two}
use db_storage.Wal.{
  WalHeader, Sum, header_len, words, magic_of, is_native, checksummed, serialize, sum_eq, read_u32,
  read_u32_opt, checksum, parse, parse_fields, parse_sized, is_page_size, verified, new_header,
}
use db_storage.Wal.Words.{length-words, read_u32_opt-words, checksum-IsSum, IsSum}

pub words-append : (vs ws : List ℕ) → words vs ++ words ws ≡ words (vs ++ ws)
unfolding words
words-append [] ws = refl
words-append (v ∷ vs) ws =
    append_assoc (be_bytes 4 v) (words vs) (words ws)
    ∙ ap (λ l. be_bytes 4 v ++ l) (words-append vs ws)

pub sum_eq-same : (s : Sum) → sum_eq s s ≡ true
unfolding sum_eq
sum_eq-same (a, b) =
    let ea : (a == a) ≡ true = (==_iff a a).1 refl in
    let eb : (b == b) ≡ true = (==_iff b b).1 refl in rw (ea, eb) refl

-- The page sizes of the format.
abbrev pub IsPageSize : ℕ → Type 0
IsPageSize n = (512 ≤ n) × (n ≤ 65536) × (is_power_of_two n ≡ true)

abbrev first_fields : WalHeader → List ℕ
first_fields h =
    magic_of h.native_checksum ∷ h.version ∷ h.page_size ∷ h.checkpoint_seq ∷ h.salt1 ∷ h.salt2 ∷ []

abbrev fields_of : WalHeader → List ℕ
fields_of h =
    magic_of h.native_checksum
    ∷ h.version
    ∷ h.page_size
    ∷ h.checkpoint_seq
    ∷ h.salt1
    ∷ h.salt2
    ∷ h.header_checksum.0
    ∷ h.header_checksum.1
    ∷ []

serialize-words : (h : WalHeader) → serialize h ≡ words (fields_of h)
unfolding serialize checksummed
serialize-words h = words-append (first_fields h) (h.header_checksum.0 ∷ h.header_checksum.1 ∷ [])

length-checksummed : (h : WalHeader) → length (checksummed h) ≡ 24
unfolding checksummed
length-checksummed h = length-words (first_fields h)

pub length-serialize : (h : WalHeader) → length (serialize h) ≡ 32
length-serialize h = ap length (serialize-words h) ∙ length-words (fields_of h)

magic_of-IsU32 : (native : Bool) → IsU32 (magic_of native)
unfolding magic_of
magic_of-IsU32 true = omega arith
magic_of-IsU32 false = omega arith

is_native-magic_of : (native : Bool) → is_native (magic_of native) ≡ some native
unfolding is_native magic_of
is_native-magic_of true = refl
is_native-magic_of false = refl

read_u32-some :
    (buf : List ℕ) (start v : ℕ) → read_u32_opt buf start ≡ some v → read_u32 buf start ≡ ok v
unfolding read_u32
read_u32-some buf start v h = rw (read_u32, h) refl

-- The part that the checksum is of.
summed_part :
    (h : WalHeader) (rest : List ℕ) → slice? (serialize h ++ rest) 0 24 ≡ some (checksummed h)
unfolding serialize
summed_part h rest =
    let last = words (h.header_checksum.0 ∷ h.header_checksum.1 ∷ []) in
    ap (λ l. slice? l 0 24) (append_assoc (checksummed h) last rest)
    ∙ slice?-append [] (checksummed h) (last ++ rest) 0 24 refl (sym (length-checksummed h))

abbrev pub IsWalHeader : WalHeader → Type 0
IsWalHeader h =
    IsPageSize h.page_size
    × IsU32 h.version
    × IsU32 h.checkpoint_seq
    × IsU32 h.salt1
    × IsU32 h.salt2
    × IsSum h.header_checksum

module _ (from_ne_bytes : List ℕ → ℕ) where
  -- A header with its own checksum is read back, in front of any bytes.
  parse-serialize :
      (h : WalHeader) (rest : List ℕ)
      → IsWalHeader h
      → h.header_checksum ≡ checksum from_ne_bytes h.native_checksum (checksummed h) (0, 0)
      → parse from_ne_bytes (serialize h ++ rest) ≡ ok h
  unfolding parse parse_sized parse_fields
  parse-serialize h rest ((low, high, power), version, seq, salt1, salt2, (c1, c2)) sum =
      let all = serialize h ++ rest in
      let size = length-append (serialize h) rest in
      let long : ltb (length all) header_len ≡ false =
        le→ltb _ _ (omega (arith, size, length-serialize h)) in
      let word =
        λ (i v start : ℕ) (at : start ≡ 4 * i) (near : start ≤ 100)
            (here : get_elem? (fields_of h) i ≡ some v) (fits : IsU32 v).
          let part : read_u32_opt all start ≡ some v =
            ap (λ l. read_u32_opt (l ++ rest) start) (serialize-words h)
            ∙ read_u32_opt-words (fields_of h) rest i v start at near here fits in
          read_u32-some all start v part in
      let r0 =
        word 0 (magic_of h.native_checksum) 0 refl (omega arith) refl
          (magic_of-IsU32 h.native_checksum) in
      let r1 = word 1 h.version 4 refl (omega arith) refl version in
      let r2 = word 2 h.page_size 8 refl (omega arith) refl (omega arith) in
      let r3 = word 3 h.checkpoint_seq 12 refl (omega arith) refl seq in
      let r4 = word 4 h.salt1 16 refl (omega arith) refl salt1 in
      let r5 = word 5 h.salt2 20 refl (omega arith) refl salt2 in
      let r6 = word 6 h.header_checksum.0 24 refl (omega arith) refl c1 in
      let r7 = word 7 h.header_checksum.1 28 refl (omega arith) refl c2 in
      let summed = summed_part h rest in
      let small : ltb h.page_size 512 ≡ false = le→ltb _ _ low in
      let large : ltb 65536 h.page_size ≡ false = le→ltb _ _ high in
      let same : sum_eq (checksum from_ne_bytes h.native_checksum (checksummed h) (0, 0))
            (h.header_checksum.0, h.header_checksum.1)
          ≡ true =
        ap (λ s. sum_eq s h.header_checksum) (sym sum) ∙ sum_eq-same h.header_checksum in
      let sized : is_page_size h.page_size ≡ true =
        unfold is_page_size in rw (small, power, large) refl in
      let checked : verified (checksum from_ne_bytes h.native_checksum (checksummed h) (0, 0)) h
          ≡ ok h =
        unfold verified in rw same refl in
      let rest_ok : parse_fields from_ne_bytes all h.native_checksum h.page_size ≡ ok h =
        rw (parse_fields, r1, r3, r4, r5, r6, r7, summed) checked in
      rw (parse, long, r0, is_native-magic_of h.native_checksum, r2, parse_sized, sized) rest_ok

  -- `parse` reads back the header that `new` builds, in front of any bytes, where the page size is
  -- one of the format and the salts and the sequence number are 32-bit words.
  pub parse-new_header :
      (native : Bool) (page_size salt1 salt2 checkpoint_seq : ℕ) (rest : List ℕ)
      → IsPageSize page_size
      → IsU32 salt1
      → IsU32 salt2
      → IsU32 checkpoint_seq
      → parse from_ne_bytes
          (serialize (new_header from_ne_bytes native page_size salt1 salt2 checkpoint_seq) ++ rest)
        ≡ ok (new_header from_ne_bytes native page_size salt1 salt2 checkpoint_seq)
  unfolding new_header serialize checksummed
  parse-new_header native page_size salt1 salt2 checkpoint_seq rest sized s1 s2 seq =
      let h = new_header from_ne_bytes native page_size salt1 salt2 checkpoint_seq in
      let unsummed : WalHeader = record h { header_checksum = (0, 0) } in
      let first : take 24 (serialize unsummed) ≡ checksummed unsummed =
        ap (λ n. take n (serialize unsummed)) (sym (length-checksummed unsummed))
        ∙ take-append (checksummed unsummed) (words (0 ∷ 0 ∷ [])) in
      parse-serialize h rest
        (
          sized,
          omega arith,
          seq,
          s1,
          s2,
          checksum-IsSum from_ne_bytes native (take 24 (serialize unsummed)) (0, 0)
              (omega arith, omega arith),
        )
        (ap (λ bytes. checksum from_ne_bytes native bytes (0, 0)) first)
