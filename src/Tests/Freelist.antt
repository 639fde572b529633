-- ===== src/Tests/Freelist.antt =====
-- src/row/pager/freelist.rs: a trunk page with two leaves.
use db_storage.Prelude.{ℕ, ◌≡◌, List, [], ◌∷◌, length, replicate, ok, arith}
use db_storage.Freelist.{TrunkPage, parse, write}
use db_storage.Freelist.Trunk.{parse-write}

abbrev trunk : TrunkPage
trunk = record { next_trunk = 4; leaves = 9 ∷ 7 ∷ [] }

parse-write_example :
    (page : List ℕ) × (write trunk (replicate 32 1) ≡ ok page)
    × (length page ≡ 32)
    × (parse page ≡ ok trunk)
parse-write_example =
    parse-write trunk (replicate 32 1) (omega arith, (omega arith, (omega arith, tt))) (omega arith)
      (omega arith)
