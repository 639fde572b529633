-- ===== src/Vfs/PageSource.antt =====
-- src/row/vfs/page_source.rs: whole pages of a file.
use db_storage.Prelude.{ℕ, ◌-◌, List}
use db_storage.Prelude.{length, sat_mul, ◌==◌}
use db_storage.Prelude.{if◌then◌else◌, Result, ok, err, not}
use db_storage.Vfs.Memory.{read_at, write_at}

pub data PageError : Type 0 where
  invalid_page_number : PageError
  short_read : ℕ → ℕ → ℕ → PageError
  wrong_length : ℕ → ℕ → ℕ → PageError

-- `(page_num - 1) * page_size`, saturating.
abbrev pub page_offset : ℕ → ℕ → ℕ
page_offset page_size page_num = sat_mul (page_num - 1) page_size

unfoldable pub read_page : List ℕ → ℕ → ℕ → Result PageError (List ℕ)
unfolding read_at
read_page file page_size page_num =
    if page_num == 0
    then err invalid_page_number
    else let bytes = read_at file page_size (page_offset page_size page_num) in
      if length bytes == page_size
      then ok bytes
      else err (short_read page_num page_size (length bytes))

-- The file after the write.
unfoldable pub write_page : List ℕ → ℕ → ℕ → List ℕ → Result PageError (List ℕ)
unfolding write_at
write_page file page_size page_num bytes =
    if page_num == 0
    then err invalid_page_number
    else if not (length bytes == page_size)
    then err (wrong_length page_num page_size (length bytes))
    else ok (write_at file bytes (page_offset page_size page_num))
