-- ===== src/Tests/Header.antt =====
-- src/row/header.rs on the first page of a new database of 512-byte pages.
use db_storage.Prelude.{◌≡◌, ok, arith}
use db_storage.Header.{parse, new_empty_page1}
use db_storage.Header.Parse.{IsValid, parse-IsValid}
use db_storage.Header.Page1.{fresh_header, parse-new_empty_page1}

parse-new_empty_page1_example : parse (new_empty_page1 512) ≡ ok (fresh_header 512)
parse-new_empty_page1_example = parse-new_empty_page1 0 (omega arith)

parse-IsValid_example : IsValid (fresh_header 512)
parse-IsValid_example =
    parse-IsValid (new_empty_page1 512) (fresh_header 512) parse-new_empty_page1_example
