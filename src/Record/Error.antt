-- ===== src/Record/Error.antt =====
-- src/row/record/error.rs: why a record does not decode.
use db_storage.Prelude.{ℕ}

pub data RecordError : Type 0 where
  unexpected_eof : ℕ → RecordError
  header_too_short : ℕ → ℕ → RecordError
  header_overrun : ℕ → ℕ → RecordError
  trailing_data : ℕ → RecordError
  invalid_utf8 : RecordError
  invalid_utf16 : RecordError
