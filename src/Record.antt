-- ===== src/Record.antt =====
-- src/row/record: the record format, varints, serial types and whole records.
pub mod Error
pub mod Varint
pub mod Value
pub mod Decode
pub mod Encode
pub mod RoundTrip
