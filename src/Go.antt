-- ===== src/Go.antt =====
-- The parts of Go and its standard library that the driver uses: error values, integers in
-- decimal, bytes in hexadecimal.
pub mod Errors
pub mod Int
pub mod Decimal
pub mod Hex
