-- ===== src/Base/Bits.antt =====
-- `&`, `|` and `^` at variables: digits, masks, disjoint fields and bounds.
mod Digit
mod Laws
mod Clear
pub use Digit.{and_digit, or_digit, xor_digit}
pub use Laws.*
pub use Clear.*
