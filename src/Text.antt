-- ===== src/Text.antt =====
-- The verbs of Go's `fmt` and `strconv` that the program prints with, over bytes:
-- %d (Decimal), %x (Hex), %q (Quote), and what it uses of `strings` (Search, Space).
pub mod Decimal
pub mod Hex
pub mod Quote
pub mod Search
pub mod Space
pub mod Dashed
