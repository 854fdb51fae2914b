-- ===== src/Libc.antt =====
-- What the programs use of the C library on strings: character classes, `strtok_r`, the number
-- readers of the `strtoul` family and decimal printing. A C string is a `Bytes` with no NUL.
mod Ctype
mod Tokens
mod Number
mod Decimal
unfoldable pub use Ctype.*
unfoldable pub use Tokens.*
unfoldable pub use Number.*
unfoldable pub use Decimal.*
