-- ===== src/Libc.antt =====
-- What the program uses of the C library, over byte strings.
pub mod Chars
pub mod Decimal
pub mod Numbers
pub mod Fields
pub mod Files
pub mod Int
pub mod Format
pub mod Float
pub mod Sort
