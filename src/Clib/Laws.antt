-- ===== src/Clib/Laws.antt =====
-- Laws of the library functions, for the parts of the program that write text and read it again.
pub mod Dates
pub mod Lines
pub mod Number
pub mod Tokens
pub mod Order
