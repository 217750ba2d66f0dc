-- ===== src/Cpp.antt =====
-- What the program uses of the C++ standard library: extraction from a stream of text, decimal
-- numbers, and searches in a `std::string`.
pub mod Stream
pub mod Decimal
pub mod Int
pub mod Lines
pub mod Hexadecimal
pub mod Sort
