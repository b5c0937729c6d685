-- ===== src/Net.antt =====
-- What the program uses of the standard library's `std::net`.
pub mod Ip
pub mod Address
