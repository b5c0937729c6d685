-- ===== src/Telegram.antt =====
-- src/modules/telegram.rs: what is specific to Telegram.
pub mod Cipher
pub mod Splitter
pub mod Init
pub mod Catalog
