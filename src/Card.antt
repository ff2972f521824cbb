-- ===== src/Card.antt =====
-- cardops/: the token types.
pub mod Counter
pub mod Window
pub mod Hotp
pub mod X99Mac
pub mod Cryptocard
pub mod X99
pub mod Totp
pub mod Book
