-- ===== src/Store.antt =====
-- state.c: the saved state of a user, its text, its file and its lock.
pub mod Text
pub mod File
pub mod Local
pub mod Global
pub mod Fetched
pub mod Session
pub mod Released
pub mod Single
