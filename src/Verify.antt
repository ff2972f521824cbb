-- ===== src/Verify.antt =====
-- otp.c, verify(): one module for each part of the function, and the whole in `Session`.
pub mod Run
pub mod Setup
pub mod Fail
pub mod Frame
pub mod Async
pub mod Sync
pub mod Settle
pub mod Decide
pub mod Session
pub mod Refuse
pub mod Grant
pub mod OnGrant
pub mod Evidence
pub mod Lockout
pub mod Book
pub mod Release
pub mod Saved
pub mod Counting
pub mod Barred
pub mod Delay
pub mod Sentinel
