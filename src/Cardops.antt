-- ===== src/Cardops.antt =====
-- cardops.h: the operations of a token type, which verify() calls through pointers.
pub mod Book
use otpd.Base.{ℕ, Bool, Option, Bytes}
use otpd.Otp.{Rc, Config, User, State}

-- What `challenge()` returns: 0 with the next challenge, -2 for a slot too early, or -1.
pub data Challenged : Type 0 where
  next : State → Bytes → Challenged
  early : State → Bytes → Challenged
  failed : Challenged

-- `cardops_t`. An operation that fails returns `none`; one that changes the user or the state
-- returns the new value. The times are seconds, `response` is also told what time() returns.
pub record Cardops : Type 0 where
  pub prefix : Bytes
  pub name2fm : User → State → Option (User × State)
  pub keystring2key : User → State → Option (User × State)
  pub nullstate : Config → User → State → ℕ → Option State
  pub challenge : User → State → Bytes → ℕ → ℕ → ℕ → Challenged
  pub response : User → State → Bytes → ℕ → ℕ → Option Bytes
  pub updatecsd : State → ℕ → ℕ → ℕ → Rc → Option State
  pub isconsecutive : User → State → ℕ → Bool
  pub maxtwin : User → State → ℕ → Option ℕ
  pub printchallenge : Bytes → ℕ → Bytes
