-- ===== src/Verify/Frame.antt =====
-- otp.c, verify(): the locals that live across its blocks, and how the search for a response ends.
use otpd.Base.{ℕ, Bool, ◌++◌, if◌then◌else◌, Bytes, cstr}
use otpd.Otp.{Rc, Config, User, State}

-- `state`, `challenge`, `e_response` and `resync` where the search ends.
pub record Frame : Type 0 where
  pub state : State
  pub challenge : Bytes
  pub e_response : Bytes
  pub resync : Bool

-- `goto auth_done` with `rc`, `goto auth_done_service_err`, or undefined behaviour.
pub data Decision : Type 0 where
  decided : Rc → Frame → Decision
  failed : State → Decision
  undefined : Decision

-- What time() returns: at the start, where the async response is computed, and at each slot of the
-- window; and the nanoseconds that pass before each check of the time that is left.
pub record Times : Type 0 where
  pub now : ℕ
  pub async_time : ℕ
  pub sync_time : ℕ → ℕ → ℕ
  pub get_ns : ℕ
  pub state_ns : ℕ
  pub put_ns : ℕ

-- `e_response` once it holds the response and the PIN.
unfoldable pub expected : Config → User → Bytes → Bytes
unfolding cstr
expected config user response =
    if config.prepend_pin then cstr user.pin ++ response else response ++ cstr user.pin
