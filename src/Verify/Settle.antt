-- ===== src/Verify/Settle.antt =====
-- otp.c, verify(): the state that is saved, from `auth_done` to `auth_done_service_err`.
use otpd.Base.{ℕ, ◌+◌, ◌-◌, ◌^◌, Bool, true, false, ◌==◌, if◌then◌else◌, Bytes, memcpy}
use otpd.Otp.{Rc, ok, State, u32}
use otpd.Verify.Frame.{Frame}

-- `- (int32_t) x` as a uint32_t
unfoldable pub negated : ℕ → ℕ
negated x = u32 (2 ^ 32 - u32 x)

-- `if (++failcount == UINT_MAX) failcount--`
unfoldable pub count_failure : ℕ → ℕ
count_failure failcount =
    let next = u32 (failcount + 1) in if next == 2 ^ 32 - 1 then next - 1 else next

unfoldable pub settle_ok : ℕ → Frame → State
settle_ok now frame =
    let state = frame.state in
    record state {
      challenge =
          if frame.resync
          then memcpy state.challenge frame.challenge state.clen
          else state.challenge;
      failcount = 0;
      authtime = u32 now;
      updated = true;
    }

unfoldable pub settle_failed : ℕ → Frame → State
unfolding negated count_failure
settle_failed now frame =
    let state = frame.state in
    record state {
      failcount = count_failure state.failcount;
      authtime = if state.nullstate then negated now else u32 now;
      updated = true;
    }

unfoldable pub is_ok : Rc → Bool
is_ok ok = true
is_ok _ = false

-- The block at `auth_done`: the state, and the passcode that the reply holds.
unfoldable pub settle : ℕ → Rc → Frame → Bytes → State × Bytes
unfolding settle_ok settle_failed is_ok
settle now rc frame old =
    if is_ok rc then (settle_ok now frame, frame.e_response) else (settle_failed now frame, old)
