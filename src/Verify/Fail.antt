-- ===== src/Verify/Fail.antt =====
-- otp.c, verify(): the fail condition, hard and soft.
use otpd.Base.{ℕ, ◌+◌, ◌-◌, ◌*◌, ◌^◌, not, ◌&&◌, Option, none, some, ◌==◌, leb, ltb, if◌then◌else◌}
use otpd.Otp.{Config, State, u32}

-- OTP_FC_FAIL_*
pub data Fc : Type 0 where
  fail_none fail_hard fail_soft : Fc

-- The delay in seconds that `fcount` failures beyond the limit bring.
unfoldable pub delay : ℕ → ℕ
delay fcount = if ltb 5 fcount then 32 * 2 ^ 6 else 2 ^ fcount * 2 ^ 6

-- The block that sets `fc`. From 2^31 on `fcount` is negative, and the shift is undefined.
unfoldable pub fail_condition : Config → State → ℕ → Option Fc
unfolding delay
fail_condition config state now =
    let fcount = state.failcount - config.softfail in
    let nextauth = u32 (state.authtime + delay fcount) in
    if not (config.hardfail == 0) && leb config.hardfail state.failcount
    then some fail_hard
    else if not (config.softfail == 0) && state.nullstate
    then some fail_soft
    else if not (config.softfail == 0) && leb config.softfail state.failcount
    then if leb (2 ^ 31) fcount
      then none
      else if ltb (u32 now) nextauth
      then some fail_soft
      else some fail_none
    else some fail_none
