-- ===== src/Tests/Cards.antt =====
-- xfunc.c, hotp.c, cardops/hotp.c and decrypt(): the theorems at concrete inputs.
use otpd.Base.{◌+◌, ◌-◌, ◌%◌, ◌^◌, ◌≡◌, some, ◌++◌, ◌==◌, not, ◌&&◌, arith, replicate}
use otpd.Otp.{auth_err, State}
use otpd.Verify.Settle.{is_ok}
use otpd.Card.Counter.{counter_bytes, next_counter}
use otpd.Card.Counter.Laws.{next_counter_sign}
use otpd.Card.Window.{updatecsd, isconsecutive}
use otpd.Card.Window.Laws.{isconsecutive-updatecsd}
use otpd.Tests.{state}

next_counter_sign_example :
    next_counter (counter_bytes (2 ^ 31) ++ replicate 8 0)
    ≡ counter_bytes ((2 ^ 64 - 2 ^ 32 + (2 ^ 31) % 2 ^ 32 + 1) % 2 ^ 64) ++ replicate 8 0
next_counter_sign_example = next_counter_sign (2 ^ 31) (replicate 8 0) (omega arith) (omega arith)

isconsecutive-updatecsd_example :
    (saved : State) × (updatecsd (state 4) 3 auth_err ≡ some saved)
    × (isconsecutive saved 4 ≡ (not (is_ok auth_err) && (4 == 3 + 1)))
isconsecutive-updatecsd_example = isconsecutive-updatecsd (state 4) 3 4 auth_err (omega arith)
