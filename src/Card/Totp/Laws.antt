-- ===== src/Card/Totp/Laws.antt =====
-- cardops/totp.c and cardops/c200.c: time steps, and what verify() makes of a match.
use otpd.Base.{ℕ, ◌+◌, ◌*◌, ◌^◌, ◌≤◌, ◌<◌, arith}
use otpd.Crypto.{Crypto}
use otpd.Card.Totp.{int_steps, totp_iv, c200_iv}

-- At a time more than a minute below 2^31, the totp step is the half minute that the time lies in,
-- and the c200 step starts at the next full minute: later than the time, by 60 seconds at most.
pub steps_lem :
    (t : ℕ)
    → t + 60 < 2 ^ 31
    → (totp_iv t * 30 ≤ t)
      × (t < totp_iv t * 30 + 30)
      × (t < c200_iv t * 60)
      × (c200_iv t * 60 ≤ t + 60)
unfolding totp_iv c200_iv int_steps
steps_lem t early = (ground arith, ground arith, ground arith, ground arith)
