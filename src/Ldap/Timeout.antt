-- ===== src/Ldap/Timeout.antt =====
-- userops/ldap.c, update_timeout() and the loop around the search.
use otpd.Base.{
  ℕ, ◌+◌, ◌-◌, ◌*◌, ◌/◌, ◌%◌, ◌≤◌, ◌<◌, ◌≡◌, arith, if◌then◌else◌, ltb, Option, none, some,
}

pub record Timeval : Type 0 where
  pub sec : ℕ
  pub usec : ℕ

-- What is left behind `hret` nanoseconds, or LDAP_TIMEOUT.
unfoldable pub update_timeout : Timeval → ℕ → Option Timeval
update_timeout tv hret =
    let micros = hret % 1000000 in
    let borrow = if ltb tv.usec micros then 1 else 0 in
    if ltb tv.sec (hret / 1000000000 + borrow)
    then none
    else some (record {
      sec = tv.sec - (hret / 1000000000 + borrow);
      usec = tv.usec + borrow * 1000000 - micros;
    })

-- The microseconds stay below a million.
pub update_timeout-lt :
    (tv left : Timeval) (hret : ℕ)
    → tv.usec < 1000000
    → update_timeout tv hret ≡ some left
    → (left.usec < 1000000) × (left.sec ≤ tv.sec)
unfolding update_timeout
update_timeout-lt tv left hret small e = ground (arith, e)

-- A whole number of milliseconds below a second is not subtracted at all.
pub update_timeout-lost :
    (tv : Timeval) (ms : ℕ) → ms < 1000 → update_timeout tv (ms * 1000000) ≡ some tv
unfolding update_timeout
update_timeout-lost tv ms small =
    let zero_micros : ms * 1000000 % 1000000 ≡ 0 = omega arith in
    let zero_secs : ms * 1000000 / 1000000000 ≡ 0 = omega arith in
    rw (zero_micros, zero_secs) (ground arith)
