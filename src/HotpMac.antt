-- ===== src/HotpMac.antt =====
-- hotp.c, hotp_mac(): the HOTP value of a counter.
pub mod Laws
use otpd.Base.{
  ℕ, zero, suc, ◌+◌, ◌-◌, ◌*◌, ◌/◌, ◌%◌, ◌^◌, Bool, ◌||◌, Option, none, some, ◌==◌, ltb,
  if◌then◌else◌, length, get_or, take, Bytes,
}
use otpd.Crypto.{Crypto}
use otpd.Stdio.{print_padded}

-- The dynamic binary code: 31 bits at the offset that the last octet names.
unfoldable pub dbc : Bytes → ℕ
dbc hmac =
    let offset = get_or hmac 19 0 % 16 in
    (get_or hmac offset 0 % 128) * 2 ^ 24
    + get_or hmac (offset + 1) 0 * 2 ^ 16
    + get_or hmac (offset + 2) 0 * 2 ^ 8
    + get_or hmac (offset + 3) 0

-- The digits of the code modulo `dmod[d]`, where the HMAC has its 20 octets.
unfoldable pub hotp_value : ℕ → Option Bytes → Option Bytes
unfolding dbc print_padded
hotp_value d none = none
hotp_value d (some hmac) =
    if length hmac == 20 then some (print_padded d (dbc hmac % 10 ^ d)) else none

-- `none` is -1.
unfoldable pub hotp_mac : Crypto → Bytes → Bytes → ℕ → Option Bytes
unfolding hotp_value
hotp_mac crypto counter key d =
    if ltb d 6 || ltb 9 d then none else hotp_value d (crypto.hmac_sha1 key (take 8 counter))
