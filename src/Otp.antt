-- ===== src/Otp.antt =====
-- otp.h, extern.h and cardops.h: the requests, replies, settings, users and states of otpd.
use otpd.Base.{ℕ, ◌/◌, ◌%◌, ◌^◌, Bool, ◌||◌, Option, ◌==◌, Bytes}

-- OTP_RC_*
pub data Rc : Type 0 where
  ok user_unknown authinfo_unavail auth_err maxtries service_err nextpasscode ipin : Rc

-- The `chap` side of the request's union. `challenge` holds 16 octets and `response` 50.
pub record Chap : Type 0 where
  pub challenge : Bytes
  pub clen : ℕ
  pub response : Bytes
  pub rlen : ℕ

-- `otp_pwe_t` with the side of the union that it selects.
pub data Pwe : Type 0 where
  pap : Bytes → Pwe
  chap : Chap → Pwe
  mschap : Chap → Pwe
  mschap2 : Chap → Pwe

-- A validated `otp_request_t`: its texts are the strings that its arrays hold.
pub record Request : Type 0 where
  pub username : Bytes
  pub challenge : Bytes
  pub pwe : Pwe
  pub allow_async : Bool
  pub allow_sync : Bool
  pub challenge_delay : ℕ
  pub resync : Bool

pub record Reply : Type 0 where
  pub rc : Rc
  pub passcode : Bytes

-- EMODE_*
pub data EncryptMode : Type 0 where
  clear pin pinmd5 keyid : EncryptMode

-- SMODE_*
pub data StateMode : Type 0 where
  local global : StateMode

-- The part of `config_t` that the modelled code reads. `key` is the table of otppasswd keys, and
-- `timeout` counts nanoseconds.
pub record Config : Type 0 where
  pub hardfail : ℕ
  pub softfail : ℕ
  pub timeout : ℕ
  pub prepend_pin : Bool
  pub ewindow_size : ℕ
  pub rwindow_size : ℕ
  pub site_transform : Bool
  pub key : ℕ → Bytes
  pub mode : StateMode
  pub file_encryptmode : EncryptMode
  pub file_keyid : ℕ
  pub file_gsmd : Bytes

-- `user_t` without its pointer to the card's operations. `key` holds the octets that
-- `keystring2key` has converted, and `pin` the octets of the PIN.
pub record User : Type 0 where
  pub username : Bytes
  pub card : Bytes
  pub featuremask : ℕ
  pub keystring : Bytes
  pub key : Bytes
  pub pinstring : Bytes
  pub pin : Bytes
  pub gsmd : Bytes
  pub keyid : ℕ
  pub encryptmode : EncryptMode
  pub password : Option Bytes
  pub password_hash : Bytes
  pub rwindow_size : ℕ

-- `state_t` without the handles of the lock or the connection. `challenge` is the array of 16
-- octets, of which the first `clen` count.
pub record State : Type 0 where
  pub locked : Bool
  pub nullstate : Bool
  pub updated : Bool
  pub clen : ℕ
  pub challenge : Bytes
  pub csd : Bytes
  pub rd : Bytes
  pub failcount : ℕ
  pub authtime : ℕ
  pub mincardtime : ℕ
  pub scratch1 : ℕ

-- `(uint32_t) x`
abbrev pub u32 : ℕ → ℕ
u32 x = x % 2 ^ 32

-- The feature mask: OTP_CF_AM, OTP_CF_SM, OTP_CF_LEN, OTP_CF_FRW, OTP_CF_ES and a vendor's bit.
unfoldable pub has_bit : ℕ → ℕ → Bool
has_bit fm k = (fm / 2 ^ k) % 2 == 1

unfoldable pub async_mode : ℕ → Bool
unfolding has_bit
async_mode fm = has_bit fm 1

unfoldable pub event_sync : ℕ → Bool
unfolding has_bit
event_sync fm = has_bit fm 2

unfoldable pub sync_mode : ℕ → Bool
unfolding has_bit
sync_mode fm = has_bit fm 2 || has_bit fm 3

unfoldable pub response_len : ℕ → ℕ
response_len fm = (fm / 2 ^ 4) % 2 ^ 5

unfoldable pub fixed_window : ℕ → ℕ
fixed_window fm = (fm / 2 ^ 9) % 2 ^ 4
