-- ===== src/Work.antt =====
-- work_thread.c: the requests of one connection are read, tested, handed to verify() and answered.
pub mod Stream
pub mod Thread
pub mod Fit
pub mod Convert
pub mod Served
use otpd.Base.{
  ℕ, ◌+◌, Bool, true, false, not, ◌&&◌, ◌||◌, if◌then◌else◌, ltb, ◌==◌, Option, none, some, List,
  [], ◌∷◌, Bytes, bytes_eq, cstr, get_or, strchr,
}
use otpd.Otp.{Chap, Pwe, pap, chap, mschap, mschap2, Request}

-- `otp_request_t`. Of the union's two sides only the one that `pwe` selects is read.
pub record RawRequest : Type 0 where
  pub username : Bytes
  pub challenge : Bytes
  pub pwe : ℕ
  pub passcode : Bytes
  pub chap : Chap
  pub allow_async : ℕ
  pub allow_sync : ℕ
  pub challenge_delay : ℕ
  pub resync : ℕ

-- `otp_request_v1_t`, where `pwe` has both.
pub record RequestV1 : Type 0 where
  pub username : Bytes
  pub challenge : Bytes
  pub pwe : ℕ
  pub passcode : Bytes
  pub chap : Chap
  pub allow_async : ℕ
  pub allow_sync : ℕ
  pub challenge_delay : ℕ
  pub resync : ℕ

-- The conversion to version 2, over the memory of the request before.
unfoldable pub convert_v1 : RawRequest → RequestV1 → RawRequest
convert_v1 old v1 = record {
  username = v1.username;
  challenge = v1.challenge;
  pwe = v1.pwe;
  passcode = if v1.pwe == 1 then v1.passcode else old.passcode;
  chap = if v1.pwe == 1 then old.chap else v1.chap;
  allow_async = v1.allow_async;
  allow_sync = v1.allow_sync;
  challenge_delay = v1.challenge_delay;
  resync = v1.resync;
}

-- The connection is closed, the reply is OTP_RC_AUTH_ERR, or verify() is called.
pub data Checked : Type 0 where
  closes : Checked
  auth_fails : Checked
  passes : Request → Checked

-- `strchr(s, c) != NULL`
unfoldable pub has_char : Bytes → ℕ → Bool
unfolding strchr
has_char s c = elim (strchr c s) [ none ↦ false | some _ ↦ true ]

unfoldable pub bad_charset : Bytes → Bool
unfolding has_char bytes_eq
bad_charset username =
    bytes_eq username (b'!' ∷ [])
    || (has_char username b'='
        || (has_char username b'<'
            || (has_char username b'>' || (has_char username b'*' || has_char username b'~'))))

-- The request that verify() gets, with one side of the union.
unfoldable pub request_of : RawRequest → Pwe → Request
unfolding cstr
request_of raw pwe = record {
  username = cstr raw.username;
  challenge = cstr raw.challenge;
  pwe = pwe;
  allow_async = not (raw.allow_async == 0);
  allow_sync = not (raw.allow_sync == 0);
  challenge_delay = raw.challenge_delay;
  resync = not (raw.resync == 0);
}

-- The cases of the switch over `pwe`.
unfoldable pub check_pap : RawRequest → Checked
unfolding request_of
check_pap raw =
    if not (get_or raw.passcode 47 0 == 0)
    then closes
    else passes (request_of raw (pap (cstr raw.passcode)))

unfoldable pub check_chap : RawRequest → Checked
unfolding request_of
check_chap raw =
    if ltb 16 raw.chap.clen
    then closes
    else if not (raw.chap.rlen == 17)
    then closes
    else passes (request_of raw (chap raw.chap))

unfoldable pub check_mschap : RawRequest → Checked
unfolding request_of
check_mschap raw =
    if not (raw.chap.clen == 8)
    then closes
    else if not (raw.chap.rlen == 50)
    then closes
    else if not (get_or raw.chap.response 1 0 == 1)
    then auth_fails
    else passes (request_of raw (mschap raw.chap))

unfoldable pub check_mschap2 : RawRequest → Checked
unfolding request_of
check_mschap2 raw =
    if not (raw.chap.clen == 16)
    then closes
    else if not (raw.chap.rlen == 50)
    then closes
    else passes (request_of raw (mschap2 raw.chap))

-- PWE_PAP, PWE_CHAP, PWE_MSCHAP and PWE_MSCHAP2
unfoldable pub check_pwe : RawRequest → Checked
unfolding check_pap check_chap check_mschap check_mschap2
check_pwe raw =
    if raw.pwe == 1
    then check_pap raw
    else if raw.pwe == 3
    then check_chap raw
    else if raw.pwe == 5
    then check_mschap raw
    else if raw.pwe == 7
    then check_mschap2 raw
    else closes

-- The tests of a request, in order.
unfoldable pub validate : RawRequest → Checked
unfolding bad_charset check_pwe
validate raw =
    if not (get_or raw.username 31 0 == 0)
    then closes
    else if bad_charset (cstr raw.username)
    then closes
    else if not (get_or raw.challenge 16 0 == 0)
    then closes
    else check_pwe raw
