-- ===== src/Verify/Setup.antt =====
-- otp.c, verify(): the blocks before the state is fetched.
use otpd.Base.{
  ℕ, ◌+◌, ◌-◌, Bool, true, false, not, ◌&&◌, Option, none, some, List, [], ◌∷◌, ◌++◌, ◌==◌, ltb,
  if◌then◌else◌, length, take, drop, Bytes, cstr, bytes_eq, strip_prefix, has_prefix_nocase,
}
use otpd.Crypto.{Crypto}
use otpd.Otp.{
  Rc, ok, auth_err, service_err, Pwe, pap, chap, mschap, mschap2, Request, Config, User, State,
  response_len, EncryptMode,
}
use otpd.Cardops.{Cardops}
use otpd.Xfunc.{a2x}
use otpd.Decrypt.{decrypt}
use otpd.Compare.{compare}
use otpd.Verify.Run.{
  Jump, auth_done, auth_done_service_err, undefined, Run, go, jump, ◌>>=◌, ◌>>◌, jump_if,
}

-- The card's operations: the first module whose prefix begins the card's name.
unfoldable pub find_cardops : List Cardops → Bytes → Option Cardops
unfolding has_prefix_nocase
find_cardops [] card = none
find_cardops (ops ∷ rest) card =
    if has_prefix_nocase ops.prefix card then some ops else find_cardops rest card

unfoldable pub is_pap : Pwe → Bool
is_pap (pap _) = true
is_pap _ = false

-- `request->pwe.u.pap.passcode` as a string, whatever side of the union is in use: the
-- challenge array is then read as text, and behind its 16 octets the low octet of `clen`.
unfoldable pub passcode : Pwe → Bytes
unfolding cstr
passcode (pap given) = given
passcode (chap c) = cstr (c.challenge ++ c.clen ∷ [])
passcode (mschap c) = cstr (c.challenge ++ c.clen ∷ [])
passcode (mschap2 c) = cstr (c.challenge ++ c.clen ∷ [])

-- `strncmp(s, prefix, strlen(prefix)) == 0`
unfoldable pub begins : Bytes → Bytes → Bool
unfolding strip_prefix
begins prefix s = elim (strip_prefix prefix s) [ none ↦ false | some _ ↦ true ]

abbrev pub md5_tag : Bytes
md5_tag = b'{' ∷ b'M' ∷ b'D' ∷ b'5' ∷ []

abbrev pub sha_tag : Bytes
sha_tag = b'{' ∷ b'S' ∷ b'H' ∷ b'A' ∷ []

-- The static password override, where the user has one: `rc` on the way to the exit. The
-- `strncmp()` tests stand as they are written: they hold where the tag is not there.
unfoldable pub static_password : Crypto → Request → User → Bytes → Rc
unfolding compare begins bytes_eq passcode is_pap
static_password crypto request user password =
    let given = passcode request.pwe in
    let matched =
      if not (begins md5_tag password)
      then bytes_eq (take 16 user.password_hash) (take 16 (crypto.md5 given))
      else if not (begins sha_tag password)
      then bytes_eq (take 20 user.password_hash) (take 20 (crypto.sha1 given))
      else compare crypto request password in
    if begins (b'{' ∷ []) password && not (is_pap request.pwe)
    then service_err
    else if matched
    then ok
    else auth_err

-- What the later blocks need of the user: `otp_len`, `pin_len` and the user with the PIN set.
pub record Ready : Type 0 where
  pub user : User
  pub state : State
  pub otp_len : ℕ
  pub pin_len : ℕ

-- The PIN modes: the PIN is what the passcode holds beside the response, and it is the key.
unfoldable pub pin_modes : Crypto → Config → Request → User → ℕ → ℕ → Bool → Run (User × ℕ)
unfolding decrypt
pin_modes crypto config request user otp_len pin_len hashed = do
  jump_if (not (is_pap request.pwe)) (auth_done_service_err service_err)
  jump_if (not (pin_len == 0)) (auth_done_service_err service_err)
  let given = passcode request.pwe
  jump_if (ltb (length given) otp_len) (auth_done auth_err)
  let pin_len' = length given - otp_len
  jump_if (ltb 16 pin_len') (auth_done auth_err)
  let pin = if config.prepend_pin then take pin_len' given else drop otp_len given
  let key = if hashed then crypto.md5 pin else pin
  go (record user { pin = pin; key = decrypt user.key key }, pin_len')

-- Decrypt the key block and the PIN, as the user's mode says.
unfoldable pub decrypt_user :
    Crypto → Config → Request → User → ℕ → ℕ → EncryptMode → Run (User × ℕ)
unfolding decrypt pin_modes
decrypt_user crypto config request user otp_len pin_len EncryptMode.pin =
    pin_modes crypto config request user otp_len pin_len false
decrypt_user crypto config request user otp_len pin_len EncryptMode.pinmd5 =
    pin_modes crypto config request user otp_len pin_len true
decrypt_user crypto config request user otp_len pin_len EncryptMode.keyid =
    let key = config.key user.keyid in
    go (record user { key = decrypt user.key key; pin = decrypt user.pin key }, pin_len)
decrypt_user crypto config request user otp_len pin_len EncryptMode.clear = go (user, pin_len)

unfoldable pub known_pin_len : EncryptMode → Bool
known_pin_len EncryptMode.pin = false
known_pin_len EncryptMode.pinmd5 = false
known_pin_len _ = true

abbrev pub or_jump : {A : Type 0} → Option A → Jump → Run A
or_jump none j = jump j
or_jump (some a) j = go a

-- From name2fm() to the test of the passcode's length. A PIN text that a2x() refuses gives
-- `pin_len` -1, and the NUL is then written before the array.
unfoldable pub setup : Crypto → Config → Request → Cardops → User → State → Run Ready
unfolding decrypt_user known_pin_len a2x is_pap passcode
setup crypto config request ops user state = do
  (user₁, state₁) ← or_jump (ops.name2fm user state) (auth_done_service_err service_err)
  let otp_len = response_len user₁.featuremask
  (user₂, state₂) ← or_jump (ops.keystring2key user₁ state₁) (auth_done_service_err service_err)
  pin ← or_jump (a2x user₂.pinstring) undefined
  let user₃ = record user₂ { pin = pin }
  (user₄, pin_len) ← decrypt_user crypto config request user₃ otp_len (length pin) user₃.encryptmode
  jump_if
      (known_pin_len user₄.encryptmode
        && (is_pap request.pwe && not (otp_len + pin_len == length (passcode request.pwe))))
      (auth_done auth_err)
  go (record { user = user₄; state = state₂; otp_len = otp_len; pin_len = pin_len })
