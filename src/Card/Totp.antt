-- ===== src/Card/Totp.antt =====
-- cardops/totp.c and cardops/c200.c: the time based tokens.
pub mod Laws
use otpd.Base.{
  ℕ, ◌+◌, ◌-◌, ◌*◌, ◌/◌, ◌%◌, ◌^◌, Bool, true, Option, none, some, List, [], ◌∷◌, ltb,
  if◌then◌else◌, take, Bytes,
}
use otpd.Crypto.{Crypto}
use otpd.Otp.{User, State, response_len, u32}
use otpd.Cardops.{Cardops, next}
use otpd.Xfunc.{x2a, x2a_hex_conversion}
use otpd.HotpMac.{hotp_mac}
use otpd.Card.Counter.{counter_bytes}
use otpd.Card.Hotp.{name2fm, hotp_keystring2key}

-- `(uint64_t) ((int) t / step)`: an int from 2^31 on is negative, and C divides towards zero.
unfoldable pub int_steps : ℕ → ℕ → ℕ
int_steps t step =
    if ltb (u32 t) (2 ^ 31) then u32 t / step else (2 ^ 64 - (2 ^ 32 - u32 t) / step) % 2 ^ 64

-- The time step of totp: 30 seconds.
unfoldable pub totp_iv : ℕ → ℕ
unfolding int_steps
totp_iv t = int_steps t 30

-- The time step of c200: the next full minute.
unfoldable pub c200_iv : ℕ → ℕ
unfolding int_steps
c200_iv t = let t_rounding = 60 - t % 60 in int_steps (t + t_rounding) 60

-- The response at a step; c2c() is the 8 octets in network order.
unfoldable pub step_response : Crypto → User → State → ℕ → Option Bytes
unfolding hotp_mac counter_bytes response_len
step_response crypto user state iv =
    hotp_mac crypto (counter_bytes iv) (take state.scratch1 user.key)
      (response_len user.featuremask)

abbrev pub time_card : Bytes → ℕ → Bytes
time_card (a ∷ b ∷ c ∷ d ∷ _) digit = a ∷ b ∷ c ∷ d ∷ b'-' ∷ b'd' ∷ digit ∷ []
time_card prefix digit = prefix

abbrev pub time_cards : Bytes → List (Bytes × ℕ)
time_cards prefix =
    (time_card prefix b'6', 4 + 6 * 16)
    ∷ (time_card prefix b'7', 4 + 7 * 16)
    ∷ (time_card prefix b'8', 4 + 8 * 16)
    ∷ []

-- The operations that the two files have in common: every slot has the same challenge, every
-- position is consecutive, and nothing is saved.
abbrev pub time_cardops : Crypto → Bytes → (ℕ → ℕ) → Cardops
time_cardops crypto prefix iv = record {
  prefix = prefix;
  name2fm = name2fm (time_cards prefix);
  keystring2key = hotp_keystring2key;
  nullstate = λ config user state when. some state;
  challenge = λ user state challenge when twin ewin. next state challenge;
  response = λ user state challenge len time. step_response crypto user state (iv time);
  updatecsd = λ state when twin ewin rc. some state;
  isconsecutive = λ user state ewin. true;
  maxtwin = λ user state when. some 0;
  printchallenge = λ challenge len. x2a (take len challenge) x2a_hex_conversion;
}

abbrev pub totp_cardops : Crypto → Cardops
totp_cardops crypto = time_cardops crypto (b't' ∷ b'o' ∷ b't' ∷ b'p' ∷ []) totp_iv

abbrev pub c200_cardops : Crypto → Cardops
c200_cardops crypto = time_cardops crypto (b'c' ∷ b'2' ∷ b'0' ∷ b'0' ∷ []) c200_iv
