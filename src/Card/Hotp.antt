-- ===== src/Card/Hotp.antt =====
-- cardops/hotp.c: the event based HOTP token.
pub mod Search
pub mod Replay
use mathlib.Core.Option
use otpd.Base.{
  ℕ, ◌+◌, ◌*◌, ◌/◌, Bool, true, false, Option, none, some, List, [], ◌∷◌, ltb, if◌then◌else◌,
  length, take, Bytes, strcasecmp_eq,
}
use otpd.Crypto.{Crypto}
use otpd.Otp.{Rc, User, State, response_len}
use otpd.Cardops.{Cardops, Challenged, next}
use otpd.Xfunc.{a2nx, x2a, x2a_hex_conversion}
use otpd.HotpMac.{hotp_mac}
use otpd.Card.Counter.{next_counter}
use otpd.Card.Window

-- `card[]`: names and feature masks; OTP_CF_ES with the length in bits 4 to 8.
abbrev pub hotp_d : ℕ → Bytes
hotp_d digit = b'h' ∷ b'o' ∷ b't' ∷ b'p' ∷ b'-' ∷ b'd' ∷ digit ∷ []

abbrev pub hotp_cards : List (Bytes × ℕ)
hotp_cards =
    (hotp_d b'5', 4 + 5 * 16)
    ∷ (hotp_d b'6', 4 + 6 * 16)
    ∷ (hotp_d b'7', 4 + 7 * 16)
    ∷ (hotp_d b'8', 4 + 8 * 16)
    ∷ (hotp_d b'9', 4 + 9 * 16)
    ∷ []

-- The walk over `card[]`, which all token types share.
unfoldable pub find_mask : List (Bytes × ℕ) → Bytes → Option ℕ
unfolding strcasecmp_eq
find_mask [] card = none
find_mask ((name, fm) ∷ rest) card =
    if strcasecmp_eq card name then some fm else find_mask rest card

unfoldable pub name2fm : List (Bytes × ℕ) → User → State → Option (User × State)
unfolding find_mask
name2fm cards user state =
    Option.map (λ fm. (record user { featuremask = fm }, state)) (find_mask cards user.card)

-- A key of at least 128 bits; its length is kept for the response.
unfoldable pub hotp_keystring2key : User → State → Option (User × State)
unfolding a2nx
hotp_keystring2key user state =
    let l = length user.keystring in
    if ltb l 32
    then none
    else Option.map (λ key. (record user { key = key }, record state { scratch1 = l / 2 }))
        (a2nx user.keystring (l / 2))

unfoldable pub hotp_challenge : State → Bytes → Challenged
unfolding next_counter
hotp_challenge state challenge = next (record state { clen = 8 }) (next_counter challenge)

unfoldable pub hotp_response : Crypto → User → State → Bytes → Option Bytes
unfolding hotp_mac response_len
hotp_response crypto user state challenge =
    hotp_mac crypto challenge (take state.scratch1 user.key) (response_len user.featuremask)

abbrev pub hotp_cardops : Crypto → Cardops
hotp_cardops crypto = record {
  prefix = b'h' ∷ b'o' ∷ b't' ∷ b'p' ∷ [];
  name2fm = name2fm hotp_cards;
  keystring2key = hotp_keystring2key;
  nullstate = λ config user state when. none;
  challenge = λ user state challenge when twin ewin. hotp_challenge state challenge;
  response = λ user state challenge len time. hotp_response crypto user state challenge;
  updatecsd = λ state when twin ewin rc. Window.updatecsd state ewin rc;
  isconsecutive = λ user state ewin. Window.isconsecutive state ewin;
  maxtwin = λ user state when. some 0;
  printchallenge = λ challenge len. x2a (take len challenge) x2a_hex_conversion;
}
