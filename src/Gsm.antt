-- ===== src/Gsm.antt =====
-- gsm.h, and what state.c and failover_thread.c share: a message to a state manager is a nonce of
-- 16 octets, the encrypted text, and a MAC of 16 octets.
pub mod Packet
pub mod Exchange
pub mod Accepted
pub mod Replied
pub mod Ends
pub mod Signal
pub mod Message
pub mod Text
pub mod Sealed
use otpd.Base.{
  ℕ, ◌+◌, ◌-◌, ◌*◌, ◌/◌, ◌%◌, Option, none, some, List, [], ◌++◌, ◌∷◌, if◌then◌else◌, length,
  replicate, Bytes, get_or, bytes_eq, Bool, true, false, not, ◌&&◌, ◌||◌, ltb, ◌==◌, take, drop,
  strip_prefix, cstr, memcpy,
}
use otpd.Word.{le_bytes}
use otpd.Helix.{Scontext}
use otpd.Helix.Key.{helix_nonce}
use otpd.Helix.Cipher.{helix_encrypt, helix_decrypt}

-- The size of a message buffer: GSM_ULTRA_MSG_LEN. A text is at most GSM_MAX_MSG_LEN octets.
abbrev pub ultra_msg_len : ℕ
ultra_msg_len = 968

abbrev pub max_msg_len : ℕ
max_msg_len = 936

-- `ROUND4(n)`
unfoldable pub round4 : ℕ → ℕ
round4 n = n / 4 * 4

-- `streamid`
abbrev pub Streamid : Type 0
Streamid = ℕ × ℕ

-- The nonce of a text of `len` octets that begins with the letter `cmd`.
unfoldable pub nonce_of : Streamid → ℕ → ℕ → ℕ → Bytes
unfolding le_bytes
nonce_of streamid len cmd seq =
    le_bytes 4 streamid.0
    ++ le_bytes 4 streamid.1
    ++ len % 256 ∷ (len / 256) % 256 ∷ cmd ∷ 0 ∷ le_bytes 4 seq

-- A text with its NUL and the padding to whole words.
unfoldable pub padded : Bytes → Bytes
unfolding round4
padded text = text ++ replicate (round4 (length text + 1 + 3) - length text) 0

-- The message that is sent. It is `none` where helix_encrypt() fails; its result is not tested, and
-- a context of helix_setkey() never fails.
unfoldable pub seal : Scontext → Streamid → ℕ → Bytes → Option Bytes
unfolding nonce_of padded
seal scontext streamid seq text =
    let n = nonce_of streamid (length text + 1) (get_or text 0 0) seq in
    elim (helix_encrypt scontext (helix_nonce scontext n) (padded text)) [
      | none ↦ none
      | some (c, m) ↦ some (n ++ c ++ m)
    ]
