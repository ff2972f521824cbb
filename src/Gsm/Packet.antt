-- ===== src/Gsm/Packet.antt =====
-- state.c, gsmd(), and failover_thread.c: a received message is decrypted and tested.
use otpd.Base.{
  ℕ, ◌+◌, ◌-◌, ◌*◌, Option, none, some, ◌++◌, if◌then◌else◌, length, Bytes, get_or, bytes_eq, Bool,
  true, false, not, ◌&&◌, ◌||◌, ltb, ◌==◌, take, drop, strip_prefix, memcpy,
}
use otpd.Word.{le_word}
use otpd.Helix.{Scontext}
use otpd.Helix.Key.{helix_nonce}
use otpd.Helix.Cipher.{helix_decrypt}
use otpd.Gsm.{max_msg_len}

-- The reason that is logged when the time is used up: a fixed text, or a place in `pmsg`.
pub data Reason : Type 0 where
  ran_out : Reason
  unstated : Reason
  pmsg_at : ℕ → Reason

-- What a received message is found to be.
pub data Verdict : Type 0 where
  bad_mac : Verdict
  bad_length : Verdict
  bad_seqno : Verdict
  bad_delimiter : Verdict
  bad_username : Verdict
  bad_term : Verdict
  bad_command : Verdict
  ack : ℕ → Verdict
  nak : Reason → Verdict

-- The buffer `p.msg` once recv() has stored a message.
abbrev pub stored_at : Bytes → Bytes → Bytes
stored_at buffer message = memcpy buffer message (length message)

-- The decrypted text in its place, and the MAC that it has.
unfoldable pub placed : Bytes → ℕ → Option (Bytes × Bytes) → Option (Bytes × Bytes)
placed buffer rlen none = none
placed buffer rlen (some (text, m)) = some (take 16 buffer ++ text ++ drop (rlen - 16) buffer, m)

-- The buffer once the text of a message of `rlen` octets is decrypted in place.
unfoldable pub decrypt_in_place : Scontext → Bytes → ℕ → Option (Bytes × Bytes)
unfolding placed
decrypt_in_place scontext buffer rlen = placed buffer rlen (
    helix_decrypt scontext (helix_nonce scontext (take 16 buffer))
      (take (rlen - 32) (drop 16 buffer)))

-- `p[8] + (p[9] << 8)`
unfoldable pub text_len : Bytes → ℕ
text_len buffer = get_or buffer 8 0 + get_or buffer 9 0 * 256

-- The length test, whose last comparison is one of signed numbers.
unfoldable pub len_refused : ℕ → ℕ → ℕ → Bool
len_refused ulen rlen len = ltb len (3 + ulen) || ltb max_msg_len len || ltb (35 + len) rlen

-- `strncmp(username, s, strlen(username)) == 0`
unfoldable pub begins_with : Bytes → Bytes → Bool
unfolding strip_prefix
begins_with username s = elim (strip_prefix username s) [ none ↦ false | some _ ↦ true ]

-- The user's name at `pmsg[2]`, with a space or a NUL behind it.
unfoldable pub named : Bytes → Bytes → Bool
unfolding begins_with
named username pmsg =
    let after = get_or pmsg (length username + 2) 0 in
    begins_with username (drop 2 pmsg) && (after == b' ' || after == 0)

unfoldable pub nak_reason : ℕ → Bytes → Reason
nak_reason ulen pmsg = if get_or pmsg (ulen + 2) 0 == 0 then unstated else pmsg_at (ulen + 3)

-- The letter at the front of a text of `len` octets that passed the tests.
unfoldable pub command : ℕ → ℕ → Bytes → Verdict
unfolding nak_reason
command ulen len pmsg =
    if get_or pmsg 0 0 == b'A'
    then ack len
    else if get_or pmsg 0 0 == b'N'
    then nak (nak_reason ulen pmsg)
    else bad_command

-- The tests of a decrypted text, in order.
unfoldable pub check_text : Bytes → ℕ → Bytes → Verdict
unfolding named command text_len le_word
check_text username seq buffer =
    let pmsg = drop 16 buffer in
    let len = text_len buffer in
    if not (le_word (take 4 (drop 12 buffer)) == seq)
    then bad_seqno
    else if not (get_or pmsg 1 0 == b' ')
    then bad_delimiter
    else if not (named username pmsg)
    then bad_username
    else if not (get_or pmsg (len - 1) 0 == 0)
    then bad_term
    else command (length username) len pmsg

-- The tests of a message of `rlen` octets with the MAC `m`: the buffer is the decrypted one.
unfoldable pub check : Bytes → ℕ → ℕ → Bytes → Bytes → Verdict
unfolding bytes_eq check_text len_refused text_len
check username seq rlen buffer m =
    if not (bytes_eq m (take 16 (drop (rlen - 16) buffer)))
    then bad_mac
    else if len_refused (length username) rlen (text_len buffer)
    then bad_length
    else check_text username seq buffer

-- What is found in a buffer of a message of `rlen` octets, from its decryption. The result of
-- helix_decrypt() is not tested; with a context of helix_setkey() it never fails.
unfoldable pub opened : Bytes → ℕ → ℕ → Bytes → Option (Bytes × Bytes) → Bytes × Verdict
unfolding check
opened username seq rlen buffer none = (buffer, bad_mac)
opened username seq rlen buffer (some (buffer', m)) = (buffer', check username seq rlen buffer' m)

-- A message of at least 32 octets, received into a buffer: what the buffer then holds, and what the
-- message is.
unfoldable pub open_message : Scontext → Bytes → ℕ → Bytes → Bytes → Bytes × Verdict
unfolding decrypt_in_place opened
open_message scontext username seq old message =
    let buffer = stored_at old message in
    opened username seq (length message) buffer (decrypt_in_place scontext buffer (length message))
