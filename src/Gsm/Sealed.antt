-- ===== src/Gsm/Sealed.antt =====
-- state.c: a reply that a manager with the same key seals is taken for an ACK.
use otpd.Base.{
  ℕ, ◌+◌, ◌-◌, ◌^◌, ◌≤◌, ◌<◌, ◌≡◌, ap, sym, ◌∙◌, some, ◌∷◌, ◌++◌, Bytes, IsByte, length,
  length-append, take, drop, All, arith,
}
use mathlib.Core.List.{append_assoc}
use otpd.Word.{le_bytes}
use otpd.Helix.{Scontext, helix_magic}
use otpd.Helix.RoundTrip.{helix_decrypt-helix_encrypt}
use otpd.Gsm.{Streamid, nonce_of, padded, seal}
use otpd.Gsm.Packet.{
  ack, stored_at, decrypt_in_place, text_len, check_text, check, opened, open_message,
}
use otpd.Gsm.Message.{
  take-length, drop-length, length-nonce_of, decrypt_in_place-parts, padded-text, length-padded,
  length-padded_round, seal-some, stored_at-parts,
}
use otpd.Gsm.Text.{buffer_of, IsTail, check-ack_of, check_text-buffer_of}

text_len-buffer_of :
    (streamid : Streamid) (username tail z : Bytes) (seq : ℕ)
    → length (b'A' ∷ b' ' ∷ (username ++ tail)) + 1 ≤ 936
    → text_len (buffer_of streamid username tail z seq)
      ≡ length (b'A' ∷ b' ' ∷ (username ++ tail)) + 1
unfolding text_len nonce_of le_bytes
text_len-buffer_of streamid username tail z seq short = omega (arith, short)

-- The tests of a decrypted reply with its MAC behind the text.
check-buffer :
    (streamid : Streamid) (seq : ℕ) (username tail m rest : Bytes)
    → IsTail tail
    → length (b'A' ∷ b' ' ∷ (username ++ tail)) + 1 ≤ 936
    → seq < 2 ^ 32
    → length m ≡ 16
    → let text = b'A' ∷ b' ' ∷ (username ++ tail) in
      let n = nonce_of streamid (length text + 1) b'A' seq in
      check username seq (32 + length (padded text)) (n ++ padded text ++ (m ++ rest)) m
      ≡ ack (length text + 1)
check-buffer streamid seq username tail m rest shape short small m_len =
    let text = b'A' ∷ b' ' ∷ (username ++ tail) in
    let n = nonce_of streamid (length text + 1) b'A' seq in
    let (z, split) = padded-text username tail (m ++ rest) in
    let (upper, lower) = length-padded text in
    let whole : n ++ padded text ++ (m ++ rest) ≡ buffer_of streamid username tail z seq =
      append_assoc n (padded text) (m ++ rest) ∙ ap (λ t. n ++ t) split in
    let front : length (n ++ padded text) ≡ 32 + length (padded text) - 16 =
      omega (
        arith,
        length-append n (padded text),
        length-nonce_of streamid (length text + 1) b'A' seq,
      ) in
    check-ack_of username seq (32 + length (padded text)) (length text + 1)
      (n ++ padded text ++ (m ++ rest)) m
      (sym (
        ap (take 16)
          (drop-length (n ++ padded text) (m ++ rest) (32 + length (padded text) - 16) front)
        ∙ take-length m rest 16 m_len))
      (ap text_len whole ∙ text_len-buffer_of streamid username tail z seq short)
      (omega (arith, length-append username tail)) short (omega (arith, upper))
      (ap (check_text username seq) whole
        ∙ check_text-buffer_of streamid username tail z seq shape short small)

-- A reply "A user" or "A user state" of at most 936 octets with its NUL, sealed under the key and the
-- sequence number of a request, is taken for the ACK of that request, whatever the buffer held, and
-- the buffer then holds the text with its NUL.
pub open_message-seal :
    (scontext : Scontext) (streamid : Streamid) (seq : ℕ) (username tail old : Bytes)
    → scontext.magic ≡ helix_magic
    → All IsByte (padded (b'A' ∷ b' ' ∷ (username ++ tail)))
    → IsTail tail
    → length (b'A' ∷ b' ' ∷ (username ++ tail)) + 1 ≤ 936
    → seq < 2 ^ 32
    → (message : Bytes) × (z : Bytes) × (seal scontext streamid seq
          (b'A' ∷ b' ' ∷ (username ++ tail))
        ≡ some message)
      × (35 + length username ≤ length message)
      × (length message ≤ 968)
      × (open_message scontext username seq old message ≡ (
        buffer_of streamid username tail z seq,
        ack (length (b'A' ∷ b' ' ∷ (username ++ tail)) + 1),
      ))
unfolding open_message opened
open_message-seal scontext streamid seq username tail old magic bytes shape short small =
    let text = b'A' ∷ b' ' ∷ (username ++ tail) in
    let n = nonce_of streamid (length text + 1) b'A' seq in
    let (c, m, encrypted, c_len, m_len, back) =
      helix_decrypt-helix_encrypt scontext n (padded text) magic bytes in
    let n_len = length-nonce_of streamid (length text + 1) b'A' seq in
    let rest = drop (length (n ++ c ++ m)) old in
    let (z, split) = padded-text username tail (m ++ rest) in
    let size : length (n ++ c ++ m) ≡ 32 + length (padded text) =
      omega (arith, length-append (n ++ c) m, length-append n c, n_len, m_len, c_len) in
    let decrypted : decrypt_in_place scontext (stored_at old (n ++ c ++ m)) (length (n ++ c ++ m))
        ≡ some (n ++ padded text ++ (m ++ rest), m) =
      ap (λ b. decrypt_in_place scontext b (length (n ++ c ++ m))) (stored_at-parts n c m old)
      ∙ decrypt_in_place-parts scontext n c (m ++ rest) (padded text) m (length (n ++ c ++ m)) n_len
          (omega (arith, size, c_len)) back in
    (
      n ++ c ++ m,
      z,
      seal-some scontext streamid seq text c m encrypted,
      omega (arith, size, (length-padded text).1, length-append username tail),
      omega (arith, size, length-padded_round text, short),
      ap (opened username seq (length (n ++ c ++ m)) (stored_at old (n ++ c ++ m))) decrypted
          ∙ ap (λ v. (n ++ padded text ++ (m ++ rest), v))
              (ap (λ k. check username seq k (n ++ padded text ++ (m ++ rest)) m) size
                ∙ check-buffer streamid seq username tail m rest shape short small m_len)
          ∙ ap (λ b. (b, ack (length text + 1)))
              (append_assoc n (padded text) (m ++ rest) ∙ ap (λ t. n ++ t) split),
    )
