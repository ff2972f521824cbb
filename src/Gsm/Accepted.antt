-- ===== src/Gsm/Accepted.antt =====
-- state.c, gsmd(): the tests that a decrypted text has passed when it is taken for an ACK.
use otpd.Base.{
  passed, passed_not, taken, ℕ, ◌+◌, ◌-◌, ◌≤◌, if◌then◌else◌, length, Bytes, get_or, bytes_eq,
  bytes_eq→eq, Bool, true, false, subst, ◌==◌, ==→eq, take, drop, ◌≡◌, ◌≢◌, ap, arith,
}
use otpd.Word.{le_word}
use otpd.Gsm.Packet.{
  Verdict, Reason, ack, nak, bad_command, nak_reason, text_len, len_refused, named, command,
  check_text, check,
}

-- A decrypted text in a buffer that answers a call with success, and its length.
pub record IsAck (username : Bytes) (seq len : ℕ) (buffer : Bytes) : Type 0 where
  pub seqno : le_word (take 4 (drop 12 buffer)) ≡ seq
  pub length_field : text_len buffer ≡ len
  pub long : 3 + length username ≤ len
  pub short : len ≤ 936
  pub letter : get_or (drop 16 buffer) 0 0 ≡ b'A'
  pub delimiter : get_or (drop 16 buffer) 1 0 ≡ b' '
  pub user : named username (drop 16 buffer) ≡ true
  pub term : get_or (drop 16 buffer) (len - 1) 0 ≡ 0

ack-injective : {m n : ℕ} → ack m ≡ ack n → m ≡ n
ack-injective e = ap (λ v. elim v [ Verdict.ack k ↦ k | _ ↦ 0 ]) e

len_refused-bounds :
    (ulen rlen len : ℕ)
    → len_refused ulen rlen len ≡ false
    → (3 + ulen ≤ len) × (len ≤ 936) × (rlen ≤ 35 + len)
unfolding len_refused
len_refused-bounds ulen rlen len h = (ground arith, ground arith, ground arith)

refused : (b : Bool) (reason : Reason) (n : ℕ) → (if b then nak reason else bad_command) ≢ ack n
refused true reason n e = cc
refused false reason n e = cc

command-ack :
    (ulen len n : ℕ) (pmsg : Bytes)
    → command ulen len pmsg ≡ ack n
    → (get_or pmsg 0 0 ≡ b'A') × (len ≡ n)
unfolding command
command-ack ulen len n pmsg h =
    let (letter, len_eq) =
      taken (get_or pmsg 0 0 == b'A') h
        (refused (get_or pmsg 0 0 == b'N') (nak_reason ulen pmsg) n) in
    (==→eq (get_or pmsg 0 0) b'A' letter, ack-injective len_eq)

pub check-ack :
    (username : Bytes) (seq rlen n : ℕ) (buffer m : Bytes)
    → check username seq rlen buffer m ≡ ack n
    → IsAck username seq n buffer × (m ≡ take 16 (drop (rlen - 16) buffer)) × (rlen ≤ 35 + n)
unfolding check check_text
check-ack username seq rlen n buffer m h =
    let (mac_ok, h₁) = passed (bytes_eq m (take 16 (drop (rlen - 16) buffer))) h (λ e. cc) in
    let (len_ok, h₂) =
      passed_not (len_refused (length username) rlen (text_len buffer)) h₁ (λ e. cc) in
    let (seq_ok, h₃) = passed (le_word (take 4 (drop 12 buffer)) == seq) h₂ (λ e. cc) in
    let (delimiter_ok, h₄) = passed (get_or (drop 16 buffer) 1 0 == b' ') h₃ (λ e. cc) in
    let (user_ok, h₅) = passed (named username (drop 16 buffer)) h₄ (λ e. cc) in
    let (term_ok, h₆) =
      passed (get_or (drop 16 buffer) (text_len buffer - 1) 0 == 0) h₅ (λ e. cc) in
    let (letter_ok, len_eq) =
      command-ack (length username) (text_len buffer) n (drop 16 buffer) h₆ in
    let (long, short, whole) = len_refused-bounds (length username) rlen (text_len buffer) len_ok in
    (
      record {
        seqno = ==→eq _ seq seq_ok;
        length_field = len_eq;
        long = subst (λ k. 3 + length username ≤ k) len_eq long;
        short = subst (λ k. k ≤ 936) len_eq short;
        letter = letter_ok;
        delimiter = ==→eq _ b' ' delimiter_ok;
        user = user_ok;
        term = subst (λ k. get_or (drop 16 buffer) (k - 1) 0 ≡ 0) len_eq (==→eq _ 0 term_ok);
      },
      bytes_eq→eq m (take 16 (drop (rlen - 16) buffer)) mac_ok,
      subst (λ k. rlen ≤ 35 + k) len_eq whole,
    )
