-- ===== src/Gsm/Text.antt =====
-- state.c, gsmd(): a text of the shape of an ACK passes the tests.
use otpd.Base.{
  ℕ, suc, ◌+◌, ◌-◌, ◌^◌, ◌≤◌, ◌<◌, ◌≡◌, refl, ap, ap₂, sym, ◌∙◌, Bool, true, false, not, ◌&&◌, ◌||◌,
  if◌then◌else◌, ◌==◌, ==_refl, Option, none, some, [], ◌∷◌, ◌++◌, Bytes, bytes_eq, bytes_eq_refl,
  length, take, drop, get_or, arith, strip_prefix-append,
}
use mathlib.Core.List.{append_assoc}
use mathlib.Core.Logic.{◌⊎◌, inl, inr}
use otpd.Word.{le_bytes, le_word}
use otpd.Word.Laws.{le_word-le_bytes}
use otpd.Gsm.{Streamid, nonce_of}
use otpd.Gsm.Packet.{
  Verdict, ack, text_len, len_refused, begins_with, named, nak_reason, command, check_text, check,
}
use otpd.Gsm.Message.{get_or-length}

len_refused-false :
    (ulen rlen len : ℕ)
    → 3 + ulen ≤ len
    → len ≤ 936
    → rlen ≤ 35 + len
    → len_refused ulen rlen len ≡ false
unfolding len_refused
len_refused-false ulen rlen len long short whole = ground (arith, long, short, whole)

pass {ℓ} : {A : Type ℓ} (b : Bool) (x y : A) → b ≡ true → (if not b then x else y) ≡ y
pass b x y ok = ap (λ b. if not b then x else y) ok

check_text-ack :
    (username : Bytes) (seq len : ℕ) (buffer : Bytes)
    → text_len buffer ≡ len
    → (le_word (take 4 (drop 12 buffer)) == seq) ≡ true
    → (get_or (drop 16 buffer) 1 0 == b' ') ≡ true
    → named username (drop 16 buffer) ≡ true
    → (get_or (drop 16 buffer) (len - 1) 0 == 0) ≡ true
    → (get_or (drop 16 buffer) 0 0 == b'A') ≡ true
    → check_text username seq buffer ≡ ack len
unfolding check_text command
check_text-ack username seq len buffer size seqno delimiter user term letter =
    pass (le_word (take 4 (drop 12 buffer)) == seq) _ _ seqno
    ∙ pass (get_or (drop 16 buffer) 1 0 == b' ') _ _ delimiter
    ∙ pass (named username (drop 16 buffer)) _ _ user
    ∙ ap
        (λ k.
          if not (get_or (drop 16 buffer) (k - 1) 0 == 0)
          then Verdict.bad_term
          else command (length username) k (drop 16 buffer))
        size
    ∙ pass (get_or (drop 16 buffer) (len - 1) 0 == 0) _ _ term
    ∙ ap
        (λ b.
          if b
          then ack len
          else if get_or (drop 16 buffer) 0 0 == b'N'
          then Verdict.nak (nak_reason (length username) (drop 16 buffer))
          else Verdict.bad_command)
        letter

pub check-ack_of :
    (username : Bytes) (seq rlen len : ℕ) (buffer m : Bytes)
    → m ≡ take 16 (drop (rlen - 16) buffer)
    → text_len buffer ≡ len
    → 3 + length username ≤ len
    → len ≤ 936
    → rlen ≤ 35 + len
    → check_text username seq buffer ≡ ack len
    → check username seq rlen buffer m ≡ ack len
unfolding check
check-ack_of username seq rlen len buffer m genuine size long short whole passes =
    let fits : len_refused (length username) rlen (text_len buffer) ≡ false =
      ap (len_refused (length username) rlen) size
      ∙ len_refused-false (length username) rlen len long short whole in
    pass (bytes_eq m (take 16 (drop (rlen - 16) buffer))) _ _
      (ap (bytes_eq m) (sym genuine) ∙ bytes_eq_refl m)
    ∙ ap (λ b. if b then Verdict.bad_length else check_text username seq buffer) fits
    ∙ passes

-- The buffer with a text, its NUL and more.
abbrev pub buffer_of : Streamid → Bytes → Bytes → Bytes → ℕ → Bytes
buffer_of streamid username tail z seq =
    nonce_of streamid (length (b'A' ∷ b' ' ∷ (username ++ tail)) + 1) b'A' seq
    ++ b'A' ∷ b' ' ∷ (username ++ (tail ++ 0 ∷ z))

-- What stands behind the name in a text: nothing, or a space and a state.
abbrev pub IsTail : Bytes → Type 0
IsTail tail = (tail ≡ []) ⊎ ((state : Bytes) × (tail ≡ b' ' ∷ state))

abbrev is_some : Option Bytes → Bool
is_some o = elim o [ none ↦ false | some _ ↦ true ]

tail-behind :
    (tail z : Bytes)
    → IsTail tail
    → ((get_or (tail ++ 0 ∷ z) 0 0 == b' ') || (get_or (tail ++ 0 ∷ z) 0 0 == 0)) ≡ true
tail-behind tail z (inl e) =
    ap (λ t. (get_or (t ++ 0 ∷ z) 0 0 == b' ') || (get_or (t ++ 0 ∷ z) 0 0 == 0)) e
tail-behind tail z (inr (state, e)) =
    ap (λ t. (get_or (t ++ 0 ∷ z) 0 0 == b' ') || (get_or (t ++ 0 ∷ z) 0 0 == 0)) e

term-text :
    (username tail z : Bytes)
    → get_or
        (b'A' ∷ b' ' ∷ (username ++ (tail ++ 0 ∷ z)))
        (length (b'A' ∷ b' ' ∷ (username ++ tail)) + 1 - 1)
        0
      ≡ 0
term-text username tail z =
    let text = username ++ tail in
    let place : length (b'A' ∷ b' ' ∷ text) + 1 - 1 ≡ suc (suc (length text)) = omega arith in
    ap₂ (λ t i. get_or (b'A' ∷ b' ' ∷ t) i 0) (sym (append_assoc username tail (0 ∷ z))) place
    ∙ get_or-length text (0 ∷ z)

named-text :
    (username tail z : Bytes)
    → IsTail tail
    → named username (b'A' ∷ b' ' ∷ (username ++ (tail ++ 0 ∷ z))) ≡ true
unfolding named begins_with
named-text username tail z shape =
    let y = tail ++ 0 ∷ z in
    let place : length username + 2 ≡ suc (suc (length username)) = omega arith in
    let after : get_or (b'A' ∷ b' ' ∷ (username ++ y)) (length username + 2) 0 ≡ get_or y 0 0 =
      ap (λ i. get_or (b'A' ∷ b' ' ∷ (username ++ y)) i 0) place ∙ get_or-length username y in
    ap₂ (λ b c. b && ((c == b' ') || (c == 0))) (ap is_some (strip_prefix-append username y)) after
    ∙ tail-behind tail z shape

pub check_text-buffer_of :
    (streamid : Streamid) (username tail z : Bytes) (seq : ℕ)
    → IsTail tail
    → length (b'A' ∷ b' ' ∷ (username ++ tail)) + 1 ≤ 936
    → seq < 2 ^ 32
    → check_text username seq (buffer_of streamid username tail z seq)
      ≡ ack (length (b'A' ∷ b' ' ∷ (username ++ tail)) + 1)
unfolding nonce_of text_len le_bytes
check_text-buffer_of streamid username tail z seq shape short small =
    let len = length (b'A' ∷ b' ' ∷ (username ++ tail)) + 1 in
    check_text-ack username seq len (buffer_of streamid username tail z seq) (omega (arith, short))
      (ap (λ w. w == seq) (le_word-le_bytes seq small) ∙ ==_refl seq) refl
      (named-text username tail z shape) (ap (λ c. c == 0) (term-text username tail z)) refl
