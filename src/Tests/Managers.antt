-- ===== src/Tests/Managers.antt =====
-- state.c, gsmd(), and failover_thread.c: a reply of a manager, and the theorems at concrete inputs.
use otpd.Base.{ℕ, true, false, none, some, [], ◌∷◌, ◌≡◌, refl, Bytes, replicate, arith}
use otpd.Tests.{toy_cipher}
use otpd.Tests.Chains.{west}
use otpd.Word.{le_bytes, le_word}
use otpd.Helix.Key.{helix_nonce}
use otpd.Helix.Cipher.{
  helix_encrypt, helix_decrypt, encrypt_words, encrypt_rest, decrypt_words, decrypt_rest, mac,
  mac_words,
}
use otpd.Gsm.{seal}
use otpd.Gsm.Packet.{ran_out}
use otpd.Gsm.Exchange.{Event, received, Network, Loop, replied, Call, run}
use otpd.Gsm.Replied.{FoundReply, run-replied}
use otpd.Gsm.Ends.{is_pending, run-ends}

abbrev pub joe : Bytes
joe = b'j' ∷ b'o' ∷ b'e' ∷ []

abbrev call : Call
call = record { gsmd = west; active = 0; username = joe; seq = 4 }

abbrev loop : Loop
loop = record {
  timeout = 2000000000;
  failover = true;
  polltimeout = 0;
  reason = ran_out;
  buffer = replicate 100 0;
}

unfoldable sealed : Bytes → Bytes
unfolding seal helix_encrypt encrypt_words encrypt_rest helix_nonce mac mac_words le_bytes le_word
sealed text = elim (seal toy_cipher (1, 2) 4 text) [ none ↦ [] | some m ↦ m ]

-- A quiet round and an ACK.
unfoldable network : Network
unfolding sealed
network = (Event.poll_timeout, 200000000) ∷ (received (sealed (b'A' ∷ b' ' ∷ joe)), 1000) ∷ []

unfoldable reply : ℕ × Bytes
unfolding network run helix_decrypt decrypt_words decrypt_rest helix_nonce mac mac_words le_bytes
    le_word
reply = elim (run call loop network) [ replied len buffer ↦ (len, buffer) | _ ↦ (0, []) ]

run-replied_example : FoundReply call 6 reply.1 network
unfolding reply
run-replied_example = run-replied call loop network 6 reply.1 refl

run-ends_example : is_pending (run call loop ((Event.poll_timeout, 1800000000) ∷ [])) ≡ false
run-ends_example = run-ends call loop ((Event.poll_timeout, 1800000000) ∷ []) (omega arith)
