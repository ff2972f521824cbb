-- ===== src/Gsm/Replied.antt =====
-- state.c, gsmd(): what has come in when gsmd() returns a length.
use otpd.Base.{
  passed_not, ℕ, ◌+◌, ◌-◌, ◌≤◌, Option, none, some, [], ◌∷◌, ◌++◌, length, Bytes, subst, ltb,
  ltb→le, take, drop, ◌≡◌, ◌≢◌, refl, ap, ap₂, ◌∙◌,
}
use otpd.Gsm.{ultra_msg_len}
use otpd.Gsm.Packet.{Verdict, ack, nak, stored_at, decrypt_in_place, check, opened, open_message}
use otpd.Gsm.Exchange.{
  Event, received, Network, Loop, replied, Next, again, done, Call, round, receive, judged,
  while_left, run,
}
use otpd.Gsm.Accepted.{IsAck, check-ack}

-- A reply that ended a call: the message came in, and under the manager's key its text has the MAC
-- that it carries.
pub record IsReply (call : Call) (len : ℕ) (buffer message : Bytes) : Type 0 where
  pub text : IsAck call.username call.seq len buffer
  pub fits : length message ≤ 35 + len
  pub enough : 35 + length call.username ≤ length message
  pub old : Bytes
  pub mac : Bytes
  pub decrypted :
      decrypt_in_place call.gsmd.scontext (stored_at old message) (length message)
      ≡ some (buffer, mac)
  pub genuine : mac ≡ take 16 (drop (length message - 16) buffer)

bad_mac-ack :
    (username : Bytes) (seq rlen : ℕ) (buffer : Bytes) (len : ℕ) {buffer' : Bytes}
    → opened username seq rlen buffer none ≢ (buffer', ack len)
unfolding opened
bad_mac-ack username seq rlen buffer len e =
    let verdict : ◌≡◌ {A = Verdict} Verdict.bad_mac (ack len) = ap (λ r. r.1) e in cc

opened-ack :
    (call : Call) (len : ℕ) (old buffer message buffer' m : Bytes)
    → 35 + length call.username ≤ length message
    → decrypt_in_place call.gsmd.scontext (stored_at old message) (length message)
      ≡ some (buffer', m)
    → opened call.username call.seq (length message) (stored_at old message) (some (buffer', m))
      ≡ (buffer, ack len)
    → IsReply call len buffer message
unfolding opened
opened-ack call len old buffer message buffer' m enough decrypted h =
    let same : buffer' ≡ buffer = ap (λ r. r.0) h in
    let verdict : check call.username call.seq (length message) buffer' m ≡ ack len =
      ap (λ r. r.1) h in
    let (text, genuine, fits) =
      check-ack call.username call.seq (length message) len buffer m
        (subst (λ b. check call.username call.seq (length message) b m ≡ ack len) same verdict) in
    record {
      text = text;
      fits = fits;
      enough = enough;
      old = old;
      mac = m;
      decrypted = decrypted ∙ ap (λ b. some (b, m)) same;
      genuine = genuine;
    }

replied_parts : Next → ℕ × Bytes
replied_parts (done (replied len buffer)) = (len, buffer)
replied_parts _ = (0, [])

replied-len : {m n : ℕ} {b c : Bytes} → done (replied m b) ≡ done (replied n c) → m ≡ n
unfolding replied_parts
replied-len e = ap (λ r. (replied_parts r).0) e

replied-buffer : {m n : ℕ} {b c : Bytes} → done (replied m b) ≡ done (replied n c) → b ≡ c
unfolding replied_parts
replied-buffer e = ap (λ r. (replied_parts r).1) e

judged-replied :
    (elapsed : ℕ) (loop : Loop) (result : Bytes × Verdict) (len : ℕ) (buffer : Bytes)
    → judged elapsed loop result.0 result.1 ≡ done (replied len buffer)
    → result ≡ (buffer, ack len)
unfolding judged
judged-replied elapsed loop (b, ack n) len buffer h =
    ap₂ (λ b k. (b, ack k)) (replied-buffer h) (replied-len h)
judged-replied elapsed loop (b, nak reason) len buffer h = absurd cc
judged-replied elapsed loop (b, Verdict.bad_mac) len buffer h = absurd cc
judged-replied elapsed loop (b, Verdict.bad_length) len buffer h = absurd cc
judged-replied elapsed loop (b, Verdict.bad_seqno) len buffer h = absurd cc
judged-replied elapsed loop (b, Verdict.bad_delimiter) len buffer h = absurd cc
judged-replied elapsed loop (b, Verdict.bad_username) len buffer h = absurd cc
judged-replied elapsed loop (b, Verdict.bad_term) len buffer h = absurd cc
judged-replied elapsed loop (b, Verdict.bad_command) len buffer h = absurd cc

open_message-ack :
    (call : Call) (len : ℕ) (old buffer message : Bytes)
    → 35 + length call.username ≤ length message
    → open_message call.gsmd.scontext call.username call.seq old message ≡ (buffer, ack len)
    → IsReply call len buffer message
unfolding open_message
open_message-ack call len old buffer message enough h = go _ refl h
  where
    go :
        (o : Option (Bytes × Bytes))
        → decrypt_in_place call.gsmd.scontext (stored_at old message) (length message) ≡ o
        → opened call.username call.seq (length message) (stored_at old message) o
          ≡ (buffer, ack len)
        → IsReply call len buffer message
    go none e h =
        absurd (bad_mac-ack call.username call.seq (length message) (stored_at old message) len h)
    go (some (buffer', m)) e h = opened-ack call len old buffer message buffer' m enough e h

receive-replied :
    (call : Call) (elapsed : ℕ) (loop : Loop) (message : Bytes) (len : ℕ) (buffer : Bytes)
    → receive call elapsed loop message ≡ done (replied len buffer)
    → IsReply call len buffer message
unfolding receive
receive-replied call elapsed loop message len buffer h =
    let (enough, h₁) = passed_not (ltb (length message) (35 + length call.username)) h (λ e. cc) in
    open_message-ack call len loop.buffer buffer message (ltb→le _ _ enough)
      (judged-replied elapsed loop _ len buffer h₁)

round-replied :
    (call : Call) (elapsed : ℕ) (loop : Loop) (event : Event) (len : ℕ) (buffer : Bytes)
    → round call loop event elapsed ≡ done (replied len buffer)
    → (message : Bytes) × (event ≡ received message)
      × IsReply call len buffer (take ultra_msg_len message)
unfolding round
round-replied call elapsed loop Event.send_again len buffer h = absurd cc
round-replied call elapsed loop Event.send_error len buffer h = absurd cc
round-replied call elapsed loop Event.poll_again len buffer h = absurd cc
round-replied call elapsed loop Event.poll_error len buffer h = absurd cc
round-replied call elapsed loop Event.poll_timeout len buffer h = absurd cc
round-replied call elapsed loop Event.recv_again len buffer h = absurd cc
round-replied call elapsed loop Event.recv_refused len buffer h = absurd cc
round-replied call elapsed loop Event.recv_error len buffer h = absurd cc
round-replied call elapsed loop (received message) len buffer h =
    (message, refl, receive-replied call elapsed loop (take ultra_msg_len message) len buffer h)

-- A reply somewhere in the events of the network.
abbrev pub FoundReply : Call → ℕ → Bytes → Network → Type 0
FoundReply call len buffer network =
    (front : Network) × (rest : Network) × (message : Bytes) × (elapsed : ℕ) × (network
      ≡ front ++ (received message, elapsed) ∷ rest)
    × IsReply call len buffer (take ultra_msg_len message)

later :
    {call : Call} {len : ℕ} {buffer : Bytes} {network : Network} (first : Event × ℕ)
    → FoundReply call len buffer network
    → FoundReply call len buffer (first ∷ network)
later first (front, rest, message, elapsed, split, reply) =
    (first ∷ front, rest, message, elapsed, ap (λ r. first ∷ r) split, reply)

now :
    {call : Call} {len : ℕ} {buffer : Bytes} {event : Event} {elapsed : ℕ} (rest : Network)
    → (message : Bytes) × (event ≡ received message)
      × IsReply call len buffer (take ultra_msg_len message)
    → FoundReply call len buffer ((event, elapsed) ∷ rest)
now {elapsed = elapsed} rest (message, same, reply) =
    ([], rest, message, elapsed, ap (λ e. (e, elapsed) ∷ rest) same, reply)

-- When gsmd() returns a length, its last round received a message that answers the call: the
-- decrypted text has the MAC that the message carries, the request's sequence number, the letter A,
-- a space, the user's name, a length in bounds and a NUL at its end. The signed length test lets
-- the text be longer than what was received, but never beyond GSM_MAX_MSG_LEN.
pub run-replied :
    (call : Call) (loop : Loop) (network : Network) (len : ℕ) (buffer : Bytes)
    → run call loop network ≡ replied len buffer
    → FoundReply call len buffer network
unfolding run while_left
run-replied call loop [] len buffer h =
    let (left, h₁) = passed_not (ltb loop.timeout 250000000) h (λ e. cc) in absurd cc
run-replied call loop ((event, elapsed) ∷ network) len buffer h =
    let (left, h₁) = passed_not (ltb loop.timeout 250000000) h (λ e. cc) in
    go (λ next found. run-replied call next network len buffer found)
      (round call loop event elapsed) refl h₁
  where
    go :
        ((next : Loop)
          → run call next network ≡ replied len buffer
          → FoundReply call len buffer network)
        → (r : Next) → round call loop event elapsed ≡ r
        → (elim r [ again next ↦ run call next network | done outcome ↦ outcome ])
          ≡ replied len buffer
        → FoundReply call len buffer ((event, elapsed) ∷ network)
    go more (again next) e h = later (event, elapsed) (more next h)
    go more (done outcome) e h =
        now network (round-replied call elapsed loop event len buffer (e ∙ ap done h))
