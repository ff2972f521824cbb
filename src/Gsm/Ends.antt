-- ===== src/Gsm/Ends.antt =====
-- state.c, gsmd(): the loop ends when the time is used up.
use otpd.Base.{
  ℕ, ◌+◌, ◌-◌, ◌<◌, [], ◌∷◌, Bytes, Bool, true, false, ltb, lt→ltb, if◌then◌else◌, ◌≡◌, refl, arith,
  length, take,
}
use otpd.Gsm.{ultra_msg_len}
use otpd.Gsm.Packet.{Verdict, ack, nak, open_message}
use otpd.Gsm.Exchange.{
  Event, received, Network, Loop, Outcome, failed, timed_out, pending, Next, again, done, Call,
  round, receive, judged, poll_timed_out, reason_text, while_left, run, signals,
}

-- The time that the rounds take.
abbrev pub total : Network → ℕ
total [] = 0
total ((event, elapsed) ∷ network) = elapsed + total network

-- Whether the loop is still running.
abbrev pub is_pending : Outcome → Bool
is_pending (pending _) = true
is_pending _ = false

-- A loop with less time left than the loop before it, by what the round took.
abbrev pub Spent : ℕ → Loop → Next → Type 0
Spent elapsed loop (again next) = next.timeout ≡ loop.timeout - elapsed
Spent elapsed loop (done outcome) = is_pending outcome ≡ false

judged-Spent :
    (elapsed : ℕ) (loop : Loop) (buffer : Bytes) (verdict : Verdict)
    → Spent elapsed loop (judged elapsed loop buffer verdict)
unfolding judged
judged-Spent elapsed loop buffer (ack len) = refl
judged-Spent elapsed loop buffer (nak reason) = refl
judged-Spent elapsed loop buffer Verdict.bad_mac = refl
judged-Spent elapsed loop buffer Verdict.bad_length = refl
judged-Spent elapsed loop buffer Verdict.bad_seqno = refl
judged-Spent elapsed loop buffer Verdict.bad_delimiter = refl
judged-Spent elapsed loop buffer Verdict.bad_username = refl
judged-Spent elapsed loop buffer Verdict.bad_term = refl
judged-Spent elapsed loop buffer Verdict.bad_command = refl

receive-Spent :
    (call : Call) (elapsed : ℕ) (loop : Loop) (message : Bytes)
    → Spent elapsed loop (receive call elapsed loop message)
unfolding receive
receive-Spent call elapsed loop message =
    let (buffer, verdict) =
      open_message call.gsmd.scontext call.username call.seq loop.buffer message in
    go (ltb (length message) (35 + length call.username)) _
      (judged-Spent elapsed loop buffer verdict)
  where
    go :
        (b : Bool) (r : Next)
        → Spent elapsed loop r
        → Spent elapsed loop (if b then done (failed false) else r)
    go true r spent = refl
    go false r spent = spent

round-Spent :
    (call : Call) (elapsed : ℕ) (loop : Loop) (event : Event)
    → Spent elapsed loop (round call loop event elapsed)
unfolding round poll_timed_out
round-Spent call elapsed loop Event.send_again = refl
round-Spent call elapsed loop Event.send_error = refl
round-Spent call elapsed loop Event.poll_again = refl
round-Spent call elapsed loop Event.poll_error = refl
round-Spent call elapsed loop Event.poll_timeout = refl
round-Spent call elapsed loop Event.recv_again = refl
round-Spent call elapsed loop Event.recv_refused = refl
round-Spent call elapsed loop Event.recv_error = refl
round-Spent call elapsed loop (received message) =
    receive-Spent call elapsed loop (take ultra_msg_len message)

while_ends :
    (b : Bool) (reason : Bytes) (signal : Bool) (more : Outcome)
    → is_pending more ≡ false
    → is_pending (if b then timed_out reason signal else more) ≡ false
while_ends true reason signal more ended = refl
while_ends false reason signal more ended = ended

-- gsmd() returns, whatever the network does, once its rounds have taken so much of the time that
-- less than 250 ms are left.
pub run-ends :
    (call : Call) (loop : Loop) (network : Network)
    → loop.timeout < total network + 250000000
    → is_pending (run call loop network) ≡ false
unfolding run while_left
run-ends call loop [] used = rw (lt→ltb loop.timeout 250000000 (omega (arith, used))) refl
run-ends call loop ((event, elapsed) ∷ network) used =
    let more : Outcome = elim (round call loop event elapsed) [
      | again next ↦ run call next network
      | done outcome ↦ outcome
    ] in
    while_ends (ltb loop.timeout 250000000) (reason_text loop.buffer loop.reason)
      (signals call loop.failover) more
      (go (λ next spent. run-ends call next network (omega (arith, used, spent)))
        (round call loop event elapsed) (round-Spent call elapsed loop event))
  where
    go :
        ((next : Loop)
          → next.timeout ≡ loop.timeout - elapsed
          → is_pending (run call next network) ≡ false)
        → (r : Next) → Spent elapsed loop r
        → is_pending (elim r [ again next ↦ run call next network | done outcome ↦ outcome ])
          ≡ false
    go more (again next) spent = more next spent
    go more (done outcome) spent = spent
