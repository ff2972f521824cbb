-- ===== src/Gsm/Signal.antt =====
-- state.c, gsmd(): when the failover thread is signalled.
use otpd.Base.{
  ℕ, ◌+◌, [], ◌∷◌, Bytes, Bool, true, false, ltb, if◌then◌else◌, ◌≡◌, refl, arith, length, take,
}
use otpd.Gsm.{ultra_msg_len}
use otpd.Gsm.Packet.{Verdict, ack, nak, open_message}
use otpd.Gsm.Exchange.{
  Event, received, Network, Loop, Outcome, replied, failed, timed_out, pending, Next, again, done,
  Call, round, receive, judged, poll_timed_out, reason_text, while_left, run, signals,
}

-- Whether a call that has ended posts the semaphore of the failover thread.
abbrev pub signalled : Outcome → Bool
signalled (replied _ _) = false
signalled (failed signal) = signal
signalled (timed_out _ signal) = signal
signalled (pending _) = false

-- A round sets `failover` for no later signal, and signals by the test at the label only.
abbrev Guards : Call → Loop → Next → Type 0
Guards call loop (again next) = next.failover ≡ true → loop.failover ≡ true
Guards call loop (done outcome) = signalled outcome ≡ true → signals call loop.failover ≡ true

judged-Guards :
    (call : Call) (elapsed : ℕ) (loop : Loop) (buffer : Bytes) (verdict : Verdict)
    → Guards call loop (judged elapsed loop buffer verdict)
unfolding judged
judged-Guards call elapsed loop buffer (ack len) = λ h. absurd cc
judged-Guards call elapsed loop buffer (nak reason) = λ h. absurd cc
judged-Guards call elapsed loop buffer Verdict.bad_mac = λ h. absurd cc
judged-Guards call elapsed loop buffer Verdict.bad_length = λ h. absurd cc
judged-Guards call elapsed loop buffer Verdict.bad_seqno = λ h. h
judged-Guards call elapsed loop buffer Verdict.bad_delimiter = λ h. absurd cc
judged-Guards call elapsed loop buffer Verdict.bad_username = λ h. absurd cc
judged-Guards call elapsed loop buffer Verdict.bad_term = λ h. absurd cc
judged-Guards call elapsed loop buffer Verdict.bad_command = λ h. absurd cc

short-Guards :
    (call : Call) (loop : Loop) (b : Bool) (r : Next)
    → Guards call loop r
    → Guards call loop (if b then done (failed false) else r)
short-Guards call loop true r guards = λ h. absurd cc
short-Guards call loop false r guards = guards

round-Guards :
    (call : Call) (elapsed : ℕ) (loop : Loop) (event : Event)
    → Guards call loop (round call loop event elapsed)
unfolding round poll_timed_out receive
round-Guards call elapsed loop Event.send_again = λ h. h
round-Guards call elapsed loop Event.send_error = λ h. absurd cc
round-Guards call elapsed loop Event.poll_again = λ h. h
round-Guards call elapsed loop Event.poll_error = λ h. absurd cc
round-Guards call elapsed loop Event.poll_timeout = λ h. h
round-Guards call elapsed loop Event.recv_again = λ h. h
round-Guards call elapsed loop Event.recv_refused = λ h. h
round-Guards call elapsed loop Event.recv_error = λ h. absurd cc
round-Guards call elapsed loop (received message) =
    let text = take ultra_msg_len message in
    let (buffer, verdict) =
      open_message call.gsmd.scontext call.username call.seq loop.buffer text in
    short-Guards call loop (ltb (length text) (35 + length call.username)) _
      (judged-Guards call elapsed loop buffer verdict)

while-signalled :
    (call : Call) (loop : Loop) (more : Outcome)
    → (signalled more ≡ true → signals call loop.failover ≡ true)
    → signalled (while_left call loop more) ≡ true
    → signals call loop.failover ≡ true
unfolding while_left
while-signalled call loop more guard = go (ltb loop.timeout 250000000)
  where
    go :
        (b : Bool)
        → signalled (
            if b
            then timed_out (reason_text loop.buffer loop.reason) (signals call loop.failover)
            else more)
          ≡ true
        → signals call loop.failover ≡ true
    go true h = h
    go false h = guard h

signals-parts :
    (call : Call) (failover : Bool)
    → signals call failover ≡ true
    → (call.gsmd.hosts ≡ 2) × (call.active ≡ 0) × (failover ≡ true)
unfolding signals
signals-parts call failover h = (ground arith, ground arith, ground arith)

still :
    (call : Call) (later failover : Bool)
    → (later ≡ true → failover ≡ true)
    → signals call later ≡ true
    → signals call failover ≡ true
unfolding signals
still call true failover kept h = rw (kept refl) h
still call false failover kept h = absurd cc

run-signals :
    (call : Call) (loop : Loop) (network : Network)
    → signalled (run call loop network) ≡ true
    → signals call loop.failover ≡ true
unfolding run
run-signals call loop [] = while-signalled call loop (pending loop) (λ h. absurd cc)
run-signals call loop ((event, elapsed) ∷ network) =
    while-signalled call loop
      (elim (round call loop event elapsed) [
        | again next ↦ run call next network
        | done outcome ↦ outcome
      ])
      (go (λ next h. run-signals call next network h) (round call loop event elapsed)
        (round-Guards call elapsed loop event))
  where
    go :
        ((next : Loop)
          → signalled (run call next network) ≡ true
          → signals call next.failover ≡ true)
        → (r : Next) → Guards call loop r
        → signalled (elim r [ again next ↦ run call next network | done outcome ↦ outcome ]) ≡ true
        → signals call loop.failover ≡ true
    go more (again next) guards h = still call next.failover loop.failover guards (more next h)
    go more (done outcome) guards h = guards h

pub run-signalled :
    (call : Call) (loop : Loop) (network : Network)
    → signalled (run call loop network) ≡ true
    → (call.gsmd.hosts ≡ 2) × (call.active ≡ 0) × (loop.failover ≡ true)
run-signalled call loop network h =
    signals-parts call loop.failover (run-signals call loop network h)
