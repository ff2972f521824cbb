-- ===== src/Gsm/Exchange.antt =====
-- state.c, gsmd(): a request is sent again and again until a reply decides or the time is used up.
-- The network is a sequence of events, one for each round of the loop.
use otpd.Base.{
  ℕ, ◌+◌, ◌-◌, Option, List, [], ◌∷◌, if◌then◌else◌, length, take, drop, cstr, Bytes, Bool, true,
  false, ◌&&◌, ltb, ◌==◌,
}
use otpd.Gsmd.{Gsmd}
use otpd.Nonce.{nonce32, put_seq}
use otpd.Gsm.{Streamid, seal, ultra_msg_len}
use otpd.Gsm.Packet.{Verdict, ack, nak, open_message, Reason, ran_out, unstated, pmsg_at}

-- How the calls of a round end: EAGAIN or another error of send(), poll() or recv(), nothing to
-- read within 0.2 s, ECONNREFUSED, or a message.
pub data Event : Type 0 where
  send_again : Event
  send_error : Event
  poll_again : Event
  poll_error : Event
  poll_timeout : Event
  recv_again : Event
  recv_refused : Event
  recv_error : Event
  received : Bytes → Event

-- The events with the nanoseconds that the round takes.
abbrev pub Network : Type 0
Network = List (Event × ℕ)

-- The variables of the loop. A time that is used up is 0.
pub record Loop : Type 0 where
  pub timeout : ℕ
  pub failover : Bool
  pub polltimeout : ℕ
  pub reason : Reason
  pub buffer : Bytes

-- The length of the reply and the buffer, or -1 with whether the failover thread is signalled.
-- `pending` is a loop that is still running.
pub data Outcome : Type 0 where
  replied : ℕ → Bytes → Outcome
  failed : Bool → Outcome
  timed_out : Bytes → Bool → Outcome
  pending : Loop → Outcome

pub data Next : Type 0 where
  again : Loop → Next
  done : Outcome → Next

-- What a call needs to know: the manager, the host in use, the user and the sequence number.
pub record Call : Type 0 where
  pub gsmd : Gsmd
  pub active : ℕ
  pub username : Bytes
  pub seq : ℕ

-- "timeout" and "[no reason given]"
abbrev pub timeout_text : Bytes
timeout_text = b't' ∷ b'i' ∷ b'm' ∷ b'e' ∷ b'o' ∷ b'u' ∷ b't' ∷ []

abbrev pub no_reason_text : Bytes
no_reason_text =
    b'[' ∷ b'n' ∷ b'o' ∷ b' ' ∷ b'r' ∷ b'e' ∷ b'a' ∷ b's' ∷ b'o' ∷ b'n' ∷ b' ' ∷ b'g' ∷ b'i' ∷ b'v'
    ∷ b'e' ∷ b'n' ∷ b']' ∷ []

-- What the log gets: a reason in the buffer is what the buffer then holds there.
unfoldable pub reason_text : Bytes → Reason → Bytes
unfolding cstr
reason_text buffer ran_out = timeout_text
reason_text buffer unstated = no_reason_text
reason_text buffer (pmsg_at place) = cstr (drop (16 + place) buffer)

-- The label `failover`: is the semaphore posted?
unfoldable pub signals : Call → Bool → Bool
signals call failover = failover && (call.gsmd.hosts == 2 && call.active == 0)

-- UPDATE_TIMEOUT
abbrev pub spend : ℕ → Loop → Loop
spend elapsed loop = record loop { timeout = loop.timeout - elapsed }

-- A round in which poll() finds nothing.
unfoldable pub poll_timed_out : Loop → Loop
poll_timed_out loop = record loop {
  polltimeout = loop.polltimeout + 1;
  reason = if ltb 5 loop.polltimeout then ran_out else loop.reason;
}

-- What a message that was opened does.
unfoldable pub judged : ℕ → Loop → Bytes → Verdict → Next
judged elapsed loop buffer (ack len) = done (replied len buffer)
judged elapsed loop buffer (nak reason) = again (
    spend elapsed
      (record loop { failover = false; polltimeout = 0; reason = reason; buffer = buffer }))
judged elapsed loop buffer Verdict.bad_seqno =
    again (spend elapsed (record loop { buffer = buffer }))
judged elapsed loop buffer _ = done (failed false)

unfoldable pub receive : Call → ℕ → Loop → Bytes → Next
unfolding open_message judged
receive call elapsed loop message =
    let (buffer, verdict) =
      open_message call.gsmd.scontext call.username call.seq loop.buffer message in
    if ltb (length message) (35 + length call.username)
    then done (failed false)
    else judged elapsed loop buffer verdict

unfoldable pub round : Call → Loop → Event → ℕ → Next
unfolding signals poll_timed_out receive
round call loop Event.send_again elapsed = again (spend elapsed loop)
round call loop Event.send_error elapsed = done (failed false)
round call loop Event.poll_again elapsed = again (spend elapsed loop)
round call loop Event.poll_error elapsed = done (failed false)
round call loop Event.poll_timeout elapsed = again (spend elapsed (poll_timed_out loop))
round call loop Event.recv_again elapsed = again (spend elapsed loop)
round call loop Event.recv_refused elapsed = done (failed (signals call loop.failover))
round call loop Event.recv_error elapsed = done (failed false)
round call loop (Event.received message) elapsed =
    receive call elapsed loop (take ultra_msg_len message)

-- `while (timeout >= 250ms)`: the result when the loop has ended, or what `more` gives.
unfoldable pub while_left : Call → Loop → Outcome → Outcome
unfolding signals reason_text
while_left call loop more =
    if ltb loop.timeout 250000000
    then timed_out (reason_text loop.buffer loop.reason) (signals call loop.failover)
    else more

unfoldable pub run : Call → Loop → Network → Outcome
unfolding round while_left
run call loop [] = while_left call loop (pending loop)
run call loop ((event, elapsed) ∷ network) =
    while_left call loop (elim (round call loop event elapsed) [
      | again next ↦ run call next network
      | done outcome ↦ outcome
    ])

-- The sequence number of a request by its letter: a GET takes a new one from nonce32(), whose
-- static number is `seq`, and a PUT the one behind that of its GET.
unfoldable pub next_seq : ℕ → ℕ → ℕ → ℕ × ℕ
unfolding nonce32 put_seq
next_seq cmd seq get_seq =
    let taken = nonce32 seq in if cmd == b'G' then (taken, taken) else (seq, put_seq get_seq)

-- The loop at its start.
unfoldable pub start_loop : ℕ → Bytes → Loop
start_loop timeout buffer = record {
  timeout = timeout;
  failover = true;
  polltimeout = 0;
  reason = ran_out;
  buffer = buffer;
}

-- gsmd(): the message that is sent in each round, and how the call ends.
unfoldable pub exchange : Streamid → ℕ → Call → Bytes → Bytes → Network → Option Bytes × Outcome
unfolding seal run start_loop
exchange streamid timeout call text buffer network =
    (seal call.gsmd.scontext streamid call.seq text, run call (start_loop timeout buffer) network)
