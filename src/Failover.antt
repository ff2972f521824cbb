-- ===== src/Failover.antt =====
-- failover_thread.c: the thread of one state manager, which polls the primary host once it is
-- signalled, and sets the host that is in use.
pub mod Monitor
pub mod Rounds
pub mod Over
pub mod Back
pub mod Awake
pub mod Stuck
use otpd.Base.{
  ℕ, ◌+◌, Bool, true, false, if◌then◌else◌, ltb, ◌==◌, List, [], ◌∷◌, Bytes, length, take,
}
use otpd.Gsmd.{Gsmd}
use otpd.Gsm.{ultra_msg_len}
use otpd.Gsm.Packet.{Verdict, ack, open_message}
use otpd.Gsm.Exchange.{Event}

-- The variables of the inner loop: the time at which it ends, the number of the request, and the
-- buffer of the replies.
pub record Poll : Type 0 where
  pub timeout : ℕ
  pub seq : ℕ
  pub buffer : Bytes

-- One round: the clock at the test of the loop, what the calls give, and the clock where the round
-- sets the timer.
pub record Round : Type 0 where
  pub head : ℕ
  pub event : Event
  pub later : ℕ

-- What a round finds: an ACK, nothing that counts, an error of send() or poll(), anything else, or a
-- message that is too short to decrypt.
pub data Answer : Type 0 where
  acked : Answer
  ignored : Answer
  broken : Answer
  unanswered : Answer
  overrun : Answer

-- Where a round leads, with the reply buffer: back to the loop, to the other host and back to the loop, to the primary and
-- to sleep, to sleep, or out of the buffer.
pub data Move : Type 0 where
  stay : Poll → Move
  fail_over : Poll → Move
  fail_back : Bytes → Move
  sleep : Bytes → Move
  crash : Move

-- The request is for the user "!".
abbrev pub no_user : Bytes
no_user = b'!' ∷ []

-- The text of the request: "G !".
abbrev pub poll_text : Bytes
poll_text = b'G' ∷ b' ' ∷ no_user

unfoldable pub judge : Verdict → Answer
judge (ack _) = acked
judge _ = unanswered

-- A reply is tested as in gsmd(), with no test of its size: helix_decrypt() of fewer than 32 octets
-- gets a length that has wrapped around.
unfoldable pub judge_message : Gsmd → Poll → Bytes → Answer × Bytes
unfolding judge open_message
judge_message gsmd poll message =
    let (buffer, verdict) = open_message gsmd.scontext no_user poll.seq poll.buffer message in
    if ltb (length message) 32 then (overrun, poll.buffer) else (judge verdict, buffer)

-- What the calls of a round give, and the buffer behind it.
unfoldable pub answer : Gsmd → Poll → Event → Answer × Bytes
unfolding judge_message
answer gsmd poll Event.send_again = (ignored, poll.buffer)
answer gsmd poll Event.send_error = (broken, poll.buffer)
answer gsmd poll Event.poll_again = (ignored, poll.buffer)
answer gsmd poll Event.poll_error = (broken, poll.buffer)
answer gsmd poll Event.poll_timeout = (unanswered, poll.buffer)
answer gsmd poll Event.recv_again = (unanswered, poll.buffer)
answer gsmd poll Event.recv_refused = (unanswered, poll.buffer)
answer gsmd poll Event.recv_error = (unanswered, poll.buffer)
answer gsmd poll (Event.received message) = judge_message gsmd poll (take ultra_msg_len message)

-- RESET_FAILBACK
unfoldable pub reset_failback : Gsmd → ℕ → ℕ → ℕ → ℕ
reset_failback gsmd active later timeout = if active == 1 then later + gsmd.fb_timeout else timeout

-- Behind the tests of a reply.
unfoldable pub respond : Gsmd → ℕ → ℕ → Poll → Answer → Move
unfolding reset_failback
respond gsmd active later poll acked = if active == 0 then sleep poll.buffer else stay poll
respond gsmd active later poll ignored = stay poll
respond gsmd active later poll broken = sleep poll.buffer
respond gsmd active later poll unanswered =
    stay (record poll { timeout = reset_failback gsmd active later poll.timeout })
respond gsmd active later poll overrun = crash

-- The label `timeout`: a failover starts the timer of the failback.
unfoldable pub time_out : Gsmd → ℕ → ℕ → Poll → Move
time_out gsmd active later poll =
    if active == 0
    then fail_over (record poll { timeout = later + gsmd.fb_timeout })
    else fail_back poll.buffer

-- From the test of the loop to the next, or out of the loop.
unfoldable pub move : Gsmd → ℕ → Poll → Round → Move
unfolding answer respond time_out
move gsmd active poll round =
    let (found, buffer) = answer gsmd poll round.event in
    if ltb round.head poll.timeout
    then respond gsmd active round.later (record poll { buffer = buffer }) found
    else time_out gsmd active round.later poll
