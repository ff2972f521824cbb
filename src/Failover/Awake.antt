-- ===== src/Failover/Awake.antt =====
-- failover_thread.c: while the backup is in use the thread is in its loop, unless send() or poll()
-- failed, and what such an error leaves.
use otpd.Base.{
  ℕ, zero, suc, Bool, true, false, inl, inr, ◌⊎◌, if◌then◌else◌, ltb, length, take, Bytes, ◌≡◌, ◌≢◌,
  refl, sym, subst,
}
use otpd.Gsmd.{Gsmd}
use otpd.Gsm.{ultra_msg_len}
use otpd.Gsm.Packet.{Verdict, ack, open_message}
use otpd.Gsm.Exchange.{Event}
use otpd.Failover.{
  no_user, judge, judge_message, Poll, Round, Answer, acked, ignored, unanswered, broken, overrun,
  Move, stay, fail_over, fail_back, sleep, crash, answer, respond, time_out, move,
}
use otpd.Failover.Monitor.{
  Phase, asleep, polling, crashed, exited, Monitor, Action, posted, woken, polled, started, moved,
  wake, act, step,
}

abbrev pub in_loop : Phase → Bool
in_loop (polling _) = true
in_loop crashed = true
in_loop _ = false

-- The primary is in use, or the backup is and the thread is in its loop.
abbrev pub IsAwake : Monitor → Type 0
IsAwake monitor = (monitor.active ≡ 0) ⊎ ((monitor.active ≡ 1) × (in_loop monitor.phase ≡ true))

-- An action in which neither send() nor poll() fails.
abbrev pub is_broken : Event → Bool
is_broken Event.send_error = true
is_broken Event.poll_error = true
is_broken _ = false

abbrev pub IsWhole : Action → Type 0
IsWhole posted = Unit
IsWhole (woken _ _) = Unit
IsWhole (polled round _) = is_broken round.event ≡ false

-- The states that actions without such an error lead to.
pub data Reaches (gsmd : Gsmd) : Monitor → Type 0 where
  start : (buffer : Bytes) → Reaches gsmd (started gsmd buffer)
  after :
      (monitor : Monitor) (action : Action)
      → Reaches gsmd monitor
      → IsWhole action
      → Reaches gsmd (step gsmd action monitor)

abbrev sleeps : Move → Bool
sleeps (sleep _) = true
sleeps _ = false

abbrev fails : Answer → Bool
fails broken = true
fails _ = false

abbrev pair_fails : Answer × Bytes → Bool
pair_fails r = fails r.0

judge-fails : (v : Verdict) → fails (judge v) ≡ false
unfolding judge
judge-fails (ack len) = refl
judge-fails (Verdict.nak reason) = refl
judge-fails Verdict.bad_mac = refl
judge-fails Verdict.bad_length = refl
judge-fails Verdict.bad_seqno = refl
judge-fails Verdict.bad_delimiter = refl
judge-fails Verdict.bad_username = refl
judge-fails Verdict.bad_term = refl
judge-fails Verdict.bad_command = refl

answer-fails :
    (gsmd : Gsmd) (poll : Poll) (event : Event)
    → is_broken event ≡ false
    → fails (answer gsmd poll event).0 ≡ false
unfolding answer judge_message
answer-fails gsmd poll Event.send_again whole = refl
answer-fails gsmd poll Event.send_error whole = absurd cc
answer-fails gsmd poll Event.poll_again whole = refl
answer-fails gsmd poll Event.poll_error whole = absurd cc
answer-fails gsmd poll Event.poll_timeout whole = refl
answer-fails gsmd poll Event.recv_again whole = refl
answer-fails gsmd poll Event.recv_refused whole = refl
answer-fails gsmd poll Event.recv_error whole = refl
answer-fails gsmd poll (Event.received message) whole =
    let opened =
      open_message gsmd.scontext no_user poll.seq poll.buffer (take ultra_msg_len message) in
    go (ltb (length (take ultra_msg_len message)) 32) opened.0 opened.1
  where
    go :
        (b : Bool) (buffer : Bytes) (v : Verdict)
        → pair_fails (if b then (overrun, poll.buffer) else (judge v, buffer)) ≡ false
    go true buffer v = refl
    go false buffer v = judge-fails v

respond-sleeps :
    (gsmd : Gsmd) (later : ℕ) (poll : Poll) (found : Answer)
    → fails found ≡ false
    → sleeps (respond gsmd 1 later poll found) ≡ false
unfolding respond
respond-sleeps gsmd later poll acked whole = refl
respond-sleeps gsmd later poll ignored whole = refl
respond-sleeps gsmd later poll broken whole = absurd cc
respond-sleeps gsmd later poll unanswered whole = refl
respond-sleeps gsmd later poll overrun whole = refl

move-sleeps :
    (gsmd : Gsmd) (poll : Poll) (round : Round)
    → is_broken round.event ≡ false
    → sleeps (move gsmd 1 poll round) ≡ false
unfolding move time_out
move-sleeps gsmd poll round whole = go (ltb round.head poll.timeout) _ (
    respond-sleeps gsmd round.later (record poll { buffer = (answer gsmd poll round.event).1 })
      (answer gsmd poll round.event).0 (answer-fails gsmd poll round.event whole))
  where
    go :
        (b : Bool) (m : Move)
        → sleeps m ≡ false
        → sleeps (if b then m else fail_back poll.buffer) ≡ false
    go true m h = h
    go false m h = refl

apart : true ≢ false
apart e = cc

moved-IsAwake :
    (errno_again : Bool) (monitor : Monitor) (m : Move)
    → IsAwake monitor
    → (monitor.active ≡ 1 → sleeps m ≡ false)
    → IsAwake (moved errno_again monitor m)
unfolding moved
moved-IsAwake errno_again monitor (stay poll) (inl primary) kept = inl primary
moved-IsAwake errno_again monitor (stay poll) (inr (backup, looping)) kept = inr (backup, refl)
moved-IsAwake errno_again monitor (fail_over poll) awake kept = inr (refl, refl)
moved-IsAwake errno_again monitor (fail_back buffer) awake kept = inl refl
moved-IsAwake errno_again monitor (sleep buffer) (inl primary) kept = inl primary
moved-IsAwake errno_again monitor (sleep buffer) (inr (backup, looping)) kept =
    absurd (apart (kept backup))
moved-IsAwake errno_again monitor crash (inl primary) kept = inl primary
moved-IsAwake errno_again monitor crash (inr (backup, looping)) kept = inr (backup, refl)

wake-IsAwake :
    (gsmd : Gsmd) (now seq : ℕ) (buffer : Bytes) (monitor : Monitor) (sem : ℕ)
    → IsAwake monitor
    → monitor.phase ≡ asleep buffer
    → IsAwake (wake gsmd now seq buffer monitor sem)
unfolding wake
wake-IsAwake gsmd now seq buffer monitor zero awake slept = awake
wake-IsAwake gsmd now seq buffer monitor (suc sem) (inl primary) slept = inl primary
wake-IsAwake gsmd now seq buffer monitor (suc sem) (inr (backup, looping)) slept =
    inr (backup, refl)

act-IsAwake :
    (gsmd : Gsmd) (action : Action) (monitor : Monitor) (phase : Phase)
    → monitor.phase ≡ phase
    → IsAwake monitor
    → IsWhole action
    → IsAwake (act gsmd action monitor phase)
unfolding act
act-IsAwake gsmd posted monitor phase at awake whole = awake
act-IsAwake gsmd (woken now seq) monitor (asleep buffer) at awake whole =
    wake-IsAwake gsmd now seq buffer monitor monitor.sem awake at
act-IsAwake gsmd (woken now seq) monitor (polling poll) at awake whole = awake
act-IsAwake gsmd (woken now seq) monitor crashed at awake whole = awake
act-IsAwake gsmd (woken now seq) monitor exited at awake whole = awake
act-IsAwake gsmd (polled round errno_again) monitor (polling poll) at awake whole =
    moved-IsAwake errno_again monitor (move gsmd monitor.active poll round) awake (λ backup.
      subst (λ active. sleeps (move gsmd active poll round) ≡ false) (sym backup)
        (move-sleeps gsmd poll round whole))
act-IsAwake gsmd (polled round errno_again) monitor (asleep buffer) at awake whole = awake
act-IsAwake gsmd (polled round errno_again) monitor crashed at awake whole = awake
act-IsAwake gsmd (polled round errno_again) monitor exited at awake whole = awake

-- In every state that the thread of a manager with the primary in use reaches while no send() or
-- poll() fails, the primary is in use, or the backup is and the thread is in its loop, where the
-- failback timer runs, or out of its buffer.
pub Reaches-IsAwake :
    (gsmd : Gsmd) (monitor : Monitor) → gsmd.active ≡ 0 → Reaches gsmd monitor → IsAwake monitor
unfolding started step
Reaches-IsAwake gsmd monitor primary (Reaches.start buffer) = inl primary
Reaches-IsAwake gsmd monitor primary (Reaches.after before action reached whole) =
    act-IsAwake gsmd action before before.phase refl (Reaches-IsAwake gsmd before primary reached)
      whole
