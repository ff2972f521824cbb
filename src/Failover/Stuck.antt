-- ===== src/Failover/Stuck.antt =====
-- failover_thread.c: what an error of send() or poll() leaves while the backup is in use.
use otpd.Base.{ℕ, ◌<◌, Bool, true, false, Bool-cases, inl, inr, lt→ltb, ◌≡◌, refl, ap, ◌∙◌, arith}
use otpd.Gsmd.{Gsmd}
use otpd.Gsm.Exchange.{Event, Call, Loop, Network, run}
use otpd.Gsm.Signal.{signalled, run-signalled}
use otpd.Failover.{Poll, Round, sleep, answer, respond, move, broken}
use otpd.Failover.Monitor.{asleep, polling, Monitor, polled, moved, act, step}
use otpd.Failover.Awake.{is_broken}

-- The calls of a manager whose backup is in use signal no thread.
backup-signals :
    (call : Call) (loop : Loop) (network : Network)
    → call.active ≡ 1
    → signalled (run call loop network) ≡ false
backup-signals call loop network backup = elim (Bool-cases (signalled (run call loop network))) [
  | inl e ↦
      let (hosts, active, failover) = run-signalled call loop network e in
      absurd (omega (arith, backup, active))
  | inr e ↦ e
]

answer-broken :
    (gsmd : Gsmd) (poll : Poll) (event : Event)
    → is_broken event ≡ true
    → answer gsmd poll event ≡ (broken, poll.buffer)
unfolding answer
answer-broken gsmd poll Event.send_error failed = refl
answer-broken gsmd poll Event.poll_error failed = refl
answer-broken gsmd poll Event.send_again failed = absurd cc
answer-broken gsmd poll Event.poll_again failed = absurd cc
answer-broken gsmd poll Event.poll_timeout failed = absurd cc
answer-broken gsmd poll Event.recv_again failed = absurd cc
answer-broken gsmd poll Event.recv_refused failed = absurd cc
answer-broken gsmd poll Event.recv_error failed = absurd cc
answer-broken gsmd poll (Event.received message) failed = absurd cc

move-broken :
    (gsmd : Gsmd) (active : ℕ) (poll : Poll) (round : Round)
    → is_broken round.event ≡ true
    → round.head < poll.timeout
    → move gsmd active poll round ≡ sleep poll.buffer
unfolding move respond
move-broken gsmd active poll round failed early =
    rw (answer-broken gsmd poll round.event failed, lt→ltb round.head poll.timeout early) refl

-- An error of send() or poll() in time, while the backup is in use, sends the thread to sleep with
-- the backup in use, and no later call for a manager whose backup is in use signals it.
pub broken-stuck :
    (gsmd : Gsmd) (monitor : Monitor) (poll : Poll) (round : Round) (errno_again : Bool)
    (call : Call) (loop : Loop) (network : Network)
    → monitor.active ≡ 1
    → monitor.phase ≡ polling poll
    → is_broken round.event ≡ true
    → round.head < poll.timeout
    → call.active ≡ (step gsmd (polled round errno_again) monitor).active
    → ((step gsmd (polled round errno_again) monitor).phase ≡ asleep poll.buffer)
      × ((step gsmd (polled round errno_again) monitor).active ≡ 1)
      × (signalled (run call loop network) ≡ false)
unfolding step act moved
broken-stuck gsmd monitor poll round errno_again call loop network backup at failed early same =
    let moves = move-broken gsmd monitor.active poll round failed early in
    let after : act gsmd (polled round errno_again) monitor monitor.phase
        ≡ moved errno_again monitor (sleep poll.buffer) =
      ap (act gsmd (polled round errno_again) monitor) at ∙ ap (moved errno_again monitor) moves in
    (
      ap (λ m. m.phase) after,
      ap (λ m. m.active) after ∙ backup,
      backup-signals call loop network (same ∙ ap (λ m. m.active) after ∙ backup),
    )
