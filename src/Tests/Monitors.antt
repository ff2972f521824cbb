-- ===== src/Tests/Monitors.antt =====
-- failover_thread.c: the theorems at concrete inputs.
use otpd.Base.{ℕ, ◌+◌, ◌≤◌, ◌<◌, false, [], ◌∷◌, ◌≡◌, ◌≢◌, refl, sym, arith, All}
use otpd.Tests.Chains.{west}
use otpd.Gsm.Exchange.{Event, Call, start_loop, run}
use otpd.Gsm.Signal.{signalled}
use otpd.Failover.{Poll, Round, acked, unanswered, fail_over, move}
use otpd.Failover.Monitor.{asleep, polling, Monitor, posted, woken, polled, started, step}
use otpd.Failover.Rounds.{Entry, Stays}
use otpd.Failover.Over.{failover-silence}
use otpd.Failover.Awake.{IsAwake, Reaches, Reaches-IsAwake}
use otpd.Failover.Stuck.{broken-stuck}

abbrev poll : ℕ → Poll
poll timeout = record { timeout = timeout; seq = 4; buffer = [] }

abbrev quiet : ℕ → Round
quiet head = record { head = head; event = Event.poll_timeout; later = head + 100 }

abbrev spared : ℕ → Round
spared head = record { head = head; event = Event.send_again; later = head + 100 }

-- A quiet round while the primary is in use, and the round at which its time is over.
one_quiet :
    Stays west 0
      (poll 3000000050)
      (record { head = 100; later = 200; found = unanswered } ∷ [])
      (poll 3000000050)
unfolding move
one_quiet =
    Stays.one_round (poll 3000000050) (poll 3000000050) (poll 3000000050) (quiet 100) [] refl
      (Stays.no_round (poll 3000000050))

over : move west 0 (poll 3000000050) (quiet 3000000060) ≡ fail_over (poll 4000000160)
unfolding move
over = refl

failover-silence_example :
    All
      (λ (e : Entry). (e.head < 50 + west.fo_timeout) × (e.found ≢ acked))
      (record { head = 100; later = 200; found = unanswered } ∷ [])
    × (50 + west.fo_timeout ≤ 3000000060)
    × (4000000160 ≡ 3000000160 + west.fb_timeout)
failover-silence_example =
    failover-silence west 50 (poll 3000000050) (poll 3000000050) (poll 4000000160)
      (record { head = 100; later = 200; found = unanswered } ∷ []) (quiet 3000000060) refl
      one_quiet over

-- A signal, the wake, and the failover.
abbrev signalled_monitor : Monitor
signalled_monitor = step west posted (started west [])

abbrev woken_monitor : Monitor
woken_monitor = step west (woken 50 2) signalled_monitor

abbrev failed_over : Monitor
failed_over = step west (polled (quiet 3000000060) false) woken_monitor

Reaches-IsAwake_example : IsAwake failed_over
Reaches-IsAwake_example = Reaches-IsAwake west failed_over refl (
    Reaches.after woken_monitor (polled (quiet 3000000060) false)
      (Reaches.after signalled_monitor (woken 50 2)
        (Reaches.after (started west []) posted (Reaches.start []) tt) tt)
      refl)

failed_over_run : (failed_over.active ≡ 1) × (failed_over.phase ≡ polling (poll 4000000160))
unfolding step started
failed_over_run = (refl, refl)

abbrev broken_round : Round
broken_round = record { head = 3100000000; event = Event.send_error; later = 3100000000 }

abbrev call : Call
call = record { gsmd = west; active = 1; username = b'j' ∷ []; seq = 4 }

broken_active : (step west (polled broken_round false) failed_over).active ≡ 1
unfolding step started
broken_active = refl

broken-stuck_example :
    ((step west (polled broken_round false) failed_over).phase ≡ asleep [])
    × ((step west (polled broken_round false) failed_over).active ≡ 1)
    × (signalled (run call (start_loop 2000000000 []) []) ≡ false)
broken-stuck_example =
    broken-stuck west failed_over (poll 4000000160) broken_round false call
      (start_loop 2000000000 []) [] failed_over_run.0 failed_over_run.1 refl (omega arith)
      (sym broken_active)
