-- ===== src/Failover/Monitor.antt =====
-- failover_thread.c: the thread with its semaphore, as the actions of the system reach it.
use otpd.Base.{ℕ, zero, suc, ◌+◌, Bool, true, false, if◌then◌else◌, ◌==◌, Bytes}
use otpd.Gsmd.{Gsmd}
use otpd.Nonce.{nonce32}
use otpd.Failover.{Poll, Round, Move, stay, fail_over, fail_back, sleep, crash, move}

-- Where the thread stands: at sem_wait() with its reply buffer, in the inner loop, out of its
-- buffer, or at its end.
pub data Phase : Type 0 where
  asleep : Bytes → Phase
  polling : Poll → Phase
  crashed : Phase
  exited : Phase

-- `gsmd->active`, `gsmd->sem` and the thread.
pub record Monitor : Type 0 where
  pub active : ℕ
  pub sem : ℕ
  pub phase : Phase

-- A post of the semaphore by gsmd(); the return from sem_wait() at a time, with the static number of
-- nonce32(); and a round of the inner loop, with whether `errno` is EAGAIN at its end.
pub data Action : Type 0 where
  posted : Action
  woken : ℕ → ℕ → Action
  polled : Round → Bool → Action

-- The start of the thread: there is nothing to do with one host.
unfoldable pub started : Gsmd → Bytes → Monitor
started gsmd buffer = record {
  active = gsmd.active;
  sem = 0;
  phase = if gsmd.hosts == 1 then exited else asleep buffer;
}

-- The label `reset`: the semaphore is taken while it can be and `errno`, which sem_trywait() sets
-- only when it fails, is not EAGAIN.
unfoldable pub drain : Bool → ℕ → ℕ
drain errno_again zero = 0
drain true (suc sem) = sem
drain false (suc sem) = 0

unfoldable pub moved : Bool → Monitor → Move → Monitor
unfolding drain
moved errno_again monitor (stay poll) = record monitor { phase = polling poll }
moved errno_again monitor (fail_over poll) = record monitor { active = 1; phase = polling poll }
moved errno_again monitor (fail_back buffer) = record {
  active = 0;
  sem = drain errno_again monitor.sem;
  phase = asleep buffer;
}
moved errno_again monitor (sleep buffer) = record monitor {
  sem = drain errno_again monitor.sem;
  phase = asleep buffer;
}
moved errno_again monitor crash = record monitor { phase = crashed }

-- sem_wait() returns when the semaphore can be taken.
unfoldable pub wake : Gsmd → ℕ → ℕ → Bytes → Monitor → ℕ → Monitor
unfolding nonce32
wake gsmd now seq buffer monitor zero = monitor
wake gsmd now seq buffer monitor (suc sem) = record monitor {
  sem = sem;
  phase = polling (record { timeout = now + gsmd.fo_timeout; seq = nonce32 seq; buffer = buffer });
}

-- An action; one that cannot occur in a phase changes nothing.
unfoldable pub act : Gsmd → Action → Monitor → Phase → Monitor
unfolding wake moved move
act gsmd posted monitor phase = record monitor { sem = monitor.sem + 1 }
act gsmd (woken now seq) monitor (asleep buffer) = wake gsmd now seq buffer monitor monitor.sem
act gsmd (polled round errno_again) monitor (polling poll) =
    moved errno_again monitor (move gsmd monitor.active poll round)
act gsmd (woken _ _) monitor _ = monitor
act gsmd (polled _ _) monitor _ = monitor

unfoldable pub step : Gsmd → Action → Monitor → Monitor
unfolding act
step gsmd action monitor = act gsmd action monitor monitor.phase
