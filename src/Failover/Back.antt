-- ===== src/Failover/Back.antt =====
-- failover_thread.c: how long the primary answers before a failback.
use otpd.Base.{ℕ, ◌≤◌, ◌⊎◌, List, [], ◌∷◌, ◌≡◌}
use otpd.Gsmd.{Gsmd}
use otpd.Failover.{Answer, acked, ignored}
use otpd.Failover.Rounds.{Entry}

-- The clock does not go back.
abbrev pub Ordered : ℕ → List Entry → Type 0
Ordered from [] = Unit
Ordered from (e ∷ log) = (from ≤ e.later) × Ordered e.later log

-- A round that does not start the timer of the failback again.
abbrev pub Keeps : Answer → Type 0
Keeps found = (found ≡ acked) ⊎ (found ≡ ignored)
