-- ===== src/Failover/Rounds.antt =====
-- failover_thread.c: the rounds of the loop between two moves.
use otpd.Base.{
  ℕ, ◌+◌, Bool, true, false, if◌then◌else◌, ltb, ◌==◌, List, [], ◌∷◌, ◌≡◌, ◌≢◌, refl, ap, sym,
}
use otpd.Gsmd.{Gsmd}
use otpd.Failover.{
  Poll, Round, Answer, acked, ignored, unanswered, broken, overrun, Move, stay, fail_over,
  fail_back, sleep, answer, respond, time_out, move,
}

-- A round that stayed in the loop: its two clock readings and what it found.
pub record Entry : Type 0 where
  pub head : ℕ
  pub later : ℕ
  pub found : Answer

-- The rounds from one state of the loop to another, with no other move between them.
pub data Stays (gsmd : Gsmd) (active : ℕ) : Poll → List Entry → Poll → Type 0 where
  no_round : (poll : Poll) → Stays gsmd active poll [] poll
  one_round :
      (poll next last : Poll) (round : Round) (log : List Entry)
      → move gsmd active poll round ≡ stay next
      → Stays gsmd active next log last
      → Stays gsmd active poll
          (record {
            head = round.head;
            later = round.later;
            found = (answer gsmd poll round.event).0;
          }
            ∷ log)
          last

time_out-stay :
    (gsmd : Gsmd) (active later : ℕ) (poll next : Poll)
    → time_out gsmd active later poll ≢ stay next
unfolding time_out
time_out-stay gsmd active later poll next h = go (active == 0) h
  where
    go :
        (b : Bool)
        → (if b
            then fail_over (record poll { timeout = later + gsmd.fb_timeout })
            else fail_back poll.buffer)
          ≢ stay next
    go true e = cc
    go false e = cc

pub stay_facts :
    (gsmd : Gsmd) (active : ℕ) (poll next : Poll) (round : Round)
    → move gsmd active poll round ≡ stay next
    → (ltb round.head poll.timeout ≡ true)
      × (respond gsmd active round.later
            (record poll { buffer = (answer gsmd poll round.event).1 })
            (answer gsmd poll round.event).0
          ≡ stay next)
unfolding move
stay_facts gsmd active poll next round h = go (ltb round.head poll.timeout) _ h
  where
    go :
        (b : Bool) (m : Move)
        → (if b then m else time_out gsmd active round.later poll) ≡ stay next
        → (b ≡ true) × (m ≡ stay next)
    go true m h = (refl, h)
    go false m h = absurd (time_out-stay gsmd active round.later poll next h)

stay_timeout : Move → ℕ
stay_timeout (stay poll) = poll.timeout
stay_timeout _ = 0

pub stay-timeout : {p q : Poll} → stay p ≡ stay q → q.timeout ≡ p.timeout
unfolding stay_timeout
stay-timeout h = ap stay_timeout (sym h)

-- What the replies do is no change of the host.
unfoldable pub changes : Move → Bool
changes (fail_over _) = true
changes (fail_back _) = true
changes _ = false

pub respond-changes :
    (gsmd : Gsmd) (active later : ℕ) (poll : Poll) (found : Answer)
    → changes (respond gsmd active later poll found) ≡ false
unfolding respond changes
respond-changes gsmd active later poll acked = either (active == 0)
  where
    either : (b : Bool) → changes (if b then sleep poll.buffer else stay poll) ≡ false
    either true = refl
    either false = refl
respond-changes gsmd active later poll ignored = refl
respond-changes gsmd active later poll broken = refl
respond-changes gsmd active later poll unanswered = refl
respond-changes gsmd active later poll overrun = refl

pub apart : false ≢ true
apart e = cc
