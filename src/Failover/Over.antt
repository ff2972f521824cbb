-- ===== src/Failover/Over.antt =====
-- failover_thread.c: how long the primary is silent before a failover.
use otpd.Base.{
  ℕ, ◌+◌, ◌≤◌, ◌<◌, Bool, true, false, if◌then◌else◌, ltb, ltb→lt, ltb→le, List, All, ◌≡◌, ◌≢◌,
  refl, ap, sym, subst, ◌∙◌,
}
use otpd.Gsmd.{Gsmd}
use otpd.Failover.{
  Poll, Round, Answer, acked, ignored, unanswered, broken, overrun, Move, stay, fail_over, answer,
  respond, time_out, move, reset_failback,
}
use otpd.Failover.Rounds.{Entry, Stays, stay_facts, stay-timeout, respond-changes, apart, changes}

silent :
    (gsmd : Gsmd) (later : ℕ) (poll next : Poll) (found : Answer)
    → respond gsmd 0 later poll found ≡ stay next
    → (next.timeout ≡ poll.timeout) × (found ≢ acked)
unfolding respond reset_failback
silent gsmd later poll next acked h = absurd cc
silent gsmd later poll next ignored h = (stay-timeout h, λ e. cc)
silent gsmd later poll next broken h = absurd cc
silent gsmd later poll next unanswered h = (stay-timeout h, λ e. cc)
silent gsmd later poll next overrun h = absurd cc

Stays-silent :
    (gsmd : Gsmd) (poll last : Poll) (log : List Entry)
    → Stays gsmd 0 poll log last
    → (last.timeout ≡ poll.timeout) × All (λ e. (e.head < poll.timeout) × (e.found ≢ acked)) log
Stays-silent gsmd poll last log (Stays.no_round _) = (refl, tt)
Stays-silent gsmd poll last log (Stays.one_round _ next _ round rest moves stays) =
    let (in_time, responds) = stay_facts gsmd 0 poll next round moves in
    let (kept, unacked) =
      silent gsmd round.later _ next (answer gsmd poll round.event).0 responds in
    let (end, all) = Stays-silent gsmd next last rest stays in
    (
      end ∙ kept,
      (
        (ltb→lt round.head poll.timeout in_time, unacked),
        subst (λ t. All (λ e. (e.head < t) × (e.found ≢ acked)) rest) kept all,
      ),
    )

fail_over_timeout : Move → ℕ
fail_over_timeout (fail_over poll) = poll.timeout
fail_over_timeout _ = 0

fail_over-timeout : {p q : Poll} → fail_over p ≡ fail_over q → q.timeout ≡ p.timeout
unfolding fail_over_timeout
fail_over-timeout h = ap fail_over_timeout (sym h)

time_out-fail_over :
    (gsmd : Gsmd) (poll next : Poll) (round : Round)
    → move gsmd 0 poll round ≡ fail_over next
    → (poll.timeout ≤ round.head) × (next.timeout ≡ round.later + gsmd.fb_timeout)
unfolding move time_out changes
time_out-fail_over gsmd poll next round h = go (ltb round.head poll.timeout) refl h
  where
    go :
        (b : Bool)
        → ltb round.head poll.timeout ≡ b
        → (if b
            then respond gsmd 0 round.later
                (record poll { buffer = (answer gsmd poll round.event).1 })
                (answer gsmd poll round.event).0
            else fail_over (record poll { timeout = round.later + gsmd.fb_timeout }))
          ≡ fail_over next
        → (poll.timeout ≤ round.head) × (next.timeout ≡ round.later + gsmd.fb_timeout)
    go true early h = absurd (
        apart (
          sym (respond-changes gsmd 0 round.later _ (answer gsmd poll round.event).0)
          ∙ ap changes h))
    go false late h = (ltb→le round.head poll.timeout late, fail_over-timeout h)

-- The primary is active and the loop was entered at the time `start`, which set its timer to the
-- failover timeout. When a round changes to the backup, no round since then has found an ACK, each
-- began before the timer ran out, the failover timeout is over, and the timer of the failback
-- starts.
pub failover-silence :
    (gsmd : Gsmd) (start : ℕ) (poll last next : Poll) (log : List Entry) (round : Round)
    → poll.timeout ≡ start + gsmd.fo_timeout
    → Stays gsmd 0 poll log last
    → move gsmd 0 last round ≡ fail_over next
    → All (λ e. (e.head < start + gsmd.fo_timeout) × (e.found ≢ acked)) log
      × (start + gsmd.fo_timeout ≤ round.head)
      × (next.timeout ≡ round.later + gsmd.fb_timeout)
failover-silence gsmd start poll last next log round set stays over =
    let (end, all) = Stays-silent gsmd poll last log stays in
    let (late, timer) = time_out-fail_over gsmd last next round over in
    (
      subst (λ t. All (λ e. (e.head < t) × (e.found ≢ acked)) log) set all,
      subst (λ t. t ≤ round.head) (end ∙ set) late,
      timer,
    )
