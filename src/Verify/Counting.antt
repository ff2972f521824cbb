-- ===== src/Verify/Counting.antt =====
-- otp.c, verify(): the failure count from attempt to attempt.
use otpd.Base.{
  ℕ, ◌+◌, ◌-◌, ◌^◌, ◌≤◌, ◌<◌, ◌≡◌, ◌≢◌, refl, ap, ◌∙◌, subst, arith, if◌then◌else◌, Bytes,
}
use otpd.Crypto.{Crypto}
use otpd.Otp.{Rc, ok, Request, Config, User, State}
use otpd.Cardops.{Cardops}
use otpd.Cardops.Book.{SameBook, KeepsBook}
use otpd.Verify.Frame.{Frame, decided, Times}
use otpd.Verify.Decide.{decide}
use otpd.Verify.Settle.{settle, count_failure, is_ok}
use otpd.Verify.Grant.{OnOk}
use otpd.Verify.Lockout.{decide_hard}
use otpd.Verify.Book.{OnDecided, decide-Kept}

-- Below its ceiling the count grows by one, and at the ceiling it stays.
count_failure_lem :
    (n : ℕ)
    → n < 2 ^ 32 - 1
    → (n ≤ count_failure n) × (count_failure n ≤ n + 1) × (count_failure n < 2 ^ 32 - 1)
unfolding count_failure
count_failure_lem n h = ground arith

settle_failcount :
    (now : ℕ) (rc : Rc) (frame : Frame) (old : Bytes)
    → (settle now rc frame old).0.failcount
      ≡ (if is_ok rc then 0 else count_failure frame.state.failcount)
unfolding settle
settle_failcount now ok frame old = refl
settle_failcount now _ frame old = refl

never-ok : (rc : Rc) (frame : Frame) → OnOk (λ _. ⊥) (decided rc frame) → rc ≢ ok
never-ok ok frame h e = h
never-ok _ frame h e = cc

not-ok : (rc : Rc) → rc ≢ ok → (n : ℕ) → (if is_ok rc then 0 else n) ≡ n
unfolding is_ok
not-ok ok h n = absurd (h refl)
not-ok _ h n = refl

module _ (crypto : Crypto) (config : Config) (request : Request) (ops : Cardops) (user : User)
    (times : Times) (laws : KeepsBook ops) (stack : Bytes) (state : State) where
  -- the decision is one of those that reach `auth_done`
  module _ (rc : Rc) (frame : Frame)
      (attempt : decide crypto times stack config request ops user state ≡ decided rc frame) where
    same_book : SameBook state frame.state
    same_book =
        subst (OnDecided (SameBook state)) attempt
          (decide-Kept crypto config request ops user times laws stack state)

    pub settle_counts :
        (old : Bytes)
        → (settle times.now rc frame old).0.failcount
          ≡ (if is_ok rc then 0 else count_failure state.failcount)
    settle_counts old =
        settle_failcount times.now rc frame old
        ∙ ap (λ n. if is_ok rc then 0 else count_failure n) same_book.failcount

    -- With a token type that keeps verify()'s fields, and a count at the hard limit and below
    -- 2^32 - 1, an attempt that reaches a decision does not grant, and the state that it leaves is
    -- at the hard limit again with a count below 2^32 - 1.
    pub locked_out :
        (old : Bytes)
        → config.hardfail ≢ 0
        → config.hardfail ≤ state.failcount
        → state.failcount < 2 ^ 32 - 1
        → (rc ≢ ok)
          × (config.hardfail ≤ (settle times.now rc frame old).0.failcount)
          × ((settle times.now rc frame old).0.failcount < 2 ^ 32 - 1)
    locked_out old set reached small =
        (refused, omega (arith, count, counted), omega (arith, count, counted))
      where
        refused : rc ≢ ok
        refused = never-ok rc frame (
            subst (OnOk (λ _. ⊥)) attempt
              (decide_hard crypto config request ops user times stack state set reached))

        count : (settle times.now rc frame old).0.failcount ≡ count_failure state.failcount
        count = settle_counts old ∙ not-ok rc refused (count_failure state.failcount)

        counted :
            (state.failcount ≤ count_failure state.failcount)
            × (count_failure state.failcount ≤ state.failcount + 1)
            × (count_failure state.failcount < 2 ^ 32 - 1)
        counted = count_failure_lem state.failcount small
