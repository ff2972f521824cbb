-- ===== src/Verify/Lockout.antt =====
-- otp.c, verify(): a user at the hard limit is not let in, and stays there.
use otpd.Base.{
  ℕ, ◌≤◌, ◌≡◌, ◌≢◌, not, ◌&&◌, Option, none, some, inl, inr, arith, ◌==◌, Bytes, Bool-cases, length,
}
use otpd.Crypto.{Crypto}
use otpd.Otp.{maxtries, Request, Config, User, State, async_mode, sync_mode}
use otpd.Cardops.{Cardops}
use otpd.Compare.{compare}
use otpd.Verify.Fail.{fail_hard, fail_condition}
use otpd.Verify.Frame.{Frame, Decision, Times, expected}
use otpd.Verify.Async.{
  Async, leave, continue, on_continue, async, async_tested, async_test, async_rc,
}
use otpd.Verify.Sync.{
  Scan, missed, matched, broken, sync_rc, conclude_match, conclude, search, sync,
}
use otpd.Verify.Decide.{decide_under, decide}
use otpd.Verify.Grant.{OnOk, AsyncOnOk}

-- At the limit the fail condition is hard, whatever the time and the rest of the state.
pub fail_condition_hard :
    (config : Config) (state : State) (now : ℕ)
    → config.hardfail ≢ 0
    → config.hardfail ≤ state.failcount
    → fail_condition config state now ≡ some fail_hard
unfolding fail_condition
fail_condition_hard config state now set reached = ground arith

module _ (crypto : Crypto) (config : Config) (request : Request) (ops : Cardops) (user : User)
    (times : Times) where
  abbrev Never : Frame → Type 0
  Never _ = ⊥

  async_tested_hard :
      (state : State) (challenge : Bytes) (r : Option Bytes)
      → AsyncOnOk Never
          (async_tested crypto config request ops user times state fail_hard challenge r)
  unfolding async_tested async_rc
  async_tested_hard state challenge none = tt
  async_tested_hard state challenge (some response) =
      elim (Bool-cases (compare crypto request (expected config user response))) [
        | inr miss ↦ rw miss tt
        | inl hit ↦ elim (Bool-cases request.allow_async) [
          | inl allowed ↦ rw (hit, allowed) tt
          | inr barred ↦ rw (hit, barred) tt
        ]
      ]

  async_hard :
      (state : State) (stack : Bytes)
      → AsyncOnOk Never (async crypto config request ops user times state fail_hard stack)
  unfolding async async_test
  async_hard state stack =
      elim (Bool-cases (
        not (length request.challenge == 0)
        && (async_mode user.featuremask && request.allow_async))) [
          | inl tested ↦ rw tested (async_tested_hard state _ _)
          | inr skipped ↦ rw skipped tt
        ]

  conclude_hard :
      (scan : Scan) → OnOk Never (conclude crypto config request ops user times fail_hard scan)
  unfolding conclude sync_rc
  conclude_hard (missed s c) = tt
  conclude_hard (broken s) = tt
  conclude_hard (matched t e s c r) = go (ops.updatecsd s times.now t e maxtries)
    where
      go :
          (updated : Option State)
          → OnOk Never (conclude_match crypto config request ops user times maxtries c r s updated)
      go none = tt
      go (some s') = tt

  search_hard :
      (state : State) (challenge : Bytes) (tend : Option ℕ)
      → OnOk Never (search crypto config request ops user times state fail_hard challenge tend)
  unfolding search
  search_hard state challenge none = tt
  search_hard state challenge (some tend) = conclude_hard _

  sync_hard :
      (state : State) (stack : Bytes)
      → OnOk Never (sync crypto config request ops user times state fail_hard stack)
  unfolding sync
  sync_hard state stack = elim (Bool-cases (sync_mode user.featuremask && request.allow_sync)) [
    | inl allowed ↦ rw allowed (search_hard state _ (ops.maxtwin user state times.now))
    | inr refused ↦ rw refused tt
  ]

  on_continue_hard :
      (a : Async) (rest : Bytes → Decision)
      → AsyncOnOk Never a
      → ((c : Bytes) → OnOk Never (rest c))
      → OnOk Never (on_continue a rest)
  on_continue_hard (leave d) rest p q = p
  on_continue_hard (continue c) rest p q = q c

  -- With the failures at the hard limit no decision grants.
  pub decide_hard :
      (stack : Bytes) (state : State)
      → config.hardfail ≢ 0
      → config.hardfail ≤ state.failcount
      → OnOk Never (decide crypto times stack config request ops user state)
  unfolding decide decide_under
  decide_hard stack state set reached =
      rw (fail_condition_hard config state times.now set reached)
        (on_continue_hard _ _ (async_hard state stack) (sync_hard state))
