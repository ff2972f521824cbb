-- ===== src/Verify/Delay.antt =====
-- otp.c, verify(): the soft limit, its delay and what is let through it.
use otpd.Base.{
  ℕ, zero, suc, ◌+◌, ◌-◌, ◌*◌, ◌^◌, ◌≤◌, ◌<◌, ◌≡◌, ◌≢◌, refl, true, false, not, ◌&&◌, Option, none,
  some, ◌⊎◌, inl, inr, arith, ◌==◌, leb, ltb, if◌then◌else◌, Bytes, Bool-cases, leb→lt, length,
}
use otpd.Crypto.{Crypto}
use otpd.Otp.{ok, nextpasscode, Request, Config, User, State, async_mode, sync_mode, u32}
use otpd.Cardops.{Cardops}
use otpd.Compare.{compare}
use otpd.Verify.Fail.{fail_soft, fail_none, delay, fail_condition}
use otpd.Verify.Frame.{Frame, Times, expected}
use otpd.Verify.Async.{async, async_tested, async_test, async_rc}
use otpd.Verify.Sync.{
  Scan, missed, matched, broken, sync_rc, conclude_match, conclude, search, sync,
}
use otpd.Verify.Decide.{decide_under, decide}
use otpd.Verify.Grant.{OnOk, AsyncOnOk, on_continue-OnOk}

-- The delay starts at 64 seconds, doubles with each of the next five failures, and stays at 2048.
pub delay_shape :
    (n : ℕ)
    → (64 ≤ delay n)
      × (delay n ≤ 2048)
      × (delay (suc n) ≡ (if ltb n 5 then 2 * delay n else delay n))
unfolding delay
delay_shape zero = (omega arith, omega arith, refl)
delay_shape (suc zero) = (omega arith, omega arith, refl)
delay_shape (suc (suc zero)) = (omega arith, omega arith, refl)
delay_shape (suc (suc (suc zero))) = (omega arith, omega arith, refl)
delay_shape (suc (suc (suc (suc zero)))) = (omega arith, omega arith, refl)
delay_shape (suc (suc (suc (suc (suc zero))))) = (omega arith, omega arith, refl)
delay_shape (suc (suc (suc (suc (suc (suc n)))))) = ground arith

-- Past the soft limit, which is set, and short of the hard one, if set, a user whose state is not
-- null is delayed exactly while the clock is below the last attempt plus the delay. The time and the
-- failures past the limit are below 2^31, and the sum does not wrap.
pub fail_condition_soft :
    (config : Config) (state : State) (now : ℕ)
    → (config.hardfail ≡ 0) ⊎ (state.failcount < config.hardfail)
    → config.softfail ≢ 0
    → state.nullstate ≡ false
    → config.softfail ≤ state.failcount
    → state.failcount - config.softfail < 2 ^ 31
    → state.authtime < 2 ^ 31
    → fail_condition config state now
      ≡ some (
          if ltb (u32 now) (state.authtime + delay (state.failcount - config.softfail))
          then fail_soft
          else fail_none)
unfolding fail_condition
fail_condition_soft config state now hard set old reached small fits =
    ground (arith, delay_shape (state.failcount - config.softfail))

module _ (crypto : Crypto) (config : Config) (request : Request) (ops : Cardops) (user : User)
    (times : Times) where
  -- The match at slot `e` follows the saved candidate, the clock is past the last attempt, and the
  -- frame's state is the one that the token made of the matching state.
  pub record Follows (frame : Frame) : Type 0 where
    pub state : State
    pub t : ℕ
    pub e : ℕ
    pub next : ops.isconsecutive user state e ≡ true
    pub late : state.authtime < u32 times.now
    pub updated : ops.updatecsd state times.now t e ok ≡ some frame.state

  async_tested_soft :
      (state : State) (challenge : Bytes) (r : Option Bytes)
      → AsyncOnOk Follows
          (async_tested crypto config request ops user times state fail_soft challenge r)
  unfolding async_tested async_rc
  async_tested_soft state challenge none = tt
  async_tested_soft state challenge (some response) =
      elim (Bool-cases (compare crypto request (expected config user response))) [
        | inr miss ↦ rw miss tt
        | inl hit ↦ elim (Bool-cases request.allow_async) [
          | inl allowed ↦ rw (hit, allowed) tt
          | inr barred ↦ rw (hit, barred) tt
        ]
      ]

  async_soft :
      (state : State) (stack : Bytes)
      → AsyncOnOk Follows (async crypto config request ops user times state fail_soft stack)
  unfolding async async_test
  async_soft state stack =
      elim (Bool-cases (
        not (length request.challenge == 0)
        && (async_mode user.featuremask && request.allow_async))) [
          | inl tested ↦ rw tested (async_tested_soft state _ _)
          | inr skipped ↦ rw skipped tt
        ]

  conclude_soft :
      (scan : Scan) → OnOk Follows (conclude crypto config request ops user times fail_soft scan)
  unfolding conclude sync_rc
  conclude_soft (missed s c) = tt
  conclude_soft (broken s) = tt
  conclude_soft (matched t e s c r) = elim (Bool-cases (ops.isconsecutive user s e)) [
    | inr apart ↦ rw apart (delayed (ops.updatecsd s times.now t e nextpasscode))
    | inl next ↦ elim (Bool-cases (leb (u32 times.now) s.authtime)) [
      | inl soon ↦ rw (next, soon) (delayed (ops.updatecsd s times.now t e nextpasscode))
      | inr late ↦
          rw (next, late) (resynced next (leb→lt _ _ late) (ops.updatecsd s times.now t e ok) refl)
    ]
  ]
    where
      delayed :
          (updated : Option State)
          → OnOk Follows
              (conclude_match crypto config request ops user times nextpasscode c r s updated)
      delayed none = tt
      delayed (some s') = tt

      resynced :
          ops.isconsecutive user s e ≡ true
          → s.authtime < u32 times.now
          → (updated : Option State) → ops.updatecsd s times.now t e ok ≡ updated
          → OnOk Follows (conclude_match crypto config request ops user times ok c r s updated)
      resynced next late none eq = tt
      resynced next late (some s') eq = record {
        state = s;
        t = t;
        e = e;
        next = next;
        late = late;
        updated = eq;
      }

  search_soft :
      (state : State) (challenge : Bytes) (tend : Option ℕ)
      → OnOk Follows (search crypto config request ops user times state fail_soft challenge tend)
  unfolding search
  search_soft state challenge none = tt
  search_soft state challenge (some tend) = conclude_soft _

  sync_soft :
      (state : State) (stack : Bytes)
      → OnOk Follows (sync crypto config request ops user times state fail_soft stack)
  unfolding sync
  sync_soft state stack = elim (Bool-cases (sync_mode user.featuremask && request.allow_sync)) [
    | inl allowed ↦ rw allowed (search_soft state _ (ops.maxtwin user state times.now))
    | inr refused ↦ rw refused tt
  ]

  -- Under the soft fail condition a decision grants only to a match that the token finds consecutive
  -- to a saved candidate, with the clock past the time of the last attempt, and with the state that
  -- the token makes of a grant.
  pub decide_soft :
      (stack : Bytes) (state : State)
      → fail_condition config state times.now ≡ some fail_soft
      → OnOk Follows (decide crypto times stack config request ops user state)
  unfolding decide decide_under
  decide_soft stack state soft = rw soft (
      on_continue-OnOk crypto config request ops user times Follows _ _ (async_soft state stack)
        (sync_soft state))
