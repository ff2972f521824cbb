-- ===== src/Verify/Decide.antt =====
-- otp.c, verify(): the state as it is loaded, and what the tests come to.
use otpd.Base.{ℕ, ◌^◌, true, Option, none, some, leb, if◌then◌else◌, Bytes}
use otpd.Crypto.{Crypto}
use otpd.Otp.{Request, Config, User, State}
use otpd.Cardops.{Cardops}
use otpd.Verify.Fail.{Fc, fail_condition}
use otpd.Verify.Frame.{Decision, Times}
use otpd.Verify.Async.{on_continue, async}
use otpd.Verify.Sync.{sync}
use otpd.Verify.Settle.{negated}

-- The state once it is fetched: a null state is the card's business, and a negative `authtime`
-- says that there was no successful authentication yet.
unfoldable pub load_state : Config → Cardops → User → State → ℕ → Option State
unfolding negated
load_state config ops user state now =
    if state.nullstate
    then ops.nullstate config user state now
    else some (
        if leb (2 ^ 31) state.authtime
        then record state { authtime = negated state.authtime; nullstate = true }
        else state)

-- `stack` is what the challenge array holds before anything is written to it.
module _ (crypto : Crypto) (times : Times) (stack : Bytes) where
  -- The async test and the window search, under the fail condition.
  unfoldable pub decide_under : Config → Request → Cardops → User → State → Option Fc → Decision
  unfolding async sync
  decide_under config request ops user state none = Decision.undefined
  decide_under config request ops user state (some fc) =
      on_continue (async crypto config request ops user times state fc stack)
        (sync crypto config request ops user times state fc)

  unfoldable pub decide : Config → Request → Cardops → User → State → Decision
  unfolding fail_condition decide_under
  decide config request ops user state =
      decide_under config request ops user state (fail_condition config state times.now)
