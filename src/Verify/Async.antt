-- ===== src/Verify/Async.antt =====
-- otp.c, verify(): the test of the response to a challenge.
use otpd.Base.{
  ℕ, ◌+◌, ◌-◌, ◌^◌, not, ◌&&◌, Option, none, some, ◌==◌, ltb, if◌then◌else◌, length, Bytes, memcpy,
}
use otpd.Crypto.{Crypto}
use otpd.Otp.{Rc, ok, auth_err, maxtries, Request, Config, User, State, async_mode, u32}
use otpd.Cardops.{Cardops}
use otpd.Compare.{compare}
use otpd.Site.{challenge_transform}
use otpd.Verify.Fail.{Fc, fail_none, fail_hard, fail_soft}
use otpd.Verify.Frame.{Decision, decided, failed, Times, expected}

-- `rc` for a response that matches.
unfoldable pub async_rc : Request → State → ℕ → Fc → Rc
async_rc request state now fail_hard = if not request.allow_async then auth_err else maxtries
async_rc request state now fail_soft = if not request.allow_async then auth_err else maxtries
async_rc request state now fail_none =
    if not request.allow_async
    then auth_err
    else if not (request.challenge_delay == 0)
        && ltb (u32 (u32 now + 2 ^ 32 - state.authtime)) request.challenge_delay
    then maxtries
    else ok

-- The block leaves verify()'s straight path, or goes on with the challenge array as it left it.
pub data Async : Type 0 where
  leave : Decision → Async
  continue : Bytes → Async

abbrev pub on_continue : Async → (Bytes → Decision) → Decision
on_continue (leave decision) rest = decision
on_continue (continue challenge) rest = rest challenge

-- The array and the length that the response is computed from.
unfoldable pub async_challenge : Config → Request → Bytes → Bytes × ℕ
unfolding challenge_transform
async_challenge config request stack =
    let clen = length request.challenge in
    let challenge = memcpy stack request.challenge clen in
    if config.site_transform
    then challenge_transform request.username challenge clen
    else (challenge, clen)

module _ (crypto : Crypto) (config : Config) (request : Request) (ops : Cardops) (user : User)
    (times : Times) where
  -- The comparison with a response, if one was computed.
  unfoldable pub async_tested : State → Fc → Bytes → Option Bytes → Async
  unfolding compare expected async_rc
  async_tested state fc challenge none = leave (failed state)
  async_tested state fc challenge (some response) =
      let e_response = expected config user response in
      if compare crypto request e_response
      then leave (
          decided (async_rc request state times.now fc) (record {
            state = state;
            challenge = challenge;
            e_response = e_response;
            resync = request.resync;
          }))
      else continue challenge

  unfoldable pub async_test : State → Fc → Bytes × ℕ → Async
  unfolding async_tested
  async_test state fc (challenge, clen) =
      async_tested state fc challenge (ops.response user state challenge clen times.async_time)

  -- `stack` is what the challenge array holds before anything is written to it.
  unfoldable pub async : State → Fc → Bytes → Async
  unfolding async_test async_challenge async_mode
  async state fc stack =
      if not (length request.challenge == 0) && (async_mode user.featuremask && request.allow_async)
      then async_test state fc (async_challenge config request stack)
      else continue (memcpy stack request.challenge (length request.challenge))
