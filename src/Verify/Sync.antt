-- ===== src/Verify/Sync.antt =====
-- otp.c, verify(): the search of the event and time windows.
use otpd.Base.{
  ℕ, zero, suc, ◌^◌, Bool, true, not, ◌&&◌, ◌||◌, Option, none, some, [], ◌==◌, leb, ltb,
  if◌then◌else◌, Bytes, memcpy,
}
use otpd.Crypto.{Crypto}
use otpd.Otp.{
  Rc, ok, auth_err, maxtries, nextpasscode, Request, Config, User, State, sync_mode, event_sync,
  fixed_window, u32,
}
use otpd.Cardops.{Cardops, Challenged, next, early, failed}
use otpd.Compare.{compare}
use otpd.Verify.Fail.{Fc, fail_hard, fail_soft}
use otpd.Verify.Frame.{Decision, decided, Times, expected}

-- `eend`, the last event slot that is tested.
unfoldable pub event_end : Config → User → ℕ
unfolding fixed_window event_sync
event_end config user =
    if not (fixed_window user.featuremask == 0)
    then fixed_window user.featuremask
    else if event_sync user.featuremask
    then if not (user.rwindow_size == 0)
      then user.rwindow_size
      else if not (config.rwindow_size == 0)
      then config.rwindow_size
      else config.ewindow_size
    else 0

-- The rounds of `for (e = 0; e <= end; ++e)`: none where `end` is negative as an int.
unfoldable pub rounds : ℕ → ℕ
rounds end = if ltb end (2 ^ 31) then suc end else 0

-- `e > (int) config->ewindow_size`
unfoldable pub beyond_window : Config → ℕ → Bool
beyond_window config e = leb (2 ^ 31) config.ewindow_size || ltb config.ewindow_size e

-- How the search goes on behind a slot or a row of slots: `missed` carries on with the state and
-- the challenge, the other two end it.
pub data Scan : Type 0 where
  missed : State → Bytes → Scan
  matched : ℕ → ℕ → State → Bytes → Bytes → Scan
  broken : State → Scan

-- The loops go on where a slot or a row misses, and stop otherwise.
abbrev pub on_miss : Scan → (State → Bytes → Scan) → Scan
on_miss (missed state challenge) rest = rest state challenge
on_miss found rest = found

module _ (config : Config) (ops : Cardops) (user : User) (now : ℕ) where
  -- `rc` for a response that matches at event slot `e`.
  unfoldable pub sync_rc : State → Fc → ℕ → Rc
  unfolding fixed_window beyond_window
  sync_rc state fail_hard e = maxtries
  sync_rc state fc e =
      if ops.isconsecutive user state e
      then if leb (u32 now) state.authtime then nextpasscode else ok
      else elim fc [
        | fail_soft ↦ nextpasscode
        | _ ↦
            if fixed_window user.featuremask == 0 && beyond_window config e
            then nextpasscode
            else ok
      ]

module _ (crypto : Crypto) (config : Config) (request : Request) (ops : Cardops) (user : User)
    (times : Times) where
  -- The comparison with a response, if one was computed.
  unfoldable pub tested : ℕ → ℕ → State → Bytes → Option Bytes → Scan
  unfolding compare expected
  tested t e state challenge none = broken state
  tested t e state challenge (some response) =
      let e_response = expected config user response in
      if compare crypto request e_response
      then matched t e state challenge e_response
      else missed state challenge

  -- The response to a challenge, if there is one.
  unfoldable pub tried : ℕ → ℕ → State → Challenged → Scan
  unfolding tested
  tried t e state failed = broken state
  tried t e state (early state' challenge) = missed state' challenge
  tried t e state (next state' challenge) =
      tested t e state' challenge
        (ops.response user state' challenge state'.clen (times.sync_time t e))

  -- One slot of the window.
  unfoldable pub slot : ℕ → ℕ → State → Bytes → Scan
  unfolding tried
  slot t e state challenge = tried t e state (ops.challenge user state challenge times.now t e)

  -- The slots of one row, from event `e` with `n` rounds left.
  unfoldable pub event_loop : ℕ → ℕ → ℕ → State → Bytes → Scan
  unfolding slot
  event_loop zero t e state challenge = missed state challenge
  event_loop (suc n) t e state challenge =
      on_miss (slot t e state challenge) (event_loop n t (suc e))

  -- The rows, from time slot `t` with `m` rounds left; each row has `n` slots.
  unfoldable pub time_loop : ℕ → ℕ → ℕ → State → Bytes → Scan
  unfolding event_loop
  time_loop zero n t state challenge = missed state challenge
  time_loop (suc m) n t state challenge =
      on_miss (event_loop n t 0 state challenge) (time_loop m n (suc t))

  -- What a search comes to; a match updates the card's data, and forces the resync.
  unfoldable pub conclude_match : Rc → Bytes → Bytes → State → Option State → Decision
  conclude_match rc challenge e_response state none = Decision.failed state
  conclude_match rc challenge e_response state (some state') =
      decided rc
        (record { state = state'; challenge = challenge; e_response = e_response; resync = true })

  unfoldable pub conclude : Fc → Scan → Decision
  unfolding sync_rc conclude_match
  conclude fc (missed state challenge) =
      decided auth_err
        (record { state = state; challenge = challenge; e_response = []; resync = request.resync })
  conclude fc (broken state) = Decision.failed state
  conclude fc (matched t e state challenge e_response) =
      let rc = sync_rc config ops user times.now state fc e in
      conclude_match rc challenge e_response state (ops.updatecsd state times.now t e rc)

  -- The rounds of both windows, once the end of the time window is known.
  unfoldable pub search : State → Fc → Bytes → Option ℕ → Decision
  unfolding conclude time_loop event_end rounds
  search state fc challenge none = Decision.failed state
  search state fc challenge (some tend) =
      conclude fc (time_loop (rounds tend) (rounds (event_end config user)) 0 state challenge)

  -- The block that tests the window, where the card and the request allow it.
  unfoldable pub sync : State → Fc → Bytes → Decision
  unfolding search sync_mode
  sync state fc stack =
      if sync_mode user.featuremask && request.allow_sync
      then search state fc (memcpy stack state.challenge state.clen)
          (ops.maxtwin user state times.now)
      else decided auth_err
          (record { state = state; challenge = stack; e_response = []; resync = request.resync })
