-- ===== src/Store/Session.antt =====
-- state.c, state_get() and state_put(): the state store that verify() calls, by the configured mode.
use otpd.Base.{ℕ, ◌+◌, Bool, true, false, Option, none, some}
use otpd.Otp.{Config, User, State, StateMode, local, global}
use otpd.Verify.Session.{StateOps}
use otpd.Store.File.{Written}
use otpd.Store.Local.{Local, state_get_local, state_put_local}
use otpd.Store.Global.{Link, Net, Managers, state_get_global, state_put_global}

-- `l` of `state_t`: the lock or the connection that a state which was got holds.
pub data Handle : Type 0 where
  no_handle : Handle
  ulock : ℕ → Handle
  link : Link → Handle

-- What a request thread reads and writes: the files and locks, the managers, what the `state_t` of
-- verify() holds, and how many calls were made.
pub record Shared : Type 0 where
  pub files : Local
  pub managers : Managers
  pub held : Handle
  pub calls : ℕ

-- `stuck` is a thread whose call has no defined result or is still waiting for the network.
pub data Service : Type 0 where
  running : Shared → Service
  stuck : Service

-- What the calls meet, by their number: the clock, the outcome of a write, the network, and what the
-- other threads did to the files, the locks and the managers since the call before.
pub record Surroundings : Type 0 where
  pub now : ℕ → ℕ
  pub written : ℕ → Written
  pub net : ℕ → Net
  pub others : ℕ → Local × Managers → Local × Managers

unfoldable pub local_got : Shared → Option (Option (State × ℕ) × Local) → Option State × Service
local_got shared none = (none, stuck)
local_got shared (some (none, files)) =
    (none, running (record shared { files = files; calls = shared.calls + 1 }))
local_got shared (some (some (state, a), files)) = (
  some state,
  running (record shared { files = files; held = ulock a; calls = shared.calls + 1 }),
)

unfoldable pub global_got :
    Shared → Option (Option (State × Link) × Managers) → Option State × Service
global_got shared none = (none, stuck)
global_got shared (some (none, managers)) =
    (none, running (record shared { managers = managers; calls = shared.calls + 1 }))
global_got shared (some (some (state, l), managers)) = (
  some state,
  running (record shared { managers = managers; held = link l; calls = shared.calls + 1 }),
)

unfoldable pub local_put : Shared → Option (Bool × Local) → Bool × Service
local_put shared none = (false, stuck)
local_put shared (some (done, files)) =
    (done, running (record shared { files = files; held = no_handle; calls = shared.calls + 1 }))

unfoldable pub global_put : Shared → Option (Bool × State × Managers) → Bool × Service
global_put shared none = (false, stuck)
global_put shared (some (done, state, managers)) = (
  done,
  running (record shared { managers = managers; held = no_handle; calls = shared.calls + 1 }),
)

module _ (around : Surroundings) where
  -- The shared data as a call finds them.
  unfoldable pub met : Shared → Shared
  met shared =
      let (files, managers) = around.others shared.calls (shared.files, shared.managers) in
      record shared { files = files; managers = managers }

  unfoldable pub get_by : StateMode → Config → User → State → Shared → Option State × Service
  unfolding state_get_local state_get_global local_got global_got
  get_by local config user state shared =
      local_got shared (state_get_local (around.now shared.calls) user state shared.files)
  get_by global config user state shared =
      global_got shared
        (state_get_global config.timeout user state (around.net shared.calls) shared.managers)

  unfoldable pub state_get : Config → User → State → Service → Option State × Service
  unfolding met get_by
  state_get config user state stuck = (none, stuck)
  state_get config user state (running shared) =
      get_by config.mode config user (record state { locked = false }) (met shared)

  -- A handle of the other mode would be read as one of this: that has no defined result.
  unfoldable pub put_by : StateMode → Handle → Config → User → State → Shared → Bool × Service
  unfolding state_put_local state_put_global local_put global_put
  put_by local (ulock a) config user state shared =
      local_put shared (state_put_local (around.written shared.calls) user state a shared.files)
  put_by global (link l) config user state shared =
      global_put shared
        (state_put_global config.timeout user state l (around.net shared.calls) shared.managers)
  put_by _ _ config user state shared = (false, stuck)

  unfoldable pub put_locked : Bool → Config → User → State → Shared → Bool × Service
  unfolding met put_by
  put_locked false config user state shared = (true, running shared)
  put_locked true config user state shared =
      put_by config.mode shared.held config user state (met shared)

  unfoldable pub state_put : Config → User → State → Service → Bool × Service
  unfolding put_locked
  state_put config user state stuck = (false, stuck)
  state_put config user state (running shared) = put_locked state.locked config user state shared

  -- The store as verify() uses it.
  abbrev pub service_ops : StateOps Service
  service_ops = record { get = state_get; put = state_put }
