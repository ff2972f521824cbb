-- ===== src/Store/Released.antt =====
-- state.c under verify(): a thread holds no lock and no connection between two requests.
use otpd.Base.{
  inl, inr, Bool-cases, ◌&&◌, length, ℕ, ◌≡◌, refl, Bool, true, false, Option, none, some,
}
use otpd.Crypto.{Crypto}
use otpd.Otp.{Config, User, State, StateMode, local, global}
use otpd.Cardops.{Cardops}
use otpd.Verify.Release.{OnGot, IsDisciplined}
use otpd.Lock.{Chain, lock_get, lock_put}
use otpd.Store.Text.{◌>>=◌, state_parse}
use otpd.Store.File.{state_read}
use otpd.Store.Local.{Local, set_chain, got, locked_get, state_get_local}
use otpd.Gsmd.{Gsmd, gsmd_get}
use otpd.Gsm.Exchange.{Outcome, replied, failed, timed_out, pending}
use otpd.Uhash.{uhash}
use otpd.Store.Global.{
  Link, Net, Managers, reply_area, parsed_reply, got_reply, linked_get, manager_get,
  state_get_global,
}
use otpd.Store.Session.{
  Handle, no_handle, ulock, link, Shared, Service, running, stuck, Surroundings, local_got,
  global_got, local_put, global_put, met, get_by, state_get, put_by, put_locked, state_put,
  service_ops,
}

abbrev pub IsFree : Service → Type 0
IsFree (running shared) = shared.held ≡ no_handle
IsFree stuck = Unit

-- The state of a get that succeeds is marked as locked.
abbrev LocalMarked : Option (Option (State × ℕ) × Local) → Type 0
LocalMarked (some (some (state, a), files)) = state.locked ≡ true
LocalMarked _ = Unit

local_got-OnGot :
    (shared : Shared) (r : Option (Option (State × ℕ) × Local))
    → LocalMarked r
    → shared.held ≡ no_handle
    → OnGot IsFree (local_got shared r)
unfolding local_got
local_got-OnGot shared none marked free = tt
local_got-OnGot shared (some (none, files)) marked free = free
local_got-OnGot shared (some (some (state, a), files)) marked free = marked

abbrev GlobalMarked : Option (Option (State × Link) × Managers) → Type 0
GlobalMarked (some (some (state, l), managers)) = state.locked ≡ true
GlobalMarked _ = Unit

global_got-OnGot :
    (shared : Shared) (r : Option (Option (State × Link) × Managers))
    → GlobalMarked r
    → shared.held ≡ no_handle
    → OnGot IsFree (global_got shared r)
unfolding global_got
global_got-OnGot shared none marked free = tt
global_got-OnGot shared (some (none, managers)) marked free = free
global_got-OnGot shared (some (some (state, l), managers)) marked free = marked

got-Marked :
    (bucket a : ℕ) (files : Local) (parsed : Option State) → LocalMarked (got bucket a files parsed)
unfolding got
got-Marked bucket a files (some state) = refl
got-Marked bucket a files none = go (lock_put a (files.chain bucket))
  where
    go :
        (put : Option Chain)
        → LocalMarked (
            put >>= λ chain.
            some (none, record files { chain = set_chain bucket chain files.chain }))
    go none = tt
    go (some chain) = tt

state_get_local-Marked :
    (now : ℕ) (user : User) (state : State) (files : Local)
    → LocalMarked (state_get_local now user state files)
unfolding state_get_local locked_get
state_get_local-Marked now user state files =
    go (lock_get user.username now (files.chain (uhash user.username)))
  where
    go : (r : Option (Option ℕ × Chain)) → LocalMarked (r >>= locked_get user state files)
    go none = tt
    go (some (none, chain)) = tt
    go (some (some a, chain)) =
        got-Marked (uhash user.username) a
          (record files { chain = set_chain (uhash user.username) chain files.chain })
          (state_read (files.file user.username) >>= λ buf. state_parse buf user.username state)

got_reply-Marked :
    (user : User) (state : State) (l : Link) (managers : Managers) (outcome : Outcome)
    → GlobalMarked (got_reply user state l managers outcome)
unfolding got_reply parsed_reply
got_reply-Marked user state l managers (replied len buffer) =
    go (state_parse (reply_area (length user.username) len buffer) user.username state)
  where
    go : (parsed : Option State) → GlobalMarked (some (parsed_reply l parsed, managers))
    go none = tt
    go (some state) = refl
got_reply-Marked user state l managers (failed signal) = tt
got_reply-Marked user state l managers (timed_out _ signal) = tt
got_reply-Marked user state l managers (pending _) = tt

state_get_global-Marked :
    (timeout : ℕ) (user : User) (state : State) (net : Net) (managers : Managers)
    → GlobalMarked (state_get_global timeout user state net managers)
unfolding state_get_global manager_get linked_get
state_get_global-Marked timeout user state net managers = go (gsmd_get user.gsmd managers.chains)
  where
    go : (g : Option Gsmd) → GlobalMarked (manager_get timeout user state net managers g)
    go none = tt
    go (some g) = elim (Bool-cases (net.socket_ok && (net.connect_ok && net.ioctl_ok))) [
      | inl up ↦ rw up (got_reply-Marked user state _ _ _)
      | inr down ↦ rw down tt
    ]

local_put-IsFree : (shared : Shared) (r : Option (Bool × Local)) → IsFree (local_put shared r).1
unfolding local_put
local_put-IsFree shared none = tt
local_put-IsFree shared (some (done, files)) = refl

global_put-IsFree :
    (shared : Shared) (r : Option (Bool × State × Managers)) → IsFree (global_put shared r).1
unfolding global_put
global_put-IsFree shared none = tt
global_put-IsFree shared (some (done, state, managers)) = refl

module _ (around : Surroundings) where
  get_by-OnGot :
      (mode : StateMode) (config : Config) (user : User) (state : State) (shared : Shared)
      → shared.held ≡ no_handle
      → OnGot IsFree (get_by around mode config user state shared)
  unfolding get_by
  get_by-OnGot local config user state shared free =
      local_got-OnGot shared _
        (state_get_local-Marked (around.now shared.calls) user state shared.files) free
  get_by-OnGot global config user state shared free =
      global_got-OnGot shared _
        (state_get_global-Marked config.timeout user state (around.net shared.calls)
          shared.managers)
        free

  put_by-IsFree :
      (mode : StateMode) (held : Handle) (config : Config) (user : User) (state : State)
      (shared : Shared)
      → IsFree (put_by around mode held config user state shared).1
  unfolding put_by
  put_by-IsFree local (ulock a) config user state shared = local_put-IsFree shared _
  put_by-IsFree local no_handle config user state shared = tt
  put_by-IsFree local (link l) config user state shared = tt
  put_by-IsFree global (link l) config user state shared = global_put-IsFree shared _
  put_by-IsFree global no_handle config user state shared = tt
  put_by-IsFree global (ulock a) config user state shared = tt

  get_law :
      (config : Config) (user : User) (state : State) (s : Service)
      → IsFree s
      → OnGot IsFree (state_get around config user state s)
  unfolding state_get met
  get_law config user state stuck free = tt
  get_law config user state (running shared) free =
      get_by-OnGot config.mode config user (record state { locked = false }) (met around shared)
        free

  put_law :
      (config : Config) (user : User) (state : State) (s : Service)
      → state.locked ≡ true
      → IsFree (state_put around config user state s).1
  unfolding state_put put_locked
  put_law config user state stuck locked = tt
  put_law config user state (running shared) locked = go state.locked locked
    where
      go : (b : Bool) → b ≡ true → IsFree (put_locked around b config user state shared).1
      go true e = put_by-IsFree config.mode shared.held config user state (met around shared)
      go false e = absurd cc

  pub service-IsDisciplined : IsDisciplined IsFree (service_ops around)
  service-IsDisciplined = record { get_law = get_law; put_law = put_law }
