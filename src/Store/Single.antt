-- ===== src/Store/Single.antt =====
-- otp.c and state.c together: what a grant of an HOTP passcode leaves in the user's state file.
use otpd.Base.{
  some-injective, ℕ, ◌+◌, ◌-◌, ◌^◌, ◌≤◌, ◌<◌, ◌≡◌, refl, ap, sym, subst, ◌∙◌, Bool, true, false,
  branches, inl, inr, if◌then◌else◌, leb, Option, none, some, List, Bytes, bytes_eq_refl, take,
  ◌++◌,
}
use otpd.Crypto.{Crypto}
use otpd.Otp.{ok, Request, Reply, Config, User, State, StateMode, local, async_mode, response_len}
use otpd.Cardops.{Cardops}
use otpd.Lock.{Chain, lock_get, lock_put}
use otpd.Uhash.{uhash}
use otpd.HotpMac.{hotp_mac}
use otpd.Card.Counter.{counter_bytes}
use otpd.Card.Hotp.{hotp_cardops}
use otpd.Card.Hotp.Search.{hotp-KeepsBook}
use otpd.Card.Hotp.Replay.{Moved, decide-Moved}
use otpd.Verify.Run.{go}
use otpd.Verify.Setup.{Ready, find_cardops, setup}
use otpd.Verify.Frame.{Frame, Times, expected}
use otpd.Verify.Sync.{rounds, event_end}
use otpd.Verify.Settle.{settle_ok, negated}
use otpd.Verify.Decide.{load_state}
use otpd.Verify.Grant.{OnOk-decided_ok}
use otpd.Verify.Session.{found, Userops, returned, blank_state, verify}
use otpd.Verify.Saved.{Saves, verify-Saves}
use otpd.Store.Text.{◌>>=◌, state_parse, state_unparse}
use otpd.Store.File.{
  Opened, contents, line_ended, Written, renamed, write_failed, state_read, state_write,
}
use otpd.Store.Local.{
  Local, set_file, set_chain, got, locked_get, state_get_local, put_file, state_put_local,
}
use otpd.Store.Session.{
  Handle, no_handle, ulock, link, Shared, Service, running, stuck, Surroundings, local_got,
  local_put, met, get_by, state_get, put_by, put_locked, state_put, service_ops,
}
use otpd.Store.Released.{IsFree, service-IsDisciplined}

-- What the file of a user is parsed as.
abbrev pub stored : Bytes → State → Local → Option State
stored username blank files =
    state_read (files.file username) >>= λ buf. state_parse buf username blank

-- A get that succeeds gives the state that the file is parsed as.
record Parsed (user : User) (blank : State) (files : Local) (state : State) : Type 0 where
  parsed : State
  is_stored : stored user.username blank files ≡ some parsed
  is_state : state ≡ record parsed { locked = true; updated = false }

abbrev ParsedGet : User → State → Local → Option (Option (State × ℕ) × Local) → Type 0
ParsedGet user blank files (some (some (state, a), _)) = Parsed user blank files state
ParsedGet _ _ _ _ = Unit

got-ParsedGet :
    (user : User) (blank : State) (files later : Local) (bucket a : ℕ) (p : Option State)
    → stored user.username blank files ≡ p
    → ParsedGet user blank files (got bucket a later p)
unfolding got
got-ParsedGet user blank files later bucket a (some state) e = record {
  parsed = state;
  is_stored = e;
  is_state = refl;
}
got-ParsedGet user blank files later bucket a none e = put (lock_put a (later.chain bucket))
  where
    put :
        (r : Option Chain)
        → ParsedGet user blank files (
            r >>= λ chain. some (none, record later { chain = set_chain bucket chain later.chain }))
    put none = tt
    put (some chain) = tt

state_get_local-ParsedGet :
    (now : ℕ) (user : User) (blank : State) (files : Local)
    → ParsedGet user blank files (state_get_local now user blank files)
unfolding state_get_local locked_get
state_get_local-ParsedGet now user blank files =
    by_lock (lock_get user.username now (files.chain (uhash user.username)))
  where
    by_lock :
        (r : Option (Option ℕ × Chain))
        → ParsedGet user blank files (r >>= locked_get user blank files)
    by_lock none = tt
    by_lock (some (none, chain)) = tt
    by_lock (some (some a, chain)) =
        got-ParsedGet user blank files
          (record files { chain = set_chain (uhash user.username) chain files.chain })
          (uhash user.username) a _ refl

-- A put that succeeds leaves the text of the state in the file.
abbrev Holds : User → State → Bool × Service → Type 0
Holds user state (true, running shared) =
    shared.files.file user.username ≡ contents (line_ended (state_unparse user state))
Holds user state (true, stuck) = ⊥
Holds user state (false, s) = Unit

abbrev HoldsFile : User → State → Option (Bool × Local) → Type 0
HoldsFile user state (some (true, files)) =
    files.file user.username ≡ contents (line_ended (state_unparse user state))
HoldsFile user state _ = Unit

put_file_text :
    (outcome : Written) (user : User) (state : State) (old : Opened)
    → state.updated ≡ true
    → (put_file outcome user state old).0 ≡ true
    → (put_file outcome user state old).1 ≡ contents (line_ended (state_unparse user state))
unfolding put_file state_write
put_file_text renamed user state old updated done = simp updated
put_file_text write_failed user state old updated done = absurd (cc)

state_put_local-HoldsFile :
    (outcome : Written) (user : User) (state : State) (a : ℕ) (files : Local)
    → state.updated ≡ true
    → HoldsFile user state (state_put_local outcome user state a files)
unfolding state_put_local
state_put_local-HoldsFile outcome user state a files updated =
    put (put_file outcome user state (files.file user.username))
      (lock_put a (files.chain (uhash user.username)))
      (put_file_text outcome user state (files.file user.username) updated)
  where
    put :
        (w : Bool × Opened) (r : Option Chain)
        → (w.0 ≡ true → w.1 ≡ contents (line_ended (state_unparse user state)))
        → HoldsFile user state (
            r >>= λ chain. some (
              w.0,
              record files {
                file = set_file user.username w.1 files.file;
                chain = set_chain (uhash user.username) chain files.chain;
              },
            ))
    put w none text = tt
    put (false, opened) (some chain) text = tt
    put (true, opened) (some chain) text = rw (bytes_eq_refl user.username) (text refl)

local_put-Holds :
    (user : User) (state : State) (shared : Shared) (r : Option (Bool × Local))
    → HoldsFile user state r
    → Holds user state (local_put shared r)
unfolding local_put
local_put-Holds user state shared none h = tt
local_put-Holds user state shared (some (true, files)) h = h
local_put-Holds user state shared (some (false, files)) h = tt

module _ (around : Surroundings) (user : User) where
  -- A get of verify(), in local mode.
  state_get-stored :
      (config : Config) (blank state : State) (shared : Shared) (s : Service)
      → config.mode ≡ local
      → state_get around config user blank (running shared) ≡ (some state, s)
      → Parsed user (record blank { locked = false }) (met around shared).files state
  unfolding state_get get_by local_got
  state_get-stored config blank state shared s mode e =
      by_get
        (state_get_local (around.now (met around shared).calls) user
          (record blank { locked = false }) (met around shared).files)
        (state_get_local-ParsedGet (around.now (met around shared).calls) user
          (record blank { locked = false }) (met around shared).files)
        (ap (λ m. get_by around m config user (record blank { locked = false }) (met around shared))
            (sym mode)
          ∙ e)
    where
      by_get :
          (r : Option (Option (State × ℕ) × Local))
          → ParsedGet user (record blank { locked = false }) (met around shared).files r
          → local_got (met around shared) r ≡ (some state, s)
          → Parsed user (record blank { locked = false }) (met around shared).files state
      by_get none p h = absurd cc
      by_get (some (none, files)) p h = absurd cc
      by_get (some (some (fetched, a), files)) p h =
          subst (Parsed user (record blank { locked = false }) (met around shared).files)
            (some-injective (ap (λ w. w.0) h)) p

  put_by-Holds :
      (mode : StateMode) (held : Handle) (config : Config) (state : State) (shared : Shared)
      → mode ≡ local
      → state.updated ≡ true
      → Holds user state (put_by around mode held config user state shared)
  unfolding put_by
  put_by-Holds local (ulock a) config state shared mode updated =
      local_put-Holds user state shared _
        (state_put_local-HoldsFile (around.written shared.calls) user state a shared.files updated)
  put_by-Holds local no_handle config state shared mode updated = tt
  put_by-Holds local (link l) config state shared mode updated = tt
  put_by-Holds StateMode.global held config state shared mode updated = absurd cc

  state_put-Holds :
      (config : Config) (state : State) (s : Service)
      → config.mode ≡ local
      → state.updated ≡ true
      → state.locked ≡ true
      → Holds user state (state_put around config user state s)
  unfolding state_put put_locked
  state_put-Holds config state stuck mode updated locked = tt
  state_put-Holds config state (running shared) mode updated locked = marked state.locked locked
    where
      marked :
          (b : Bool) → b ≡ true → Holds user state (put_locked around b config user state shared)
      marked true e =
          put_by-Holds config.mode shared.held config state (met around shared) mode updated
      marked false e = absurd cc

-- A state that the token of the card is given has the counter of the state that was got.
load_state-counter :
    (crypto : Crypto) (config : Config) (user : User) (state loaded : State) (now : ℕ)
    → load_state config (hotp_cardops crypto) user state now ≡ some loaded
    → (loaded.challenge ≡ state.challenge) × (loaded.clen ≡ state.clen)
unfolding load_state
load_state-counter crypto config user state loaded now e = elim (branches state.nullstate e) [
  | inl null ↦ absurd (cc)
  | inr kept ↦ (
    ap State.challenge (sym (some-injective kept)) ∙ (negative (leb (2 ^ 31) state.authtime)).0,
    ap State.clen (sym (some-injective kept)) ∙ (negative (leb (2 ^ 31) state.authtime)).1,
  )
]
  where
    signed : Bool → State
    signed b =
        if b then record state { authtime = negated state.authtime; nullstate = true } else state

    negative :
        (b : Bool) → ((signed b).challenge ≡ state.challenge) × ((signed b).clen ≡ state.clen)
    negative true = (refl, refl)
    negative false = (refl, refl)

module _ (crypto : Crypto) (modules : List Cardops) (userops : Userops) (around : Surroundings)
    (times : Times) (stack : Bytes) (config : Config) (request : Request) (user : User)
    (ready : Ready) where
  -- The file behind a grant: the text of a state with no failures, whose counter is above `c`, by at
  -- most one window, and is the one that the passcode was computed from.
  pub record Recorded (c : ℕ) (passcode : Bytes) (s' : Service) : Type 0 where
    pub after : Shared
    pub ends : s' ≡ running after
    pub saved : State
    pub file :
        after.files.file ready.user.username
        ≡ contents (line_ended (state_unparse ready.user saved))
    pub failcount : saved.failcount ≡ 0
    pub counter : ℕ
    pub above : c < counter
    pub within : counter ≤ c + rounds (event_end config ready.user)
    pub holds : take 8 saved.challenge ≡ counter_bytes counter
    pub rest : Bytes
    pub response : Bytes
    pub computed :
        hotp_mac crypto
          (counter_bytes counter ++ rest)
          (take saved.scratch1 ready.user.key)
          (response_len ready.user.featuremask)
        ≡ some response
    pub shown : passcode ≡ expected config ready.user response

  recorded :
      (c : ℕ) (frame : Frame) (passcode : Bytes) (s' : Service)
      → Moved crypto config request ready.user times c times.now frame
      → frame.e_response ≡ passcode
      → Holds ready.user (settle_ok times.now frame) (true, s')
      → Recorded c passcode s'
  unfolding settle_ok
  recorded c frame passcode stuck moved shown h = absurd h
  recorded c frame passcode (running after) moved shown h = record {
    after = after;
    ends = refl;
    saved = settle_ok times.now frame;
    file = h;
    failcount = refl;
    counter = moved.counter;
    above = moved.above;
    within = moved.within;
    holds = moved.saved;
    rest = moved.rest;
    response = moved.response;
    computed = moved.computed;
    shown = sym shown ∙ moved.joined;
  }

  Saves-Recorded :
      (c : ℕ) (st : State) (shared : Shared) (s' : Service) (passcode : Bytes)
      → config.mode ≡ local
      → async_mode ready.user.featuremask ≡ false
      → stored ready.user.username (record ready.state { locked = false }) (met around shared).files
        ≡ some st
      → take 8 st.challenge ≡ counter_bytes c
      → st.clen ≡ 8
      → c + rounds (event_end config ready.user) ≤ 2 ^ 31
      → Saves crypto modules userops
          (service_ops around)
          times
          stack
          IsFree
          (service-IsDisciplined around)
          config
          request
          (hotp_cardops crypto)
          ready
          (running shared)
          s'
          passcode
      → Recorded c passcode s'
  unfolding settle_ok
  Saves-Recorded c st shared s' passcode mode sync_only file held clen fits saves =
      let fetched =
        state_get-stored around ready.user
          (record config { timeout = config.timeout - times.get_ns }) ready.state saves.state shared
          saves.between mode saves.got in
      let same : fetched.parsed ≡ st = some-injective (sym fetched.is_stored ∙ file) in
      let counters =
        load_state-counter crypto config ready.user saves.state saves.loaded times.now saves.load in
      let challenge : saves.loaded.challenge ≡ st.challenge =
        counters.0 ∙ ap State.challenge fetched.is_state ∙ ap State.challenge same in
      let count : saves.loaded.clen ≡ st.clen =
        counters.1 ∙ ap State.clen fetched.is_state ∙ ap State.clen same in
      recorded c saves.frame passcode s'
        (OnOk-decided_ok (Moved crypto config request ready.user times c times.now) saves.granted (
          decide-Moved crypto config request ready.user times c saves.loaded stack sync_only
            (ap (take 8) challenge ∙ held) (count ∙ clen) fits))
        saves.shown
        (subst (Holds ready.user (settle_ok times.now saves.frame)) saves.put (
          state_put-Holds around ready.user (record config { timeout = saves.timeout })
            (settle_ok times.now saves.frame) saves.between mode refl saves.locked))

  -- A user has an HOTP token that is not asynchronous and got through the setup, no static password,
  -- and a state file, under the lock, with a counter of 8 octets and a window that ends below 2^31.
  -- Whenever verify() over the state files replies OTP_RC_OK, the file is written: it then holds the
  -- text of a state with no failures and with the counter of the passcode, which is above the
  -- counter that the file held before, by at most the width of the window.
  pub verify-Recorded :
      (reply reply' : Reply) (shared : Shared) (s' : Service) (c : ℕ) (st : State)
      → shared.held ≡ no_handle
      → config.mode ≡ local
      → userops request.username config times.now ≡ found user
      → user.password ≡ none
      → find_cardops modules user.card ≡ some (hotp_cardops crypto)
      → setup crypto config request (hotp_cardops crypto) user blank_state ≡ go ready
      → async_mode ready.user.featuremask ≡ false
      → stored ready.user.username (record ready.state { locked = false }) (met around shared).files
        ≡ some st
      → take 8 st.challenge ≡ counter_bytes c
      → st.clen ≡ 8
      → c + rounds (event_end config ready.user) ≤ 2 ^ 31
      → verify crypto modules userops
          (service_ops around)
          times
          stack
          config
          request
          reply
          (running shared)
        ≡ returned reply' s'
      → reply'.rc ≡ ok
      → Recorded c reply'.passcode s'
  verify-Recorded reply reply' shared s' c st free mode eu ep eo er sync_only file held clen fits e
        granted =
      Saves-Recorded c st shared s' reply'.passcode mode sync_only file held clen fits (
        verify-Saves crypto modules userops (service_ops around) times stack IsFree
          (service-IsDisciplined around) config request reply reply' user (hotp_cardops crypto)
          ready (running shared) s' (hotp-KeepsBook crypto) free eu ep eo er e granted)
