-- ===== src/Verify/Release.antt =====
-- otp.c, verify(): the lock of a state is given back on every way out.
use otpd.Base.{
  some-injective, branches, sym, has_prefix_nocase, ℕ, ◌-◌, ◌≡◌, refl, ap, subst, ◌∙◌, true, false,
  Bool, inl, inr, leb, ◌^◌, Option, none, some, List, [], ◌∷◌, ltb, if◌then◌else◌, Bytes,
}
use otpd.Crypto.{Crypto}
use otpd.Otp.{Rc, ok, service_err, Request, Reply, Config, User, State}
use otpd.Cardops.{Cardops}
use otpd.Cardops.Book.{SameBook, UpdatedBook, KeepsBook}
use otpd.Verify.Run.{Jump, Run, go, jump}
use otpd.Verify.Setup.{Ready, find_cardops}
use otpd.Verify.Frame.{Frame, Decision, decided, failed, Times}
use otpd.Verify.Settle.{settle, settle_ok, settle_failed, negated}
use otpd.Verify.Decide.{load_state, decide}
use otpd.Verify.Book.{OnDecided, decide-Kept}
use otpd.Verify.Session.{
  UserLookup, found, not_found, unavailable, Userops, StateOps, Verified, returned,
  undefined_behaviour, ms250, ms500, reported, release, finish, with_loaded, with_state, with_user,
  after_setup, with_card, with_lookup, verify,
}

module _ {S : Type 0} (IsFree : S → Type 0) where
  -- What a get leaves: -1 with nothing held, or a state that is marked as locked.
  abbrev pub OnGot : Option State × S → Type 0
  OnGot (none, s) = IsFree s
  OnGot (some state, s) = state.locked ≡ true

  -- The contract of a state store: a get that fails holds nothing, one that succeeds marks the
  -- state, and a put of a marked state gives everything back, whatever it returns.
  pub record IsDisciplined (stateops : StateOps S) : Type 0 where
    pub get_law :
        (config : Config) (user : User) (state : State) (s : S)
        → IsFree s
        → OnGot (stateops.get config user state s)
    pub put_law :
        (config : Config) (user : User) (state : State) (s : S)
        → state.locked ≡ true
        → IsFree (stateops.put config user state s).1

  -- A property of the store behind every defined end.
  abbrev pub OnReturn : Verified S → Type 0
  OnReturn (returned reply s) = IsFree s
  OnReturn undefined_behaviour = Unit

-- Every token type of a list keeps the laws.
abbrev pub AllKeep : List Cardops → Type 0
AllKeep [] = Unit
AllKeep (ops ∷ modules) = KeepsBook ops × AllKeep modules

find_cardops-KeepsBook :
    (modules : List Cardops) (card : Bytes) (ops : Cardops)
    → AllKeep modules
    → find_cardops modules card ≡ some ops
    → KeepsBook ops
unfolding find_cardops
find_cardops-KeepsBook [] card ops all e = absurd cc
find_cardops-KeepsBook (first ∷ modules) card ops (law, all) e =
    elim (branches (has_prefix_nocase first.prefix card) e) [
      | inl here ↦ subst KeepsBook (some-injective here) law
      | inr later ↦ find_cardops-KeepsBook modules card ops all later
    ]

-- A lock that is marked stays marked through the load, the decision and the settling.
pub load_state-locked :
    (config : Config) (ops : Cardops) (user : User) (state loaded : State) (now : ℕ)
    → KeepsBook ops
    → load_state config ops user state now ≡ some loaded
    → loaded.locked ≡ state.locked
unfolding load_state
load_state-locked config ops user state loaded now laws e = elim (branches state.nullstate e) [
  | inl null ↦ (subst (UpdatedBook state) null (laws.nullstate_book config user state now)).locked
  | inr stored ↦
      ap State.locked (sym (some-injective stored)) ∙ negative (leb (2 ^ 31) state.authtime)
]
  where
    negative :
        (b : Bool)
        → (if b
            then record state { authtime = negated state.authtime; nullstate = true }
            else state).locked
          ≡ state.locked
    negative true = refl
    negative false = refl

pub settle-locked :
    (now : ℕ) (rc : Rc) (frame : Frame) (old : Bytes)
    → (settle now rc frame old).0.locked ≡ frame.state.locked
unfolding settle settle_ok settle_failed
settle-locked now ok frame old = refl
settle-locked now _ frame old = refl

module _ {S : Type 0} (crypto : Crypto) (modules : List Cardops) (userops : Userops)
    (stateops : StateOps S) (times : Times) (stack : Bytes) (IsFree : S → Type 0)
    (discipline : IsDisciplined IsFree stateops) where
  either :
      (b : Bool) (v w : Verified S)
      → OnReturn IsFree v
      → OnReturn IsFree w
      → OnReturn IsFree (if b then v else w)
  either true v w p q = p
  either false v w p q = q

  when :
      (b : Bool) (v w : Verified S)
      → b ≡ true
      → OnReturn IsFree v
      → OnReturn IsFree (if b then v else w)
  when true v w e p = p
  when false v w e p = absurd cc

  reported-OnReturn :
      (rc : Rc) (passcode : Bytes) (put : Bool × S)
      → IsFree put.1
      → OnReturn IsFree (reported rc passcode put)
  unfolding reported
  reported-OnReturn rc passcode (true, s) free = free
  reported-OnReturn rc passcode (false, s) free = free

  release-OnReturn :
      (config : Config) (user : User) (timeout : ℕ) (rc : Rc) (passcode : Bytes) (state : State)
      (s : S)
      → state.locked ≡ true
      → OnReturn IsFree (
          release crypto modules userops stateops times stack config user timeout rc passcode state
            s)
  unfolding release
  release-OnReturn config user timeout rc passcode state s locked = when state.locked _ _ locked (
      reported-OnReturn rc passcode
        (stateops.put (record config { timeout = timeout }) user state s)
        (discipline.put_law (record config { timeout = timeout }) user state s locked))

  -- The state of a decision, on every way out of it.
  abbrev pub Marked : Decision → Type 0
  Marked (decided rc frame) = frame.state.locked ≡ true
  Marked (failed state) = state.locked ≡ true
  Marked Decision.undefined = Unit

  finish-OnReturn :
      (config : Config) (user : User) (timeout : ℕ) (old : Bytes) (s : S) (d : Decision)
      → Marked d
      → OnReturn IsFree
          (finish crypto modules userops stateops times stack config user timeout old s d)
  unfolding finish
  finish-OnReturn config user timeout old s (decided rc frame) locked =
      release-OnReturn config user _ rc _ (settle times.now rc frame old).0 s
        (settle-locked times.now rc frame old ∙ locked)
  finish-OnReturn config user timeout old s (failed state) locked =
      release-OnReturn config user _ service_err old state s locked
  finish-OnReturn config user timeout old s Decision.undefined locked = tt

  -- The decision, on the state that was got.
  pub decide-Marked :
      (config : Config) (request : Request) (ops : Cardops) (user : User) (state : State)
      → KeepsBook ops
      → state.locked ≡ true
      → Marked (decide crypto times stack config request ops user state)
  decide-Marked config request ops user state laws locked =
      go (decide crypto times stack config request ops user state)
        (decide-Kept crypto config request ops user times laws stack state)
    where
      go : (d : Decision) → OnDecided (SameBook state) d → Marked d
      go (decided rc frame) book = book.locked ∙ locked
      go (failed later) book = book.locked ∙ locked
      go Decision.undefined book = tt

  with_loaded-OnReturn :
      (config : Config) (request : Request) (reply : Reply) (ops : Cardops) (user : User) (left : ℕ)
      (state : State) (s : S) (now : ℕ) (l : Option State)
      → KeepsBook ops
      → state.locked ≡ true
      → load_state config ops user state now ≡ l
      → OnReturn IsFree (
          with_loaded crypto modules userops stateops times stack config request reply ops user left
            state s l)
  unfolding with_loaded
  with_loaded-OnReturn config request reply ops user left state s now none laws locked e =
      finish-OnReturn config user left reply.passcode s (failed state) locked
  with_loaded-OnReturn config request reply ops user left state s now (some loaded) laws locked e =
      let kept = load_state-locked config ops user state loaded now laws e ∙ locked in
      either (ltb left ms250) _ _
        (release-OnReturn config user ms250 service_err reply.passcode loaded s kept)
        (finish-OnReturn config user left reply.passcode s _
          (decide-Marked config request ops user loaded laws kept))

  with_state-OnReturn :
      (config : Config) (request : Request) (reply : Reply) (ops : Cardops) (user : User) (left : ℕ)
      (got : Option State × S)
      → KeepsBook ops
      → OnGot IsFree got
      → OnReturn IsFree (
          with_state crypto modules userops stateops times stack config request reply ops user left
            got)
  unfolding with_state
  with_state-OnReturn config request reply ops user left (none, s) laws free = free
  with_state-OnReturn config request reply ops user left (some state, s) laws locked =
      with_loaded-OnReturn config request reply ops user _ state s times.now _ laws locked refl

  after_setup-OnReturn :
      (config : Config) (request : Request) (reply : Reply) (ops : Cardops) (run : Run Ready)
      (s : S)
      → KeepsBook ops
      → IsFree s
      → OnReturn IsFree
          (after_setup crypto modules userops stateops times stack config request reply ops run s)
  unfolding after_setup with_user
  after_setup-OnReturn config request reply ops (go ready) s laws free =
      either (ltb (config.timeout - times.get_ns) ms500) _ _ free (
        with_state-OnReturn config request reply ops ready.user _ _ laws (
          discipline.get_law (record config { timeout = config.timeout - times.get_ns }) ready.user
            ready.state s free))
  after_setup-OnReturn config request reply ops (jump (Jump.auth_done rc)) s laws free = free
  after_setup-OnReturn config request reply ops (jump (Jump.auth_done_service_err rc)) s laws free =
      free
  after_setup-OnReturn config request reply ops (jump Jump.undefined) s laws free = tt

  with_card-OnReturn :
      (config : Config) (request : Request) (reply : Reply) (user : User) (s : S)
      (ops : Option Cardops) (password : Option Bytes)
      → AllKeep modules
      → IsFree s
      → find_cardops modules user.card ≡ ops
      → OnReturn IsFree (
          with_card crypto modules userops stateops times stack config request reply user s ops
            password)
  unfolding with_card
  with_card-OnReturn config request reply user s none password all free e = free
  with_card-OnReturn config request reply user s (some ops) (some password) all free e = free
  with_card-OnReturn config request reply user s (some ops) none all free e =
      after_setup-OnReturn config request reply ops _ s
        (find_cardops-KeepsBook modules user.card ops all e) free

  -- Where the token types keep verify()'s fields and the state store keeps its contract, a call of
  -- verify() that begins with nothing held ends with nothing held, whatever it replies: every lock
  -- that state_get() takes is given back, on the error paths as well.
  pub verify-released :
      (config : Config) (request : Request) (reply reply' : Reply) (s s' : S)
      → AllKeep modules
      → IsFree s
      → verify crypto modules userops stateops times stack config request reply s
        ≡ returned reply' s'
      → IsFree s'
  unfolding verify with_lookup
  verify-released config request reply reply' s s' all free e =
      subst (OnReturn IsFree) e (go (userops request.username config times.now))
    where
      go :
          (u : UserLookup)
          → OnReturn IsFree
              (with_lookup crypto modules userops stateops times stack config request reply s u)
      go not_found = free
      go unavailable = free
      go (found user) = with_card-OnReturn config request reply user s _ user.password all free refl
