-- ===== src/Verify/Grant.antt =====
-- otp.c, verify(): what a granted authentication rests on.
use otpd.Base.{
  ℕ, zero, suc, ◌≡◌, refl, subst, true, not, ◌&&◌, ◌==◌, Option, none, some, inl, inr, Bytes,
  Bool-cases, length,
}
use otpd.Crypto.{Crypto}
use otpd.Otp.{Rc, ok, Request, Config, User, State, sync_mode, async_mode}
use otpd.Cardops.{Cardops, Challenged, next, early}
use otpd.Compare.{compare}
use otpd.Verify.Fail.{Fc, fail_condition}
use otpd.Verify.Frame.{Frame, Decision, decided, Times, expected}
use otpd.Verify.Async.{
  Async, leave, continue, on_continue, async, async_tested, async_test, async_challenge, async_rc,
}
use otpd.Verify.Sync.{
  Scan, missed, matched, broken, tested, tried, on_miss, event_loop, time_loop, sync_rc,
  conclude_match, conclude, rounds, event_end, search, sync,
}
use otpd.Verify.Decide.{decide_under, decide}

-- A property of the frame of every decision that grants.
abbrev pub OnOk : (Frame → Type 0) → Decision → Type 0
OnOk P (decided ok frame) = P frame
OnOk P _ = Unit

abbrev pub AsyncOnOk : (Frame → Type 0) → Async → Type 0
AsyncOnOk P (leave d) = OnOk P d
AsyncOnOk P (continue _) = Unit

pub OnOk-self :
    {P : Frame → Type 0} (d : Decision) → ((f : Frame) → d ≡ decided ok f → P f) → OnOk P d
OnOk-self (decided ok f) h = h f refl
OnOk-self _ h = tt

pub OnOk-decided_ok :
    (P : Frame → Type 0) {d : Decision} {f : Frame} → d ≡ decided ok f → OnOk P d → P f
OnOk-decided_ok P eq = subst (OnOk P) eq

module _ (crypto : Crypto) (config : Config) (request : Request) (ops : Cardops) (user : User)
    (times : Times) where
  -- `e_response` is a response of the card, joined with the PIN, that the passcode passes.
  pub record IsResponse (e_response : Bytes) : Type 0 where
    pub state : State
    pub challenge : Bytes
    pub len : ℕ
    pub time : ℕ
    pub response : Bytes
    pub computed : ops.response user state challenge len time ≡ some response
    pub joined : e_response ≡ expected config user response
    pub passes : compare crypto request e_response ≡ true

  abbrev Passed : Scan → Type 0
  Passed (matched t e state challenge e_response) = IsResponse e_response
  Passed _ = Unit

  tested-Passed :
      (t e : ℕ) (state : State) (challenge : Bytes) (len time : ℕ) (r : Option Bytes)
      → ops.response user state challenge len time ≡ r
      → Passed (tested crypto config request ops user times t e state challenge r)
  unfolding tested
  tested-Passed t e state challenge len time none eq = tt
  tested-Passed t e state challenge len time (some response) eq =
      elim (Bool-cases (compare crypto request (expected config user response))) [
        | inl hit ↦ rw hit (record {
          state = state;
          challenge = challenge;
          len = len;
          time = time;
          response = response;
          computed = eq;
          joined = refl;
          passes = hit;
        })
        | inr miss ↦ rw miss tt
      ]

  tried-Passed :
      (t e : ℕ) (state : State) (c : Challenged)
      → Passed (tried crypto config request ops user times t e state c)
  unfolding tried
  tried-Passed t e state Challenged.failed = tt
  tried-Passed t e state (early s c) = tt
  tried-Passed t e state (next s c) = tested-Passed t e s c s.clen (times.sync_time t e) _ refl

  on_miss-Passed :
      (scan : Scan) (rest : State → Bytes → Scan)
      → Passed scan
      → ((s : State) (c : Bytes) → Passed (rest s c))
      → Passed (on_miss scan rest)
  on_miss-Passed (missed s c) rest p q = q s c
  on_miss-Passed (matched t e s c r) rest p q = p
  on_miss-Passed (broken s) rest p q = p

  event_loop-Passed :
      (n t e : ℕ) (state : State) (challenge : Bytes)
      → Passed (event_loop crypto config request ops user times n t e state challenge)
  unfolding event_loop
  event_loop-Passed zero t e state challenge = tt
  event_loop-Passed (suc n) t e state challenge =
      on_miss-Passed _ _ (tried-Passed t e state _) (event_loop-Passed n t (suc e))

  time_loop-Passed :
      (m n t : ℕ) (state : State) (challenge : Bytes)
      → Passed (time_loop crypto config request ops user times m n t state challenge)
  unfolding time_loop
  time_loop-Passed zero n t state challenge = tt
  time_loop-Passed (suc m) n t state challenge =
      on_miss-Passed _ _ (event_loop-Passed n t 0 state challenge) (time_loop-Passed m n (suc t))

  abbrev Answered : Frame → Type 0
  Answered frame = IsResponse frame.e_response

  OnOk-decided :
      (rc : Rc) (P : Frame → Type 0) (frame : Frame) → P frame → OnOk P (decided rc frame)
  OnOk-decided ok P frame p = p
  OnOk-decided _ P frame p = tt

  conclude-Answered :
      (fc : Fc) (scan : Scan)
      → Passed scan
      → OnOk Answered (conclude crypto config request ops user times fc scan)
  unfolding conclude
  conclude-Answered fc (missed s c) p = tt
  conclude-Answered fc (broken s) p = tt
  conclude-Answered fc (matched t e s c r) p =
      go (ops.updatecsd s times.now t e (sync_rc config ops user times.now s fc e))
    where
      go :
          (updated : Option State)
          → OnOk Answered (
              conclude_match crypto config request ops user times
                (sync_rc config ops user times.now s fc e)
                c
                r
                s
                updated)
      go none = tt
      go (some s') = OnOk-decided (sync_rc config ops user times.now s fc e) Answered _ p

  search-Answered :
      (state : State) (fc : Fc) (challenge : Bytes) (tend : Option ℕ)
      → OnOk Answered (search crypto config request ops user times state fc challenge tend)
  unfolding search
  search-Answered state fc challenge none = tt
  search-Answered state fc challenge (some tend) =
      conclude-Answered fc _
        (time_loop-Passed (rounds tend) (rounds (event_end config user)) 0 state challenge)

  sync-Answered :
      (state : State) (fc : Fc) (stack : Bytes)
      → OnOk Answered (sync crypto config request ops user times state fc stack)
  unfolding sync
  sync-Answered state fc stack =
      elim (Bool-cases (sync_mode user.featuremask && request.allow_sync)) [
        | inl allowed ↦ rw allowed (search-Answered state fc _ (ops.maxtwin user state times.now))
        | inr refused ↦ rw refused tt
      ]

  async_tested-Answered :
      (state : State) (fc : Fc) (challenge : Bytes) (len time : ℕ) (r : Option Bytes)
      → ops.response user state challenge len time ≡ r
      → AsyncOnOk Answered (async_tested crypto config request ops user times state fc challenge r)
  unfolding async_tested
  async_tested-Answered state fc challenge len time none eq = tt
  async_tested-Answered state fc challenge len time (some response) eq =
      elim (Bool-cases (compare crypto request (expected config user response))) [
        | inl hit ↦ rw hit (
            OnOk-decided (async_rc request state times.now fc) Answered _ (record {
              state = state;
              challenge = challenge;
              len = len;
              time = time;
              response = response;
              computed = eq;
              joined = refl;
              passes = hit;
            }))
        | inr miss ↦ rw miss tt
      ]

  async_test-Answered :
      (state : State) (fc : Fc) (input : Bytes × ℕ)
      → AsyncOnOk Answered (async_test crypto config request ops user times state fc input)
  unfolding async_test
  async_test-Answered state fc (challenge, clen) =
      async_tested-Answered state fc challenge clen times.async_time _ refl

  async-Answered :
      (state : State) (fc : Fc) (stack : Bytes)
      → AsyncOnOk Answered (async crypto config request ops user times state fc stack)
  unfolding async
  async-Answered state fc stack =
      elim (Bool-cases (
        not (length request.challenge == 0)
        && (async_mode user.featuremask && request.allow_async))) [
          | inl allowed ↦
              rw allowed (async_test-Answered state fc (async_challenge config request stack))
          | inr refused ↦ rw refused tt
        ]

  pub on_continue-OnOk :
      (P : Frame → Type 0) (a : Async) (rest : Bytes → Decision)
      → AsyncOnOk P a
      → ((c : Bytes) → OnOk P (rest c))
      → OnOk P (on_continue a rest)
  on_continue-OnOk P (leave d) rest p q = p
  on_continue-OnOk P (continue c) rest p q = q c

  pub decide-Answered :
      (stack : Bytes) (state : State)
      → OnOk Answered (decide crypto times stack config request ops user state)
  unfolding decide
  decide-Answered stack state = go (fail_condition config state times.now)
    where
      go :
          (fc : Option Fc)
          → OnOk Answered (decide_under crypto times stack config request ops user state fc)
      go none = tt
      go (some fc) =
          on_continue-OnOk Answered _ _ (async-Answered state fc stack) (sync-Answered state fc)
