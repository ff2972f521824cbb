-- ===== src/Verify/Book.antt =====
-- otp.c, verify(): how an attempt moves the failure count.
use otpd.Base.{
  ℕ, zero, suc, not, ◌&&◌, Option, none, some, inl, inr, ◌==◌, Bytes, Bool-cases, length,
}
use otpd.Crypto.{Crypto}
use otpd.Otp.{Request, Config, User, State, async_mode, sync_mode}
use otpd.Cardops.{Cardops, Challenged, next, early}
use otpd.Cardops.Book.{
  SameBook, SameBook-refl, SameBook-trans, ChallengedBook, UpdatedBook, KeepsBook,
}
use otpd.Compare.{compare}
use otpd.Verify.Fail.{Fc, fail_condition}
use otpd.Verify.Frame.{Decision, decided, Times, expected}
use otpd.Verify.Async.{Async, leave, continue, on_continue, async, async_tested, async_test}
use otpd.Verify.Sync.{
  Scan, missed, matched, broken, on_miss, tested, tried, event_loop, time_loop, sync_rc,
  conclude_match, conclude, rounds, event_end, search, sync,
}
use otpd.Verify.Decide.{decide_under, decide}

-- A property of the state with which an attempt is decided or fails, whatever its `rc`.
abbrev pub OnDecided : (State → Type 0) → Decision → Type 0
OnDecided P (decided rc frame) = P frame.state
OnDecided P (Decision.failed state) = P state
OnDecided P Decision.undefined = Unit

module _ (crypto : Crypto) (config : Config) (request : Request) (ops : Cardops) (user : User)
    (times : Times) (laws : KeepsBook ops) where
  abbrev Kept : State → Scan → Type 0
  Kept a (missed b _) = SameBook a b
  Kept a (matched _ _ b _ _) = SameBook a b
  Kept a (broken b) = SameBook a b

  Kept-trans : (a b : State) (scan : Scan) → SameBook a b → Kept b scan → Kept a scan
  Kept-trans a b (missed c _) p q = SameBook-trans p q
  Kept-trans a b (matched _ _ c _ _) p q = SameBook-trans p q
  Kept-trans a b (broken c) p q = SameBook-trans p q

  tested-Kept :
      (t e : ℕ) (state : State) (challenge : Bytes) (r : Option Bytes)
      → Kept state (tested crypto config request ops user times t e state challenge r)
  unfolding tested
  tested-Kept t e state challenge none = SameBook-refl state
  tested-Kept t e state challenge (some response) =
      elim (Bool-cases (compare crypto request (expected config user response))) [
        | inl hit ↦ rw hit (SameBook-refl state)
        | inr miss ↦ rw miss (SameBook-refl state)
      ]

  tried-Kept :
      (t e : ℕ) (state : State) (c : Challenged)
      → ChallengedBook state c
      → Kept state (tried crypto config request ops user times t e state c)
  unfolding tried
  tried-Kept t e state Challenged.failed book = SameBook-refl state
  tried-Kept t e state (early s c) book = book
  tried-Kept t e state (next s c) book = Kept-trans state s _ book (tested-Kept t e s c _)

  on_miss-Kept :
      (a : State) (scan : Scan) (rest : State → Bytes → Scan)
      → Kept a scan
      → ((s : State) (c : Bytes) → Kept s (rest s c))
      → Kept a (on_miss scan rest)
  on_miss-Kept a (missed s c) rest p q = Kept-trans a s _ p (q s c)
  on_miss-Kept a (matched t e s c r) rest p q = p
  on_miss-Kept a (broken s) rest p q = p

  event_loop-Kept :
      (n t e : ℕ) (state : State) (challenge : Bytes)
      → Kept state (event_loop crypto config request ops user times n t e state challenge)
  unfolding event_loop
  event_loop-Kept zero t e state challenge = SameBook-refl state
  event_loop-Kept (suc n) t e state challenge =
      on_miss-Kept state _ _
        (tried-Kept t e state _ (laws.challenge_book user state challenge times.now t e))
        (event_loop-Kept n t (suc e))

  time_loop-Kept :
      (m n t : ℕ) (state : State) (challenge : Bytes)
      → Kept state (time_loop crypto config request ops user times m n t state challenge)
  unfolding time_loop
  time_loop-Kept zero n t state challenge = SameBook-refl state
  time_loop-Kept (suc m) n t state challenge =
      on_miss-Kept state _ _ (event_loop-Kept n t 0 state challenge) (time_loop-Kept m n (suc t))

  conclude-Kept :
      (a : State) (fc : Fc) (scan : Scan)
      → Kept a scan
      → OnDecided (SameBook a) (conclude crypto config request ops user times fc scan)
  unfolding conclude
  conclude-Kept a fc (missed s c) p = p
  conclude-Kept a fc (broken s) p = p
  conclude-Kept a fc (matched t e s c r) p =
      go _ (laws.updatecsd_book s times.now t e (sync_rc config ops user times.now s fc e))
    where
      go :
          (updated : Option State)
          → UpdatedBook s updated
          → OnDecided (SameBook a) (
              conclude_match crypto config request ops user times
                (sync_rc config ops user times.now s fc e)
                c
                r
                s
                updated)
      go none q = p
      go (some s') q = SameBook-trans p q

  search-Kept :
      (state : State) (fc : Fc) (challenge : Bytes) (tend : Option ℕ)
      → OnDecided
          (SameBook state)
          (search crypto config request ops user times state fc challenge tend)
  unfolding search
  search-Kept state fc challenge none = SameBook-refl state
  search-Kept state fc challenge (some tend) =
      conclude-Kept state fc _
        (time_loop-Kept (rounds tend) (rounds (event_end config user)) 0 state challenge)

  sync-Kept :
      (state : State) (fc : Fc) (stack : Bytes)
      → OnDecided (SameBook state) (sync crypto config request ops user times state fc stack)
  unfolding sync
  sync-Kept state fc stack = elim (Bool-cases (sync_mode user.featuremask && request.allow_sync)) [
    | inl allowed ↦ rw allowed (search-Kept state fc _ (ops.maxtwin user state times.now))
    | inr refused ↦ rw refused (SameBook-refl state)
  ]

  abbrev AsyncKept : State → Async → Type 0
  AsyncKept a (leave d) = OnDecided (SameBook a) d
  AsyncKept a (continue _) = Unit

  async_tested-Kept :
      (state : State) (fc : Fc) (challenge : Bytes) (r : Option Bytes)
      → AsyncKept state (async_tested crypto config request ops user times state fc challenge r)
  unfolding async_tested
  async_tested-Kept state fc challenge none = SameBook-refl state
  async_tested-Kept state fc challenge (some response) =
      elim (Bool-cases (compare crypto request (expected config user response))) [
        | inl hit ↦ rw hit (SameBook-refl state)
        | inr miss ↦ rw miss tt
      ]

  async-Kept :
      (state : State) (fc : Fc) (stack : Bytes)
      → AsyncKept state (async crypto config request ops user times state fc stack)
  unfolding async async_test
  async-Kept state fc stack =
      elim (Bool-cases (
        not (length request.challenge == 0)
        && (async_mode user.featuremask && request.allow_async))) [
          | inl allowed ↦ rw allowed (async_tested-Kept state fc _ _)
          | inr refused ↦ rw refused tt
        ]

  on_continue-Kept :
      (state : State) (a : Async) (rest : Bytes → Decision)
      → AsyncKept state a
      → ((c : Bytes) → OnDecided (SameBook state) (rest c))
      → OnDecided (SameBook state) (on_continue a rest)
  on_continue-Kept state (leave d) rest p q = p
  on_continue-Kept state (continue c) rest p q = q c

  pub decide-Kept :
      (stack : Bytes) (state : State)
      → OnDecided (SameBook state) (decide crypto times stack config request ops user state)
  unfolding decide
  decide-Kept stack state = go (fail_condition config state times.now)
    where
      go :
          (fc : Option Fc)
          → OnDecided
              (SameBook state)
              (decide_under crypto times stack config request ops user state fc)
      go none = tt
      go (some fc) = on_continue-Kept state _ _ (async-Kept state fc stack) (sync-Kept state fc)
