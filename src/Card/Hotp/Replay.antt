-- ===== src/Card/Hotp/Replay.antt =====
-- cardops/hotp.c under verify(): what a grant does to the counter.
use otpd.Base.{
  ℕ, ◌+◌, ◌^◌, ◌≤◌, ◌<◌, ◌≡◌, refl, ap, sym, ◌∙◌, subst, true, false, Option, none, some, inl, inr,
  ◌++◌, ◌==◌, Bytes, Bool-cases, take, drop, length, memcpy, take-append_self, ◌&&◌,
}
use otpd.Crypto.{Crypto}
use otpd.Otp.{ok, Request, Config, User, State, response_len, async_mode, sync_mode}
use otpd.HotpMac.{hotp_mac}
use otpd.Verify.Fail.{Fc, fail_condition}
use otpd.Verify.Frame.{Frame, Decision, decided, Times, expected}
use otpd.Verify.Async.{continue, on_continue, async}
use otpd.Verify.Sync.{rounds, event_end, search, sync}
use otpd.Verify.Settle.{settle_ok}
use otpd.Verify.Decide.{decide_under, decide}
use otpd.Verify.Grant.{OnOk}
use otpd.Card.Counter.{counter_bytes}
use otpd.Card.Hotp.{hotp_cardops}
use otpd.Card.Hotp.Search.{Advances, search-Advances}

module _ (crypto : Crypto) (config : Config) (request : Request) (user : User) (times : Times) where
  -- What a grant makes of a counter: it moves up by at most one window, the saved challenge holds
  -- it, and the passcode is the response of that counter with the PIN.
  pub record Moved (c : ℕ) (now : ℕ) (frame : Frame) : Type 0 where
    pub counter : ℕ
    pub above : c < counter
    pub within : counter ≤ c + rounds (event_end config user)
    pub saved : take 8 (settle_ok now frame).challenge ≡ counter_bytes counter
    pub rest : Bytes
    pub response : Bytes
    pub computed :
        hotp_mac crypto
          (counter_bytes counter ++ rest)
          (take frame.state.scratch1 user.key)
          (response_len user.featuremask)
        ≡ some response
    pub joined : frame.e_response ≡ expected config user response

  settle_ok-saved :
      (now k : ℕ) (rest : Bytes) (frame : Frame)
      → frame.resync ≡ true
      → frame.state.clen ≡ 8
      → frame.challenge ≡ counter_bytes k ++ rest
      → take 8 (settle_ok now frame).challenge ≡ counter_bytes k
  unfolding settle_ok counter_bytes
  settle_ok-saved now k rest frame resync clen carried =
      rw resync (rw clen (rw carried (take-append_self (counter_bytes k) (rest_of frame))))
    where
      rest_of : Frame → Bytes
      rest_of f = drop 8 f.state.challenge

  Advances-Moved :
      (c : ℕ) (rest : Bytes) (d : Decision)
      → OnOk
          (Advances crypto config request user times rest c (c + rounds (event_end config user)))
          d
      → OnOk (Moved c times.now) d
  Advances-Moved c rest (decided ok f) (m, r) = record {
    counter = m.counter;
    above = m.above;
    within = m.within;
    saved = settle_ok-saved times.now m.counter rest f r m.clen m.carried;
    rest = rest;
    response = m.response;
    computed = m.computed;
    joined = m.joined;
  }
  Advances-Moved c rest _ p = tt

  sync-Moved :
      (c : ℕ) (state : State) (fc : Fc) (stack : Bytes)
      → take 8 state.challenge ≡ counter_bytes c
      → state.clen ≡ 8
      → c + rounds (event_end config user) ≤ 2 ^ 31
      → OnOk
          (Moved c times.now)
          (sync crypto config request (hotp_cardops crypto) user times state fc stack)
  unfolding sync
  sync-Moved c state fc stack held clen fits =
      elim (Bool-cases (sync_mode user.featuremask && request.allow_sync)) [
        | inr refused ↦ rw refused tt
        | inl allowed ↦ rw allowed (
            subst
              (λ ch. OnOk (Moved c times.now) (
                search crypto config request (hotp_cardops crypto) user times state fc ch (some 0)))
              (sym copied)
              (Advances-Moved c (drop 8 stack) _
                (search-Advances crypto config request user times (drop 8 stack) c state fc fits)))
      ]
    where
      copied : memcpy stack state.challenge state.clen ≡ counter_bytes c ++ drop 8 stack
      copied = ap (memcpy stack state.challenge) clen ∙ ap (λ h. h ++ drop 8 stack) held

  async-sync_only :
      (state : State) (fc : Fc) (stack : Bytes)
      → async_mode user.featuremask ≡ false
      → async crypto config request (hotp_cardops crypto) user times state fc stack
        ≡ continue (memcpy stack request.challenge (length request.challenge))
  unfolding async
  async-sync_only state fc stack sync_only = elim (Bool-cases (length request.challenge == 0)) [
    | inl e ↦ rw e refl
    | inr e ↦ rw e (rw sync_only refl)
  ]

  under-Moved :
      (c : ℕ) (state : State) (stack : Bytes) (fc : Option Fc)
      → async_mode user.featuremask ≡ false
      → take 8 state.challenge ≡ counter_bytes c
      → state.clen ≡ 8
      → c + rounds (event_end config user) ≤ 2 ^ 31
      → OnOk
          (Moved c times.now)
          (decide_under crypto times stack config request (hotp_cardops crypto) user state fc)
  unfolding decide_under
  under-Moved c state stack none sync_only held clen fits = tt
  under-Moved c state stack (some fc) sync_only held clen fits =
      subst
        (λ a.
          OnOk (Moved c times.now)
            (on_continue a (sync crypto config request (hotp_cardops crypto) user times state fc)))
        (sym (async-sync_only state fc stack sync_only))
        (sync-Moved c state fc (memcpy stack request.challenge (length request.challenge)) held clen
          fits)

  -- A decision that grants an HOTP passcode moves the counter of the saved state up, by at most
  -- the width of the window, and the passcode is the response of the new counter with the PIN.
  -- The card is not asynchronous, the state holds a counter of 8 octets, and the window ends
  -- below 2^31.
  pub decide-Moved :
      (c : ℕ) (state : State) (stack : Bytes)
      → async_mode user.featuremask ≡ false
      → take 8 state.challenge ≡ counter_bytes c
      → state.clen ≡ 8
      → c + rounds (event_end config user) ≤ 2 ^ 31
      → OnOk
          (Moved c times.now)
          (decide crypto times stack config request (hotp_cardops crypto) user state)
  unfolding decide
  decide-Moved c state stack sync_only held clen fits =
      under-Moved c state stack (fail_condition config state times.now) sync_only held clen fits
