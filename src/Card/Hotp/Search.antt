-- ===== src/Card/Hotp/Search.antt =====
-- cardops/hotp.c under verify(): the window search goes over the counters in order.
use otpd.Base.{
  ℕ, zero, suc, ◌+◌, ◌^◌, ◌≤◌, ◌<◌, ◌≡◌, refl, ap, ◌∙◌, true, Option, none, some, inl, inr, ◌++◌,
  arith, Bytes, Bool-cases, take,
}
use otpd.Crypto.{Crypto}
use otpd.Otp.{Rc, ok, Request, Config, User, State, response_len}
use otpd.Cardops.{Cardops, next}
use otpd.Cardops.Book.{KeepsBook, UpdatedBook}
use otpd.Compare.{compare}
use otpd.HotpMac.{hotp_mac}
use otpd.Verify.Fail.{Fc}
use otpd.Verify.Frame.{Frame, Times, expected}
use otpd.Verify.Sync.{
  Scan, missed, matched, broken, on_miss, tested, tried, slot, event_loop, time_loop, sync_rc,
  conclude_match, conclude, rounds, event_end, search,
}
use otpd.Verify.Grant.{OnOk}
use otpd.Card.Counter.{counter_bytes}
use otpd.Card.Counter.Laws.{next_counter_lem}
use otpd.Card.Window
use otpd.Card.Hotp.{hotp_challenge, hotp_response, hotp_cardops}

-- The token's operations leave verify()'s fields alone.
pub hotp-KeepsBook : (crypto : Crypto) → KeepsBook (hotp_cardops crypto)
unfolding hotp_challenge Window.updatecsd
hotp-KeepsBook crypto = record {
  challenge_book = λ user state challenge now t e. record {
    failcount = refl;
    authtime = refl;
    nullstate = refl;
    locked = refl;
  };
  updatecsd_book = λ state now t e rc. updated state e rc;
  nullstate_book = λ config user state now. tt;
}
  where
    updated : (state : State) (e : ℕ) (rc : Rc) → UpdatedBook state (Window.updatecsd state e rc)
    updated state e ok = record {
      failcount = refl;
      authtime = refl;
      nullstate = refl;
      locked = refl;
    }
    updated state e _ = record {
      failcount = refl;
      authtime = refl;
      nullstate = refl;
      locked = refl;
    }

module _ (crypto : Crypto) (config : Config) (request : Request) (user : User) (times : Times)
    (rest : Bytes) where
  -- A match between counters `low` and `high` carries its own counter, and the response is that of
  -- the counter.
  pub record Counted (low high : ℕ) (state : State) (challenge e_response : Bytes) : Type 0 where
    pub counter : ℕ
    pub above : low < counter
    pub within : counter ≤ high
    pub carried : challenge ≡ counter_bytes counter ++ rest
    pub clen : state.clen ≡ 8
    pub response : Bytes
    pub computed :
        hotp_mac crypto
          (counter_bytes counter ++ rest)
          (take state.scratch1 user.key)
          (response_len user.featuremask)
        ≡ some response
    pub joined : e_response ≡ expected config user response

  abbrev pub InRange : ℕ → ℕ → Scan → Type 0
  InRange low high (matched t e state challenge e_response) =
      Counted low high state challenge e_response
  InRange low high _ = Unit

  abbrev ops : Cardops
  ops = hotp_cardops crypto

  tested-InRange :
      (t e c : ℕ) (state : State) (r : Option Bytes)
      → state.clen ≡ 8
      → hotp_response crypto user state (counter_bytes (c + 1) ++ rest) ≡ r
      → InRange c
          (c + 1)
          (tested crypto config request ops user times t e state (counter_bytes (c + 1) ++ rest) r)
  unfolding tested hotp_response
  tested-InRange t e c state none eight eq = tt
  tested-InRange t e c state (some response) eight eq =
      elim (Bool-cases (compare crypto request (expected config user response))) [
        | inr miss ↦ rw miss tt
        | inl hit ↦ rw hit (record {
          counter = c + 1;
          above = omega arith;
          within = omega arith;
          carried = refl;
          clen = eight;
          response = response;
          computed = eq;
          joined = refl;
        })
      ]

  InRange-weaken :
      (low low' high high' : ℕ) (scan : Scan)
      → low ≤ low'
      → high' ≤ high
      → InRange low' high' scan
      → InRange low high scan
  InRange-weaken low low' high high' (matched t e s c r) p q m = record {
    counter = m.counter;
    above = omega (arith, m.above);
    within = omega (arith, m.within);
    carried = m.carried;
    clen = m.clen;
    response = m.response;
    computed = m.computed;
    joined = m.joined;
  }
  InRange-weaken low low' high high' (missed s c) p q m = tt
  InRange-weaken low low' high high' (broken s) p q m = tt

  -- The next slot goes on from the next counter, or the slot ends the search.
  abbrev eight : State → State
  eight state = record state { clen = 8 }

  slot_lem :
      (t e c : ℕ) (state : State)
      → c < 2 ^ 31
      → slot crypto config request ops user times t e state (counter_bytes c ++ rest)
        ≡ tested crypto config request ops user times t e
            (eight state)
            (counter_bytes (c + 1) ++ rest)
            (hotp_response crypto user (eight state) (counter_bytes (c + 1) ++ rest))
  unfolding slot hotp_challenge
  slot_lem t e c state small =
      ap (λ ch. tried crypto config request ops user times t e state (next (eight state) ch))
        (next_counter_lem c rest (omega arith) (omega arith))
      ∙ unfold tried in refl

  tested-on_miss :
      (t e c high : ℕ) (state : State) (r : Option Bytes) (more : State → Bytes → Scan)
      → InRange c high
          (tested crypto config request ops user times t e state (counter_bytes (c + 1) ++ rest) r)
      → InRange c high (more state (counter_bytes (c + 1) ++ rest))
      → InRange c high (
          on_miss
            (tested crypto config request ops user times t e state
              (counter_bytes (c + 1) ++ rest)
              r)
            more)
  unfolding tested
  tested-on_miss t e c high state none more p q = tt
  tested-on_miss t e c high state (some response) more p q =
      elim (Bool-cases (compare crypto request (expected config user response))) [
        | inr miss ↦ rw miss q
        | inl hit ↦ rw hit (rw hit at p)
      ]

  event_loop-InRange :
      (n t e c : ℕ) (state : State)
      → c + n ≤ 2 ^ 31
      → InRange c
          (c + n)
          (event_loop crypto config request ops user times n t e state (counter_bytes c ++ rest))
  unfolding event_loop
  event_loop-InRange zero t e c state fits = tt
  event_loop-InRange (suc n) t e c state fits = rw (slot_lem t e c state (omega arith)) (
      tested-on_miss t e c (c + suc n) (eight state) _ _
        (InRange-weaken c c (c + suc n) (c + 1) _ (omega arith) (omega arith)
          (tested-InRange t e c (eight state) _ refl refl))
        (InRange-weaken c (c + 1) (c + suc n) (c + 1 + n) _ (omega arith) (omega arith)
          (event_loop-InRange n t (suc e) (c + 1) (eight state) (omega arith))))

  abbrev pub Advances : ℕ → ℕ → Frame → Type 0
  Advances low high f = Counted low high f.state f.challenge f.e_response × (f.resync ≡ true)

  concluded :
      (low high t e : ℕ) (rc : Rc) (state : State) (challenge e_response : Bytes)
      → Counted low high state challenge e_response
      → OnOk (Advances low high) (
          conclude_match crypto config request ops user times rc challenge e_response state
            (Window.updatecsd state e rc))
  unfolding conclude_match Window.updatecsd
  concluded low high t e ok state challenge e_response m = (
    record {
      counter = m.counter;
      above = m.above;
      within = m.within;
      carried = m.carried;
      clen = m.clen;
      response = m.response;
      computed = m.computed;
      joined = m.joined;
    },
    refl,
  )
  concluded low high t e _ state challenge e_response m = tt

  conclude-Advances :
      (low high : ℕ) (fc : Fc) (scan : Scan)
      → InRange low high scan
      → OnOk (Advances low high) (conclude crypto config request ops user times fc scan)
  unfolding conclude
  conclude-Advances low high fc (missed s c) p = tt
  conclude-Advances low high fc (broken s) p = tt
  conclude-Advances low high fc (matched t e s c r) p =
      concluded low high t e (sync_rc config ops user times.now s fc e) s c r p

  -- One row is the whole search: the time window is one slot wide.
  one_row :
      (low high n : ℕ) (scan : Scan)
      → InRange low high scan
      → InRange low high (on_miss scan (time_loop crypto config request ops user times 0 n 1))
  unfolding time_loop
  one_row low high n (missed s c) p = tt
  one_row low high n (broken s) p = tt
  one_row low high n (matched t e s c r) p = p

  pub search-Advances :
      (c : ℕ) (state : State) (fc : Fc)
      → c + rounds (event_end config user) ≤ 2 ^ 31
      → OnOk
          (Advances c (c + rounds (event_end config user)))
          (search crypto config request ops user times state fc (counter_bytes c ++ rest) (some 0))
  unfolding search rounds time_loop
  search-Advances c state fc fits = conclude-Advances c _ fc _ (
      one_row c _ (rounds (event_end config user)) _
        (event_loop-InRange (rounds (event_end config user)) 0 0 c state fits))
