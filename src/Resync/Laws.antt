-- ===== src/Resync/Laws.antt =====
-- resynctool.c: which counter the search finds, and what is printed for it.
use otpd.Base.{
  some-injective, ℕ, zero, suc, ◌+◌, ◌≤◌, ◌<◌, ◌≡◌, ◌≢◌, refl, ap, ap₂, sym, ◌∙◌, Bool, true, false,
  not, ◌&&◌, Bool-cases, inl, inr, ◌⊎◌, if◌then◌else◌, none, some, [], ◌∷◌, ◌++◌, Bytes, bytes_eq,
  bytes_eq→eq, bytes_eq_refl, ◌==◌, ==→eq, arith,
}
use mathlib.Core.List.{append_assoc}
use otpd.Otp.{User, State}
use otpd.Card.Counter.{counter_bytes}
use otpd.Store.Text.{state_unparse, unparse_fields}
use otpd.Resync.{search, state_line}

and-parts : (a b : Bool) → (a && b) ≡ true → (a ≡ true) × (b ≡ true)
and-parts true true h = (refl, refl)
and-parts true false h = absurd cc
and-parts false b h = absurd cc

differs : true ≢ false
differs e = cc

same_or_above : (j counter : ℕ) → counter ≤ j → (j ≡ counter) ⊎ (counter + 1 ≤ j)
same_or_above j counter low = elim (Bool-cases (j == counter)) [
  | inl e ↦ inl (==→eq j counter e)
  | inr e ↦ inr (ground (arith, low, e))
]

module _ (response : ℕ → Bytes) (pass1 pass2 : Bytes) where
  -- A counter that the search gives.
  pub record IsMatch (counter n k : ℕ) : Type 0 where
    pub before : ℕ
    pub next : k ≡ before + 1
    pub low : counter ≤ before
    pub high : before < counter + n
    pub first : response before ≡ pass1
    pub second : response k ≡ pass2

  abbrev shows : Bool → ℕ → Bool
  shows skip counter = not skip && bytes_eq (response counter) pass1

  -- The counter that the search gives shows the second passcode, and the one before it, which is
  -- among those that are searched, the first.
  pub search-IsMatch :
      (n counter k : ℕ) (skip : Bool)
      → search response pass1 pass2 n counter skip ≡ some k
      → IsMatch counter n k
  unfolding search
  search-IsMatch zero counter k skip h = absurd cc
  search-IsMatch (suc n) counter k skip h =
      go (shows skip counter && bytes_eq (response (counter + 1)) pass2) refl h
        (λ found. search-IsMatch n (counter + 1) k (shows skip counter) found)
    where
      go :
          (c : Bool)
          → (shows skip counter && bytes_eq (response (counter + 1)) pass2) ≡ c
          → (if c
              then some (counter + 1)
              else search response pass1 pass2 n (counter + 1) (shows skip counter))
            ≡ some k
          → (search response pass1 pass2 n (counter + 1) (shows skip counter) ≡ some k
              → IsMatch (counter + 1) n k)
          → IsMatch counter (suc n) k
      go true both h more =
          let (first, second) =
            and-parts (shows skip counter) (bytes_eq (response (counter + 1)) pass2) both in
          let shown = (and-parts (not skip) (bytes_eq (response counter) pass1) first).1 in
          let place = some-injective h in
          record {
            before = counter;
            next = sym place;
            low = omega arith;
            high = omega arith;
            first = bytes_eq→eq (response counter) pass1 shown;
            second = ap response (sym place) ∙ bytes_eq→eq (response (counter + 1)) pass2 second;
          }
      go false both h more =
          let found = more h in
          record {
            before = found.before;
            next = found.next;
            low = omega (arith, found.low);
            high = omega (arith, found.high);
            first = found.first;
            second = found.second;
          }

  -- A pair that the search passes over when it finds nothing: it stands directly behind another
  -- counter that shows the first passcode, or behind one that was tested before.
  abbrev pub IsHidden : ℕ → Bool → ℕ → Type 0
  IsHidden counter skip j =
      ((j ≡ counter) × (skip ≡ true))
      ⊎ ((i : ℕ) × (j ≡ i + 1) × (counter ≤ i) × (response i ≡ pass1))

  -- A counter that shows both passcodes is not passed over unless it is skipped.
  skipped :
      (skip : Bool) (counter j : ℕ)
      → j ≡ counter
      → response j ≡ pass1
      → response (j + 1) ≡ pass2
      → (shows skip counter && bytes_eq (response (counter + 1)) pass2) ≡ false
      → skip ≡ true
  skipped true counter j here first second both = refl
  skipped false counter j here first second both =
      let shown : bytes_eq (response counter) pass1 ≡ true =
        ap₂ bytes_eq (ap response (sym here) ∙ first) refl ∙ bytes_eq_refl pass1 in
      let next : bytes_eq (response (counter + 1)) pass2 ≡ true =
        ap₂ bytes_eq (ap (λ k. response (k + 1)) (sym here) ∙ second) refl ∙ bytes_eq_refl pass2 in
      absurd (differs (sym (ap₂ (λ a b. a && b) shown next) ∙ both))

  behind :
      (skip : Bool) (counter j : ℕ)
      → IsHidden (counter + 1) (shows skip counter) j
      → IsHidden counter skip j
  behind skip counter j (inl (place, shown)) = inr (
    counter,
    place,
    omega arith,
    bytes_eq→eq (response counter) pass1
        (and-parts (not skip) (bytes_eq (response counter) pass1) shown).1,
  )
  behind skip counter j (inr (i, place, low, first)) = inr (i, place, omega (arith, low), first)

  only_behind :
      (counter j : ℕ)
      → IsHidden counter false j
      → (i : ℕ) × (j ≡ i + 1) × (counter ≤ i) × (response i ≡ pass1)
  only_behind counter j (inl (place, skip)) = absurd (differs (sym skip))
  only_behind counter j (inr missed) = missed

  search-none :
      (n counter : ℕ) (skip : Bool) (j : ℕ)
      → search response pass1 pass2 n counter skip ≡ none
      → counter ≤ j
      → j < counter + n
      → response j ≡ pass1
      → response (j + 1) ≡ pass2
      → IsHidden counter skip j
  unfolding search
  search-none zero counter skip j h low high first second = absurd (omega (arith, low, high))
  search-none (suc n) counter skip j h low high first second =
      go (shows skip counter && bytes_eq (response (counter + 1)) pass2) refl h (λ nothing above.
        search-none n (counter + 1) (shows skip counter) j nothing above (omega (arith, high)) first
          second)
    where
      go :
          (c : Bool)
          → (shows skip counter && bytes_eq (response (counter + 1)) pass2) ≡ c
          → (if c
              then some (counter + 1)
              else search response pass1 pass2 n (counter + 1) (shows skip counter))
            ≡ none
          → (search response pass1 pass2 n (counter + 1) (shows skip counter) ≡ none
              → counter + 1 ≤ j
              → IsHidden (counter + 1) (shows skip counter) j)
          → IsHidden counter skip j
      go true both h more = absurd cc
      go false both h more = elim (same_or_above j counter low) [
        | inl here ↦ inl (here, skipped skip counter j here first second both)
        | inr above ↦ behind skip counter j (more h above)
      ]

  -- When the search from the first counter finds nothing, a counter in its range that shows the
  -- first passcode, with the second at the next, stands directly behind another counter of the range
  -- that shows the first passcode: that one was tested, and the next is passed over.
  pub search-missed :
      (n counter j : ℕ)
      → search response pass1 pass2 n counter false ≡ none
      → counter ≤ j
      → j < counter + n
      → response j ≡ pass1
      → response (j + 1) ≡ pass2
      → (i : ℕ) × (j ≡ i + 1) × (counter ≤ i) × (response i ≡ pass1)
  search-missed n counter j h low high first second =
      only_behind counter j (search-none n counter false j h low high first second)

-- The state at a counter: no window data, no failures, no time.
abbrev pub resynced : ℕ → State → State
resynced counter blank = record blank {
  clen = 8;
  challenge = counter_bytes counter;
  csd = [];
  rd = [];
  failcount = 0;
  authtime = 0;
  mincardtime = 0;
}

-- The line that the tool prints is the text that state_unparse() writes of the state at that counter,
-- and a newline.
pub state_line-state_unparse :
    (user : User) (blank : State) (counter : ℕ)
    → state_line user.username counter ≡ state_unparse user (resynced counter blank) ++ b'\n' ∷ []
unfolding state_line state_unparse counter_bytes
state_line-state_unparse user blank counter =
    ap (λ t. b'5' ∷ b':' ∷ t)
      (sym
        (append_assoc user.username (b':' ∷ unparse_fields (resynced counter blank)) (b'\n' ∷ [])))
