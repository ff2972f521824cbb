-- ===== src/Tests/Resyncs.antt =====
-- resynctool.c: the theorems at a token whose response is its counter.
use otpd.Base.{
  ℕ, ◌+◌, ◌≤◌, ◌≡◌, refl, false, ◌==◌, if◌then◌else◌, none, some, [], ◌∷◌, Bytes, arith,
}
use otpd.Resync.{search}
use otpd.Resync.Laws.{IsMatch, search-IsMatch, search-missed}

abbrev own : ℕ → Bytes
own counter = counter ∷ []

found_run : search own (own 3) (own 4) 10 0 false ≡ some 4
unfolding search
found_run = refl

search-IsMatch_example : IsMatch own (own 3) (own 4) 0 10 4
search-IsMatch_example = search-IsMatch own (own 3) (own 4) 10 0 4 false found_run

-- Counters 3 and 4 show the same response, and the pair at 4 is not found.
abbrev twice : ℕ → Bytes
twice counter = if counter == 4 then own 3 else own counter

missed_run : search twice (own 3) (own 5) 10 0 false ≡ none
unfolding search
missed_run = refl

search-missed_example : (i : ℕ) × (4 ≡ i + 1) × (0 ≤ i) × (twice i ≡ own 3)
search-missed_example =
    search-missed twice (own 3) (own 5) 10 0 4 missed_run (omega arith) (omega arith) refl refl
