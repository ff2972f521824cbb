-- ===== src/Store/File/Laws.antt =====
-- state.c: a text that is written to a file is read from it.
use otpd.Base.{
  ℕ, ◌<◌, ◌≡◌, refl, ap, false, some, [], ◌∷◌, ◌++◌, ◌==◌, ltb, length, Bytes, arith, length-append,
}
use otpd.Store.File.{Opened, nul_ended, state_read, line_ended, renamed, state_write}

line_ended-snoc :
    (s : Bytes) (c : ℕ) → (c == 10) ≡ false → line_ended (s ++ c ∷ []) ≡ s ++ c ∷ 10 ∷ []
unfolding line_ended
line_ended-snoc [] c h = rw h refl
line_ended-snoc (a ∷ []) c h = rw h refl
line_ended-snoc (a ∷ b ∷ s) c h = ap (λ r. a ∷ r) (line_ended-snoc (b ∷ s) c h)

nul_ended-line : (s : Bytes) (c : ℕ) → nul_ended (s ++ c ∷ 10 ∷ []) ≡ s ++ c ∷ 0 ∷ []
unfolding nul_ended
nul_ended-line [] c = refl
nul_ended-line (a ∷ []) c = refl
nul_ended-line (a ∷ b ∷ s) c = ap (λ r. a ∷ r) (nul_ended-line (b ∷ s) c)

snoc-append : (s : Bytes) (c d : ℕ) → s ++ c ∷ d ∷ [] ≡ (s ++ c ∷ []) ++ d ∷ []
snoc-append [] c d = refl
snoc-append (a ∷ s) c d = ap (λ r. a ∷ r) (snoc-append s c d)

-- A text that does not end with a newline and has at most 891 characters is read back from the file
-- that it was written to, with a NUL at its end.
pub state_read-state_write :
    (s : Bytes) (c : ℕ) (old : Opened)
    → (c == 10) ≡ false
    → length (s ++ c ∷ []) < 892
    → state_read (state_write renamed (s ++ c ∷ []) old).1 ≡ some ((s ++ c ∷ []) ++ 0 ∷ [])
unfolding state_read state_write
state_read-state_write s c old h fits =
    let small : ltb 892 (length (s ++ c ∷ 10 ∷ [])) ≡ false =
      ground (arith, fits, length-append s (c ∷ []), length-append s (c ∷ 10 ∷ [])) in
    rw (line_ended-snoc s c h, small, nul_ended-line s c) (ap some (snoc-append s c 0))
