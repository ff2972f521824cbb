-- ===== src/Store/Local/Laws.antt =====
-- state.c: what a put saves, the next get of the user fetches.
use otpd.Base.{
  ℕ, ◌<◌, ◌≡◌, refl, ap, ◌∙◌, sym, subst, Bool, true, false, some, [], ◌∷◌, ◌++◌, ◌==◌, length,
  Bytes, bytes_eq_refl, arith,
}
use otpd.Otp.{User, State}
use otpd.Uhash.{uhash}
use otpd.Lock.{Chain, lock_get, lock_put}
use otpd.Store.Text.{◌>>=◌, colon, state_parse, state_unparse, unparse_fields, field}
use otpd.Store.Text.Laws.{IsPrintable, restored, state_parse-state_unparse}
use otpd.Store.File.{Opened, state_read, renamed, state_write}
use otpd.Store.File.Laws.{state_read-state_write}
use otpd.Store.Local.{
  Local, set_chain, got, locked_get, state_get_local, set_file, put_file, state_put_local,
}

-- The text of a state ends with a colon.
abbrev pub EndsInColon : Bytes → Type 0
EndsInColon s = (front : Bytes) × (s ≡ front ++ colon ∷ [])

EndsInColon-append : (s t : Bytes) → EndsInColon t → EndsInColon (s ++ t)
EndsInColon-append [] t h = h
EndsInColon-append (a ∷ s) t h =
    let (front, e) = EndsInColon-append s t h in (a ∷ front, ap (λ r. a ∷ r) e)

EndsInColon-field : (s t : Bytes) → EndsInColon t → EndsInColon (field s t)
EndsInColon-field s t h = EndsInColon-append s (colon ∷ t) (EndsInColon-append (colon ∷ []) t h)

unparse-colon : (user : User) (state : State) → EndsInColon (state_unparse user state)
unfolding state_unparse unparse_fields
unparse-colon user state = EndsInColon-append (b'5' ∷ colon ∷ []) _ (
    EndsInColon-field user.username _ (
      EndsInColon-field _ _ (
        EndsInColon-field state.csd _ (
          EndsInColon-field state.rd _ (
            EndsInColon-field _ _
              (EndsInColon-field _ _ (EndsInColon-append _ (colon ∷ []) ([], refl))))))))

read-written :
    (s : Bytes) (old : Opened)
    → EndsInColon s
    → length s < 892
    → state_read (state_write renamed s old).1 ≡ some (s ++ 0 ∷ [])
read-written s old (front, e) fits =
    subst (λ s. state_read (state_write renamed s old).1 ≡ some (s ++ 0 ∷ [])) (sym e)
      (state_read-state_write front colon old refl (subst (λ s. length s < 892) e fits))

module _ (user : User) (state : State) (store : Local) (a : ℕ) (chain : Chain) where
  -- The file that a successful put leaves is parsed as the state that was put.
  parsed :
      (blank : State) (old : Opened)
      → IsPrintable user state
      → length (state_unparse user state) < 892
      → (state_read (state_write renamed (state_unparse user state) old).1 >>= λ buf.
          state_parse buf user.username blank)
        ≡ some (restored blank state)
  parsed blank old ok fits =
      ap (λ r. r >>= λ buf. state_parse buf user.username blank)
        (read-written (state_unparse user state) old (unparse-colon user state) fits)
      ∙ state_parse-state_unparse user state ok blank

  abbrev bucket : ℕ
  bucket = uhash user.username

  abbrev written : Bool × Opened
  written = state_write renamed (state_unparse user state) (store.file user.username)

  abbrev after : Local
  after = record store {
    file = set_file user.username written.1 store.file;
    chain = set_chain bucket chain store.chain;
  }

  put_file_lem :
      state.updated ≡ true → put_file renamed user state (store.file user.username) ≡ written
  unfolding put_file
  put_file_lem updated = rw updated refl

  put_lem :
      state.updated ≡ true
      → lock_put a (store.chain bucket) ≡ some chain
      → state_put_local renamed user state a store ≡ some (true, after)
  unfolding state_put_local state_write
  put_lem updated put =
      ap
        (λ w. lock_put a (store.chain bucket) >>= λ chain. some (
          w.0,
          record store {
            file = set_file user.username w.1 store.file;
            chain = set_chain bucket chain store.chain;
          },
        ))
        (put_file_lem updated)
      ∙ ap
          (λ c. c >>= λ chain. some (
            true,
            record store {
              file = set_file user.username written.1 store.file;
              chain = set_chain bucket chain store.chain;
            },
          ))
          put

  chain_at : set_chain bucket chain store.chain bucket ≡ chain
  chain_at = let same : (bucket == bucket) ≡ true = ground arith in rw same refl

  file_at : set_file user.username written.1 store.file user.username ≡ written.1
  file_at = rw (bytes_eq_refl user.username) refl

  get_lem :
      (blank : State) (now b : ℕ) (locked : Chain)
      → IsPrintable user state
      → length (state_unparse user state) < 892
      → lock_get user.username now chain ≡ some (some b, locked)
      → state_get_local now user blank after
        ≡ some (
          some (record (restored blank state) { locked = true; updated = false }, b),
          record after { chain = set_chain bucket locked after.chain },
        )
  unfolding state_get_local locked_get got
  get_lem blank now b locked ok fits get =
      let later : Local = record after { chain = set_chain bucket locked after.chain } in
      ap (λ c. lock_get user.username now c >>= locked_get user blank after) chain_at
      ∙ ap (λ r. r >>= locked_get user blank after) get
      ∙ ap (λ f. got bucket b later (state_read f >>= λ buf. state_parse buf user.username blank))
          file_at
      ∙ ap (got bucket b later) (parsed blank (store.file user.username) ok fits)

  -- Where an updated state is put without an error of the file, its lock is released and the next
  -- lock_get() for the user grants a lock, the put succeeds, and the next get fetches the state that
  -- was put, locked and not updated. The fields hold no colon and no NUL and fit their arrays, the
  -- numbers are below 2^32, and the text is shorter than a state file may be.
  pub state_get_local-state_put_local :
      (blank : State) (now b : ℕ) (locked : Chain)
      → IsPrintable user state
      → length (state_unparse user state) < 892
      → state.updated ≡ true
      → lock_put a (store.chain (uhash user.username)) ≡ some chain
      → lock_get user.username now chain ≡ some (some b, locked)
      → (after : Local) × (later : Local) × (state_put_local renamed user state a store
          ≡ some (true, after))
        × (state_get_local now user blank after
            ≡ some
                (some (record (restored blank state) { locked = true; updated = false }, b), later))
  state_get_local-state_put_local blank now b locked ok fits updated put get =
      (after, _, put_lem updated put, get_lem blank now b locked ok fits get)
