-- ===== src/Store/Local.antt =====
-- state.c, state_get_local() and state_put_local(): the state of a user in a file, under the user's
-- lock.
pub mod Laws
use otpd.Base.{ℕ, Bool, true, false, Option, none, some, ◌==◌, if◌then◌else◌, Bytes, bytes_eq}
use otpd.Otp.{User, State}
use otpd.Uhash.{uhash}
use otpd.Lock.{Chain, lock_get, lock_put}
use otpd.Store.Text.{◌>>=◌, state_parse, state_unparse}
use otpd.Store.File.{Opened, state_read, Written, state_write}

-- The files by the users' names, and the chains of locks by their buckets.
pub record Local : Type 0 where
  pub file : Bytes → Opened
  pub chain : ℕ → Chain

abbrev pub set_chain : ℕ → Chain → (ℕ → Chain) → ℕ → Chain
set_chain bucket chain chains b = if b == bucket then chain else chains b

-- Behind the read and the parse, with the lock `a` held. A failure releases the lock.
unfoldable pub got : ℕ → ℕ → Local → Option State → Option (Option (State × ℕ) × Local)
unfolding lock_put
got bucket a store none = lock_put a (store.chain bucket) >>= λ chain.
    some (none, record store { chain = set_chain bucket chain store.chain })
got bucket a store (some state) =
    some (some (record state { locked = true; updated = false }, a), store)

-- Behind lock_get(): no lock is an authentication in progress.
unfoldable pub locked_get :
    User → State → Local → Option ℕ × Chain → Option (Option (State × ℕ) × Local)
unfolding state_read state_parse got uhash
locked_get user state store (none, chain) =
    some (none, record store { chain = set_chain (uhash user.username) chain store.chain })
locked_get user state store (some a, chain) =
    got (uhash user.username) a
      (record store { chain = set_chain (uhash user.username) chain store.chain })
      (state_read (store.file user.username) >>= λ buf. state_parse buf user.username state)

-- The state with the lock that it holds, or `none` inside for -1; the outer `none` is undefined.
unfoldable pub state_get_local : ℕ → User → State → Local → Option (Option (State × ℕ) × Local)
unfolding locked_get lock_get
state_get_local now user state store =
    lock_get user.username now (store.chain (uhash user.username)) >>= locked_get user state store

abbrev pub set_file : Bytes → Opened → (Bytes → Opened) → Bytes → Opened
set_file username opened file name = if bytes_eq username name then opened else file name

-- The write of a state that was updated, and what the file then holds.
unfoldable pub put_file : Written → User → State → Opened → Bool × Opened
unfolding state_write state_unparse
put_file outcome user state old =
    if state.updated then state_write outcome (state_unparse user state) old else (true, old)

-- The result, `false` for -1, with the lock `a` released in any case.
unfoldable pub state_put_local : Written → User → State → ℕ → Local → Option (Bool × Local)
unfolding put_file lock_put uhash
state_put_local outcome user state a store =
    let bucket = uhash user.username in
    let (done, opened) = put_file outcome user state (store.file user.username) in
    lock_put a (store.chain bucket) >>= λ chain. some (
      done,
      record store {
        file = set_file user.username opened store.file;
        chain = set_chain bucket chain store.chain;
      },
    )
