-- ===== src/Tests/Locks.antt =====
-- lock.c: the theorems at concrete inputs.
use otpd.Base.{ℕ, ◌≡◌, refl, true, false, none, some, [], ◌∷◌, arith, Bytes, bytes_eq}
use otpd.Store.Text.{◌>>=◌}
use otpd.Lock.{Node, Chain, lock_init, lock_get, lock_put}
use otpd.Lock.Laws.{
  HasLock, IsChain, at_last, before, is_held, answer, lock_get-held, lock_put-first,
}

abbrev joe : Bytes
joe = b'j' ∷ b'o' ∷ b'e' ∷ []

abbrev eoj : Bytes
eoj = b'e' ∷ b'o' ∷ b'j' ∷ []

-- Both names are in one bucket; the first node is joe's and the second eoj's.
abbrev joes : Node
joes = record { username = some joe; ltime = 5; prev = none; next = some 1 }

abbrev eojs : Node
eojs = record { username = some eoj; ltime = 7; prev = some 0; next = none }

abbrev chain : Chain
chain = record { nodes = joes ∷ eojs ∷ []; first = 0; last = some 1 }

chain_run : (lock_get joe 5 lock_init >>= λ a. lock_get eoj 7 a.1) ≡ some (some 1, chain)
unfolding lock_get
chain_run = refl

well_formed : IsChain chain (joe ∷ eoj ∷ [])
well_formed = record {
  l = 1;
  last = refl;
  held = before 0 1 joes joe (eoj ∷ []) refl refl refl refl (at_last eojs eoj refl refl);
  size = omega arith;
}

member : is_held eoj (joe ∷ eoj ∷ []) ≡ true
unfolding bytes_eq
member = refl

lock_get-held_example :
    (a : ℕ) × (lock : HasLock chain.nodes eoj a) × (lock_get eoj 9 chain
      ≡ some (answer 9 chain lock.node a))
lock_get-held_example = lock_get-held eoj 9 chain (joe ∷ eoj ∷ []) well_formed member

different : bytes_eq eoj joe ≡ false
unfolding bytes_eq
different = refl

lock_put-first_example :
    (lock_get joe 5 lock_init >>= λ a. lock_get eoj 7 a.1 >>= λ b. lock_put 0 b.1) ≡ none
lock_put-first_example = lock_put-first joe eoj 5 7 different

-- The chain with joe's lock only.
abbrev one : Chain
one = record { nodes = (record joes { next = none }) ∷ []; first = 0; last = some 0 }
