-- ===== src/Gsmd.antt =====
-- gsmd.c: the state managers, in hash chains by their names.
pub mod Laws
use otpd.Base.{
  ℕ, zero, suc, ◌+◌, ◌-◌, Bool, Option, none, some, List, [], ◌∷◌, ◌==◌, if◌then◌else◌, Bytes,
  bytes_eq,
}
use otpd.Uhash.{uhash}
use otpd.Helix.{Scontext}

-- `gsmd_t` without its addresses and its semaphore; times count nanoseconds.
pub record Gsmd : Type 0 where
  pub name : Bytes
  pub hosts : ℕ
  pub active : ℕ
  pub fo_timeout : ℕ
  pub fb_timeout : ℕ
  pub scontext : Scontext

-- `gsmd_chain[]`: the chain at each bucket, from its head.
abbrev pub Chains : Type 0
Chains = ℕ → List Gsmd

abbrev pub no_chains : Chains
no_chains bucket = []

-- A new manager is the head of its chain.
unfoldable pub gsmd_hash : Gsmd → Chains → Chains
unfolding uhash
gsmd_hash gsmd chains bucket =
    if bucket == uhash gsmd.name then gsmd ∷ chains bucket else chains bucket

-- The walk along a chain.
unfoldable pub chain_find : Bytes → List Gsmd → Option Gsmd
unfolding bytes_eq
chain_find name [] = none
chain_find name (gsmd ∷ next) = if bytes_eq gsmd.name name then some gsmd else chain_find name next

unfoldable pub gsmd_get : Bytes → Chains → Option Gsmd
unfolding chain_find uhash
gsmd_get name chains = chain_find name (chains (uhash name))

-- Where the iteration stands: the static `i`, and the chain from the manager that was returned.
pub record Cursor : Type 0 where
  pub i : ℕ
  pub here : List Gsmd

abbrev pub or_chain : ℕ → List Gsmd → Cursor → Cursor
or_chain i [] rest = rest
or_chain i (gsmd ∷ next) rest = record { i = i; here = gsmd ∷ next }

-- The loop over the buckets from `i` with `n` left, to the first that has a manager.
unfoldable pub next_chain : Chains → ℕ → ℕ → Cursor
next_chain chains zero i = record { i = i; here = [] }
next_chain chains (suc n) i = or_chain i (chains i) (next_chain chains n (i + 1))

-- `gsmd_next(NULL)`.
unfoldable pub gsmd_first : Chains → Cursor
unfolding next_chain
gsmd_first chains = next_chain chains 64 0

-- `gsmd_next(gsmd)`: a cursor with nothing here is a NULL return.
unfoldable pub gsmd_next : Chains → Cursor → Cursor
unfolding next_chain gsmd_first
gsmd_next chains cursor = elim cursor.here [
  | [] ↦ gsmd_first chains
  | _ ∷ [] ↦ next_chain chains (64 - (cursor.i + 1)) (cursor.i + 1)
  | _ ∷ (gsmd ∷ next) ↦ record { i = cursor.i; here = gsmd ∷ next }
]
