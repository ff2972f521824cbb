-- ===== src/Gsmd/Laws.antt =====
-- gsmd.c: the chains look managers up as one list would, and the iteration meets every manager once.
use otpd.Base.{
  ℕ, zero, suc, ◌+◌, ◌-◌, ◌<◌, ◌≤◌, ◌≡◌, refl, ap, ◌∙◌, sym, true, some, List, [], ◌∷◌, ◌++◌, ◌==◌,
  inl, inr, if◌then◌else◌, Bytes, bytes_eq, bytes_eq→eq, Bool-cases, arith, length,
}
use otpd.Uhash.{uhash}
use otpd.Gsmd.{
  Gsmd, Chains, no_chains, gsmd_hash, chain_find, gsmd_get, Cursor, or_chain, next_chain,
  gsmd_first, gsmd_next,
}

-- The chains behind the configuration of a list of managers, the last one first.
abbrev pub configured : List Gsmd → Chains
configured [] = no_chains
configured (gsmd ∷ before) = gsmd_hash gsmd (configured before)

same_bucket :
    (gsmd : Gsmd) (name : Bytes)
    → bytes_eq gsmd.name name ≡ true
    → (uhash name == uhash gsmd.name) ≡ true
same_bucket gsmd name same =
    let named : gsmd.name ≡ name = bytes_eq→eq gsmd.name name same in
    let shared : uhash gsmd.name ≡ uhash name = ap uhash named in ground (arith, shared)

get_hash :
    (name : Bytes) (gsmd : Gsmd) (chains : Chains)
    → gsmd_get name (gsmd_hash gsmd chains)
      ≡ (if bytes_eq gsmd.name name then some gsmd else gsmd_get name chains)
unfolding gsmd_get gsmd_hash chain_find
get_hash name gsmd chains = elim (Bool-cases (bytes_eq gsmd.name name)) [
  | inl same ↦ rw (same_bucket gsmd name same, same) refl
  | inr other ↦ elim (Bool-cases (uhash name == uhash gsmd.name)) [
    | inl shared ↦ rw (shared, other) refl
    | inr apart ↦ rw (apart, other) refl
  ]
]

-- Whatever managers were configured, a lookup by name gives what a search of the one list of all of
-- them gives: the last one configured under the name.
pub gsmd_get-configured :
    (name : Bytes) (gsmds : List Gsmd) → gsmd_get name (configured gsmds) ≡ chain_find name gsmds
unfolding gsmd_get chain_find
gsmd_get-configured name [] = refl
gsmd_get-configured name (gsmd ∷ before) =
    get_hash name gsmd (configured before)
    ∙ ap (λ r. if bytes_eq gsmd.name name then some gsmd else r) (gsmd_get-configured name before)

-- All managers of `n` buckets from `i`.
abbrev pub all_from : Chains → ℕ → ℕ → List Gsmd
all_from chains zero i = []
all_from chains (suc n) i = chains i ++ all_from chains n (i + 1)

-- What an iteration still has to return, the present manager first.
abbrev pub remaining : Chains → Cursor → List Gsmd
remaining chains cursor = cursor.here ++ all_from chains (64 - (cursor.i + 1)) (cursor.i + 1)

-- A cursor is at a manager of a bucket, or past the last bucket.
abbrev IsPlaced : ℕ → List Gsmd → Type 0
IsPlaced i [] = 64 ≤ i
IsPlaced i (_ ∷ _) = i < 64

abbrev Ahead : Chains → List Gsmd → Cursor → Type 0
Ahead chains gsmds cursor = (remaining chains cursor ≡ gsmds) × IsPlaced cursor.i cursor.here

or_chain-Ahead :
    (chains : Chains) (i n : ℕ) (chain : List Gsmd) (rest : Cursor)
    → suc n + i ≡ 64
    → Ahead chains (all_from chains n (i + 1)) rest
    → Ahead chains (chain ++ all_from chains n (i + 1)) (or_chain i chain rest)
or_chain-Ahead chains i n [] rest whole ahead = ahead
or_chain-Ahead chains i n (gsmd ∷ next) rest whole ahead =
    let left : 64 - (i + 1) ≡ n = omega (arith, whole) in
    (ap (λ k. gsmd ∷ next ++ all_from chains k (i + 1)) left, omega (arith, whole))

next_chain-Ahead :
    (chains : Chains) (n i : ℕ)
    → n + i ≡ 64
    → Ahead chains (all_from chains n i) (next_chain chains n i)
unfolding next_chain
next_chain-Ahead chains zero i whole =
    let left : 64 - (i + 1) ≡ 0 = omega (arith, whole) in
    (ap (λ k. all_from chains k (i + 1)) left, omega (arith, whole))
next_chain-Ahead chains (suc n) i whole =
    or_chain-Ahead chains i n (chains i) _ whole
      (next_chain-Ahead chains n (i + 1) (omega (arith, whole)))

gsmd_next-Ahead :
    (chains : Chains) (i : ℕ) (gsmd : Gsmd) (next : List Gsmd)
    → i < 64
    → Ahead chains
        (next ++ all_from chains (64 - (i + 1)) (i + 1))
        (gsmd_next chains (record { i = i; here = gsmd ∷ next }))
unfolding gsmd_next
gsmd_next-Ahead chains i gsmd [] placed =
    next_chain-Ahead chains (64 - (i + 1)) (i + 1) (omega arith)
gsmd_next-Ahead chains i gsmd (following ∷ next) placed = (refl, placed)

-- What `n` rounds of "while the manager is not NULL, take it and call gsmd_next()" take.
unfoldable pub walk : Chains → ℕ → Cursor → List Gsmd
unfolding gsmd_next
walk chains zero cursor = []
walk chains (suc n) cursor =
    let rest = walk chains n (gsmd_next chains cursor) in
    elim cursor.here [ [] ↦ [] | gsmd ∷ _ ↦ gsmd ∷ rest ]

walk-remaining :
    (chains : Chains) (n i : ℕ) (here : List Gsmd)
    → IsPlaced i here
    → length (remaining chains (record { i = i; here = here })) < n
    → walk chains n (record { i = i; here = here })
      ≡ remaining chains (record { i = i; here = here })
unfolding walk
walk-remaining chains zero i here placed enough = absurd (omega (arith, enough))
walk-remaining chains (suc n) i [] placed enough =
    let left : 64 - (i + 1) ≡ 0 = omega (arith, placed) in
    ap (λ k. all_from chains k (i + 1)) (sym left)
walk-remaining chains (suc n) i (gsmd ∷ next) placed enough =
    let step = gsmd_next chains (record { i = i; here = gsmd ∷ next }) in
    let ahead = gsmd_next-Ahead chains i gsmd next placed in
    let shorter : length (remaining chains step)
        ≡ length (next ++ all_from chains (64 - (i + 1)) (i + 1)) =
      ap length ahead.0 in
    ap (λ r. gsmd ∷ r)
      (walk-remaining chains n step.i step.here ahead.1 (omega (arith, shorter, enough)) ∙ ahead.0)

-- An iteration from gsmd_next(NULL) until gsmd_next() returns NULL meets the managers of the 64
-- chains, each once and in order, for every number of rounds that is larger than their number.
pub walk-gsmd_first :
    (chains : Chains) (n : ℕ)
    → length (all_from chains 64 0) < n
    → walk chains n (gsmd_first chains) ≡ all_from chains 64 0
unfolding gsmd_first
walk-gsmd_first chains n enough =
    let start = next_chain-Ahead chains 64 0 refl in
    let whole : length (remaining chains (gsmd_first chains)) ≡ length (all_from chains 64 0) =
      ap length start.0 in
    walk-remaining chains n (gsmd_first chains).i (gsmd_first chains).here start.1
      (omega (arith, whole, enough))
    ∙ start.0
