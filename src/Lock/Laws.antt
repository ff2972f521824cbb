-- ===== src/Lock/Laws.antt =====
-- lock.c: a held lock is found and refused until it expires, and what a release out of order does.
use otpd.Base.{
  ℕ, zero, suc, ◌+◌, ◌≤◌, ◌≡◌, refl, ap, ◌∙◌, sym, subst, Bool, true, false, ◌||◌, Option, none,
  some, List, [], ◌∷◌, ◌==◌, leb, inl, inr, if◌then◌else◌, length, Bytes, bytes_eq, bytes_eq→eq,
  Bool-cases, arith,
}
use otpd.Store.Text.{◌>>=◌}
use otpd.Lock.{
  Node, Chain, node_at, set_node, lock_init, walk_chain, find_lock, expiry, take_lock, lock_get,
  relink, lock_put,
}

-- From node `a` to the last held one the nodes hold these names.
pub data Held (nodes : List Node) (last : ℕ) : ℕ → List Bytes → Type 0 where
  at_last :
      (node : Node) (name : Bytes)
      → node_at nodes last ≡ some node
      → node.username ≡ some name
      → Held nodes last last (name ∷ [])
  before :
      (a b : ℕ) (node : Node) (name : Bytes) (names : List Bytes)
      → node_at nodes a ≡ some node
      → node.username ≡ some name
      → (a == last) ≡ false
      → node.next ≡ some b
      → Held nodes last b names
      → Held nodes last a (name ∷ names)

-- A node of a user, and when it was locked.
pub record HasLock (nodes : List Node) (username : Bytes) (a : ℕ) : Type 0 where
  pub node : Node
  pub there : node_at nodes a ≡ some node
  pub named : node.username ≡ some username

abbrev pub is_held : Bytes → List Bytes → Bool
is_held username [] = false
is_held username (name ∷ names) = bytes_eq username name || is_held username names

-- What the walk finds: the user's node, or the pointer behind the last held node.
abbrev pub Found : List Node → Bytes → Bool → Option (Bool × Option ℕ) → Type 0
Found nodes username true r = (a : ℕ) × (r ≡ some (true, some a)) × HasLock nodes username a
Found nodes username false r = (after : Option ℕ) × (r ≡ some (false, after))

HasLock-named :
    (nodes : List Node) (username name : Bytes) (a : ℕ) (node : Node)
    → bytes_eq username name ≡ true
    → node_at nodes a ≡ some node
    → node.username ≡ some name
    → HasLock nodes username a
HasLock-named nodes username name a node same there named = record {
  node = node;
  there = there;
  named = named ∙ ap some (sym (bytes_eq→eq username name same));
}

walk_chain-Found :
    (nodes : List Node) (username : Bytes) (last a n : ℕ) (names : List Bytes)
    → Held nodes last a names
    → length names ≤ n
    → Found nodes username (is_held username names) (walk_chain nodes username last n a)
unfolding walk_chain
walk_chain-Found nodes username last a zero names (at_last node name there named) fuel =
    absurd (omega (arith, fuel))
walk_chain-Found nodes username last a zero names
      (before a' b node name names' there named ne link held) fuel =
    absurd (omega (arith, fuel))
walk_chain-Found nodes username last a (suc n) names (at_last node name there named) fuel =
    elim (Bool-cases (bytes_eq username name)) [
      | inl same ↦
          rw (there, named, same)
            (last, refl, HasLock-named nodes username name last node same there named)
      | inr other ↦
          let here : (last == last) ≡ true = ground arith in
          rw (there, named, other, here) (node.next, refl)
    ]
walk_chain-Found nodes username last a (suc n) names
      (before a' b node name names' there named ne link held) fuel =
    elim (Bool-cases (bytes_eq username name)) [
      | inl same ↦
          rw (there, named, same)
            (a', refl, HasLock-named nodes username name a' node same there named)
      | inr other ↦
          rw (there, named, other, ne, link)
            (walk_chain-Found nodes username last b n names' held (omega (arith, fuel)))
    ]

-- The chain's held locks are those of these users, and no more than it has nodes.
pub record IsChain (chain : Chain) (names : List Bytes) : Type 0 where
  pub l : ℕ
  pub last : chain.last ≡ some l
  pub held : Held chain.nodes l chain.first names
  pub size : length names ≤ length chain.nodes

-- What lock_get() does with the lock that is held: it is broken when it is expired, and otherwise
-- refused.
abbrev pub answer : ℕ → Chain → Node → ℕ → Option ℕ × Chain
answer now chain node a =
    if leb (node.ltime + expiry) now
    then (some a, record chain { nodes = set_node a (record node { ltime = now }) chain.nodes })
    else (none, chain)

answer_lem :
    (username : Bytes) (now : ℕ) (chain : Chain) (a : ℕ) (node : Node)
    → node_at chain.nodes a ≡ some node
    → take_lock username now chain (true, some a) ≡ some (answer now chain node a)
unfolding take_lock
answer_lem username now chain a node there = elim (Bool-cases (leb (node.ltime + expiry) now)) [
  | inl stale ↦ rw (there, stale) refl
  | inr fresh ↦ rw (there, fresh) refl
]

find_lock-walk :
    (username : Bytes) (chain : Chain) (l : ℕ)
    → chain.last ≡ some l
    → find_lock username chain ≡ walk_chain chain.nodes username l (length chain.nodes) chain.first
unfolding find_lock
find_lock-walk username chain l last = rw last refl

-- For a user whose lock is held in a well-formed chain, lock_get() finds the user's node; it refuses
-- the request and leaves the chain alone until 24 seconds after the node was locked, and from then on
-- grants the same node with the new time.
pub lock_get-held :
    (username : Bytes) (now : ℕ) (chain : Chain) (names : List Bytes)
    → IsChain chain names
    → is_held username names ≡ true
    → (a : ℕ) × (lock : HasLock chain.nodes username a) × (lock_get username now chain
        ≡ some (answer now chain lock.node a))
unfolding lock_get
lock_get-held username now chain names ok member =
    let walked =
      walk_chain-Found chain.nodes username ok.l chain.first (length chain.nodes) names ok.held
        ok.size in
    let (a, e, lock) =
      subst
        (λ b.
          Found chain.nodes username b
            (walk_chain chain.nodes username ok.l (length chain.nodes) chain.first))
        member walked in
    (
      a,
      lock,
      ap (λ r. r >>= take_lock username now chain) (find_lock-walk username chain ok.l ok.last ∙ e)
          ∙ answer_lem username now chain a lock.node lock.there,
    )

-- In a new chain, when one user locks, then another one, and the first lock is released while the
-- second is held, lock_put() comes to a step that C leaves undefined: it follows a NULL pointer.
pub lock_put-first :
    (username other : Bytes) (now later : ℕ)
    → bytes_eq other username ≡ false
    → (lock_get username now lock_init >>= λ a. lock_get other later a.1 >>= λ b. lock_put 0 b.1)
      ≡ none
unfolding lock_get find_lock take_lock lock_put relink walk_chain
lock_put-first username other now later apart = rw apart refl
