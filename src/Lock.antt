-- ===== src/Lock.antt =====
-- lock.c: the locks of the users of one hash bucket, a doubly linked chain of nodes. An address is
-- the index of a node, a NULL pointer is `none`, and so is a step that C leaves undefined.
pub mod Laws
pub mod Grow
use otpd.Base.{
  ℕ, zero, suc, ◌+◌, Bool, true, false, Option, none, some, List, [], ◌∷◌, ◌++◌, ◌==◌, leb,
  if◌then◌else◌, length, Bytes, bytes_eq,
}
use otpd.Store.Text.{◌>>=◌}

-- `ulock_t`
pub record Node : Type 0 where
  pub username : Option Bytes
  pub ltime : ℕ
  pub prev : Option ℕ
  pub next : Option ℕ

-- `struct ulock_chain_t`, with the nodes of the chain. The mutex is held by each operation.
pub record Chain : Type 0 where
  pub nodes : List Node
  pub first : ℕ
  pub last : Option ℕ

abbrev pub node_at : List Node → ℕ → Option Node
node_at [] a = none
node_at (node ∷ nodes) zero = some node
node_at (node ∷ nodes) (suc a) = node_at nodes a

abbrev pub set_node : ℕ → Node → List Node → List Node
set_node a node [] = []
set_node zero node (old ∷ nodes) = node ∷ nodes
set_node (suc a) node (old ∷ nodes) = old ∷ set_node a node nodes

-- `lock_init()`: one free node.
abbrev pub lock_init : Chain
lock_init = record {
  nodes = (record { username = none; ltime = 0; prev = none; next = none }) ∷ [];
  first = 0;
  last = none;
}

-- The walk from node `a` to the last held one. A chain that does not reach it within its number of
-- nodes is a loop.
unfoldable pub walk_chain : List Node → Bytes → ℕ → ℕ → ℕ → Option (Bool × Option ℕ)
unfolding bytes_eq
walk_chain nodes username last zero a = none
walk_chain nodes username last (suc n) a = do
  node ← node_at nodes a
  name ← node.username
  if bytes_eq username name
      then some (true, some a)
      else if a == last
      then some (false, node.next)
      else node.next >>= walk_chain nodes username last n

unfoldable pub find_lock : Bytes → Chain → Option (Bool × Option ℕ)
unfolding walk_chain
find_lock username chain = elim chain.last [
  | none ↦ some (false, some chain.first)
  | some last ↦ walk_chain chain.nodes username last (length chain.nodes) chain.first
]

-- 24 seconds in nanoseconds
abbrev pub expiry : ℕ
expiry = 24000000000

-- The block behind find_lock(): the lock that is returned, or `none` for NULL, and the chain.
unfoldable pub take_lock : Bytes → ℕ → Chain → Bool × Option ℕ → Option (Option ℕ × Chain)
take_lock username now chain (true, lock) = do
  a ← lock
  node ← node_at chain.nodes a
  if leb (node.ltime + expiry) now
      then some
          (some a, record chain { nodes = set_node a (record node { ltime = now }) chain.nodes })
      else some (none, chain)
take_lock username now chain (false, some a) = do
  node ← node_at chain.nodes a
  some (
    some a,
    record chain {
      nodes = set_node a (record node { username = some username; ltime = now }) chain.nodes;
      last = some a;
    },
  )
take_lock username now chain (false, none) = do
  l ← chain.last
  last ← node_at chain.nodes l
  let a = length chain.nodes
  let new : Node = record { username = some username; ltime = now; prev = some l; next = none }
  some (
    some a,
    record chain {
      nodes = set_node l (record last { next = some a }) chain.nodes ++ new ∷ [];
      last = some a;
    },
  )

unfoldable pub lock_get : Bytes → ℕ → Chain → Option (Option ℕ × Chain)
unfolding find_lock take_lock
lock_get username now chain = find_lock username chain >>= take_lock username now chain

-- `if (p) p->next = next`, and the same for `prev`.
abbrev pub set_next : Option ℕ → Option ℕ → List Node → Option (List Node)
set_next none next nodes = some nodes
set_next (some p) next nodes =
    node_at nodes p >>= λ node. some (set_node p (record node { next = next }) nodes)

abbrev pub set_prev : Option ℕ → Option ℕ → List Node → Option (List Node)
set_prev none prev nodes = some nodes
set_prev (some p) prev nodes =
    node_at nodes p >>= λ node. some (set_node p (record node { prev = prev }) nodes)

-- The lock is unlinked, and linked again behind the last held one.
unfoldable pub relink : ℕ → Node → ℕ → List Node → Option (List Node)
relink a lock l nodes = do
  nodes₁ ← set_next lock.prev lock.next nodes
  nodes₂ ← set_prev lock.next lock.prev nodes₁
  last ← node_at nodes₂ l
  freed ← node_at nodes₂ a
  let nodes₃ = set_node a (record freed { next = last.next; prev = some l }) nodes₂
  after ← last.next
  nodes₄ ← set_prev (some after) (some a) nodes₃
  set_next (some l) (some a) nodes₄

unfoldable pub lock_put : ℕ → Chain → Option Chain
unfolding relink
lock_put a chain = do
  lock ← node_at chain.nodes a
  name ← lock.username
  let nodes = set_node a (record lock { username = none }) chain.nodes
  l ← chain.last
  if l == a
      then some (record chain { nodes = nodes; last = lock.prev })
      else relink a lock l nodes >>= λ nodes'. some (record chain { nodes = nodes' })
