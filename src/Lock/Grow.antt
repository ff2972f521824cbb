-- ===== src/Lock/Grow.antt =====
-- lock.c: a lock for a new user at the end of the chain.
use otpd.Base.{ℕ, ◌≡◌, none, some, List, [], ◌∷◌, ◌++◌, length, Bytes}
use otpd.Lock.{Node, Chain, node_at, set_node}

module _ (nodes : List Node) (l : ℕ) (last : Node) (there : node_at nodes l ≡ some last)
    (username : Bytes) (now : ℕ) where
  abbrev new : Node
  new = record { username = some username; ltime = now; prev = some l; next = none }

  abbrev linked : Node
  linked = record last { next = some (length nodes) }

  abbrev grown : List Node
  grown = set_node l linked nodes ++ new ∷ []

abbrev after_new : Chain → ℕ → Node → Bytes → ℕ → Chain
after_new chain l last username now = record chain {
  nodes =
      set_node l (record last { next = some (length chain.nodes) }) chain.nodes
      ++ (record { username = some username; ltime = now; prev = some l; next = none }) ∷ [];
  last = some (length chain.nodes);
}
