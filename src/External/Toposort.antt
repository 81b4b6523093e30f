-- ===== src/External/Toposort.antt =====
-- `petgraph::algo::toposort` on a graph of numbered nodes, with what its documentation says of the
-- answer for one graph. The nodes and the edges, each from its source to its target, are lists.
use service_daemon_rs.Prelude.{ℕ, ◌<◌, ◌≡◌, List, Result, ok, err}
use service_daemon_rs.Prelude.Sets.{count, position}
use mathlib.Core.List.{Memᴰ}

-- `Ok` of an order of the nodes, or `Err` of a node.
abbrev pub Toposort : Type 0
Toposort = List ℕ → List (ℕ × ℕ) → Result (List ℕ) ℕ

-- A walk over at least one edge.
pub data Walk (edges : List (ℕ × ℕ)) : ℕ → ℕ → Type 0 where
  edge : {a b : ℕ} → Memᴰ (a, b) edges → Walk edges a b
  more : {a b c : ℕ} → Memᴰ (a, b) edges → Walk edges b c → Walk edges a c

-- An order has each node once and the source of each edge before its target; the node of an error
-- lies on a cycle.
pub record IsSorting (toposort : Toposort) (nodes : List ℕ) (edges : List (ℕ × ℕ)) : Type 0 where
  pub ordered_nodes :
      {order : List ℕ} → toposort nodes edges ≡ ok order → (n : ℕ) → count n order ≡ count n nodes
  pub ordered_edges :
      {order : List ℕ}
      → toposort nodes edges ≡ ok order
      → {a b : ℕ} → Memᴰ (a, b) edges
      → position a order < position b order
  pub cyclic : {n : ℕ} → toposort nodes edges ≡ err n → Walk edges n n
