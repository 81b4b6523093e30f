-- ===== src/ProviderGraph/Eager/Edges.antt =====
-- The graph has an edge from each dependency that has a node to its provider.
use mathlib.Core.List.{Memᴰ}
use mathlib.Core.List.Memᴰ
use service_daemon_rs.Prelude.{
  ℕ, ◌≡◌, ap, sym, ◌∙◌, ◌==◌, true, List, [], ◌∷◌, ◌++◌, arith, Bool-cases, inl, inr,
}
use service_daemon_rs.Prelude.Sets.{contains}
use service_daemon_rs.ProviderGraph.{
  ServiceParam, ProviderEntry, ids, dependencies, has_node, edges_to, graph_edges,
}

append_left {ℓ} : {A : Type ℓ} {x : A} (xs ys : List A) → Memᴰ x xs → Memᴰ x (xs ++ ys)
append_left [] ys m = absurd (Memᴰ.not-nil m)
append_left (y ∷ xs) ys (Memᴰ.head e) = Memᴰ.head e
append_left (y ∷ xs) ys (Memᴰ.tail m) = Memᴰ.tail (append_left xs ys m)

append_right {ℓ} : {A : Type ℓ} {x : A} (xs ys : List A) → Memᴰ x ys → Memᴰ x (xs ++ ys)
append_right [] ys m = m
append_right (x ∷ xs) ys m = Memᴰ.tail (append_right xs ys m)

module _ (entries : List ProviderEntry) (reachable : List ℕ) where
  edges_to-mem :
      (v d : ℕ) (params : List ServiceParam)
      → contains d (ids params) ≡ true
      → has_node entries reachable d ≡ true
      → Memᴰ (d, v) (edges_to entries reachable v params)
  unfolding edges_to
  edges_to-mem v d [] h n = cc
  edges_to-mem v d (p ∷ params) h n = elim (Bool-cases (p.type_id == d)) [
    | inl e ↦
        let same : p.type_id ≡ d = ground (arith, e) in
        let has : has_node entries reachable p.type_id ≡ true =
          ap (has_node entries reachable) same ∙ n in
        rw has (Memᴰ.head (ap (λ x. (x, v)) (sym same)))
    | inr e ↦
        let later = edges_to-mem v d params (ground (arith, e, h)) n in
        elim (Bool-cases (has_node entries reachable p.type_id)) [
          | inl has ↦ rw has (Memᴰ.tail later)
          | inr not_has ↦ rw not_has later
        ]
  ]

  pub graph_edges-mem :
      (rest : List ProviderEntry) (v d : ℕ)
      → contains v reachable ≡ true
      → contains d (dependencies rest v) ≡ true
      → has_node entries reachable d ≡ true
      → Memᴰ (d, v) (graph_edges entries reachable rest)
  unfolding graph_edges
  graph_edges-mem [] v d r h n = cc
  graph_edges-mem (e ∷ rest) v d r h n = elim (Bool-cases (e.type_id == v)) [
    | inl k ↦
        let same : e.type_id ≡ v = ground (arith, k) in
        let own = edges_to-mem v d e.params (ground (arith, k, h)) n in
        rw (same, r) (append_left (edges_to entries reachable v e.params) _ own)
    | inr k ↦
        let later = graph_edges-mem rest v d r (ground (arith, k, h)) n in
        elim (Bool-cases (contains e.type_id reachable)) [
          | inl has ↦ rw has (append_right (edges_to entries reachable e.type_id e.params) _ later)
          | inr not_has ↦ rw not_has later
        ]
  ]
