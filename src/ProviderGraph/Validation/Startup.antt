-- ===== src/ProviderGraph/Validation/Startup.antt =====
-- What `validate_dependency_graph` spares `eager_init_reachable_providers`.
use mathlib.Core.List.{Memᴰ}
use mathlib.Core.List.Memᴰ
use service_daemon_rs.External.Toposort.{Toposort, IsSorting, Walk, edge, more}
use service_daemon_rs.Prelude.{
  refl, ℕ, ◌<◌, ◌≡◌, ◌≢◌, ap, true, List, [], ◌∷◌, ◌++◌, All, arith, ◌⊎◌, inl, inr, Bool-cases,
  cons_cases, Result-cases, ok, err, map_or, length, some,
}
use service_daemon_rs.Prelude.Sets.{contains, position}
use service_daemon_rs.ProviderInit.{ProviderInitError}
use service_daemon_rs.ProviderInit.Boundary.{TaskContext}
use service_daemon_rs.ProviderGraph.{
  eager_targets, ServiceParam, ProviderEntry, ServiceNode, ids, edges_to, graph_edges, graph_nodes,
  providers_by_id, has_node, Search, collect_reachable, eager_targets,
}
use service_daemon_rs.ProviderGraph.Eager.{
  EagerInit, Initialiser, eager_init, eager_init_reachable_providers, fresh, is_empty,
}
use service_daemon_rs.ProviderGraph.Eager.Calls.{Willing, init_in_order-ok}
use service_daemon_rs.ProviderGraph.Eager.Order.{eager_init_empty, eager_init_sorted, targets_have}
use service_daemon_rs.ProviderGraph.Eager.Initialised.{eager_init_returns}
use service_daemon_rs.ProviderGraph.Validation.{
  DependencyGraph, type_index, dependency_graph, indices, validate_dependency_graph, cycle_error,
}
use service_daemon_rs.ProviderGraph.Validation.Links.{
  Linked, AreLinked, dependency_graph-AreLinked, providers_by_id-All,
}

append_cases : (x : ℕ × ℕ) (xs ys : List (ℕ × ℕ)) → Memᴰ x (xs ++ ys) → Memᴰ x xs ⊎ Memᴰ x ys
append_cases x [] ys m = inr m
append_cases x (y ∷ xs) ys (Memᴰ.head e) = inl (Memᴰ.head e)
append_cases x (y ∷ xs) ys (Memᴰ.tail m) = elim (append_cases x xs ys m) [
  | inl l ↦ inl (Memᴰ.tail l)
  | inr r ↦ inr r
]

module _ (entries : List ProviderEntry) (reachable : List ℕ) where
  -- An edge of the second graph comes from a parameter of its provider.
  edges_to_inv :
      (v a b : ℕ) (params : List ServiceParam)
      → Memᴰ (a, b) (edges_to entries reachable v params)
      → (b ≡ v) × (contains a (ids params) ≡ true)
  unfolding edges_to
  edges_to_inv v a b [] m = absurd (Memᴰ.not-nil m)
  edges_to_inv v a b (p ∷ params) m = elim (Bool-cases (has_node entries reachable p.type_id)) [
    | inl has ↦ elim (cons_cases (a, b) (p.type_id, v) _ (rw has at m)) [
      | inl e ↦
          let same : a ≡ p.type_id = ap (λ x. x.0) e in (ap (λ x. x.1) e, ground (arith, same))
      | inr later ↦
          let (target, asked) = edges_to_inv v a b params later in (target, ground (arith, asked))
    ]
    | inr not_has ↦
        let (target, asked) = edges_to_inv v a b params (rw not_has at m) in
        (target, ground (arith, asked))
  ]

  edges-Linked :
      (g : DependencyGraph) (rest : List ProviderEntry) (a b : ℕ)
      → All (AreLinked g) rest
      → Memᴰ (a, b) (graph_edges entries reachable rest)
      → Linked g b a
  unfolding graph_edges
  edges-Linked g [] a b h m = absurd (Memᴰ.not-nil m)
  edges-Linked g (e ∷ rest) a b h m = elim (Bool-cases (contains e.type_id reachable)) [
    | inl has ↦
        elim (append_cases (a, b) (edges_to entries reachable e.type_id e.params) _ (rw has at m)) [
          | inl own ↦
              let (target, asked) = edges_to_inv e.type_id a b e.params own in
              rw target (h.0 a asked)
          | inr later ↦ edges-Linked g rest a b h.1 later
        ]
    | inr not_has ↦ edges-Linked g rest a b h.1 (rw not_has at m)
  ]

-- The place of a type's node in an order of the graph.
abbrev rank : DependencyGraph → List ℕ → ℕ → ℕ
rank g order v = map_or (type_index v g.type_nodes) 0 λ index. position index order

module _ (toposort : Toposort) (g : DependencyGraph) (order : List ℕ)
    (sorting : IsSorting toposort (indices (length g.labels)) g.edges)
    (sorted : toposort (indices (length g.labels)) g.edges ≡ ok order) where
  rank_lt : (v d : ℕ) → Linked g v d → rank g order v < rank g order d
  rank_lt v d l = rw (l.from_index, l.to_index) (sorting.ordered_edges sorted l.edge)

  -- Along a walk from a dependency to what depends on it the rank falls.
  rank-Walk :
      (edges : List (ℕ × ℕ))
      → ((a b : ℕ) → Memᴰ {A = ℕ × ℕ} (a, b) edges → Linked g b a)
      → {a b : ℕ} → Walk edges a b
      → rank g order b < rank g order a
  rank-Walk edges l (edge {a} {b} m) = rank_lt b a (l a b m)
  rank-Walk edges l (more {a} {b} {c} m w) =
      omega (arith, rank_lt b a (l a b m), rank-Walk edges l w)

module _ (to_string : ProviderInitError → List ℕ) (describe : List ℕ → List (List ℕ) → List ℕ)
    (toposort : Toposort) where
  -- A validation that passes has an order.
  validated :
      (services : List ServiceNode) (registry : List ProviderEntry) (task : TaskContext)
      → (validate_dependency_graph to_string describe toposort services registry task).1 ≡ ok tt
      → (order : List ℕ) × (toposort
            (indices (length (dependency_graph services registry).labels))
            (dependency_graph services registry).edges
          ≡ ok order)
  unfolding validate_dependency_graph cycle_error
  validated services registry task h =
      let g = dependency_graph services registry in
      elim (Result-cases (toposort (indices (length g.labels)) g.edges)) [
        | inl found ↦ found
        | inr (node, cyclic) ↦ absurd (ground (arith, h, cyclic))
      ]

  -- After a validation that passes, the sort of the graph of the eager providers finds no cycle.
  pub eager_graph_acyclic :
      (services : List ServiceNode) (registry : List ProviderEntry) (task : TaskContext)
      (reachable : List ℕ)
      → IsSorting toposort
          (indices (length (dependency_graph services registry).labels))
          (dependency_graph services registry).edges
      → IsSorting toposort
          (graph_nodes (providers_by_id registry) reachable)
          (graph_edges (providers_by_id registry) reachable (providers_by_id registry))
      → (validate_dependency_graph to_string describe toposort services registry task).1 ≡ ok tt
      → (node : ℕ)
      → toposort
          (graph_nodes (providers_by_id registry) reachable)
          (graph_edges (providers_by_id registry) reachable (providers_by_id registry))
        ≢ err node
  eager_graph_acyclic services registry task reachable whole eager h node cyclic =
      let entries = providers_by_id registry in
      let g = dependency_graph services registry in
      let (order, sorted) = validated services registry task h in
      let linked =
        providers_by_id-All (AreLinked g) registry (dependency_graph-AreLinked services registry) in
      let falls : rank g order node < rank g order node =
        rank-Walk toposort g order whole sorted (graph_edges entries reachable entries)
          (λ a b. edges-Linked entries reachable g entries a b linked) (eager.cyclic cyclic) in
      omega (arith, falls)

-- Started after a validation that passes, over the same services and the same registry, and with
-- initialisers that all succeed, the initialisation returns and succeeds: neither a cycle nor a
-- missing provider can stop it. The sorts of the two graphs are taken at their documentation.
pub validated_startup_succeeds :
    (to_string : ProviderInitError → List ℕ) (describe : List ℕ → List (List ℕ) → List ℕ)
    (init : Initialiser) (toposort : Toposort) (services : List ServiceNode)
    (registry : List ProviderEntry) (task : TaskContext) (s : Search)
    → collect_reachable (providers_by_id registry) services ≡ some s
    → IsSorting toposort
        (indices (length (dependency_graph services registry).labels))
        (dependency_graph services registry).edges
    → IsSorting toposort
        (graph_nodes (providers_by_id registry) s.reachable)
        (graph_edges (providers_by_id registry) s.reachable (providers_by_id registry))
    → (validate_dependency_graph to_string describe toposort services registry task).1 ≡ ok tt
    → Willing init
    → (e : EagerInit) × (eager_init_reachable_providers to_string init toposort registry services
          task
        ≡ some e)
      × (e.result ≡ ok tt)
validated_startup_succeeds to_string describe init toposort services registry task s found whole
      eager h w =
    let entries = providers_by_id registry in
    let nodes = graph_nodes entries s.reachable in
    let edges = graph_edges entries s.reachable entries in
    (
      eager_init to_string init toposort entries task s.reachable,
      eager_init_returns to_string init toposort registry services task s found,
      elim (Bool-cases (is_empty (eager_targets entries s.reachable))) [
        | inl none_eager ↦
            ap (λ r. r.result)
              (eager_init_empty to_string init toposort entries s.reachable eager task none_eager)
        | inr some_eager ↦ elim (Result-cases (toposort nodes edges)) [
          | inl (order, sorted) ↦
              rw
                (eager_init_sorted to_string init toposort entries s.reachable eager task order
                  some_eager sorted)
                (init_in_order-ok to_string init toposort entries
                  (eager_targets entries s.reachable) order (fresh task)
                  (targets_have to_string init toposort entries s.reachable eager) w refl)
          | inr (node, cyclic) ↦ absurd (
              eager_graph_acyclic to_string describe toposort services registry task s.reachable
                whole eager h node cyclic)
        ]
      ],
    )
