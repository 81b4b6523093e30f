-- ===== src/ProviderGraph/Eager/Initialised.antt =====
-- Which providers `eager_init_reachable_providers` initialises, how often and in which order.
use mathlib.Core.Path.{subst}
use service_daemon_rs.External.Toposort.{Toposort, IsSorting}
use service_daemon_rs.Prelude.{ℕ, ◌≤◌, ◌<◌, ◌≡◌, true, some, List, arith, ok}
use service_daemon_rs.Prelude.Sets.{contains, count, contains_iff_count, position}
use service_daemon_rs.ProviderInit.{ProviderInitError}
use service_daemon_rs.ProviderInit.Boundary.{TaskContext}
use service_daemon_rs.ProviderGraph.{
  ProviderEntry, ServiceNode, Search, is_eager, graph_nodes, graph_edges, dependencies,
  collect_reachable, providers_by_id,
}
use service_daemon_rs.ProviderGraph.Reachable.{Reach, through}
use service_daemon_rs.ProviderGraph.Reachable.Correct.{collect_correct, collect_terminates}
use service_daemon_rs.ProviderGraph.Eager.{
  EagerInit, Initialiser, eager_init, eager_init_reachable_providers,
}
use service_daemon_rs.ProviderGraph.Eager.Order.{Follows, eager_init-Follows}

module _ (to_string : ProviderInitError → List ℕ) (init : Initialiser) (toposort : Toposort)
    (registry : List ProviderEntry) (services : List ServiceNode) (task : TaskContext) where
  -- Is a type reached, and is its provider eager?
  abbrev pub IsDue : ℕ → Type 0
  IsDue v =
      Reach (providers_by_id registry) services v × (is_eager (providers_by_id registry) v ≡ true)

  pub eager_init_returns :
      (s : Search)
      → collect_reachable (providers_by_id registry) services ≡ some s
      → eager_init_reachable_providers to_string init toposort registry services task
        ≡ some (eager_init to_string init toposort (providers_by_id registry) task s.reachable)
  unfolding eager_init_reachable_providers
  eager_init_returns s h = ground (arith, h)

  -- The call returns, whatever the registry, the services, the order of the graph and the
  -- initialisers are: the search, with one round for each parameter in sight, ends.
  pub eager_init_terminates :
      (e : EagerInit) × (eager_init_reachable_providers to_string init toposort registry services
          task
        ≡ some e)
  eager_init_terminates =
      let (s, found) = collect_terminates (providers_by_id registry) services in
      (
        eager_init to_string init toposort (providers_by_id registry) task s.reachable,
        eager_init_returns s found,
      )

  module _ (s : Search) (found : collect_reachable (providers_by_id registry) services ≡ some s)
      (sorting : IsSorting toposort
        (graph_nodes (providers_by_id registry) s.reachable)
        (graph_edges (providers_by_id registry) s.reachable (providers_by_id registry))) where
    follows :
        (e : EagerInit)
        → eager_init_reachable_providers to_string init toposort registry services task ≡ some e
        → Follows to_string init toposort (providers_by_id registry) s.reachable sorting e
    follows e h =
        let same : eager_init to_string init toposort (providers_by_id registry) task s.reachable
            ≡ e =
          ground (arith, eager_init_returns s found, h) in
        subst (Follows to_string init toposort (providers_by_id registry) s.reachable sorting) same
          (eager_init-Follows to_string init toposort (providers_by_id registry) s.reachable sorting
            task)

    -- Whatever the initialisers do, only eager providers of types that the services need, directly or
    -- over other providers, are initialised, and none of them twice; and when the pass succeeds, all
    -- of them have been.
    pub eager_init_once :
        (e : EagerInit)
        → eager_init_reachable_providers to_string init toposort registry services task ≡ some e
        → (v : ℕ)
        → (count v e.calls ≤ 1)
          × (contains v e.calls ≡ true → IsDue v)
          × (e.result ≡ ok tt → IsDue v → contains v e.calls ≡ true)
    eager_init_once e h v =
        let f = follows e h in
        let (reached, once) = collect_correct (providers_by_id registry) services s found v in
        let called_iff = contains_iff_count v e.calls in
        let reached_iff = contains_iff_count v s.reachable in
        (
          ground (arith, f.made_of v, once),
          λ called. (
            reached.0 (ground (arith, f.made_of v, called_iff, reached_iff, called)),
            ground (arith, f.made_of v, called_iff, called),
          ),
          λ good due.
              ground (arith, f.all_made good v, called_iff, reached_iff, reached.1 due.0, due.1),
        )

    -- An initialiser is called only after those of the eager providers that its own provider depends
    -- on, whether the pass then succeeds or fails.
    pub eager_init_order :
        (e : EagerInit)
        → eager_init_reachable_providers to_string init toposort registry services task ≡ some e
        → (v d : ℕ) → contains v e.calls ≡ true
        → contains d (dependencies (providers_by_id registry) v) ≡ true
        → is_eager (providers_by_id registry) d ≡ true
        → position d e.calls < position v e.calls
    eager_init_order e h v d called dep eager =
        let reached =
          λ (w : ℕ). (collect_correct (providers_by_id registry) services s found w).0 in
        let due = (eager_init_once e h v).1 called in
        (follows e h).before v d called dep eager ((reached d).1 (through due.0 dep))
