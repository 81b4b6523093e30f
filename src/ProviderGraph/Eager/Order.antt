-- ===== src/ProviderGraph/Eager/Order.antt =====
-- Which initialisers `eager_init_reachable_providers` calls, how often and in which order.
use service_daemon_rs.External.Toposort.{Toposort, IsSorting}
use service_daemon_rs.Prelude.{
  ℕ, ◌≤◌, ◌<◌, ◌≡◌, refl, ap, sym, ◌∙◌, Bool, true, false, ◌&&◌, ◌⊎◌, inl, inr, List, [], ◌∷◌,
  retain, arith, if◌then◌else◌, Result, ok, err, Bool-cases, Result-cases,
}
use service_daemon_rs.Prelude.Sets.{
  contains, contains-append, count, count-append, count-retain, contains_iff_count, position,
  position-retain, position-append,
}
use service_daemon_rs.ProviderInit.{ProviderInitError}
use service_daemon_rs.ProviderInit.Boundary.{TaskContext}
use service_daemon_rs.ProviderGraph.{
  ProviderEntry, is_eager, is_provider, eager_targets, graph_nodes, graph_edges, dependencies,
}
use service_daemon_rs.ProviderGraph.Eager.{
  EagerInit, Initialiser, init_in_order, eager_init, fresh, framework_failure, is_empty,
}
use service_daemon_rs.ProviderGraph.Eager.Calls.{Ran, init_in_order-Ran}
use service_daemon_rs.ProviderGraph.Eager.Edges.{graph_edges-mem}

abbrev is_ok : Result (Unit {0}) ProviderInitError → Bool
is_ok (ok done) = true
is_ok (err error) = false

contains-retain :
    (v : ℕ) (p : ℕ → Bool) (xs : List ℕ) → contains v (retain p xs) ≡ (p v && contains v xs)
contains-retain v p xs = ground (
  arith,
  count-retain v p xs,
  contains_iff_count v (retain p xs),
  contains_iff_count v xs,
  Bool-cases (p v),
  Bool-cases (contains v xs),
  Bool-cases (contains v (retain p xs)),
)

count_empty : (v : ℕ) (xs : List ℕ) → is_empty xs ≡ true → count v xs ≡ 0
count_empty v [] h = refl
count_empty v (x ∷ xs) h = cc

eager_has :
    (entries : List ProviderEntry) (v : ℕ)
    → is_eager entries v ≡ true
    → is_provider entries v ≡ true
eager_has entries v h = ground (arith, h)

module _ (to_string : ProviderInitError → List ℕ) (init : Initialiser) (toposort : Toposort)
    (entries : List ProviderEntry) (reachable : List ℕ)
    (sorting : IsSorting toposort
      (graph_nodes entries reachable)
      (graph_edges entries reachable entries)) where
  -- The calls of a run against the reachable types.
  pub record Follows (e : EagerInit) : Type 0 where
    pub made_of : (v : ℕ) → count v e.calls ≤ (if is_eager entries v then count v reachable else 0)
    pub all_made :
        e.result ≡ ok tt
        → (v : ℕ) → count v e.calls ≡ (if is_eager entries v then count v reachable else 0)
    pub before :
        (v d : ℕ)
        → contains v e.calls ≡ true
        → contains d (dependencies entries v) ≡ true
        → is_eager entries d ≡ true
        → contains d reachable ≡ true
        → position d e.calls < position v e.calls

  -- Every target in the order, as often as it is reachable.
  planned :
      (order : List ℕ)
      → toposort (graph_nodes entries reachable) (graph_edges entries reachable entries) ≡ ok order
      → (v : ℕ)
      → count v (retain (λ w. contains w (eager_targets entries reachable)) order)
        ≡ (if is_eager entries v then count v reachable else 0)
  unfolding eager_targets graph_nodes
  planned order sorted v = ground (
    arith,
    count-retain v (λ w. contains w (eager_targets entries reachable)) order,
    sorting.ordered_nodes sorted v,
    count-retain v (is_provider entries) reachable,
    contains-retain v (is_eager entries) reachable,
    contains_iff_count v reachable,
    eager_has entries v,
  )

  -- What is in the plan is eager and reachable.
  planned_is :
      (order : List ℕ)
      → toposort (graph_nodes entries reachable) (graph_edges entries reachable entries) ≡ ok order
      → (v : ℕ)
      → contains v (retain (λ w. contains w (eager_targets entries reachable)) order) ≡ true
      → (is_eager entries v ≡ true) × (contains v reachable ≡ true)
  planned_is order sorted v h = ground (
    arith,
    planned order sorted v,
    contains_iff_count v (retain (λ w. contains w (eager_targets entries reachable)) order),
    contains_iff_count v reachable,
  )

  -- A dependency with its provider, both eager and reachable, stand in this order in the plan.
  planned_before :
      (order : List ℕ)
      → toposort (graph_nodes entries reachable) (graph_edges entries reachable entries) ≡ ok order
      → (v d : ℕ) → (is_eager entries v ≡ true) × (contains v reachable ≡ true)
      → (is_eager entries d ≡ true) × (contains d reachable ≡ true)
      → contains d (dependencies entries v) ≡ true
      → position d (retain (λ w. contains w (eager_targets entries reachable)) order)
        < position v (retain (λ w. contains w (eager_targets entries reachable)) order)
  unfolding eager_targets
  planned_before order sorted v d hv hd h =
      position-retain d v (λ w. contains w (eager_targets entries reachable)) order
        (ground (arith, contains-retain d (is_eager entries) reachable, hd))
        (ground (arith, contains-retain v (is_eager entries) reachable, hv))
        (sorting.ordered_edges sorted (
          graph_edges-mem entries reachable entries v d hv.1 h
            (ground (arith, hd, eager_has entries d))))

  Ran-Follows :
      (task : TaskContext) (order : List ℕ) (e : EagerInit)
      → toposort (graph_nodes entries reachable) (graph_edges entries reachable entries) ≡ ok order
      → Ran to_string init toposort entries (eager_targets entries reachable) order (fresh task) e
      → Follows e
  Ran-Follows task order e sorted ran =
      let plan = retain (λ w. contains w (eager_targets entries reachable)) order in
      let counted = λ (v : ℕ). ap (count v) ran.in_order ∙ count-append v ran.made ran.left in
      let same = λ (v : ℕ). ap (count v) ran.called in
      record {
        made_of = λ v. ground (arith, planned order sorted v, counted v, same v);
        all_made = λ good v.
            ground (arith, planned order sorted v, counted v, same v, ap (count v) (ran.all good));
        before = λ v d made h eager reached.
            let here : contains v ran.made ≡ true = sym (ap (contains v) ran.called) ∙ made in
            let in_plan : contains v plan ≡ true =
              ground
                (arith, ap (contains v) ran.in_order, contains-append v ran.made ran.left, here) in
            let placed =
              planned_before order sorted v d (planned_is order sorted v in_plan) (eager, reached)
                h in
            rw ran.called (position-append d v ran.made ran.left here (rw ran.in_order at placed));
      }

  pub eager_init_empty :
      (task : TaskContext)
      → is_empty (eager_targets entries reachable) ≡ true
      → eager_init to_string init toposort entries task reachable ≡ fresh task
  unfolding eager_init
  eager_init_empty task h = ground (arith, h)

  pub eager_init_sorted :
      (task : TaskContext) (order : List ℕ)
      → is_empty (eager_targets entries reachable) ≡ false
      → toposort (graph_nodes entries reachable) (graph_edges entries reachable entries) ≡ ok order
      → eager_init to_string init toposort entries task reachable
        ≡ init_in_order to_string init toposort entries
            (eager_targets entries reachable)
            order
            (fresh task)
  unfolding eager_init
  eager_init_sorted task order h sorted = ground (arith, h, sorted)

  eager_init_cyclic :
      (task : TaskContext) (node : ℕ)
      → is_empty (eager_targets entries reachable) ≡ false
      → toposort (graph_nodes entries reachable) (graph_edges entries reachable entries) ≡ err node
      → ((eager_init to_string init toposort entries task reachable).calls ≡ [])
        × (is_ok (eager_init to_string init toposort entries task reachable).result ≡ false)
  unfolding eager_init framework_failure
  eager_init_cyclic task node h sorted = ground (arith, h, sorted)

  pub targets_have :
      (v : ℕ) → contains v (eager_targets entries reachable) ≡ true → is_provider entries v ≡ true
  unfolding eager_targets
  targets_have v h =
      eager_has entries v (ground (arith, contains-retain v (is_eager entries) reachable, h))

  -- Without a call there is nothing to show but that none was due.
  idle-Follows :
      (e : EagerInit)
      → e.calls ≡ []
      → (is_ok e.result ≡ true → is_empty (eager_targets entries reachable) ≡ true)
      → Follows e
  unfolding eager_targets
  idle-Follows e h none_due = record {
    made_of = λ v. ground (arith, ap (count v) h);
    all_made = λ good v. ground (
      arith,
      ap (count v) h,
      none_due (ap is_ok good),
      count_empty v (retain (is_eager entries) reachable),
      count-retain v (is_eager entries) reachable,
    );
    before = λ v d made dep eager reached. ground (arith, made, ap (contains v) h);
  }

  pub eager_init-Follows :
      (task : TaskContext) → Follows (eager_init to_string init toposort entries task reachable)
  eager_init-Follows task = elim (Bool-cases (is_empty (eager_targets entries reachable))) [
    | inl none_eager ↦
        rw (eager_init_empty task none_eager) (idle-Follows (fresh task) refl λ good. none_eager)
    | inr some_eager ↦ sorted_or_not some_eager (
        Result-cases
          (toposort (graph_nodes entries reachable) (graph_edges entries reachable entries)))
  ]
    where
      sorted_or_not :
          is_empty (eager_targets entries reachable) ≡ false
          → ((order : List ℕ) × (toposort
                  (graph_nodes entries reachable)
                  (graph_edges entries reachable entries)
                ≡ ok order))
            ⊎ ((node : ℕ) × (toposort
                    (graph_nodes entries reachable)
                    (graph_edges entries reachable entries)
                  ≡ err node))
          → Follows (eager_init to_string init toposort entries task reachable)
      sorted_or_not some_eager (inl (order, sorted)) =
          rw (eager_init_sorted task order some_eager sorted) (
            Ran-Follows task order _ sorted (
              init_in_order-Ran to_string init toposort entries (eager_targets entries reachable)
                order (fresh task) targets_have refl))
      sorted_or_not some_eager (inr (node, sorted)) =
          let (no_calls, failed) = eager_init_cyclic task node some_eager sorted in
          idle-Follows _ no_calls λ good. ground (arith, good, failed)
