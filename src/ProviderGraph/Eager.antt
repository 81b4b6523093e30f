-- ===== src/ProviderGraph/Eager.antt =====
-- core/service_daemon/provider_graph.rs: steps 3 to 5 of `eager_init_reachable_providers`, the calls
-- of the initialisers. What an initialiser does is an argument, which is given the phase that its
-- scope sets, the types that were initialised before, and the task's context. `calls` lists the
-- types whose initialiser was called. No code reads it.
pub mod Calls
pub mod Edges
pub mod Order
pub mod Initialised
use service_daemon_rs.External.Toposort.{Toposort}
use service_daemon_rs.Prelude.{
  ℕ, Bool, true, false, Option, none, some, List, [], ◌∷◌, ◌++◌, map_or, Result, ok, err,
}
use service_daemon_rs.Prelude.Sets.{contains}
use service_daemon_rs.ProviderInit.{
  ProviderInitBoundaryKind, ProviderInitError, ProviderInitSourceKind, ProviderRuntimePhase,
  fatal_failure,
}
use service_daemon_rs.ProviderInit.Boundary.{TaskContext, provider_init_failure_into_error}
use service_daemon_rs.ProviderGraph.{
  ProviderEntry, ServiceNode, get, providers_by_id, collect_reachable, eager_targets, graph_nodes,
  graph_edges,
}

-- "<unknown>".
abbrev pub unknown_name : List ℕ
unknown_name = 60 ∷ 117 ∷ 110 ∷ 107 ∷ 110 ∷ 111 ∷ 119 ∷ 110 ∷ 62 ∷ []

-- "provider missing from eager initialization graph".
abbrev pub missing_message : List ℕ
missing_message =
    112 ∷ 114 ∷ 111 ∷ 118 ∷ 105 ∷ 100 ∷ 101 ∷ 114 ∷ 32 ∷ 109 ∷ 105 ∷ 115 ∷ 115 ∷ 105 ∷ 110 ∷ 103
    ∷ 32 ∷ 102 ∷ 114 ∷ 111 ∷ 109 ∷ 32 ∷ 101 ∷ 97 ∷ 103 ∷ 101 ∷ 114 ∷ 32 ∷ 105 ∷ 110 ∷ 105 ∷ 116
    ∷ 105 ∷ 97 ∷ 108 ∷ 105 ∷ 122 ∷ 97 ∷ 116 ∷ 105 ∷ 111 ∷ 110 ∷ 32 ∷ 103 ∷ 114 ∷ 97 ∷ 112 ∷ 104 ∷ []

-- "Circular provider dependency reached eager_init; this should have been caught by
-- validate_dependency_graph".
abbrev pub circular_message : List ℕ
circular_message =
    67 ∷ 105 ∷ 114 ∷ 99 ∷ 117 ∷ 108 ∷ 97 ∷ 114 ∷ 32 ∷ 112 ∷ 114 ∷ 111 ∷ 118 ∷ 105 ∷ 100 ∷ 101 ∷ 114
    ∷ 32 ∷ 100 ∷ 101 ∷ 112 ∷ 101 ∷ 110 ∷ 100 ∷ 101 ∷ 110 ∷ 99 ∷ 121 ∷ 32 ∷ 114 ∷ 101 ∷ 97 ∷ 99 ∷ 104
    ∷ 101 ∷ 100 ∷ 32 ∷ 101 ∷ 97 ∷ 103 ∷ 101 ∷ 114 ∷ 95 ∷ 105 ∷ 110 ∷ 105 ∷ 116 ∷ 59 ∷ 32 ∷ 116 ∷ 104
    ∷ 105 ∷ 115 ∷ 32 ∷ 115 ∷ 104 ∷ 111 ∷ 117 ∷ 108 ∷ 100 ∷ 32 ∷ 104 ∷ 97 ∷ 118 ∷ 101 ∷ 32 ∷ 98 ∷ 101
    ∷ 101 ∷ 110 ∷ 32 ∷ 99 ∷ 97 ∷ 117 ∷ 103 ∷ 104 ∷ 116 ∷ 32 ∷ 98 ∷ 121 ∷ 32 ∷ 118 ∷ 97 ∷ 108 ∷ 105
    ∷ 100 ∷ 97 ∷ 116 ∷ 101 ∷ 95 ∷ 100 ∷ 101 ∷ 112 ∷ 101 ∷ 110 ∷ 100 ∷ 101 ∷ 110 ∷ 99 ∷ 121 ∷ 95
    ∷ 103 ∷ 114 ∷ 97 ∷ 112 ∷ 104 ∷ []

abbrev pub is_empty : List ℕ → Bool
is_empty [] = true
is_empty (x ∷ xs) = false

pub record EagerInit : Type 0 where
  pub task : TaskContext
  pub calls : List ℕ
  pub result : Result (Unit {0}) ProviderInitError

abbrev pub fresh : TaskContext → EagerInit
fresh task = record { task = task; calls = []; result = ok tt }

abbrev pub Initialiser : Type 0
Initialiser =
    ProviderRuntimePhase
    → List ℕ
    → ProviderEntry
    → TaskContext
    → TaskContext × Result (Unit {0}) ProviderInitError

module _ (to_string : ProviderInitError → List ℕ) (init : Initialiser) (toposort : Toposort)
    (entries : List ProviderEntry) where
  -- A failure that the framework reports itself.
  unfoldable pub framework_failure :
      ProviderRuntimePhase → ProviderInitSourceKind → List ℕ → List ℕ → EagerInit → EagerInit
  unfolding provider_init_failure_into_error
  framework_failure phase source provider message s =
      let (task, error) =
        provider_init_failure_into_error to_string s.task
          (record {
            provider = provider;
            phase = phase;
            boundary = ProviderInitBoundaryKind.framework_validation;
          })
          (fatal_failure provider message source) in
      record s { task = task; result = err error }

  unfoldable pub init_one : ℕ → EagerInit → EagerInit
  unfolding framework_failure
  init_one type_id s = elim (get type_id entries) [
    | none ↦
        framework_failure ProviderRuntimePhase.startup_eager_init
          ProviderInitSourceKind.framework_eager_init unknown_name missing_message s
    | some entry ↦
        let (task, result) = init ProviderRuntimePhase.startup_eager_init s.calls entry s.task in
        record { task = task; calls = s.calls ++ (type_id ∷ []); result = result }
  ]

  -- Step 5, the loop over the order.
  unfoldable pub init_in_order : List ℕ → List ℕ → EagerInit → EagerInit
  init_in_order eager_ids [] s = s
  init_in_order eager_ids (type_id ∷ order) s = elim (contains type_id eager_ids) [
    | false ↦ init_in_order eager_ids order s
    | true ↦ elim (init_one type_id s).result [
      | ok done ↦ init_in_order eager_ids order (init_one type_id s)
      | err error ↦ init_one type_id s
    ]
  ]

  abbrev pub name_of : ℕ → List ℕ
  name_of type_id = map_or (get type_id entries) unknown_name λ provider. provider.name

  -- Steps 3 to 5, on the reachable types.
  unfoldable pub eager_init : TaskContext → List ℕ → EagerInit
  unfolding eager_targets graph_nodes graph_edges init_in_order framework_failure
  eager_init task reachable =
      let start = fresh task in
      let targets = eager_targets entries reachable in
      let nodes = graph_nodes entries reachable in
      let edges = graph_edges entries reachable entries in
      elim (is_empty targets) [
        | true ↦ start
        | false ↦ elim (toposort nodes edges) [
          | err node ↦
              framework_failure ProviderRuntimePhase.framework_validation
                ProviderInitSourceKind.framework_graph_validation (name_of node) circular_message
                start
          | ok order ↦ init_in_order targets order start
        ]
      ]

-- The whole of it; `none` is a search that has run out of fuel.
unfoldable pub eager_init_reachable_providers :
    (ProviderInitError → List ℕ)
    → Initialiser
    → Toposort
    → List ProviderEntry
    → List ServiceNode
    → TaskContext
    → Option EagerInit
unfolding providers_by_id collect_reachable eager_init
eager_init_reachable_providers to_string init toposort registry services task =
    let entries = providers_by_id registry in
    map_or (collect_reachable entries services) none
      λ s. some (eager_init to_string init toposort entries task s.reachable)
