-- ===== src/ProviderGraph/Validation.antt =====
-- core/service_daemon/provider_graph.rs: `validate_dependency_graph`. A `NodeIndex` is the number of the
-- nodes before it. `describe` is the text that `format!` makes of a label and the labels around it.
pub mod Links
pub mod Startup
use service_daemon_rs.External.Toposort.{Toposort}
use service_daemon_rs.Prelude.{
  ℕ, zero, suc, ◌+◌, Bool, true, false, ◌&&◌, ◌||◌, Option, none, some, List, [], ◌∷◌, ◌++◌, length,
  ◌==◌, if◌then◌else◌, map_or, same_text, Result, ok, err,
}
use service_daemon_rs.ProviderInit.{
  ProviderInitBoundaryKind, ProviderInitError, ProviderInitSourceKind, ProviderRuntimePhase,
  fatal_failure,
}
use service_daemon_rs.ProviderInit.Boundary.{TaskContext, provider_init_failure_into_error}
use service_daemon_rs.ProviderGraph.{ServiceParam, ProviderEntry, ServiceNode}

-- The graph with the two maps to its nodes.
pub record DependencyGraph : Type 0 where
  pub labels : List (List ℕ)
  pub edges : List (ℕ × ℕ)
  pub service_nodes : List (List ℕ × ℕ)
  pub type_nodes : List (ℕ × ℕ)

abbrev pub service_index : List ℕ → List (List ℕ × ℕ) → Option ℕ
service_index name [] = none
service_index name ((key, index) ∷ rest) =
    if same_text key name then some index else service_index name rest

abbrev pub type_index : ℕ → List (ℕ × ℕ) → Option ℕ
type_index type_id [] = none
type_index type_id ((key, index) ∷ rest) =
    if key == type_id then some index else type_index type_id rest

-- `entry(key).or_insert_with(|| graph.add_node(label))` on each of the maps: the graph and the node.
unfoldable pub service_node : List ℕ → DependencyGraph → DependencyGraph × ℕ
service_node name g =
    let index = length g.labels in
    map_or (service_index name g.service_nodes)
      (
        record g {
          labels = g.labels ++ (name ∷ []);
          service_nodes = (name, index) ∷ g.service_nodes;
        },
        index,
      )
      λ known. (g, known)

unfoldable pub type_node : ℕ → List ℕ → DependencyGraph → DependencyGraph × ℕ
type_node type_id label g =
    let index = length g.labels in
    map_or (type_index type_id g.type_nodes)
      (
        record g {
          labels = g.labels ++ (label ∷ []);
          type_nodes = (type_id, index) ∷ g.type_nodes;
        },
        index,
      )
      λ known. (g, known)

-- The edges from a node to its parameters.
unfoldable pub link_params : ℕ → List ServiceParam → DependencyGraph → DependencyGraph
unfolding type_node
link_params from [] g = g
link_params from (param ∷ params) g =
    let (g', to) = type_node param.type_id param.type_name g in
    link_params from params (record g' { edges = (from, to) ∷ g'.edges })

-- Phase 1 and phase 2.
unfoldable pub link_services : List ServiceNode → DependencyGraph → DependencyGraph
unfolding service_node link_params
link_services [] g = g
link_services (service ∷ services) g =
    let (g', from) = service_node service.name g in
    link_services services (link_params from service.params g')

unfoldable pub link_providers : List ProviderEntry → DependencyGraph → DependencyGraph
unfolding type_node link_params
link_providers [] g = g
link_providers (provider ∷ providers) g =
    let (g', from) = type_node provider.type_id provider.name g in
    link_providers providers (link_params from provider.params g')

abbrev pub empty_graph : DependencyGraph
empty_graph = record { labels = []; edges = []; service_nodes = []; type_nodes = [] }

unfoldable pub dependency_graph : List ServiceNode → List ProviderEntry → DependencyGraph
unfolding link_services link_providers
dependency_graph services providers = link_providers providers (link_services services empty_graph)

-- `node_indices`, and the label of a node. Each node of the graph has one.
abbrev pub indices : ℕ → List ℕ
indices zero = []
indices (suc n) = indices n ++ (n ∷ [])

abbrev pub label_at : ℕ → List (List ℕ) → List ℕ
label_at index [] = []
label_at zero (label ∷ labels) = label
label_at (suc index) (label ∷ labels) = label_at index labels

abbrev pub contains_edge : ℕ → ℕ → List (ℕ × ℕ) → Bool
contains_edge a b [] = false
contains_edge a b ((from, to) ∷ edges) = ((from == a) && (to == b)) || contains_edge a b edges

-- The labels of the nodes with an edge to a node or from it.
abbrev pub involved : DependencyGraph → ℕ → List ℕ → List (List ℕ)
involved g node [] = []
involved g node (n ∷ rest) =
    let others = involved g node rest in
    if contains_edge n node g.edges || contains_edge node n g.edges
    then label_at n g.labels ∷ others
    else others

module _ (to_string : ProviderInitError → List ℕ) (describe : List ℕ → List (List ℕ) → List ℕ)
    (toposort : Toposort) where
  -- The report of a node on a cycle.
  unfoldable pub cycle_error :
      DependencyGraph → ℕ → TaskContext → TaskContext × Result (Unit {0}) ProviderInitError
  unfolding provider_init_failure_into_error
  cycle_error g node task =
      let label = label_at node g.labels in
      let (task', error) =
        provider_init_failure_into_error to_string task
          (record {
            provider = label;
            phase = ProviderRuntimePhase.framework_validation;
            boundary = ProviderInitBoundaryKind.framework_validation;
          })
          (fatal_failure label (describe label (involved g node (indices (length g.labels))))
            ProviderInitSourceKind.framework_graph_validation) in
      (task', err error)

  unfoldable pub validate_dependency_graph :
      List ServiceNode
      → List ProviderEntry
      → TaskContext
      → TaskContext × Result (Unit {0}) ProviderInitError
  unfolding dependency_graph cycle_error
  validate_dependency_graph services providers task =
      let g = dependency_graph services providers in
      elim (toposort (indices (length g.labels)) g.edges) [
        | ok order ↦ (task, ok tt)
        | err node ↦ cycle_error g node task
      ]
