-- ===== src/ProviderGraph.antt =====
-- core/service_daemon/provider_graph.rs: the collections of `eager_init_reachable_providers`. A
-- `TypeId` is a number, and a node of the graph stands by its `TypeId`, since the map of the nodes has
-- one node for each. The sets and the maps are lists; no theorem depends on their order.
pub mod Reachable
pub mod Eager
pub mod Validation
use service_daemon_rs.Prelude.{
  ℕ, zero, suc, Bool, true, false, ◌&&◌, Option, none, some, List, [], ◌∷◌, ◌++◌, map, length,
  retain, ◌==◌, if◌then◌else◌, is_some, map_or,
}
use service_daemon_rs.Prelude.Sets.{contains}

-- `ServiceParam` and `ProviderEntry` of models/service.rs, without the initialiser, which is an
-- argument where it is called, and what the graph reads of a `ServiceDescription`.
pub record ServiceParam : Type 0 where
  pub type_id : ℕ
  pub type_name : List ℕ

pub record ProviderEntry : Type 0 where
  pub name : List ℕ
  pub type_id : ℕ
  pub params : List ServiceParam
  pub eager : Bool

pub record ServiceNode : Type 0 where
  pub name : List ℕ
  pub params : List ServiceParam

abbrev pub ids : List ServiceParam → List ℕ
ids [] = []
ids (param ∷ params) = param.type_id ∷ ids params

abbrev pub service_ids : List ServiceNode → List ℕ
service_ids [] = []
service_ids (s ∷ services) = ids s.params ++ service_ids services

-- `providers_by_id`: a later entry of the registry replaces one of the same type.
abbrev pub insert_entry : ProviderEntry → List ProviderEntry → List ProviderEntry
insert_entry entry [] = entry ∷ []
insert_entry entry (e ∷ entries) =
    if e.type_id == entry.type_id then entry ∷ entries else e ∷ insert_entry entry entries

abbrev pub insert_entries : List ProviderEntry → List ProviderEntry → List ProviderEntry
insert_entries entries [] = entries
insert_entries entries (e ∷ registry) = insert_entries (insert_entry e entries) registry

unfoldable pub providers_by_id : List ProviderEntry → List ProviderEntry
providers_by_id registry = insert_entries [] registry

abbrev pub get : ℕ → List ProviderEntry → Option ProviderEntry
get type_id [] = none
get type_id (e ∷ entries) = if e.type_id == type_id then some e else get type_id entries

-- The two collections of steps 1 and 2.
pub record Search : Type 0 where
  pub reachable : List ℕ
  pub queue : List ℕ

-- `if reachable.insert(id) { queue.push_back(id) }`.
unfoldable pub offer : ℕ → Search → Search
offer type_id s =
    if contains type_id s.reachable
    then s
    else record { reachable = s.reachable ++ (type_id ∷ []); queue = s.queue ++ (type_id ∷ []) }

unfoldable pub offer_all : List ℕ → Search → Search
offer_all [] s = s
offer_all (type_id ∷ rest) s = offer_all rest (offer type_id s)

-- Every type that a provider asks for.
abbrev pub asked : List ProviderEntry → List ℕ
asked [] = []
asked (e ∷ rest) = ids e.params ++ asked rest

module _ (entries : List ProviderEntry) where
  -- The parameters of the provider of a type, none where there is no provider.
  abbrev pub dependencies : ℕ → List ℕ
  dependencies type_id = map_or (get type_id entries) [] λ provider. ids provider.params

  -- One round of the loop of step 2.
  unfoldable pub visit : ℕ → List ℕ → Search → Search
  visit type_id queue s = offer_all (dependencies type_id) (record s { queue = queue })

  -- The loop on fuel; `none` is a loop that has none left.
  unfoldable pub expand : ℕ → Search → Option Search
  expand zero s = elim s.queue [ [] ↦ some s | type_id ∷ queue ↦ none ]
  expand (suc fuel) s = elim s.queue [
    | [] ↦ some s
    | type_id ∷ queue ↦ expand fuel (visit type_id queue s)
  ]

  -- The number of the types that are asked for is the fuel.
  abbrev pub universe : List ServiceNode → List ℕ
  universe services = service_ids services ++ asked entries

  unfoldable pub collect_reachable : List ServiceNode → Option Search
  collect_reachable services =
      expand (length (universe services))
        (offer_all (service_ids services) (record { reachable = []; queue = [] }))

  -- `providers_by_id.contains_key`, and the test of step 3.
  abbrev pub is_provider : ℕ → Bool
  is_provider type_id = is_some (get type_id entries)

  abbrev pub is_eager : ℕ → Bool
  is_eager type_id = map_or (get type_id entries) false λ provider. provider.eager

  unfoldable pub eager_targets : List ℕ → List ℕ
  eager_targets reachable = retain is_eager reachable

  -- Step 4: the nodes, and an edge from each dependency that has a node to its provider.
  unfoldable pub graph_nodes : List ℕ → List ℕ
  graph_nodes reachable = retain is_provider reachable

  abbrev pub has_node : List ℕ → ℕ → Bool
  has_node reachable type_id = contains type_id reachable && is_provider type_id

  unfoldable pub edges_to : List ℕ → ℕ → List ServiceParam → List (ℕ × ℕ)
  edges_to reachable provider [] = []
  edges_to reachable provider (dependency ∷ rest) =
      let others = edges_to reachable provider rest in
      if has_node reachable dependency.type_id
      then (dependency.type_id, provider) ∷ others
      else others

  unfoldable pub graph_edges : List ℕ → List ProviderEntry → List (ℕ × ℕ)
  unfolding edges_to
  graph_edges reachable [] = []
  graph_edges reachable (e ∷ rest) =
      let others = graph_edges reachable rest in
      if contains e.type_id reachable
      then edges_to reachable e.type_id e.params ++ others
      else others
