-- ===== src/ProviderGraph/Validation/Links.antt =====
-- The graph of `validate_dependency_graph` has an edge from each provider to each of its parameters.
use mathlib.Core.List.{Memᴰ}
use service_daemon_rs.Prelude.{
  ℕ, ◌≡◌, refl, ap, sym, ◌∙◌, true, none, some, List, [], ◌∷◌, arith, ◌==◌, inl, inr, Option-cases,
  Bool-cases, All,
}
use service_daemon_rs.Prelude.Sets.{contains}
use service_daemon_rs.ProviderGraph.{
  ServiceParam, ids, ProviderEntry, ServiceNode, providers_by_id, insert_entry, insert_entries,
}
use service_daemon_rs.ProviderGraph.Validation.{
  DependencyGraph, type_index, type_node, link_params, link_providers, dependency_graph,
  link_services, empty_graph,
}

-- What a later graph keeps of an earlier one.
record Extends (g h : DependencyGraph) : Type 0 where
  indexed : (v i : ℕ) → type_index v g.type_nodes ≡ some i → type_index v h.type_nodes ≡ some i
  linked : (i j : ℕ) → Memᴰ {A = ℕ × ℕ} (i, j) g.edges → Memᴰ {A = ℕ × ℕ} (i, j) h.edges

Extends-trans : {g h k : DependencyGraph} → Extends g h → Extends h k → Extends g k
Extends-trans x y = record {
  indexed = λ v i e. y.indexed v i (x.indexed v i e);
  linked = λ i j e. y.linked i j (x.linked i j e);
}

Extends-refl : (g : DependencyGraph) → Extends g g
Extends-refl g = record { indexed = λ v i e. e; linked = λ i j e. e }

type_node-Extends :
    (v : ℕ) (label : List ℕ) (g : DependencyGraph)
    → Extends g (type_node v label g).0
      × (type_index v (type_node v label g).0.type_nodes ≡ some (type_node v label g).1)
unfolding type_node
type_node-Extends v label g = elim (Option-cases (type_index v g.type_nodes)) [
  | inl new ↦ rw new (
    record {
      indexed = λ w i e.
          let other : v ≡ w → type_index w g.type_nodes ≡ none =
            λ e'. ap (λ x. type_index x g.type_nodes) (sym e') ∙ new in
          ground (arith, e, other);
      linked = λ i j e. e;
    },
    ground arith,
  )
  | inr (known, h) ↦ rw h (Extends-refl g, h)
]

-- An edge between the nodes of two types.
pub record Linked (g : DependencyGraph) (v d : ℕ) : Type 0 where
  pub from : ℕ
  pub to : ℕ
  pub from_index : type_index v g.type_nodes ≡ some from
  pub to_index : type_index d g.type_nodes ≡ some to
  pub edge : Memᴰ {A = ℕ × ℕ} (from, to) g.edges

Linked-Extends : {g h : DependencyGraph} {v d : ℕ} → Extends g h → Linked g v d → Linked h v d
Linked-Extends x l = record {
  from = l.from;
  to = l.to;
  from_index = x.indexed _ l.from l.from_index;
  to_index = x.indexed _ l.to l.to_index;
  edge = x.linked l.from l.to l.edge;
}

link_params-Extends :
    (from : ℕ) (params : List ServiceParam) (g : DependencyGraph)
    → Extends g (link_params from params g)
unfolding link_params
link_params-Extends from [] g = Extends-refl g
link_params-Extends from (p ∷ params) g =
    let node = type_node p.type_id p.type_name g in
    let linked : DependencyGraph = record node.0 { edges = (from, node.1) ∷ node.0.edges } in
    let first : Extends node.0 linked = record {
      indexed = λ v i e. e;
      linked = λ i j e. Memᴰ.tail e;
    } in
    Extends-trans (type_node-Extends p.type_id p.type_name g).0
      (Extends-trans first (link_params-Extends from params linked))

link_params-Linked :
    (v from : ℕ) (params : List ServiceParam) (g : DependencyGraph)
    → type_index v g.type_nodes ≡ some from
    → (d : ℕ) → contains d (ids params) ≡ true
    → Linked (link_params from params g) v d
unfolding link_params
link_params-Linked v from [] g h d c = cc
link_params-Linked v from (p ∷ params) g h d c =
    let node = type_node p.type_id p.type_name g in
    let linked : DependencyGraph = record node.0 { edges = (from, node.1) ∷ node.0.edges } in
    let (kept, indexed) = type_node-Extends p.type_id p.type_name g in
    let known : type_index v linked.type_nodes ≡ some from = kept.indexed v from h in
    elim (Bool-cases (p.type_id == d)) [
      | inl e ↦
          let same : p.type_id ≡ d = ground (arith, e) in
          let here : Linked linked v d = record {
            from = from;
            to = node.1;
            from_index = known;
            to_index = ap (λ x. type_index x node.0.type_nodes) (sym same) ∙ indexed;
            edge = Memᴰ.head refl;
          } in
          Linked-Extends (link_params-Extends from params linked) here
      | inr e ↦ link_params-Linked v from params linked known d (ground (arith, e, c))
    ]

-- All that a provider asks for.
abbrev pub AreLinked : DependencyGraph → ProviderEntry → Type 0
AreLinked g e = (d : ℕ) → contains d (ids e.params) ≡ true → Linked g e.type_id d

link_providers-Extends :
    (providers : List ProviderEntry) (g : DependencyGraph) → Extends g (link_providers providers g)
unfolding link_providers
link_providers-Extends [] g = Extends-refl g
link_providers-Extends (p ∷ providers) g =
    let node = type_node p.type_id p.name g in
    Extends-trans (type_node-Extends p.type_id p.name g).0 (
      Extends-trans (link_params-Extends node.1 p.params node.0)
        (link_providers-Extends providers (link_params node.1 p.params node.0)))

link_providers-AreLinked :
    (providers : List ProviderEntry) (g : DependencyGraph)
    → All (AreLinked (link_providers providers g)) providers
unfolding link_providers
link_providers-AreLinked [] g = tt
link_providers-AreLinked (p ∷ providers) g =
    let node = type_node p.type_id p.name g in
    let next = link_params node.1 p.params node.0 in
    (
      λ d c. Linked-Extends (link_providers-Extends providers next) (
          link_params-Linked p.type_id node.1 p.params node.0
            (type_node-Extends p.type_id p.name g).1 d c),
      link_providers-AreLinked providers next,
    )

pub dependency_graph-AreLinked :
    (services : List ServiceNode) (providers : List ProviderEntry)
    → All (AreLinked (dependency_graph services providers)) providers
unfolding dependency_graph
dependency_graph-AreLinked services providers =
    link_providers-AreLinked providers (link_services services empty_graph)

-- The map of the providers holds none that the registry does not.
module _ {ℓ} (P : ProviderEntry → Type ℓ) where
  insert_entry-All :
      (e : ProviderEntry) (entries : List ProviderEntry)
      → P e
      → All P entries
      → All P (insert_entry e entries)
  insert_entry-All e [] p h = (p, tt)
  insert_entry-All e (x ∷ entries) p h = elim (Bool-cases (x.type_id == e.type_id)) [
    | inl same ↦ rw same (p, h.1)
    | inr other ↦ rw other (h.0, insert_entry-All e entries p h.1)
  ]

  insert_entries-All :
      (entries registry : List ProviderEntry)
      → All P entries
      → All P registry
      → All P (insert_entries entries registry)
  insert_entries-All entries [] h r = h
  insert_entries-All entries (e ∷ registry) h r =
      insert_entries-All (insert_entry e entries) registry (insert_entry-All e entries r.0 h) r.1

  pub providers_by_id-All :
      (registry : List ProviderEntry) → All P registry → All P (providers_by_id registry)
  unfolding providers_by_id
  providers_by_id-All registry h = insert_entries-All [] registry tt h
