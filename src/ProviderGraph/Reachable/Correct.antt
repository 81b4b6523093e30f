-- ===== src/ProviderGraph/Reachable/Correct.antt =====
-- The search of `eager_init_reachable_providers` ends and finds the types that a service needs.
use mathlib.Core.Path.{subst}
use mathlib.Core.Logic.{⊎_elim}
use service_daemon_rs.Prelude.{
  ℕ, zero, suc, ◌≤◌, ◌≡◌, refl, ap, true, ◌∙◌, ◌⊎◌, ◌↔◌, inl, inr, Option, some, List, [], ◌∷◌,
  length, arith,
}
use service_daemon_rs.Prelude.Sets.{contains, contains-append, count}
use service_daemon_rs.ProviderGraph.{
  ProviderEntry, ServiceNode, Search, service_ids, offer_all, dependencies, visit, expand, asked,
  universe, collect_reachable,
}
use service_daemon_rs.ProviderGraph.Reachable.{
  work, missing-le-length, dependencies-asked, offer_all-reachable, offer_all-Grows, offer_all-work,
  Reach, root, through,
}

List-cases : (xs : List ℕ) → (xs ≡ []) ⊎ ((x : ℕ) × (rest : List ℕ) × (xs ≡ x ∷ rest))
List-cases [] = inl refl
List-cases (x ∷ xs) = inr (x, xs, refl)

module _ (entries : List ProviderEntry) (services : List ServiceNode) where
  record IsSearch (s : Search) : Type 0 where
    sound : (v : ℕ) → contains v s.reachable ≡ true → Reach entries services v
    roots : (v : ℕ) → contains v (service_ids services) ≡ true → contains v s.reachable ≡ true
    queued : (v : ℕ) → contains v s.queue ≡ true → contains v s.reachable ≡ true
    closed :
        (u v : ℕ)
        → contains u s.reachable ≡ true
        → contains v (dependencies entries u) ≡ true
        → (contains u s.queue ≡ true) ⊎ (contains v s.reachable ≡ true)
    once : (v : ℕ) → count v s.reachable ≤ 1

  start-IsSearch :
      IsSearch (offer_all (service_ids services) (record { reachable = []; queue = [] }))
  start-IsSearch =
      let s : Search = record { reachable = []; queue = [] } in
      let grown = offer_all-Grows (service_ids services) s in
      let all = λ (v : ℕ). offer_all-reachable v (service_ids services) s in
      record {
        sound = λ v h. root (ground (arith, all v));
        roots = λ v h. ground (arith, all v);
        queued = λ v h. ground (arith, grown.arrives v h);
        closed = λ u v h d. inl (ground (arith, grown.queues u h));
        once = λ v. grown.once v (omega arith);
      }

  visit-IsSearch :
      (s : Search) (u : ℕ) (rest : List ℕ)
      → s.queue ≡ u ∷ rest
      → IsSearch s
      → IsSearch (visit entries u rest s)
  unfolding visit
  visit-IsSearch s u rest e i =
      let s' = record s { queue = rest } in
      let grown = offer_all-Grows (dependencies entries u) s' in
      let all = λ (v : ℕ). offer_all-reachable v (dependencies entries u) s' in
      let popped = λ (v : ℕ). ap (contains v) e in
      let here : contains u s.reachable ≡ true = i.queued u (ground (arith, popped u)) in
      record {
        sound = λ v h.
            let from : (contains v s.reachable ≡ true)
                ⊎ (contains v (dependencies entries u) ≡ true) =
              ground (arith, all v, h) in
            ⊎_elim (i.sound v) (through (i.sound u here)) from;
        roots = λ v h. grown.keeps v (i.roots v h);
        queued = λ v h. ground (arith, grown.arrives v h, grown.keeps v, i.queued v, popped v);
        closed = λ x v h d.
            let same : u ≡ x → contains v (dependencies entries u) ≡ true =
              λ e'. ap (λ y. contains v (dependencies entries y)) e' ∙ d in
            let old = λ (h' : contains x s.reachable ≡ true). i.closed x v h' d in
            ground
              (arith, grown.queues x h, old, grown.stays x, grown.keeps v, all v, popped x, same);
        once = λ v. grown.once v (i.once v);
      }

  expand-visit :
      (fuel : ℕ) (s : Search) (u : ℕ) (rest : List ℕ)
      → s.queue ≡ u ∷ rest
      → expand entries (suc fuel) s ≡ expand entries fuel (visit entries u rest s)
  unfolding expand
  expand-visit fuel s u rest e = ground (arith, e)

  expand_done : (fuel : ℕ) (s : Search) → s.queue ≡ [] → expand entries fuel s ≡ some s
  unfolding expand
  expand_done zero s e = ground (arith, e)
  expand_done (suc fuel) s e = ground (arith, e)

  visit-work :
      (s : Search) (u : ℕ) (rest : List ℕ)
      → s.queue ≡ u ∷ rest
      → suc (work (universe entries services) (visit entries u rest s))
        ≤ work (universe entries services) s
  unfolding visit
  visit-work s u rest e = omega (
    arith,
    ap length e,
    offer_all-work (universe entries services) (dependencies entries u) (record s { queue = rest })
        λ w h. ground (
          arith,
          dependencies-asked entries u w h,
          contains-append w (service_ids services) (asked entries),
        ),
  )

  -- What the loop ends in.
  record Found (o : Option Search) : Type 0 where
    found : Search
    ends : o ≡ some found
    search : IsSearch found
    empty : found.queue ≡ []

  expand-Found :
      (fuel : ℕ) (s : Search)
      → work (universe entries services) s ≤ fuel
      → IsSearch s
      → Found (expand entries fuel s)
  expand-Found zero s h i = elim (List-cases s.queue) [
    | inl e ↦ record { found = s; ends = expand_done zero s e; search = i; empty = e }
    | inr (u, rest, e) ↦ absurd (omega (arith, visit-work s u rest e))
  ]
  expand-Found (suc fuel) s h i = elim (List-cases s.queue) [
    | inl e ↦ record { found = s; ends = expand_done (suc fuel) s e; search = i; empty = e }
    | inr (u, rest, e) ↦ rw (expand-visit fuel s u rest e) (
        expand-Found fuel (visit entries u rest s) (omega (arith, visit-work s u rest e))
          (visit-IsSearch s u rest e i))
  ]

  asked_root :
      (v : ℕ)
      → contains v (service_ids services) ≡ true
      → contains v (universe entries services) ≡ true
  asked_root v h = ground (arith, h, contains-append v (service_ids services) (asked entries))

  collect-Found : Found (collect_reachable entries services)
  unfolding collect_reachable
  collect-Found =
      let s : Search = record { reachable = []; queue = [] } in
      expand-Found (length (universe entries services)) (offer_all (service_ids services) s)
        (omega (
          arith,
          offer_all-work (universe entries services) (service_ids services) s asked_root,
          missing-le-length (universe entries services) [],
        ))
        start-IsSearch

  -- The search ends: fewer rounds than there are types asked for are enough.
  pub collect_terminates : (s : Search) × (collect_reachable entries services ≡ some s)
  collect_terminates = (collect-Found.found, collect-Found.ends)

  complete :
      (s : Search)
      → IsSearch s
      → s.queue ≡ []
      → {v : ℕ} → Reach entries services v
      → contains v s.reachable ≡ true
  complete s i e (root {v} h) = i.roots v h
  complete s i e (through {u} {v} r d) =
      ground (arith, i.closed u v (complete s i e r) d, ap (contains u) e)

  -- The set that the search ends with has just the types that a service asks for, or the provider of
  -- a type in it, and each of them once.
  pub collect_correct :
      (s : Search)
      → collect_reachable entries services ≡ some s
      → (v : ℕ)
      → ((contains v s.reachable ≡ true) ↔ Reach entries services v) × (count v s.reachable ≤ 1)
  collect_correct s h v =
      let f = collect-Found in
      let same : f.found ≡ s = ground (arith, f.ends, h) in
      subst
        (λ t.
          ((contains v t.reachable ≡ true) ↔ Reach entries services v) × (count v t.reachable ≤ 1))
        same ((f.search.sound v, complete f.found f.search f.empty), f.search.once v)
