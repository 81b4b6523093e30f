-- ===== src/ProviderGraph/Reachable.antt =====
-- What an offer and the offers of a provider's dependencies change of the search, and the types that
-- a service needs, as a relation.
pub mod Correct
use service_daemon_rs.Prelude.{
  ℕ, suc, ◌+◌, ◌≤◌, ◌≡◌, ap, ◌∙◌, true, false, ◌||◌, ◌==◌, ◌⊎◌, inl, List, [], ◌∷◌, ◌++◌, length,
  length-append, arith, if◌then◌else◌,
}
use service_daemon_rs.Prelude.Sets.{
  contains, contains-append, count, count-append, contains_iff_count,
}
use service_daemon_rs.ProviderGraph.{
  ProviderEntry, ServiceNode, Search, ids, service_ids, offer, offer_all, dependencies, asked,
}

-- The types of a list that a set lacks.
abbrev pub missing : List ℕ → List ℕ → ℕ
missing [] set = 0
missing (x ∷ xs) set = if contains x set then missing xs set else suc (missing xs set)

missing-append :
    (xs : List ℕ) (set : List ℕ) (v : ℕ) → missing xs (set ++ (v ∷ [])) ≤ missing xs set
missing-append [] set v = omega arith
missing-append (x ∷ xs) set v =
    ground (arith, missing-append xs set v, contains-append x set (v ∷ []))

missing-new :
    (xs : List ℕ) (set : List ℕ) (v : ℕ)
    → contains v xs ≡ true
    → contains v set ≡ false
    → suc (missing xs (set ++ (v ∷ []))) ≤ missing xs set
missing-new [] set v h n = cc
missing-new (x ∷ xs) set v h n =
    let absent : x ≡ v → contains x set ≡ false = λ e. ap (λ y. contains y set) e ∙ n in
    ground
      (arith, missing-append xs set v, missing-new xs set v, contains-append x set (v ∷ []), absent)

pub missing-le-length : (xs set : List ℕ) → missing xs set ≤ length xs
missing-le-length [] set = omega arith
missing-le-length (x ∷ xs) set = ground (arith, missing-le-length xs set)

module _ (all : List ℕ) where
  -- The rounds that are left at most.
  abbrev pub work : Search → ℕ
  work s = missing all s.reachable + length s.queue

  offer-work : (v : ℕ) (s : Search) → contains v all ≡ true → work (offer v s) ≤ work s
  unfolding offer
  offer-work v s h = ground (arith, missing-new all s.reachable v h, length-append s.queue (v ∷ []))

  pub offer_all-work :
      (vs : List ℕ) (s : Search)
      → ((v : ℕ) → contains v vs ≡ true → contains v all ≡ true)
      → work (offer_all vs s) ≤ work s
  unfolding offer_all
  offer_all-work [] s h = omega arith
  offer_all-work (v ∷ vs) s h = omega (
    arith,
    offer-work v s (h v (ground arith)),
    offer_all-work vs (offer v s) (λ w m. h w (ground (arith, m))),
  )

-- What the provider of a type asks for is asked for.
pub dependencies-asked :
    (entries : List ProviderEntry) (v w : ℕ)
    → contains w (dependencies entries v) ≡ true
    → contains w (asked entries) ≡ true
dependencies-asked [] v w h = cc
dependencies-asked (e ∷ entries) v w h =
    ground (arith, dependencies-asked entries v w, contains-append w (ids e.params) (asked entries))

-- What an offer changes.
offer-reachable :
    (v w : ℕ) (s : Search) → contains v (offer w s).reachable ≡ (contains v s.reachable || (w == v))
unfolding offer
offer-reachable v w s =
    let known : w ≡ v → contains w s.reachable ≡ contains v s.reachable =
      λ e. ap (λ y. contains y s.reachable) e in
    ground (arith, contains-append v s.reachable (w ∷ []), known)

pub offer_all-reachable :
    (v : ℕ) (ws : List ℕ) (s : Search)
    → contains v (offer_all ws s).reachable ≡ (contains v s.reachable || contains v ws)
unfolding offer_all
offer_all-reachable v [] s = ground arith
offer_all-reachable v (w ∷ ws) s =
    ground (arith, offer_all-reachable v ws (offer w s), offer-reachable v w s)

-- The facts of a search that an offer keeps, over the set that it began with.
pub record Grows (s t : Search) : Type 0 where
  pub stays : (v : ℕ) → contains v s.queue ≡ true → contains v t.queue ≡ true
  pub arrives :
      (v : ℕ)
      → contains v t.queue ≡ true
      → (contains v s.queue ≡ true) ⊎ (contains v t.reachable ≡ true)
  pub queues :
      (v : ℕ)
      → contains v t.reachable ≡ true
      → (contains v s.reachable ≡ true) ⊎ (contains v t.queue ≡ true)
  pub keeps : (v : ℕ) → contains v s.reachable ≡ true → contains v t.reachable ≡ true
  pub once : (v : ℕ) → count v s.reachable ≤ 1 → count v t.reachable ≤ 1

offer-Grows : (w : ℕ) (s : Search) → Grows s (offer w s)
unfolding offer
offer-Grows w s = record {
  stays = λ v h. ground (arith, contains-append v s.queue (w ∷ []));
  arrives = λ v h.
      ground (arith, contains-append v s.queue (w ∷ []), contains-append v s.reachable (w ∷ []));
  queues = λ v h.
      ground (arith, contains-append v s.queue (w ∷ []), contains-append v s.reachable (w ∷ []));
  keeps = λ v h. ground (arith, contains-append v s.reachable (w ∷ []));
  once = λ v h.
      let known : w ≡ v → contains w s.reachable ≡ contains v s.reachable =
        λ e. ap (λ y. contains y s.reachable) e in
      ground (arith, count-append v s.reachable (w ∷ []), contains_iff_count v s.reachable, known);
}

pub offer_all-Grows : (ws : List ℕ) (s : Search) → Grows s (offer_all ws s)
unfolding offer_all
offer_all-Grows [] s = record {
  stays = λ v h. h;
  arrives = λ v h. inl h;
  queues = λ v h. inl h;
  keeps = λ v h. h;
  once = λ v h. h;
}
offer_all-Grows (w ∷ ws) s =
    let one = offer-Grows w s in
    let more = offer_all-Grows ws (offer w s) in
    record {
      stays = λ v h. more.stays v (one.stays v h);
      arrives = λ v h. ground (arith, more.arrives v h, one.arrives v, more.keeps v);
      queues = λ v h. ground (arith, more.queues v h, one.queues v, more.stays v);
      keeps = λ v h. more.keeps v (one.keeps v h);
      once = λ v h. more.once v (one.once v h);
    }

-- A type that a service asks for, or the provider of one that is reached.
pub data Reach (entries : List ProviderEntry) (services : List ServiceNode) : ℕ → Type 0 where
  root : {v : ℕ} → contains v (service_ids services) ≡ true → Reach entries services v
  through :
      {u v : ℕ}
      → Reach entries services u
      → contains v (dependencies entries u) ≡ true
      → Reach entries services v
