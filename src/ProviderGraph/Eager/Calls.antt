-- ===== src/ProviderGraph/Eager/Calls.antt =====
-- The calls of the loop over the order.
use mathlib.Core.List.{append-nil, append_assoc}
use service_daemon_rs.External.Toposort.{Toposort}
use service_daemon_rs.Prelude.{
  ℕ, ◌≡◌, refl, ap, sym, ◌∙◌, true, false, inl, inr, List, [], ◌∷◌, ◌++◌, retain, arith, ok, err,
  Bool-cases, Result-cases, Option-cases,
}
use service_daemon_rs.Prelude.Sets.{contains}
use service_daemon_rs.ProviderInit.{ProviderInitError, ProviderRuntimePhase}
use service_daemon_rs.ProviderInit.Boundary.{TaskContext}
use service_daemon_rs.ProviderGraph.{get, ProviderEntry, is_provider}
use service_daemon_rs.ProviderGraph.Eager.{EagerInit, Initialiser, init_one, init_in_order}

-- Initialisers that all succeed.
abbrev pub Willing : Initialiser → Type 0
Willing init =
    (phase : ProviderRuntimePhase) (calls : List ℕ) (entry : ProviderEntry) (task : TaskContext)
    → (init phase calls entry task).1 ≡ ok tt

module _ (to_string : ProviderInitError → List ℕ) (init : Initialiser) (toposort : Toposort)
    (entries : List ProviderEntry) where
  -- The calls that a run over an order adds: the targets in their order, up to the last or to one that
  -- fails.
  pub record Ran (targets order : List ℕ) (s t : EagerInit) : Type 0 where
    pub made : List ℕ
    pub left : List ℕ
    pub in_order : retain (λ v. contains v targets) order ≡ made ++ left
    pub called : t.calls ≡ s.calls ++ made
    pub all : t.result ≡ ok tt → left ≡ []

  init_one_calls :
      (v : ℕ) (s : EagerInit)
      → is_provider entries v ≡ true
      → (init_one to_string init toposort entries v s).calls ≡ s.calls ++ (v ∷ [])
  unfolding init_one
  init_one_calls v s h = ground (arith, h)

  init_one-ok :
      (v : ℕ) (s : EagerInit)
      → is_provider entries v ≡ true
      → Willing init
      → (init_one to_string init toposort entries v s).result ≡ ok tt
  unfolding init_one
  init_one-ok v s h w = elim (Option-cases (get v entries)) [
    | inl none_found ↦ ground (arith, h, none_found)
    | inr (e, found) ↦
        rw (found, init_one) (w ProviderRuntimePhase.startup_eager_init s.calls e s.task)
  ]

  skips :
      (targets order : List ℕ) (v : ℕ) (s : EagerInit)
      → contains v targets ≡ false
      → init_in_order to_string init toposort entries targets (v ∷ order) s
        ≡ init_in_order to_string init toposort entries targets order s
  unfolding init_in_order
  skips targets order v s h = ground (arith, h)

  goes_on :
      (targets order : List ℕ) (v : ℕ) (s : EagerInit)
      → contains v targets ≡ true
      → (init_one to_string init toposort entries v s).result ≡ ok tt
      → init_in_order to_string init toposort entries targets (v ∷ order) s
        ≡ init_in_order to_string init toposort entries targets order
            (init_one to_string init toposort entries v s)
  unfolding init_in_order
  goes_on targets order v s h g = ground (arith, h, g)

  stops :
      (targets order : List ℕ) (v : ℕ) (s : EagerInit) (e : ProviderInitError)
      → contains v targets ≡ true
      → (init_one to_string init toposort entries v s).result ≡ err e
      → init_in_order to_string init toposort entries targets (v ∷ order) s
        ≡ init_one to_string init toposort entries v s
  unfolding init_in_order
  stops targets order v s e h g = ground (arith, h, g)

  pub init_in_order-Ran :
      (targets order : List ℕ) (s : EagerInit)
      → ((v : ℕ) → contains v targets ≡ true → is_provider entries v ≡ true)
      → s.result ≡ ok tt
      → Ran targets order s (init_in_order to_string init toposort entries targets order s)
  unfolding init_in_order
  init_in_order-Ran targets [] s p h = record {
    made = [];
    left = [];
    in_order = refl;
    called = sym (append-nil s.calls);
    all = λ e. refl;
  }
  init_in_order-Ran targets (v ∷ order) s p h = elim (Bool-cases (contains v targets)) [
    | inr out ↦
        let rest = init_in_order-Ran targets order s p h in
        rw (skips targets order v s out) record {
          made = rest.made;
          left = rest.left;
          in_order = ground (arith, out, rest.in_order);
          called = rest.called;
          all = rest.all;
        }
    | inl target ↦ elim (Result-cases (init_one to_string init toposort entries v s).result) [
      | inl (done, good) ↦
          let rest =
            init_in_order-Ran targets order (init_one to_string init toposort entries v s) p good in
          let one = init_one_calls v s (p v target) in
          rw (goes_on targets order v s target good) record {
            made = v ∷ rest.made;
            left = rest.left;
            in_order = ground (arith, target, rest.in_order);
            called =
                rest.called
                ∙ ap (λ l. l ++ rest.made) one
                ∙ append_assoc s.calls (v ∷ []) rest.made;
            all = rest.all;
          }
      | inr (e, bad) ↦ rw (stops targets order v s e target bad) record {
        made = v ∷ [];
        left = retain (λ w. contains w targets) order;
        in_order = ground (arith, target);
        called = init_one_calls v s (p v target);
        all = λ good. ground (arith, bad, good);
      }
    ]
  ]

  -- Where every initialiser succeeds, so does the run.
  pub init_in_order-ok :
      (targets order : List ℕ) (s : EagerInit)
      → ((v : ℕ) → contains v targets ≡ true → is_provider entries v ≡ true)
      → Willing init
      → s.result ≡ ok tt
      → (init_in_order to_string init toposort entries targets order s).result ≡ ok tt
  unfolding init_in_order
  init_in_order-ok targets [] s p w h = h
  init_in_order-ok targets (v ∷ order) s p w h = elim (Bool-cases (contains v targets)) [
    | inr out ↦ rw (skips targets order v s out) (init_in_order-ok targets order s p w h)
    | inl target ↦
        let good = init_one-ok v s (p v target) w in
        rw (goes_on targets order v s target good)
          (init_in_order-ok targets order (init_one to_string init toposort entries v s) p w good)
  ]
