-- ===== src/TriggerRunner/Scaling/Saturation.antt =====
-- Saturated and idle runs of the scale monitor: how fast the limit grows, and where it falls to.
use service_daemon_rs.External.Float.{F64}
use service_daemon_rs.External.Semaphore.{Semaphore, Laws}
use service_daemon_rs.External.ServiceMap.{ServiceMap}
use service_daemon_rs.External.ServiceMap
use service_daemon_rs.TriggerRunner.Scaling.Monitor.{
  Runner, Monitor, shared, share, base_target, tick_alone, tick_store, on_tick, on_between, tick,
  Between, acts, calls, between, between_all, Round, round, rounds,
}
use service_daemon_rs.TriggerRunner.Scaling.Policies.{own, own-kept, some_eq, reconcile-generation}
use service_daemon_rs.TriggerRunner.Scaling.Raising.{
  IsUnhindered, take_expired-IsUnhindered, take_expired_same, reconcile_raises,
}
use service_daemon_rs.TriggerRunner.Scaling.Rounds.{
  MonitorIsSound, StoreIsSound, AreAllowed, between_all-IsSound, round-IsSound,
}
use service_daemon_rs.OverlayStore.{effective_concurrency_limit, reconcile_effective_concurrency}
use service_daemon_rs.OverlayStore.Ops.{step}
use service_daemon_rs.OverlayStore.Record.{
  TriggerPolicyOverlayRecord, take_expired_overlay, max_concurrency, reconcile,
}
use native.Mathlib.Nat.{mul_assoc, one-le-pow, pow-succ', pow-zero}
use service_daemon_rs.Prelude.{
  ℕ, ◌-◌, ◌*◌, ◌^◌, ◌≤◌, ◌≡◌, ap, sym, ◌∙◌, min, Option, none, some, List, [], ◌∷◌, arith, refl,
  Option-cases, length, le_total, inl, inr,
}
use service_daemon_rs.TriggerRunner.Gate.{Gate, act_all, Schedule}
use service_daemon_rs.TriggerRunner.Gate.Balance.{grow-limit}
use service_daemon_rs.TriggerRunner.Scaling.{scale_up_target, try_scale_up}
use service_daemon_rs.TriggerRunner.Scaling.Targets.{double-le-mul, scale_up_target_full}
use service_daemon_rs.TriggerRunner.Scaling.Gates.{IsSound, Fits}

le-mul_right : (m q : ℕ) → 1 ≤ q → m ≤ m * q
le-mul_right m q h = grind arith

le-mul_of_le : (m n q : ℕ) → 1 ≤ q → m ≤ n → m ≤ n * q
le-mul_of_le m n q h k = omega (arith, le-mul_right n q h)

min_cut : (a f q m : ℕ) → 1 ≤ q → min (min (a * f) m * q) m ≡ min (a * (f * q)) m
min_cut a f q m h = elim (le_total (a * f) m) [
  | inl small ↦
      ap (λ (n : ℕ). min (n * q) m) (cut small) ∙ ap (λ (n : ℕ). min n m) (mul_assoc a f q)
  | inr large ↦
      ap (λ (n : ℕ). min (n * q) m) (cut' large)
      ∙ omega (arith, le-mul_right m q h, le-mul_of_le m (a * f) q h large, mul_assoc a f q)
]
  where
    cut : a * f ≤ m → min (a * f) m ≡ a * f
    cut h = omega arith

    cut' : m ≤ a * f → min (a * f) m ≡ m
    cut' h = omega arith

module _ (F : F64) (S : Semaphore) (L : Laws S) (M : ServiceMap (TriggerPolicyOverlayRecord F S))
    (LM : ServiceMap.Laws M) (u : Runner) where
  open M use {Map, get, insert}
  open S use {available_permits}

  -- The record of the runner, where there is a store: it shares the gate.
  abbrev pub Shares : Gate S → Option Map → Type 0
  Shares gate none = Unit {0}
  Shares gate (some m) =
      (r : TriggerPolicyOverlayRecord F S) → own F S M LM u m ≡ some r → r.gate ≡ gate

  -- No store, or a record of the runner that nothing hinders.
  abbrev pub IsCalm : Option Map → Type 0
  IsCalm none = Unit {0}
  IsCalm (some m) =
      (r : TriggerPolicyOverlayRecord F S) × (own F S M LM u m ≡ some r) × IsUnhindered F S L r

  -- At every round no permit is free, no overlay sets a limit, and what came before the round has not
  -- changed the limit.
  abbrev pub AllBusy : Monitor F S M → List (Round F S M) → Type 0
  AllBusy w [] = Unit {0}
  AllBusy w ((now, before, sched) ∷ rs) =
      (available_permits (between_all F S M u w before).gate.semaphore ≡ 0)
      × IsCalm (between_all F S M u w before).policy_overlays
      × ((between_all F S M u w before).gate.current_limit ≡ w.gate.current_limit)
      × AllBusy (round F S M u w (now, before, sched)) rs

  shared-Shares : (m : Map) (g : Gate S) → Shares (shared F S M u m g) (some m)
  shared-Shares m g r e = rw e refl

  share-Shares : (m : Map) (g : Gate S) → Shares g (some (share F S M u g m))
  share-Shares m g r e = elim (Option-cases (own F S M LM u m)) [
    | inl missing ↦ cc (missing, rw missing at e)
    | inr (q, found) ↦
        let put : own F S M LM u (share F S M u g m) ≡ some (record q { gate = g }) =
          rw found (own-kept F S M LM u m (record q { gate = g }) q found refl) in
        ap (λ y. y.gate) (some_eq F S M LM u (sym e ∙ put))
  ]

  on_between-Shares :
      (g : Gate S) (o : Option Map) (b : Between F S M)
      → Shares g o
      → Shares (on_between F S M u g o b).0 (on_between F S M u g o b).1
  unfolding on_between
  on_between-Shares g none (acts done) h = tt
  on_between-Shares g none (calls op) h = tt
  on_between-Shares g (some m) (acts done) h = share-Shares m (act_all S g done)
  on_between-Shares g (some m) (calls op) h = shared-Shares (step F S M m op) g

  between_all-Shares :
      (w : Monitor F S M) (bs : List (Between F S M))
      → Shares w.gate w.policy_overlays
      → Shares (between_all F S M u w bs).gate (between_all F S M u w bs).policy_overlays
  unfolding between_all between
  between_all-Shares w [] h = h
  between_all-Shares w (b ∷ bs) h =
      between_all-Shares (between F S M u w b) bs (on_between-Shares w.gate w.policy_overlays b h)

  on_tick-Shares :
      (now : ℕ) (sched : Schedule S) (g : Gate S) (idle : Option ℕ) (o : Option Map)
      → let w = on_tick F S M u now sched g idle o in Shares w.gate w.policy_overlays
  unfolding on_tick
  on_tick-Shares now sched g idle none = tt
  on_tick-Shares now sched g idle (some m) = shared-Shares _ g

  round-Shares :
      (w : Monitor F S M) (r : Round F S M)
      → let w' = round F S M u w r in Shares w'.gate w'.policy_overlays
  unfolding round tick
  round-Shares w (now, before, sched) =
      let v = between_all F S M u w before in
      on_tick-Shares now sched v.gate v.idle_since v.policy_overlays

  own_maximum :
      (r : TriggerPolicyOverlayRecord F S)
      → r.base.scaling ≡ some u.scaling
      → max_concurrency F S r.base ≡ u.scaling.max_concurrency
  unfolding max_concurrency
  own_maximum r e = rw e refl

  full_target :
      (now : ℕ) (g : Gate S) (idle : Option ℕ)
      → Fits S L u.scaling
      → IsSound S L u.scaling g
      → available_permits g.semaphore ≡ 0
      → (base_target F S M u now u.scaling.max_concurrency g idle).0
        ≡ min (g.current_limit * u.scaling.scale_factor) u.scaling.max_concurrency
  unfolding base_target
  full_target now g idle f s busy = rw full (
      ground (
        arith,
        scale_up_target_full u.scaling g.current_limit f.valid s.positive s.within f.max_fits
            f.threshold_fits,
        s.positive,
      ))
    where
      full : g.current_limit - available_permits g.semaphore ≡ g.current_limit
      full = omega (arith, busy)

  busy_alone :
      (now : ℕ) (sched : Schedule S) (g : Gate S) (idle : Option ℕ)
      → Fits S L u.scaling
      → IsSound S L u.scaling g
      → available_permits g.semaphore ≡ 0
      → (tick_alone F S M u now sched g idle).0.current_limit
        ≡ min (g.current_limit * u.scaling.scale_factor) u.scaling.max_concurrency
  unfolding tick_alone try_scale_up
  busy_alone now sched g idle f s busy = rw full (
      ground (
        arith,
        scale_up_target_full u.scaling g.current_limit f.valid s.positive s.within f.max_fits
            f.threshold_fits,
        double-le-mul g.current_limit u.scaling.scale_factor f.valid.factor_grows,
        grow-limit S L
            (scale_up_target u.scaling g.current_limit g.current_limit u.scaling.max_concurrency) g,
      ))
    where
      full : g.current_limit - available_permits g.semaphore ≡ g.current_limit
      full = omega (arith, busy)

  -- The gate of the runner after a round with a store, by its record before.
  stored_gate :
      (now : ℕ) (sched : Schedule S) (m : Map) (g : Gate S) (idle : Option ℕ)
      (r : TriggerPolicyOverlayRecord F S)
      → own F S M LM u m ≡ some r
      → IsUnhindered F S L r
      → shared F S M u (tick_store F S M u now sched m g idle).0 g
        ≡ (reconcile F S now sched
            (base_target F S M u now u.scaling.max_concurrency g idle).0
            (take_expired_overlay F S now r)).gate
  unfolding tick_store
  stored_gate now sched m g idle r e k =
      let p = u.scaling in
      let r₁ = take_expired_overlay F S now r in
      let m₁ = insert m u.service_id r₁ in
      let target = (base_target F S M u now p.max_concurrency g idle).0 in
      let r₂ = reconcile F S now sched target r₁ in
      let free = take_expired-IsUnhindered F S L now r k in
      let read : effective_concurrency_limit F S M now m u.service_id u.generation p.max_concurrency
          ≡ (m₁, p.max_concurrency) =
        unfold effective_concurrency_limit in rw (e, free.unlimited) refl in
      let own₁ = own-kept F S M LM u m r₁ r e (take_expired_same F S L now r).2 in
      let set : (reconcile_effective_concurrency F S M now sched m₁ u.service_id u.generation
            target).0
          ≡ insert m₁ u.service_id r₂ =
        unfold reconcile_effective_concurrency in rw own₁ refl in
      let own₂ =
        own-kept F S M LM u m₁ r₂ r₁ own₁ (reconcile-generation F S M LM u now sched target r₁) in
      ap
        (λ (x : Map × ℕ).
          shared F S M u
            (reconcile_effective_concurrency F S M now sched x.0 u.service_id u.generation
              (base_target F S M u now x.1 g idle).0).0
            g)
        read
      ∙ ap (λ x. shared F S M u x g) set
      ∙ rw own₂ refl

  busy_on_tick :
      (now : ℕ) (sched : Schedule S) (g : Gate S) (idle : Option ℕ) (o : Option Map)
      → Fits S L u.scaling
      → IsSound S L u.scaling g
      → StoreIsSound F S L M LM u o
      → Shares g o
      → IsCalm o
      → available_permits g.semaphore ≡ 0
      → (on_tick F S M u now sched g idle o).gate.current_limit
        ≡ min (g.current_limit * u.scaling.scale_factor) u.scaling.max_concurrency
  unfolding on_tick
  busy_on_tick now sched g idle none f s h share calm busy = busy_alone now sched g idle f s busy
  busy_on_tick now sched g idle (some m) f s h share (r, e, free) busy =
      let target = (base_target F S M u now u.scaling.max_concurrency g idle).0 in
      let full = full_target now g idle f s busy in
      let more = double-le-mul g.current_limit u.scaling.scale_factor f.valid.factor_grows in
      let same : r.gate.current_limit ≡ g.current_limit = ap (λ x. x.current_limit) (share r e) in
      let bound = own_maximum r (h.1 r e) in
      ap (λ (x : Gate S). x.current_limit) (stored_gate now sched m g idle r e free)
      ∙ reconcile_raises F S L now sched target r free (omega (arith, full, more, same, s.within))
          (omega (arith, full, more, s.positive, f.valid.initial_positive, f.valid.initial_within))
          (omega (arith, full, bound))
      ∙ full

  busy_round :
      (w : Monitor F S M) (now : ℕ) (before : List (Between F S M)) (sched : Schedule S)
      (rs : List (Round F S M))
      → Fits S L u.scaling
      → AreAllowed F S L M LM u ((now, before, sched) ∷ rs)
      → MonitorIsSound F S L M LM u w
      → Shares w.gate w.policy_overlays
      → AllBusy w ((now, before, sched) ∷ rs)
      → (round F S M u w (now, before, sched)).gate.current_limit
        ≡ min (w.gate.current_limit * u.scaling.scale_factor) u.scaling.max_concurrency
  unfolding round tick
  busy_round w now before sched rs f a s share (busy, calm, same, later) =
      let v = between_all F S M u w before in
      let sound = between_all-IsSound F S L M LM u w before a.0 s in
      busy_on_tick now sched v.gate v.idle_since v.policy_overlays f sound.gate_sound
        sound.store_sound (between_all-Shares w before share) calm busy
      ∙ ap (λ (l : ℕ). min (l * u.scaling.scale_factor) u.scaling.max_concurrency) same

  -- While all permits are in use the limit grows by the factor each second, up to the maximum of the
  -- policy: where there is no store, or the runner's record in it shares the gate and at each round
  -- no overlay of it sets a limit and no restore of the base is pending, and where nothing but the
  -- monitor changes the limit.
  pub rounds_busy :
      (w : Monitor F S M) (rs : List (Round F S M))
      → Fits S L u.scaling
      → AreAllowed F S L M LM u rs
      → MonitorIsSound F S L M LM u w
      → Shares w.gate w.policy_overlays
      → AllBusy w rs
      → (rounds F S M u w rs).gate.current_limit
        ≡ min (w.gate.current_limit * u.scaling.scale_factor ^ length rs) u.scaling.max_concurrency
  unfolding rounds
  rounds_busy w [] f a s share busy = sym (
      ap (λ (n : ℕ). min (w.gate.current_limit * n) u.scaling.max_concurrency)
        (pow-zero u.scaling.scale_factor)
      ∙ cut)
    where
      cut : min (w.gate.current_limit * 1) u.scaling.max_concurrency ≡ w.gate.current_limit
      cut = omega (arith, s.gate_sound.within)
  rounds_busy w ((now, before, sched) ∷ rs) f a s share busy =
      let p = u.scaling in
      let w' = round F S M u w (now, before, sched) in
      let k = p.scale_factor ^ length rs in
      rounds_busy w' rs f a.1 (round-IsSound F S L M LM u w now before sched f a.0 s)
        (round-Shares w (now, before, sched)) busy.3
      ∙ ap (λ (l : ℕ). min (l * k) p.max_concurrency)
          (busy_round w now before sched rs f a s share busy)
      ∙ min_cut w.gate.current_limit p.scale_factor k p.max_concurrency
          (one-le-pow (length rs) p.scale_factor (omega (arith, f.valid.factor_grows)))
      ∙ ap (λ (n : ℕ). min (w.gate.current_limit * n) p.max_concurrency)
          (sym (pow-succ' p.scale_factor (length rs)))
