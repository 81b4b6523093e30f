-- ===== src/TriggerRunner/Scaling/Rounds.antt =====
-- Rounds of the scale monitor, with dispatches between them and during them, and with calls of the store
-- between them.
use service_daemon_rs.External.Float.{F64}
use service_daemon_rs.External.Semaphore.{Semaphore, Laws}
use service_daemon_rs.External.ServiceMap.{ServiceMap}
use service_daemon_rs.External.ServiceMap
use service_daemon_rs.Prelude.{
  none, ◌≡◌, All, Option-cases, inl, inr, ℕ, Option, some, List, [], ◌∷◌, arith, unwrap_or,
}
use service_daemon_rs.TriggerRunner.Gate.{Gate, act_all, Schedule}
use service_daemon_rs.TriggerRunner.Scaling.Monitor.{
  Runner, Monitor, shared, share, tick_alone, tick_store, on_tick, on_between, tick, Between, acts,
  calls, between, between_all, Round, round, rounds,
}
use service_daemon_rs.TriggerRunner.Scaling.Policies.{
  own, HasPolicy, IsForeign, put-HasPolicy, reconciles-HasPolicy, reads_limit-HasPolicy,
  step-HasPolicy,
}
use service_daemon_rs.OverlayStore.Record.{TriggerPolicyOverlayRecord, max_concurrency}
use service_daemon_rs.OverlayStore.Limits
use service_daemon_rs.OverlayStore.Invariant.{
  AllSound, IsAdmissible, insert-AllSound, reconciles-AllSound, reads_limit-AllSound, step-AllSound,
}
use service_daemon_rs.OverlayStore.Ops.{step}
use service_daemon_rs.TriggerRunner.Scaling.Gates.{
  IsSound, Fits, try_scale_down-IsSound, try_scale_up-IsSound, act_all-IsSound,
}

module _ (F : F64) (S : Semaphore) (L : Laws S) (M : ServiceMap (TriggerPolicyOverlayRecord F S))
    (LM : ServiceMap.Laws M) (u : Runner) where
  open M use {Map, get, insert}

  -- The store of a monitor: its records are sound, and that of the runner has the runner's policy.
  abbrev pub StoreIsSound : Option Map → Type 0
  StoreIsSound none = Unit {0}
  StoreIsSound (some m) = AllSound F S L M LM m × HasPolicy F S M LM u m

  pub record MonitorIsSound (w : Monitor F S M) : Type 0 where
    pub gate_sound : IsSound S L u.scaling w.gate
    pub store_sound : StoreIsSound w.policy_overlays

  -- What comes between two rounds: triggers are registered soundly, and no other as this one.
  abbrev pub IsAllowed : Between F S M → Type 0
  IsAllowed (acts done) = Unit {0}
  IsAllowed (calls op) = IsAdmissible F S L M LM op × IsForeign F S M LM u op

  abbrev pub AreAllowed : List (Round F S M) → Type 0
  AreAllowed [] = Unit {0}
  AreAllowed ((now, before, sched) ∷ rs) = All IsAllowed before × AreAllowed rs

  gate_of :
      (r : TriggerPolicyOverlayRecord F S)
      → Limits.IsSound F S L r
      → r.base.scaling ≡ some u.scaling
      → IsSound S L u.scaling r.gate
  unfolding max_concurrency
  gate_of r s e = record {
    balanced = s.balanced;
    positive = s.positive;
    within = ground (arith, s.within, e);
  }

  with_gate :
      (r : TriggerPolicyOverlayRecord F S) (g : Gate S)
      → Limits.IsSound F S L r
      → r.base.scaling ≡ some u.scaling
      → IsSound S L u.scaling g
      → Limits.IsSound F S L (record r { gate = g })
  unfolding max_concurrency
  with_gate r g s e k = record {
    base_valid = s.base_valid;
    balanced = k.balanced;
    positive = k.positive;
    within = ground (arith, k.within, e);
    overlay_within = s.overlay_within;
  }

  found_of :
      (m : Map) (r : TriggerPolicyOverlayRecord F S)
      → own F S M LM u m ≡ some r
      → get m u.service_id ≡ some r
  found_of m r e = ground (arith, e)

  shared-IsSound :
      (m : Map) (g : Gate S)
      → AllSound F S L M LM m
      → HasPolicy F S M LM u m
      → IsSound S L u.scaling g
      → IsSound S L u.scaling (shared F S M u m g)
  shared-IsSound m g a h s = elim (Option-cases (own F S M LM u m)) [
    | inl e ↦ rw e s
    | inr (r, e) ↦ rw e (gate_of r (a u.service_id r (found_of m r e)) (h r e))
  ]

  share-IsSound :
      (m : Map) (g : Gate S)
      → AllSound F S L M LM m
      → HasPolicy F S M LM u m
      → IsSound S L u.scaling g
      → StoreIsSound (some (share F S M u g m))
  share-IsSound m g a h s = elim (Option-cases (own F S M LM u m)) [
    | inl e ↦ rw e (a, h)
    | inr (r, e) ↦ rw e (
      insert-AllSound F S L M LM m u.service_id _ a
          (with_gate r g (a u.service_id r (found_of m r e)) (h r e) s),
      put-HasPolicy F S M LM u m u.service_id _ h λ same own_generation. h r e,
    )
  ]

  tick_alone-IsSound :
      (now : ℕ) (sched : Schedule S) (g : Gate S) (idle : Option ℕ)
      → Fits S L u.scaling
      → IsSound S L u.scaling g
      → IsSound S L u.scaling (tick_alone F S M u now sched g idle).0
  unfolding tick_alone
  tick_alone-IsSound now sched g idle f s = ground (
    arith,
    try_scale_down-IsSound S L u.scaling (some (unwrap_or idle now)) now sched g f s,
    try_scale_up-IsSound S L u.scaling g f s,
  )

  tick_store-IsSound :
      (now : ℕ) (sched : Schedule S) (m : Map) (g : Gate S) (idle : Option ℕ)
      → AllSound F S L M LM m
      → HasPolicy F S M LM u m
      → StoreIsSound (some (tick_store F S M u now sched m g idle).0)
  unfolding tick_store
  tick_store-IsSound now sched m g idle a h = (
    reconciles-AllSound F S L M LM now sched _ u.service_id u.generation _ (
        reads_limit-AllSound F S L M LM now m u.service_id u.generation u.scaling.max_concurrency
          a),
    reconciles-HasPolicy F S M LM u now sched _ u.service_id u.generation _ (
        reads_limit-HasPolicy F S M LM u now m u.service_id u.generation u.scaling.max_concurrency
          h),
  )

  on_tick-IsSound :
      (now : ℕ) (sched : Schedule S) (g : Gate S) (idle : Option ℕ) (o : Option Map)
      → Fits S L u.scaling
      → IsSound S L u.scaling g
      → StoreIsSound o
      → MonitorIsSound (on_tick F S M u now sched g idle o)
  unfolding on_tick
  on_tick-IsSound now sched g idle none f s h = record {
    gate_sound = tick_alone-IsSound now sched g idle f s;
    store_sound = tt;
  }
  on_tick-IsSound now sched g idle (some m) f s (a, h) =
      let kept = tick_store-IsSound now sched m g idle a h in
      record { gate_sound = shared-IsSound _ g kept.0 kept.1 s; store_sound = kept }

  tick-IsSound :
      (now : ℕ) (sched : Schedule S) (w : Monitor F S M)
      → Fits S L u.scaling
      → MonitorIsSound w
      → MonitorIsSound (tick F S M u now sched w)
  unfolding tick
  tick-IsSound now sched w f s =
      on_tick-IsSound now sched w.gate w.idle_since w.policy_overlays f s.gate_sound s.store_sound

  on_between-IsSound :
      (g : Gate S) (o : Option Map) (b : Between F S M)
      → IsAllowed b
      → IsSound S L u.scaling g
      → StoreIsSound o
      → IsSound S L u.scaling (on_between F S M u g o b).0
        × StoreIsSound (on_between F S M u g o b).1
  unfolding on_between
  on_between-IsSound g none (acts done) k s h = (act_all-IsSound S L u.scaling g done s, tt)
  on_between-IsSound g none (calls op) k s h = (s, tt)
  on_between-IsSound g (some m) (acts done) k s (a, h) =
      let s' = act_all-IsSound S L u.scaling g done s in
      (s', share-IsSound m (act_all S g done) a h s')
  on_between-IsSound g (some m) (calls op) k s (a, h) =
      let a' = step-AllSound F S L M LM m op a k.0 in
      let h' = step-HasPolicy F S M LM u m op h k.1 in
      (shared-IsSound (step F S M m op) g a' h' s, (a', h'))

  between-IsSound :
      (w : Monitor F S M) (b : Between F S M)
      → IsAllowed b
      → MonitorIsSound w
      → MonitorIsSound (between F S M u w b)
  unfolding between
  between-IsSound w b k s =
      let kept = on_between-IsSound w.gate w.policy_overlays b k s.gate_sound s.store_sound in
      record { gate_sound = kept.0; store_sound = kept.1 }

  pub between_all-IsSound :
      (w : Monitor F S M) (bs : List (Between F S M))
      → All IsAllowed bs
      → MonitorIsSound w
      → MonitorIsSound (between_all F S M u w bs)
  unfolding between_all
  between_all-IsSound w [] h s = s
  between_all-IsSound w (b ∷ bs) h s =
      between_all-IsSound (between F S M u w b) bs h.1 (between-IsSound w b h.0 s)

  pub round-IsSound :
      (w : Monitor F S M) (now : ℕ) (before : List (Between F S M)) (sched : Schedule S)
      → Fits S L u.scaling
      → All IsAllowed before
      → MonitorIsSound w
      → MonitorIsSound (round F S M u w (now, before, sched))
  unfolding round
  round-IsSound w now before sched f h s =
      tick-IsSound now sched (between_all F S M u w before) f (between_all-IsSound w before h s)

  -- Over any run of the monitor, with a store or without one, with acts of dispatches between the
  -- rounds and during them and calls of the store between them, the limit stays between 1 and the
  -- maximum of the policy, and free permits and those in use add up to it. The policy is valid, its
  -- numbers fit their 64 bits, the gate and the store are sound at the start, and no other trigger
  -- is registered for the runner's service and generation.
  pub rounds-IsSound :
      (w : Monitor F S M) (rs : List (Round F S M))
      → Fits S L u.scaling
      → AreAllowed rs
      → MonitorIsSound w
      → MonitorIsSound (rounds F S M u w rs)
  unfolding rounds
  rounds-IsSound w [] f h s = s
  rounds-IsSound w ((now, before, sched) ∷ rs) f h s =
      rounds-IsSound (round F S M u w (now, before, sched)) rs f h.1
        (round-IsSound w now before sched f h.0 s)
