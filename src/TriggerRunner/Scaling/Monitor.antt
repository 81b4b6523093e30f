-- ===== src/TriggerRunner/Scaling/Monitor.antt =====
-- core/trigger_runner/scaling.rs: `spawn_scale_monitor`. With an overlay store the monitor reads its limit
-- from the store and lets the store set it; without one it sets the limit itself. A round reads the
-- clock once, and its calls of the store are not interrupted by other calls.
use service_daemon_rs.External.Float.{F64}
use service_daemon_rs.External.Semaphore.{Semaphore}
use service_daemon_rs.External.ServiceMap.{ServiceMap}
use service_daemon_rs.Prelude.{
  ℕ, Option, none, some, List, [], ◌∷◌, leb, if◌then◌else◌, unwrap_or, map_or,
}
use service_daemon_rs.Policy.Scaling.{ScalingPolicy}
use service_daemon_rs.TriggerRunner.Gate.{Gate, Schedule, Act, act_all}
use service_daemon_rs.TriggerRunner.Scaling.{
  scale_down_target, scale_up_target, in_flight, try_scale_down, try_scale_up,
}
use service_daemon_rs.OverlayStore.Record.{TriggerPolicyOverlayRecord}
use service_daemon_rs.OverlayStore.{
  record_for_generation, effective_concurrency_limit, reconcile_effective_concurrency,
}
use service_daemon_rs.OverlayStore.Ops.{Op, step}

-- What the monitor's task captures: the runner's service, its generation and the policy.
pub record Runner : Type 0 where
  pub service_id : ℕ
  pub generation : ℕ
  pub scaling : ScalingPolicy

module _ (F : F64) (S : Semaphore) (M : ServiceMap (TriggerPolicyOverlayRecord F S)) where
  open M use {Map, get, insert}

  -- The runner's semaphore and limit, its store, and `idle_since`.
  pub record Monitor : Type 0 where
    pub gate : Gate S
    pub policy_overlays : Option Map
    pub idle_since : Option ℕ

  -- The record of a generation shares the semaphore and the limit of its runner: what is written to
  -- the one is read from the other.
  abbrev pub shared : Runner → Map → Gate S → Gate S
  shared u m gate =
      map_or (record_for_generation F S M m u.service_id u.generation) gate λ r. r.gate

  abbrev pub share : Runner → Gate S → Map → Map
  share u gate m =
      map_or (record_for_generation F S M m u.service_id u.generation) m
        λ r. insert m u.service_id (record r { gate = gate })

  -- A round without a store, so that the effective maximum is the policy's.
  unfoldable pub tick_alone : Runner → ℕ → Schedule S → Gate S → Option ℕ → Gate S × Option ℕ
  unfolding try_scale_down try_scale_up
  tick_alone u now sched gate idle_since =
      if leb (in_flight S gate) 0
      then try_scale_down S u.scaling u.scaling.max_concurrency (some (unwrap_or idle_since now))
          now sched gate
      else (try_scale_up S u.scaling u.scaling.max_concurrency gate, none)

  -- The target that a round with a store asks for, and `idle_since` as it leaves it.
  unfoldable pub base_target : Runner → ℕ → ℕ → Gate S → Option ℕ → ℕ × Option ℕ
  base_target u now effective_max gate idle_since =
      if leb (in_flight S gate) 0
      then scale_down_target u.scaling gate.current_limit effective_max
          (some (unwrap_or idle_since now)) now
      else (scale_up_target u.scaling gate.current_limit (in_flight S gate) effective_max, none)

  -- A round with a store: the map after it, and `idle_since`.
  unfoldable pub tick_store : Runner → ℕ → Schedule S → Map → Gate S → Option ℕ → Map × Option ℕ
  unfolding base_target
  tick_store u now sched m gate idle_since =
      let (m', effective_max) =
        effective_concurrency_limit F S M now m u.service_id u.generation
          u.scaling.max_concurrency in
      let (target, idle) = base_target u now effective_max gate idle_since in
      (
        (reconcile_effective_concurrency F S M now sched m' u.service_id u.generation target).0,
        idle,
      )

  -- One round of `spawn_scale_monitor`, by whether there is a store.
  unfoldable pub on_tick : Runner → ℕ → Schedule S → Gate S → Option ℕ → Option Map → Monitor
  unfolding tick_alone tick_store
  on_tick u now sched gate idle_since none =
      let (gate', idle) = tick_alone u now sched gate idle_since in
      record { gate = gate'; policy_overlays = none; idle_since = idle }
  on_tick u now sched gate idle_since (some m) =
      let (m', idle) = tick_store u now sched m gate idle_since in
      record { gate = shared u m' gate; policy_overlays = some m'; idle_since = idle }

  unfoldable pub tick : Runner → ℕ → Schedule S → Monitor → Monitor
  unfolding on_tick
  tick u now sched w = on_tick u now sched w.gate w.idle_since w.policy_overlays

  -- What comes between two rounds: acts of the runner's dispatches, and calls of the store.
  pub data Between : Type 0 where
    acts : List (Act S) → Between
    calls : Op F S M → Between

  -- The gate and the store after it.
  unfoldable pub on_between : Runner → Gate S → Option Map → Between → Gate S × Option Map
  on_between u gate none (acts done) = (act_all S gate done, none)
  on_between u gate none (calls op) = (gate, none)
  on_between u gate (some m) (acts done) =
      let gate' = act_all S gate done in (gate', some (share u gate' m))
  on_between u gate (some m) (calls op) = let m' = step F S M m op in (shared u m' gate, some m')

  unfoldable pub between : Runner → Monitor → Between → Monitor
  unfolding on_between
  between u w b =
      let (gate, store) = on_between u w.gate w.policy_overlays b in
      record w { gate = gate; policy_overlays = store }

  unfoldable pub between_all : Runner → Monitor → List Between → Monitor
  unfolding between
  between_all u w [] = w
  between_all u w (b ∷ bs) = between_all u (between u w b) bs

  -- The clock at a round, what comes before it, and the acts of dispatches during it.
  abbrev pub Round : Type 0
  Round = ℕ × List Between × Schedule S

  unfoldable pub round : Runner → Monitor → Round → Monitor
  unfolding tick between_all
  round u w (now, before, sched) = tick u now sched (between_all u w before)

  -- The loop of `spawn_scale_monitor`, over the rounds of a run.
  unfoldable pub rounds : Runner → Monitor → List Round → Monitor
  unfolding round
  rounds u w [] = w
  rounds u w (r ∷ rs) = rounds u (round u w r) rs
