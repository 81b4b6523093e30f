-- ===== src/Examples/Providers.antt =====
-- The theorems on the initialisation of providers at concrete inputs.
use mathlib.Core.List.{Memᴰ}
use mathlib.Core.List.Memᴰ
use service_daemon_rs.Examples.Instances.{fixed}
use service_daemon_rs.External.Toposort.{Toposort, IsSorting}
use service_daemon_rs.Prelude.{
  ℕ, ◌<◌, ◌≤◌, ◌≡◌, refl, true, none, some, List, [], ◌∷◌, ◌++◌, length, ok, err, Result, is_some,
  arith, ◌↔◌, reverse, if◌then◌else◌, ◌==◌, ap,
}
use service_daemon_rs.Prelude.Sets.{contains, count, position}
use service_daemon_rs.Prelude.Recent.{last_n}
use service_daemon_rs.RuntimeFacts.{ServiceStatus}
use service_daemon_rs.Policy.Restart.{RestartPolicy}
use service_daemon_rs.ProviderInit.{
  ProviderError, ProviderInitError, ProviderInitFailure, ProviderInitSourceKind,
  ProviderInitBoundaryKind, ProviderRuntimePhase, cancelled_failure,
}
use service_daemon_rs.ProviderInit.Retry.{Attempt, InitCall, Polled, init_fallible_with_source}
use service_daemon_rs.ProviderInit.Retry.Deadline.{
  IsPunctual, init_fallible-IsPunctual, init_fallible_terminates,
}
use service_daemon_rs.ProviderInit.Retry.Report.{IsTold, init_fallible-IsTold}
use service_daemon_rs.ProviderInit.Boundary.{TaskContext, ProviderInitBoundaryContext}
use service_daemon_rs.ProviderInit.Boundary.Crossings.{
  Crossing, cross_all, failures_of, cross_all-last_n,
}
use service_daemon_rs.ProviderGraph.Validation.{
  dependency_graph, indices, validate_dependency_graph, cycle_error, link_services, link_providers,
  service_node, type_node, link_params,
}
use service_daemon_rs.ProviderGraph.Validation.Startup.{validated_startup_succeeds}
use service_daemon_rs.ProviderGraph.{
  ServiceParam, ProviderEntry, ServiceNode, Search, providers_by_id, collect_reachable, graph_nodes,
  graph_edges, offer_all, offer, expand, visit, edges_to, eager_targets,
}
use service_daemon_rs.ProviderGraph.Reachable.{Reach}
use service_daemon_rs.ProviderGraph.Reachable.Correct.{collect_correct}
use service_daemon_rs.ProviderGraph.Eager.{
  EagerInit, Initialiser, eager_init_reachable_providers, eager_init, init_in_order, init_one,
}
use service_daemon_rs.ProviderGraph.Eager.Initialised.{
  IsDue, eager_init_terminates, eager_init_once, eager_init_order,
}

abbrev policy : RestartPolicy ℕ
policy = record {
  initial_delay = 100;
  max_delay = 700;
  multiplier = 2_000_000_000;
  reset_after = 5000;
  jitter_factor = 0;
  wave_spawn_timeout = 500;
  provider_init_timeout = 1;
  wave_stop_timeout = 2000;
  trigger_max_retries = none;
}

-- A call at time 10 whose deadline is `timeout` later.
abbrev request : ℕ → InitCall fixed ℕ
request timeout = record {
  provider = 0x70 ∷ [];
  policy = record policy { provider_init_timeout = timeout };
  fatal_source = ProviderInitSourceKind.user_provider_fatal;
  retryable_timeout_source = ProviderInitSourceKind.user_provider_retryable_timeout;
  start = 10;
}

abbrev attempt : ℕ → Polled ℕ → Attempt fixed ℕ
attempt now polled = record {
  now = now;
  polled = polled;
  failed_at = now;
  slept = true;
  reported_at = now;
  draw = λ lo hi. lo;
}

abbrev failed : ℕ → Attempt fixed ℕ
failed now = attempt now (Polled.finished (err (ProviderError.retryable (0x65 ∷ []))))

abbrev succeeded : ℕ → Attempt fixed ℕ
succeeded now = attempt now (Polled.finished (ok 3))

init_fallible-IsPunctual_example :
    IsPunctual fixed ℕ
      (request 500)
      (init_fallible_with_source fixed ℕ (request 500) (failed 10 ∷ failed 200 ∷ failed 900 ∷ [])).0
init_fallible-IsPunctual_example =
    init_fallible-IsPunctual fixed ℕ (request 500) (failed 10 ∷ failed 200 ∷ failed 900 ∷ [])

init_fallible_terminates_example :
    is_some
      (init_fallible_with_source fixed ℕ (request 2) (failed 10 ∷ failed 11 ∷ failed 12 ∷ [])).1
    ≡ true
init_fallible_terminates_example =
    init_fallible_terminates fixed ℕ (request 2) (failed 10 ∷ failed 11 ∷ failed 12 ∷ [])
      (omega arith, (omega arith, (omega arith, tt))) (omega arith)

init_fallible-IsTold_example :
    IsTold fixed ℕ
      (request 500)
      (init_fallible_with_source fixed ℕ (request 500) (failed 10 ∷ failed 200 ∷ failed 900 ∷ [])).0
      (init_fallible_with_source fixed ℕ (request 500) (failed 10 ∷ failed 200 ∷ failed 900 ∷ [])).1
init_fallible-IsTold_example =
    init_fallible-IsTold fixed ℕ (request 500) (failed 10 ∷ failed 200 ∷ failed 900 ∷ [])

-- A task that reloads.
abbrev task : TaskContext
task = record {
  phase = some ProviderRuntimePhase.service_generation_resolve;
  state = ServiceStatus.need_reload;
  generation_diagnostics = none;
  daemon_diagnostics = some [];
}

abbrev context : ProviderInitBoundaryContext
context = record {
  provider = 0x70 ∷ [];
  phase = ProviderRuntimePhase.unknown;
  boundary = ProviderInitBoundaryKind.mutex_resolve;
}

abbrev own_context : ProviderInitBoundaryContext
own_context = record context { phase = ProviderRuntimePhase.framework_validation }

abbrev no_text : ProviderInitError → List ℕ
no_text error = []

abbrev cancelled : ProviderInitFailure
cancelled = cancelled_failure (0x70 ∷ [])

abbrev crossings : List (Crossing ℕ no_text)
crossings = (context, ok 1) ∷ (context, err cancelled) ∷ (own_context, err cancelled) ∷ []

cross_all-last_n_example :
    (cross_all ℕ no_text task crossings).daemon_diagnostics
    ≡ some (last_n 128 ([] ++ failures_of ℕ no_text task crossings))
cross_all-last_n_example = cross_all-last_n ℕ no_text task crossings [] refl

-- A pool needs a configuration, and a third provider is not asked for.
abbrev param : ℕ → ServiceParam
param type_id = record { type_id = type_id; type_name = [] }

abbrev config : ProviderEntry
config = record { name = []; type_id = 1; params = []; eager = true }

abbrev pool : ProviderEntry
pool = record { name = []; type_id = 2; params = param 1 ∷ []; eager = true }

abbrev unused : ProviderEntry
unused = record { name = []; type_id = 3; params = param 2 ∷ []; eager = true }

abbrev registry : List ProviderEntry
registry = unused ∷ pool ∷ config ∷ []

abbrev services : List ServiceNode
services = record { name = []; params = param 2 ∷ [] } ∷ []

abbrev found : Search
found = record { reachable = 2 ∷ 1 ∷ []; queue = [] }

search_found : collect_reachable (providers_by_id registry) services ≡ some found
unfolding collect_reachable offer_all offer expand visit providers_by_id
search_found = refl

collect_correct_example :
    ((contains 1 found.reachable ≡ true) ↔ Reach (providers_by_id registry) services 1)
    × (count 1 found.reachable ≤ 1)
collect_correct_example = collect_correct (providers_by_id registry) services found search_found 1

-- The graph of the validation has four nodes, that of the initialisation two.
abbrev backwards : Toposort
backwards nodes edges = if length nodes == 4 then ok (0 ∷ 2 ∷ 1 ∷ 3 ∷ []) else ok (reverse nodes)

abbrev reversed : Result (List ℕ) ℕ
reversed = ok (1 ∷ 2 ∷ [])

is_order : (order : List ℕ) → reversed ≡ ok order → order ≡ 1 ∷ 2 ∷ []
is_order order h = ground arith

only_edge :
    (a b : ℕ)
    → Memᴰ {A = ℕ × ℕ} (a, b) ((1, 2) ∷ [])
    → position a (1 ∷ 2 ∷ []) < position b (1 ∷ 2 ∷ [])
only_edge a b m =
    let e = Memᴰ.eq_of_singleton m in rw (ap (λ x. x.0) e, ap (λ x. x.1) e) (omega arith)

sorted :
    IsSorting backwards
      (graph_nodes (providers_by_id registry) found.reachable)
      (graph_edges (providers_by_id registry) found.reachable (providers_by_id registry))
unfolding graph_nodes graph_edges edges_to providers_by_id
sorted = record {
  ordered_nodes = λ h n. rw (is_order _ h) (ground arith);
  ordered_edges = λ h m. rw (is_order _ h) (only_edge _ _ m);
  cyclic = λ h. cc;
}

abbrev succeeds : Initialiser
succeeds phase calls entry task' = (task', ok tt)

abbrev whole : Result (List ℕ) ℕ
whole = ok (0 ∷ 2 ∷ 1 ∷ 3 ∷ [])

is_whole : (order : List ℕ) → whole ≡ ok order → order ≡ 0 ∷ 2 ∷ 1 ∷ 3 ∷ []
is_whole order h = ground arith

three_edges :
    (a b : ℕ)
    → Memᴰ {A = ℕ × ℕ} (a, b) ((1, 3) ∷ (2, 1) ∷ (0, 1) ∷ [])
    → position a (0 ∷ 2 ∷ 1 ∷ 3 ∷ []) < position b (0 ∷ 2 ∷ 1 ∷ 3 ∷ [])
three_edges a b (Memᴰ.head e) = rw (ap (λ x. x.0) e, ap (λ x. x.1) e) (omega arith)
three_edges a b (Memᴰ.tail (Memᴰ.head e)) = rw (ap (λ x. x.0) e, ap (λ x. x.1) e) (omega arith)
three_edges a b (Memᴰ.tail (Memᴰ.tail m)) =
    let e = Memᴰ.eq_of_singleton m in rw (ap (λ x. x.0) e, ap (λ x. x.1) e) (omega arith)

whole_sorted :
    IsSorting backwards
      (indices (length (dependency_graph services registry).labels))
      (dependency_graph services registry).edges
unfolding dependency_graph link_services link_providers service_node type_node link_params
whole_sorted = record {
  ordered_nodes = λ h n. rw (is_whole _ h) (ground arith);
  ordered_edges = λ h m. rw (is_whole _ h) (three_edges _ _ m);
  cyclic = λ h. cc;
}

abbrev no_description : List ℕ → List (List ℕ) → List ℕ
no_description label around = label

valid :
    (validate_dependency_graph no_text no_description backwards services registry task).1 ≡ ok tt
unfolding validate_dependency_graph cycle_error dependency_graph link_services link_providers
    service_node type_node link_params
valid = refl

validated_startup_succeeds_example :
    (e : EagerInit) × (eager_init_reachable_providers no_text succeeds backwards registry services
        task
      ≡ some e)
    × (e.result ≡ ok tt)
validated_startup_succeeds_example =
    validated_startup_succeeds no_text no_description succeeds backwards services registry task
      found search_found whole_sorted sorted valid (λ phase calls entry task'. refl)

-- Whoever initialises the pool finds it broken.
abbrev fails : Initialiser
fails phase calls entry task' =
    (task', if entry.type_id == 2 then err (ProviderInitError.cancelled []) else ok tt)

eager_init_terminates_example :
    (e : EagerInit) × (eager_init_reachable_providers no_text succeeds backwards registry services
        task
      ≡ some e)
eager_init_terminates_example =
    eager_init_terminates no_text succeeds backwards registry services task

abbrev ended : EagerInit
ended = record { task = task; calls = 1 ∷ 2 ∷ []; result = ok tt }

ends : eager_init_reachable_providers no_text succeeds backwards registry services task ≡ some ended
unfolding eager_init_reachable_providers collect_reachable offer_all offer expand visit
    providers_by_id eager_init eager_targets graph_nodes graph_edges edges_to init_in_order init_one
ends = refl

eager_init_once_example :
    (count 2 ended.calls ≤ 1)
    × (contains 2 ended.calls ≡ true → IsDue no_text succeeds backwards registry services task 2)
    × (ended.result ≡ ok tt
        → IsDue no_text succeeds backwards registry services task 2
        → contains 2 ended.calls ≡ true)
eager_init_once_example =
    eager_init_once no_text succeeds backwards registry services task found search_found sorted
      ended ends 2

eager_init_order_example : position 1 ended.calls < position 2 ended.calls
unfolding providers_by_id
eager_init_order_example =
    eager_init_order no_text succeeds backwards registry services task found search_found sorted
      ended ends 2 1 refl refl refl
