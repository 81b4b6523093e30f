-- ===== src/Diagnostics/Generations.antt =====
-- core/diagnostics.rs: which generations `DiagnosticsStore` keeps. The map of the generations is the list of
-- its keys, a service and a generation each; what it holds of a generation is left to the counters.
pub mod Recent
use service_daemon_rs.Prelude.{
  ℕ, ◌-◌, Bool, not, ◌&&◌, List, [], ◌∷◌, ◌==◌, leb, if◌then◌else◌, length, retain,
}
use service_daemon_rs.Prelude.Sorting.{sort, take}

abbrev pub retained_generations_per_service : ℕ
retained_generations_per_service = 1024

-- The keys of `DashMap<(ServiceId, u64), _>`, in the order of its iteration.
abbrev pub Generations : Type 0
Generations = List (ℕ × ℕ)

-- The `filter_map` of `retain_recent_generations`.
abbrev pub generations_of : ℕ → Generations → List ℕ
generations_of service [] = []
generations_of service ((entry_service, generation) ∷ rest) =
    let others = generations_of service rest in
    if entry_service == service then generation ∷ others else others

-- `DashMap::remove`.
abbrev pub remove : ℕ → ℕ → Generations → Generations
remove service generation keys =
    retain (λ key. not ((key.0 == service) && (key.1 == generation))) keys

-- The last loop of `retain_recent_generations`.
abbrev pub remove_all : ℕ → List ℕ → Generations → Generations
remove_all service [] keys = keys
remove_all service (generation ∷ rest) keys =
    remove_all service rest (remove service generation keys)

unfoldable pub retain_recent_generations : ℕ → Generations → Generations
retain_recent_generations service keys =
    let generations = generations_of service keys in
    if leb (length generations) retained_generations_per_service
    then keys
    else let evict_count = length generations - retained_generations_per_service in
      remove_all service (take evict_count (sort generations)) keys

-- `DashMap::insert`, which replaces the entry of an equal key.
abbrev pub inserted : ℕ → ℕ → Generations → Generations
inserted service generation keys = (service, generation) ∷ remove service generation keys

-- `DiagnosticsStore::register_generation`, its map of the generations.
unfoldable pub register_generation : ℕ → ℕ → Generations → Generations
unfolding retain_recent_generations
register_generation service generation keys =
    retain_recent_generations service (inserted service generation keys)
