-- ===== src/Examples/Waves.antt =====
-- The theorems on waves at concrete inputs.
use service_daemon_rs.Prelude.{ℕ, Bool, false, List, [], ◌∷◌, leb, arith, ◌≡◌, ◌&&◌}
use service_daemon_rs.Diagnostics.{ServiceScheduling}
use service_daemon_rs.Waves.{Service, spawn_all_services, stop_all_services}
use service_daemon_rs.Waves.Order.{started, NeverRise, spawn_all_services-NeverRise}
use service_daemon_rs.Waves.Stops.{NeverFall, touched, signals, ends, stop_all_services_complete}
use service_daemon_rs.Waves.Grouping.{count}

abbrev service : ℕ → ℕ → Service
service id priority = record {
  id = id;
  priority = priority;
  scheduling = ServiceScheduling.standard;
}

abbrev services : List Service
services = service 1 50 ∷ service 2 100 ∷ service 3 50 ∷ service 4 0 ∷ []

abbrev early : Service → Bool
early s = leb s.id 2

spawn_all_services-NeverRise_example :
    NeverRise 256 (started (spawn_all_services false (false ∷ []) services))
spawn_all_services-NeverRise_example =
    spawn_all_services-NeverRise false (false ∷ []) 256 services
      (omega arith, (omega arith, (omega arith, (omega arith, tt))))

stop_all_services_complete_example :
    let events = stop_all_services early services in
    NeverFall 0 (touched events)
    × ((q : Service → Bool)
        → (count q (signals events) ≡ count q services)
          × (count q (ends events) ≡ count (λ s. early s && q s) services))
stop_all_services_complete_example =
    stop_all_services_complete early 256 services
      (omega arith, (omega arith, (omega arith, (omega arith, tt))))
