-- ===== src/Waves/Stops.antt =====
-- The order of the stops over the waves, and that every service is reached.
use service_daemon_rs.Prelude.{
  ℕ, suc, ◌+◌, ◌≤◌, ◌<◌, ◌≡◌, Bool, true, false, ◌&&◌, List, [], ◌∷◌, ◌++◌, All, arith,
  if◌then◌else◌,
}
use service_daemon_rs.Waves.{
  Service, Wave, Event, spawned, refused, signalled, ended, waited, daemon_cancelled, signal_wave,
  end_wave, stop_waves, stop_all_services, from_services,
}
use service_daemon_rs.Waves.Grouping.{
  HasPriority, Rises, count, count-append, members, from_services-Rises, from_services-count,
}

-- The services that a run signalled or saw end, in order.
abbrev pub touched : List Event → List Service
touched [] = []
touched (signalled s ∷ es) = s ∷ touched es
touched (ended s ∷ es) = s ∷ touched es
touched (spawned s ∷ es) = touched es
touched (refused s ∷ es) = touched es
touched (waited p ∷ es) = touched es
touched (daemon_cancelled ∷ es) = touched es

-- Priorities that never fall, from `lo`.
abbrev pub NeverFall : ℕ → List Service → Type 0
NeverFall lo [] = Unit {0}
NeverFall lo (s ∷ ss) = (lo ≤ s.priority) × NeverFall s.priority ss

weaken : (lo hi : ℕ) (ss : List Service) → NeverFall hi ss → lo ≤ hi → NeverFall lo ss
weaken lo hi [] n h = tt
weaken lo hi (s ∷ ss) (a, b) h = (omega arith, b)

signals-NeverFall :
    (lo p : ℕ) (ss : List Service) (es : List Event)
    → HasPriority p ss
    → lo ≤ p
    → NeverFall p (touched es)
    → NeverFall lo (touched (signal_wave ss ++ es))
unfolding signal_wave
signals-NeverFall lo p [] es h l n = weaken lo p (touched es) n l
signals-NeverFall lo p (s ∷ ss) es (e, hs) l n =
    (omega (arith, e), signals-NeverFall s.priority p ss es hs (omega (arith, e)) n)

kept_back {ℓ μ} :
    {A : Type ℓ} (P : A → Type μ) (b : Bool) {x y : A} → P x → P y → P (if b then x else y)
kept_back P true f g = f
kept_back P false f g = g

ends-NeverFall :
    (has_task : Service → Bool) (lo p : ℕ) (ss : List Service) (es : List Event)
    → HasPriority p ss
    → lo ≤ p
    → NeverFall p (touched es)
    → NeverFall lo (touched (end_wave has_task ss ++ es))
unfolding end_wave
ends-NeverFall has_task lo p [] es h l n = weaken lo p (touched es) n l
ends-NeverFall has_task lo p (s ∷ ss) es (e, hs) l n =
    kept_back (λ (fs : List Event). NeverFall lo (touched (fs ++ es))) (has_task s)
      (omega (arith, e), ends-NeverFall has_task s.priority p ss es hs (omega (arith, e)) n)
      (ends-NeverFall has_task lo p ss es hs l n)

stop_waves-NeverFall :
    (has_task : Service → Bool) (lo hi : ℕ) (ws : List Wave)
    → Rises lo hi ws
    → NeverFall lo (touched (stop_waves has_task ws))
unfolding stop_waves
stop_waves-NeverFall has_task lo hi [] r = tt
stop_waves-NeverFall has_task lo hi (w ∷ ws) (a, b, c, d) =
    let p = w.priority in
    let rest = stop_waves has_task ws in
    signals-NeverFall lo p w.services (end_wave has_task w.services ++ rest) c a (
      ends-NeverFall has_task p p w.services rest c (omega arith) (
        weaken p (suc p) (touched rest) (stop_waves-NeverFall has_task (suc p) hi ws d)
          (omega arith)))

-- The priorities of the services that are signalled or end never fall.
stop_all_services-NeverFall :
    (has_task : Service → Bool) (hi : ℕ) (services : List Service)
    → All (λ (s : Service). s.priority < hi) services
    → NeverFall 0 (touched (stop_all_services has_task services))
unfolding stop_all_services
stop_all_services-NeverFall has_task hi services h =
    stop_waves-NeverFall has_task 0 hi (from_services services) (from_services-Rises hi services h)

-- The services that a run signalled, and those that it saw end.
abbrev pub signals : List Event → List Service
signals [] = []
signals (signalled s ∷ es) = s ∷ signals es
signals (ended s ∷ es) = signals es
signals (spawned s ∷ es) = signals es
signals (refused s ∷ es) = signals es
signals (waited p ∷ es) = signals es
signals (daemon_cancelled ∷ es) = signals es

abbrev pub ends : List Event → List Service
ends [] = []
ends (signalled s ∷ es) = ends es
ends (ended s ∷ es) = s ∷ ends es
ends (spawned s ∷ es) = ends es
ends (refused s ∷ es) = ends es
ends (waited p ∷ es) = ends es
ends (daemon_cancelled ∷ es) = ends es

signal_wave-counts :
    (q : Service → Bool) (ss : List Service) (es : List Event)
    → (count q (signals (signal_wave ss ++ es)) ≡ count q ss + count q (signals es))
      × (count q (ends (signal_wave ss ++ es)) ≡ count q (ends es))
unfolding signal_wave
signal_wave-counts q [] es = (omega arith, omega arith)
signal_wave-counts q (s ∷ ss) es = ground (arith, signal_wave-counts q ss es)

end_wave-counts :
    (has_task q : Service → Bool) (ss : List Service) (es : List Event)
    → (count q (signals (end_wave has_task ss ++ es)) ≡ count q (signals es))
      × (count q (ends (end_wave has_task ss ++ es))
          ≡ count (λ s. has_task s && q s) ss + count q (ends es))
unfolding end_wave
end_wave-counts has_task q [] es = (omega arith, omega arith)
end_wave-counts has_task q (s ∷ ss) es = ground (arith, end_wave-counts has_task q ss es)

stop_waves-counts :
    (has_task q : Service → Bool) (ws : List Wave)
    → (count q (signals (stop_waves has_task ws)) ≡ count q (members ws))
      × (count q (ends (stop_waves has_task ws)) ≡ count (λ s. has_task s && q s) (members ws))
unfolding stop_waves
stop_waves-counts has_task q [] = (omega arith, omega arith)
stop_waves-counts has_task q (w ∷ ws) =
    let rest = stop_waves has_task ws in
    omega (
      arith,
      signal_wave-counts q w.services (end_wave has_task w.services ++ rest),
      end_wave-counts has_task q w.services rest,
      stop_waves-counts has_task q ws,
      count-append q w.services (members ws),
      count-append (λ s. has_task s && q s) w.services (members ws),
    )

stop_counts :
    (has_task q : Service → Bool) (services : List Service)
    → (count q (signals (stop_all_services has_task services)) ≡ count q services)
      × (count q (ends (stop_all_services has_task services))
          ≡ count (λ s. has_task s && q s) services)
unfolding stop_all_services
stop_counts has_task q services = omega (
  arith,
  stop_waves-counts has_task q (from_services services),
  from_services-count q services,
  from_services-count (λ s. has_task s && q s) services,
)

-- Stopping goes up in priority and leaves nothing out: the priorities of the services that are
-- signalled or end never fall; and of any kind of services as many are signalled as there are, and
-- as many end as there are with a task.
pub stop_all_services_complete :
    (has_task : Service → Bool) (hi : ℕ) (services : List Service)
    → All (λ (s : Service). s.priority < hi) services
    → NeverFall 0 (touched (stop_all_services has_task services))
      × ((q : Service → Bool)
          → (count q (signals (stop_all_services has_task services)) ≡ count q services)
            × (count q (ends (stop_all_services has_task services))
                ≡ count (λ s. has_task s && q s) services))
stop_all_services_complete has_task hi services h =
    (stop_all_services-NeverFall has_task hi services h, λ q. stop_counts has_task q services)
