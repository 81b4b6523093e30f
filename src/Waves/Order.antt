-- ===== src/Waves/Order.antt =====
-- The order of starts and stops over the waves, and that no service is left out.
use mathlib.Core.Path.{subst}
use mathlib.Core.List.{append-nil}
use service_daemon_rs.Prelude.{
  ℕ, suc, ◌≤◌, ◌<◌, ◌≡◌, refl, ◌∙◌, Bool, true, false, List, [], ◌∷◌, ◌++◌, reverse, All, arith,
  if◌then◌else◌,
}
use service_daemon_rs.Waves.{
  Service, Wave, Event, spawned, refused, signalled, ended, waited, daemon_cancelled, lacks_lane,
  spawn_wave, spawn_waves, spawn_all_services, from_services,
}
use service_daemon_rs.Waves.Grouping.{
  HasPriority, Falls, reverse-Falls, count, count-append, members, reverse-count,
  from_services-Rises, from_services-count,
}

-- The services that a run started, in order.
abbrev pub started : List Event → List Service
started [] = []
started (spawned s ∷ es) = s ∷ started es
started (refused s ∷ es) = started es
started (signalled s ∷ es) = started es
started (ended s ∷ es) = started es
started (waited p ∷ es) = started es
started (daemon_cancelled ∷ es) = started es

-- Priorities that never rise, below `hi`.
abbrev pub NeverRise : ℕ → List Service → Type 0
NeverRise hi [] = Unit {0}
NeverRise hi (s ∷ ss) = (s.priority < hi) × NeverRise (suc s.priority) ss

weaken : (lo hi : ℕ) (ss : List Service) → NeverRise lo ss → lo ≤ hi → NeverRise hi ss
weaken lo hi [] n h = tt
weaken lo hi (s ∷ ss) (a, b) h = (omega arith, b)

if_both {ℓ μ} :
    {A : Type ℓ} (P : A → Type μ) (b : Bool) {x y : A} → P x → P y → P (if b then x else y)
if_both P true f g = f
if_both P false f g = g

wave_started :
    (hp : Bool) (p hi : ℕ) (ss : List Service) (es : List Event)
    → HasPriority p ss
    → p < hi
    → NeverRise (suc p) (started es)
    → NeverRise hi (started ((spawn_wave hp ss).0 ++ es))
unfolding spawn_wave
wave_started hp p hi [] es h l n = weaken (suc p) hi (started es) n l
wave_started hp p hi (s ∷ ss) es (e, hs) l n =
    if_both (λ (r : List Event × Bool). NeverRise hi (started (r.0 ++ es))) (lacks_lane hp s)
      (weaken (suc p) hi (started es) n l)
      (omega (arith, e, l), wave_started hp p (suc s.priority) ss es hs (omega (arith, e)) n)

round_started :
    (hp : Bool) (hi : ℕ) (w : Wave) (rest : List Event)
    → w.priority < hi
    → HasPriority w.priority w.services
    → NeverRise w.priority (started rest)
    → let (events, finished) = spawn_wave hp w.services in
      NeverRise hi (started (if finished then events ++ waited w.priority ∷ rest else events))
round_started hp hi w rest a c n =
    let p = w.priority in
    if_both (λ (es : List Event). NeverRise hi (started es)) (spawn_wave hp w.services).1
      (wave_started hp p hi w.services (waited p ∷ rest) c a
        (weaken p (suc p) (started rest) n (omega arith)))
      (subst (λ (es : List Event). NeverRise hi (started es))
        (append-nil (spawn_wave hp w.services).0) (wave_started hp p hi w.services [] c a tt))

waves_started :
    (hp : Bool) (reads : List Bool) (hi lo : ℕ) (ws : List Wave)
    → Falls hi lo ws
    → NeverRise hi (started (spawn_waves hp reads ws))
unfolding spawn_waves
waves_started hp reads hi lo [] f = tt
waves_started hp [] hi lo (w ∷ ws) (a, b, c, d) =
    round_started hp hi w (spawn_waves hp [] ws) a c (waves_started hp [] w.priority lo ws d)
waves_started hp (is_cancelled ∷ reads) hi lo (w ∷ ws) (a, b, c, d) =
    if_both (λ (es : List Event). NeverRise hi (started es)) is_cancelled tt
      (round_started hp hi w (spawn_waves hp reads ws) a c
        (waves_started hp reads w.priority lo ws d))

-- Starting never goes up in priority: a service is started only after every service of a higher
-- priority that is started at all, whenever the start is interrupted.
pub spawn_all_services-NeverRise :
    (hp : Bool) (reads : List Bool) (hi : ℕ) (services : List Service)
    → All (λ (s : Service). s.priority < hi) services
    → NeverRise hi (started (spawn_all_services hp reads services))
unfolding spawn_all_services
spawn_all_services-NeverRise hp reads hi services h =
    waves_started hp reads hi 0 (reverse (from_services services))
      (reverse-Falls 0 hi (from_services services) (from_services-Rises hi services h))

started-append : (xs ys : List Event) → started (xs ++ ys) ≡ started xs ++ started ys
started-append [] ys = refl
started-append (x ∷ xs) ys = ground (arith, started-append xs ys)

abbrev pub HaveLanes : Bool → List Service → Type 0
HaveLanes hp ss = count (lacks_lane hp) ss ≡ 0

wave_complete :
    (hp : Bool) (q : Service → Bool) (ss : List Service)
    → HaveLanes hp ss
    → ((spawn_wave hp ss).1 ≡ true) × (count q (started (spawn_wave hp ss).0) ≡ count q ss)
unfolding spawn_wave
wave_complete hp q [] h = (refl, refl)
wave_complete hp q (s ∷ ss) h = ground (arith, wave_complete hp q ss)

waves_complete :
    (hp : Bool) (q : Service → Bool) (ws : List Wave)
    → HaveLanes hp (members ws)
    → count q (started (spawn_waves hp [] ws)) ≡ count q (members ws)
unfolding spawn_waves
waves_complete hp q [] h = refl
waves_complete hp q (w ∷ ws) h =
    let split = count-append (lacks_lane hp) w.services (members ws) in
    let (over, all) = wave_complete hp q w.services (omega (arith, split, h)) in
    let rest = spawn_waves hp [] ws in
    let events = (spawn_wave hp w.services).0 in
    ground (
      arith,
      over,
      all,
      started-append events (waited w.priority ∷ rest),
      count-append q (started events) (started rest),
      count-append q w.services (members ws),
      waves_complete hp q ws (omega (arith, split, h)),
    )

-- When no service lacks its lane and the daemon is not stopped meanwhile, every service is started,
-- and once: of any kind of services, as many are started as there are.
pub spawn_all_services_complete :
    (hp : Bool) (q : Service → Bool) (services : List Service)
    → HaveLanes hp services
    → count q (started (spawn_all_services hp [] services)) ≡ count q services
unfolding spawn_all_services
spawn_all_services_complete hp q services h =
    waves_complete hp q (reverse (from_services services)) (
      reverse-count (lacks_lane hp) (from_services services)
      ∙ from_services-count (lacks_lane hp) services
      ∙ h)
    ∙ reverse-count q (from_services services)
    ∙ from_services-count q services
