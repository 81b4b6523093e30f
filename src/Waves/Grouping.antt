-- ===== src/Waves/Grouping.antt =====
-- The waves of a list of services: ordered by priority, and with every service in its wave.
use mathlib.Core.List.{reverse-cons}
use service_daemon_rs.Prelude.{
  ℕ, suc, ◌+◌, ◌≤◌, ◌<◌, ◌≡◌, refl, ap, ◌∙◌, Bool, true, false, List, [], ◌∷◌, ◌++◌, reverse, All,
  All-append, arith, if◌then◌else◌, ltb, ◌==◌,
}
use service_daemon_rs.Waves.{Service, Wave, insert, insert_all, from_services}

-- The services of the waves have their waves' priority.
abbrev pub HasPriority : ℕ → List Service → Type 0
HasPriority p ss = All (λ (s : Service). s.priority ≡ p) ss

-- Waves of rising priority, from `lo` and below `hi`.
abbrev pub Rises : ℕ → ℕ → List Wave → Type 0
Rises lo hi [] = Unit {0}
Rises lo hi (w ∷ ws) =
    (lo ≤ w.priority)
    × (w.priority < hi)
    × HasPriority w.priority w.services
    × Rises (suc w.priority) hi ws

pick {μ} :
    (P : List Wave → Type μ) (a b : Bool) {x y z : List Wave}
    → (a ≡ true → P x)
    → (b ≡ true → P y)
    → (a ≡ false → b ≡ false → P z)
    → P (if a then x else if b then y else z)
pick P true b f g h = f refl
pick P false true f g h = g refl
pick P false false f g h = h refl refl

insert-Rises :
    (lo hi : ℕ) (s : Service) (ws : List Wave)
    → Rises lo hi ws
    → lo ≤ s.priority
    → s.priority < hi
    → Rises lo hi (insert s ws)
unfolding insert
insert-Rises lo hi s [] r l h = (l, h, (refl, tt), tt)
insert-Rises lo hi s (w ∷ ws) (a, b, c, d) l h =
    pick (Rises lo hi) (ltb s.priority w.priority) (s.priority == w.priority)
      (λ e. (l, h, (refl, tt), (ground arith, b, c, d)))
      (λ e. (a, b, All-append _ w.services (s ∷ []) c (ground arith, tt), d))
      (λ e f. (a, b, c, insert-Rises (suc w.priority) hi s ws d (ground arith) h))

insert_all-Rises :
    (hi : ℕ) (ws : List Wave) (ss : List Service)
    → Rises 0 hi ws
    → All (λ (s : Service). s.priority < hi) ss
    → Rises 0 hi (insert_all ws ss)
unfolding insert_all
insert_all-Rises hi ws [] r h = r
insert_all-Rises hi ws (s ∷ ss) r h =
    insert_all-Rises hi (insert s ws) ss (insert-Rises 0 hi s ws r (omega arith) h.0) h.1

-- Waves of falling priority, below `hi` and from `lo`.
abbrev pub Falls : ℕ → ℕ → List Wave → Type 0
Falls hi lo [] = Unit {0}
Falls hi lo (w ∷ ws) =
    (w.priority < hi)
    × (lo ≤ w.priority)
    × HasPriority w.priority w.services
    × Falls w.priority lo ws

append-Falls :
    (hi lo : ℕ) (ws : List Wave) (w : Wave)
    → Falls hi (suc w.priority) ws
    → w.priority < hi
    → lo ≤ w.priority
    → HasPriority w.priority w.services
    → Falls hi lo (ws ++ w ∷ [])
append-Falls hi lo [] w f h l p = (h, l, p, tt)
append-Falls hi lo (v ∷ ws) w (a, b, c, d) h l p =
    (a, omega arith, c, append-Falls v.priority lo ws w d (omega arith) l p)

pub reverse-Falls : (lo hi : ℕ) (ws : List Wave) → Rises lo hi ws → Falls hi lo (reverse ws)
reverse-Falls lo hi [] r = tt
reverse-Falls lo hi (w ∷ ws) (a, b, c, d) =
    rw (reverse-cons w ws)
      (append-Falls hi lo (reverse ws) w (reverse-Falls (suc w.priority) hi ws d) b a c)

abbrev pub count : (Service → Bool) → List Service → ℕ
count p [] = 0
count p (s ∷ ss) = let rest = count p ss in if p s then suc rest else rest

pub count-append :
    (p : Service → Bool) (xs ys : List Service) → count p (xs ++ ys) ≡ count p xs + count p ys
count-append p [] ys = omega arith
count-append p (x ∷ xs) ys = ground (arith, count-append p xs ys)

abbrev pub members : List Wave → List Service
members [] = []
members (w ∷ ws) = w.services ++ members ws

insert-count :
    (p : Service → Bool) (s : Service) (ws : List Wave)
    → count p (members (insert s ws)) ≡ count p (s ∷ []) + count p (members ws)
unfolding insert
insert-count p s [] = ground arith
insert-count p s (w ∷ ws) = ground (
  arith,
  count-append p w.services (members ws),
  count-append p w.services (members (insert s ws)),
  count-append p (w.services ++ s ∷ []) (members ws),
  count-append p w.services (s ∷ []),
  insert-count p s ws,
)

insert_all-count :
    (p : Service → Bool) (ws : List Wave) (ss : List Service)
    → count p (members (insert_all ws ss)) ≡ count p (members ws) + count p ss
unfolding insert_all
insert_all-count p ws [] = omega arith
insert_all-count p ws (s ∷ ss) =
    ground (arith, insert_all-count p (insert s ws) ss, insert-count p s ws)

members_append-count :
    (p : Service → Bool) (xs ys : List Wave)
    → count p (members (xs ++ ys)) ≡ count p (members xs) + count p (members ys)
members_append-count p [] ys = omega arith
members_append-count p (x ∷ xs) ys = omega (
  arith,
  count-append p x.services (members (xs ++ ys)),
  count-append p x.services (members xs),
  members_append-count p xs ys,
)

pub reverse-count :
    (p : Service → Bool) (ws : List Wave) → count p (members (reverse ws)) ≡ count p (members ws)
reverse-count p [] = refl
reverse-count p (w ∷ ws) =
    ap (λ (vs : List Wave). count p (members vs)) (reverse-cons w ws)
    ∙ omega (
      arith,
      members_append-count p (reverse ws) (w ∷ []),
      count-append p w.services [],
      count-append p w.services (members ws),
      reverse-count p ws,
    )

pub from_services-Rises :
    (hi : ℕ) (ss : List Service)
    → All (λ (s : Service). s.priority < hi) ss
    → Rises 0 hi (from_services ss)
from_services-Rises hi ss h = insert_all-Rises hi [] ss tt h

pub from_services-count :
    (p : Service → Bool) (ss : List Service) → count p (members (from_services ss)) ≡ count p ss
from_services-count p ss = omega (arith, insert_all-count p [] ss)
