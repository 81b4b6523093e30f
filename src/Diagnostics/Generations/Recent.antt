-- ===== src/Diagnostics/Generations/Recent.antt =====
-- The generations that are kept are the most recent ones.
use mathlib.Core.Path.{subst}
use service_daemon_rs.Prelude.{
  ℕ, ◌-◌, ◌<◌, ◌≡◌, ◌≢◌, refl, sym, ◌∙◌, Bool, true, false, not, ◌&&◌, List, [], ◌∷◌, arith, ◌==◌,
  leb, if◌then◌else◌, length, retain, min, Bool-cases, inl, inr,
}
use service_daemon_rs.Prelude.Sets.{contains}
use service_daemon_rs.Prelude.Sorting.{
  sort, take, if-Distinct, without_nothing, Distinct, without, length-without-sort, take-sort-lt,
  retain-Distinct, contains-retain,
}
use service_daemon_rs.Diagnostics.Generations.{
  Generations, generations_of, remove, remove_all, retain_recent_generations, inserted,
  register_generation, retained_generations_per_service,
}

-- Every service has each of its generations once, as the keys of a map do.
abbrev pub AreKeys : Generations → Type 0
AreKeys keys = (service : ℕ) → Distinct (generations_of service keys)

-- `before` is the map with the new generation, and `after` what is kept of it.
pub record IsRecent (service : ℕ) (before after : Generations) : Type 0 where
  pub kept :
      length (generations_of service after)
      ≡ min (length (generations_of service before)) retained_generations_per_service
  pub recent :
      (v w : ℕ)
      → contains v (generations_of service after) ≡ true
      → contains w (generations_of service before) ≡ true
      → contains w (generations_of service after) ≡ false
      → w < v
  pub from_before :
      (v : ℕ)
      → contains v (generations_of service after) ≡ true
      → contains v (generations_of service before) ≡ true
  pub still_keys : AreKeys after
  pub others :
      (other : ℕ) → other ≢ service → generations_of other after ≡ generations_of other before

of_remove :
    (service generation : ℕ) (keys : Generations)
    → generations_of service (remove service generation keys)
      ≡ retain (λ v. not (v == generation)) (generations_of service keys)
of_remove service generation [] = refl
of_remove service generation ((s, g) ∷ rest) = ground (arith, of_remove service generation rest)

other_remove :
    (other service generation : ℕ) (keys : Generations)
    → other ≢ service
    → generations_of other (remove service generation keys) ≡ generations_of other keys
other_remove other service generation [] n = refl
other_remove other service generation ((s, g) ∷ rest) n =
    ground (arith, other_remove other service generation rest n, n)

fuse :
    (g : ℕ) (gone xs : List ℕ)
    → without gone (retain (λ v. not (v == g)) xs) ≡ without (g ∷ gone) xs
fuse g gone [] = refl
fuse g gone (x ∷ xs) = ground (arith, fuse g gone xs)

of_remove_all :
    (service : ℕ) (gone : List ℕ) (keys : Generations)
    → generations_of service (remove_all service gone keys)
      ≡ without gone (generations_of service keys)
of_remove_all service [] keys = sym (without_nothing (generations_of service keys))
of_remove_all service (g ∷ gone) keys =
    rw (of_remove_all service gone (remove service g keys), of_remove service g keys)
      (fuse g gone (generations_of service keys))

other_remove_all :
    (other service : ℕ) (gone : List ℕ) (keys : Generations)
    → other ≢ service
    → generations_of other (remove_all service gone keys) ≡ generations_of other keys
other_remove_all other service [] keys n = refl
other_remove_all other service (g ∷ gone) keys n =
    other_remove_all other service gone (remove service g keys) n
    ∙ other_remove other service g keys n

own_inserted :
    (service generation : ℕ) (keys : Generations)
    → AreKeys keys
    → Distinct (generation ∷ generations_of service (remove service generation keys))
own_inserted service generation keys d =
    let is_new : ℕ → Bool = λ v. not (v == generation) in
    rw (of_remove service generation keys) (
      ground (arith, contains-retain generation is_new (generations_of service keys)),
      retain-Distinct is_new (generations_of service keys) (d service),
    )

remove-AreKeys :
    (service generation : ℕ) (keys : Generations)
    → AreKeys keys
    → AreKeys (remove service generation keys)
remove-AreKeys service generation keys d other = elim (Bool-cases (service == other)) [
  | inl e ↦
      subst (λ o. Distinct (generations_of o (remove service generation keys))) (ground (arith, e))
        (own_inserted service generation keys d).1
  | inr e ↦ rw (other_remove other service generation keys (ground (arith, e))) (d other)
]

remove_all-AreKeys :
    (service : ℕ) (gone : List ℕ) (keys : Generations)
    → AreKeys keys
    → AreKeys (remove_all service gone keys)
remove_all-AreKeys service [] keys d = d
remove_all-AreKeys service (g ∷ gone) keys d =
    remove_all-AreKeys service gone (remove service g keys) (remove-AreKeys service g keys d)

few-IsRecent :
    (service : ℕ) (keys : Generations)
    → AreKeys keys
    → leb (length (generations_of service keys)) retained_generations_per_service ≡ true
    → IsRecent service keys keys
few-IsRecent service keys d h = record {
  still_keys = d;
  kept = ground (arith, h);
  recent = λ v w a b c. absurd (ground (arith, b, c));
  from_before = λ v a. a;
  others = λ other n. refl;
}

many-IsRecent :
    (service : ℕ) (keys : Generations)
    → AreKeys keys
    → leb (length (generations_of service keys)) retained_generations_per_service ≡ false
    → let evict_count = length (generations_of service keys) - retained_generations_per_service in
      IsRecent service keys
        (remove_all service (take evict_count (sort (generations_of service keys))) keys)
many-IsRecent service keys d h =
    let xs = generations_of service keys in
    let k = length xs - retained_generations_per_service in
    let gone = take k (sort xs) in
    let of = of_remove_all service gone keys in
    let has : (v : ℕ) → contains v (without gone xs) ≡ (not (contains v gone) && contains v xs) =
      λ v. contains-retain v (λ x. not (contains x gone)) xs in
    record {
      kept = rw of (ground (arith, length-without-sort k xs (d service), h));
      recent = λ v w a b c.
          let inside = sym (has v) ∙ (rw of at a) in
          let outside = sym (has w) ∙ (rw of at c) in
          take-sort-lt k xs v w (d service) (ground (arith, outside, b)) (ground (arith, inside))
            (ground (arith, inside));
      from_before = λ v a. let inside = sym (has v) ∙ (rw of at a) in ground (arith, inside);
      still_keys = remove_all-AreKeys service gone keys d;
      others = λ other n. other_remove_all other service gone keys n;
    }

if-IsRecent :
    (b : Bool) (service : ℕ) (before x y : Generations)
    → (b ≡ true → IsRecent service before x)
    → (b ≡ false → IsRecent service before y)
    → IsRecent service before (if b then x else y)
if-IsRecent true service before x y p q = p refl
if-IsRecent false service before x y p q = q refl

inserted-AreKeys :
    (service generation : ℕ) (keys : Generations)
    → AreKeys keys
    → AreKeys (inserted service generation keys)
inserted-AreKeys service generation keys d other =
    if-Distinct (service == other) _ _
      (λ e.
        subst (λ o. Distinct (generation ∷ generations_of o (remove service generation keys)))
          (ground (arith, e)) (own_inserted service generation keys d))
      (λ e. rw (other_remove other service generation keys (ground (arith, e))) (d other))

-- Of a map with the new key, in which no service has a generation twice, registering a generation keeps
-- all generations of its service up to 1024 of them, and otherwise exactly 1024, which are more
-- recent than each one that goes. Nothing else comes in, the generations of the other services
-- stay, and the keys stay distinct.
pub register_generation-IsRecent :
    (service generation : ℕ) (keys : Generations)
    → AreKeys keys
    → IsRecent service
        (inserted service generation keys)
        (register_generation service generation keys)
unfolding register_generation retain_recent_generations
register_generation-IsRecent service generation keys d =
    let now = inserted service generation keys in
    if-IsRecent (leb (length (generations_of service now)) retained_generations_per_service) service
      now _ _ (few-IsRecent service now (inserted-AreKeys service generation keys d))
      (many-IsRecent service now (inserted-AreKeys service generation keys d))
