-- ===== src/Examples/Instances.antt =====
-- Fixed-point numbers, a counter of permits and a map by a function, with their laws.
use service_daemon_rs.External.Float
use service_daemon_rs.External.Float.{F64}
use service_daemon_rs.External.Semaphore
use service_daemon_rs.External.Semaphore.{Semaphore}
use service_daemon_rs.External.ServiceMap
use service_daemon_rs.External.ServiceMap.{ServiceMap, matching}
use service_daemon_rs.Prelude.{
  ℕ, zero, suc, ◌+◌, ◌*◌, ◌/◌, ◌≡◌, refl, min, max, true, false, Option, none, some, ltb, leb, ◌==◌,
  ◌&&◌, if◌then◌else◌, is_some, arith, ◌≤◌,
}

-- A number is a count of billionths.
abbrev pub fixed : F64
fixed = record {
  Num = ℕ;
  zero_value = 0;
  one_value = 1_000_000_000;
  two_value = 2_000_000_000;
  tenth_value = 100_000_000;
  mul = λ a b. a * b / 1_000_000_000;
  add = λ a b. a + b;
  neg = λ a. 0;
  lt = ltb;
  le = leb;
  is_finite = λ a. true;
  clamp = λ x lo hi. min (max x lo) hi;
  as_secs = λ d. d;
  try_from_secs = λ s. some s;
}

clamp_upper : (x : ℕ) → leb (min (max x 0) 1_000_000_000) 1_000_000_000 ≡ true
clamp_upper x = ground arith

le_false : (x : ℕ) → ltb 0 x ≡ true → leb x 0 ≡ false
le_false x h = ground arith

clamp_lower : (x : ℕ) → leb 0 (min (max x 0) 1_000_000_000) ≡ true
clamp_lower x = ground arith

pub fixed_laws : Float.Laws fixed
fixed_laws = record {
  one_finite = refl;
  zero_finite = refl;
  one_positive = refl;
  two_finite = refl;
  two_positive = refl;
  tenth_finite = refl;
  zero-le-tenth = refl;
  tenth-le-one = refl;
  zero-le-zero = refl;
  zero-le-one = refl;
  clamp_finite = λ x h. refl;
  clamp_lower = λ x h. clamp_lower x;
  clamp_upper = λ x h. clamp_upper x;
  le_false = le_false;
}

abbrev take_one : ℕ → Option ℕ
take_one zero = none
take_one (suc n) = some n

abbrev pub counting : Semaphore
counting = record {
  Sem = ℕ;
  available_permits = λ n. n;
  add_permits = λ n k. n + k;
  try_acquire = take_one;
}

take_one-none : (n : ℕ) → n ≡ 0 → take_one n ≡ none
take_one-none n e = ground arith

take_one-some : (n : ℕ) → suc zero ≤ n → (m : ℕ) × (take_one n ≡ some m) × (n ≡ suc m)
take_one-some zero h = elim h [ ]
take_one-some (suc n) h = (n, refl, refl)

pub counting_laws : Semaphore.Laws counting
counting_laws = record {
  available-add = λ s n. refl;
  acquire_none = take_one-none;
  acquire_some = take_one-some;
}

abbrev pub function_map : (V : Type 0) → ServiceMap V
function_map V = record {
  Map = ℕ → Option V;
  empty = λ k. none;
  get = λ m k. m k;
  insert = λ m k v j. if k == j then some v else m j;
  remove_if = λ m k p.
      (λ j. if (k == j) && is_some (matching p (m k)) then none else m j, matching p (m k));
}

pub function_map_laws : (V : Type 0) → ServiceMap.Laws (function_map V)
function_map_laws V = record {
  get-empty = λ k. refl;
  get-insert = λ m k j v. refl;
  removed = λ m k p. refl;
  get-remove_if = λ m k j p. refl;
}
