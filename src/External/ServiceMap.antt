-- ===== src/External/ServiceMap.antt =====
-- `dashmap::DashMap` keyed by service ids: `get`, `insert` and `remove_if`, with what its
-- documentation says of each.
use service_daemon_rs.Prelude.{ℕ, ◌≡◌, Bool, ◌&&◌, Option, none, some, ◌==◌, if◌then◌else◌, is_some}

pub record ServiceMap (V : Type 0) : Type 1 where
  pub Map : Type 0
  pub empty : Map
  pub get : Map → ℕ → Option V
  pub insert : Map → ℕ → V → Map
  -- The map and the entry that was removed.
  pub remove_if : Map → ℕ → (V → Bool) → Map × Option V

-- An entry that passes a test.
abbrev pub matching {ℓ} : {V : Type ℓ} → (V → Bool) → Option V → Option V
matching p none = none
matching p (some v) = if p v then some v else none

module _ {V : Type 0} (M : ServiceMap V) where
  open M use {Map, empty, get, insert, remove_if}

  pub record Laws : Type 0 where
    pub get-empty : (k : ℕ) → get empty k ≡ none
    pub get-insert :
        (m : Map) (k j : ℕ) (v : V) → get (insert m k v) j ≡ (if k == j then some v else get m j)
    pub removed : (m : Map) (k : ℕ) (p : V → Bool) → (remove_if m k p).1 ≡ matching p (get m k)
    pub get-remove_if :
        (m : Map) (k j : ℕ) (p : V → Bool)
        → get (remove_if m k p).0 j
          ≡ (if (k == j) && is_some (matching p (get m k)) then none else get m j)
