-- ===== src/OverlayStore/Requests.antt =====
-- When the store accepts a request or a clear, and what it then holds.
use service_daemon_rs.External.Float.{F64}
use service_daemon_rs.External.Semaphore.{Semaphore}
use service_daemon_rs.External.ServiceMap.{ServiceMap}
use service_daemon_rs.Prelude.{
  ℕ, ◌≤◌, ◌≡◌, refl, ◌↔◌, sym, ap, ◌∙◌, Result, err, map_err, ◌+◌, Option, none, some, arith, ok,
  >>=-eq-ok,
}
use service_daemon_rs.Policy.Overlay.{validate_reason, TriggerPolicyOverlay, validate_shape}
use service_daemon_rs.Policy.Overlay.Shape.{IsWellShaped, validate_shape-ok_iff}
use service_daemon_rs.OverlayStore.Record.{
  TriggerPolicyOverlayRecord, accept, validate_overlay_bounds, max_concurrency,
}
use service_daemon_rs.OverlayStore.{
  RequestFailure, instant_add, instant_max, or_unavailable, record_for_generation, request_overlay,
  clear_overlay, List, clear, validate_reason,
}

-- A sum of an instant is one that can be represented.
instant_add-eq-ok :
    (now duration sum : ℕ)
    → instant_add now duration ≡ ok sum
    → (now + duration ≤ instant_max) × (sum ≡ now + duration)
unfolding instant_add
instant_add-eq-ok now duration sum h = (ground (arith, h), ground (arith, h))

ok-eq : {A E : Type 0} (a b : A) (r : Result A E) → r ≡ ok a → r ≡ ok b → a ≡ b
ok-eq a b r h k = cc

map_err-ok : {A E E' : Type 0} (f : E → E') (r : Result A E) (a : A) → map_err f r ≡ ok a → r ≡ ok a
map_err-ok f (ok b) a h = ground (arith, h)
map_err-ok f (err e) a h = cc

module _ (F : F64) (S : Semaphore) (M : ServiceMap (TriggerPolicyOverlayRecord F S)) where
  open M use {Map, get, insert, remove_if}

  -- The limit that an overlay asks for is not above the trigger's maximum.
  abbrev pub LimitAllowed : ℕ → Option ℕ → Type 0
  LimitAllowed bound none = Unit {0}
  LimitAllowed bound (some limit) = limit ≤ bound

  -- What a request needs of the map and of the overlay, and the map that it makes.
  pub record Accepted (now : ℕ) (m : Map) (k g : ℕ) (o : TriggerPolicyOverlay F) (m' : Map)
      : Type 0 where
    pub found : TriggerPolicyOverlayRecord F S
    pub is_found : record_for_generation F S M m k g ≡ some found
    pub well_shaped : IsWellShaped F o
    pub allowed : LimitAllowed (max_concurrency F S found.base) o.concurrency_limit
    pub representable : now + o.ttl ≤ instant_max
    pub result : m' ≡ insert m k (accept F S (now + o.ttl) o found)

  bounds_iff :
      (r : TriggerPolicyOverlayRecord F S) (o : TriggerPolicyOverlay F)
      → (validate_overlay_bounds F S r o ≡ ok tt)
        ↔ LimitAllowed (max_concurrency F S r.base) o.concurrency_limit
  unfolding validate_overlay_bounds
  bounds_iff r o = (λ h. ground arith, λ h. ground arith)

  or_unavailable-eq :
      (o : Option (TriggerPolicyOverlayRecord F S)) (r : TriggerPolicyOverlayRecord F S)
      → or_unavailable F S M o ≡ ok r
      → o ≡ some r
  or_unavailable-eq none r h = cc
  or_unavailable-eq (some q) r h = ground arith

  request_inversion :
      (now : ℕ) (m : Map) (k g : ℕ) (o : TriggerPolicyOverlay F) (m' : Map)
      → request_overlay F S M now m k g o ≡ ok m'
      → Accepted now m k g o m'
  unfolding request_overlay
  request_inversion now m k g o m' h =
      let found = or_unavailable F S M (record_for_generation F S M m k g) in
      let (u, shape, h₁) = >>=-eq-ok (map_err RequestFailure.rejected (validate_shape F o)) _ h in
      let (r, is, h₂) = >>=-eq-ok (map_err RequestFailure.rejected found) _ h₁ in
      let (v, bounds, h₃) =
        >>=-eq-ok (map_err RequestFailure.rejected (validate_overlay_bounds F S r o)) _ h₂ in
      let (end, sum, h₄) = >>=-eq-ok (instant_add now o.ttl) _ h₃ in
      let (fits, same) = instant_add-eq-ok now o.ttl end sum in
      record {
        found = r;
        is_found =
            or_unavailable-eq (record_for_generation F S M m k g) r
              (map_err-ok RequestFailure.rejected found r is);
        well_shaped =
            (validate_shape-ok_iff F o).0
              (map_err-ok RequestFailure.rejected (validate_shape F o) tt shape);
        allowed =
            (bounds_iff r o).0
              (map_err-ok RequestFailure.rejected (validate_overlay_bounds F S r o) tt bounds);
        representable = fits;
        result =
            sym (ok-eq _ m' (ok (insert m k (accept F S end o r))) refl h₄)
            ∙ ap (λ (e : ℕ). insert m k (accept F S e o r)) same;
      }

  request-Accepted :
      (now : ℕ) (m : Map) (k g : ℕ) (o : TriggerPolicyOverlay F) (m' : Map)
      → Accepted now m k g o m'
      → request_overlay F S M now m k g o ≡ ok m'
  unfolding request_overlay
  request-Accepted now m k g o m' a = rw (shape, a.is_found, bounds, adds) (ap ok (sym a.result))
    where
      shape : validate_shape F o ≡ ok tt
      shape = (validate_shape-ok_iff F o).1 a.well_shaped

      bounds : validate_overlay_bounds F S a.found o ≡ ok tt
      bounds = (bounds_iff a.found o).1 a.allowed

      adds : instant_add now o.ttl ≡ ok (now + o.ttl)
      adds = unfold instant_add in ground (arith, a.representable)

  -- A request succeeds exactly when the overlay is well shaped, the service's record is of the
  -- caller's generation, the limit is allowed and its end is a time that can be represented; the map then holds the overlay in that record.
  pub request_overlay-ok_iff :
      (now : ℕ) (m : Map) (k g : ℕ) (o : TriggerPolicyOverlay F) (m' : Map)
      → (request_overlay F S M now m k g o ≡ ok m') ↔ Accepted now m k g o m'
  request_overlay-ok_iff now m k g o m' =
      (request_inversion now m k g o m', request-Accepted now m k g o m')

  -- A clear succeeds on a record of the caller's generation only, and takes its overlay away.
  pub clear_inversion :
      (m : Map) (k g : ℕ) (reason : List ℕ) (m' : Map)
      → clear_overlay F S M m k g reason ≡ ok m'
      → (r : TriggerPolicyOverlayRecord F S) × (record_for_generation F S M m k g ≡ some r)
        × (m' ≡ insert m k (clear F S r))
  unfolding clear_overlay
  clear_inversion m k g reason m' h =
      let (u, inked, h₁) = >>=-eq-ok (validate_reason reason) _ h in
      let (r, is, h₂) = >>=-eq-ok (or_unavailable F S M (record_for_generation F S M m k g)) _ h₁ in
      (r, or_unavailable-eq (record_for_generation F S M m k g) r is, ground arith)
