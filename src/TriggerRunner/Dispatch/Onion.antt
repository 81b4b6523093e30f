-- ===== src/TriggerRunner/Dispatch/Onion.antt =====
-- The order of the interceptors in a chain.
use mathlib.Core.List.{reverse_aux}
use service_daemon_rs.Prelude.{◌≡◌, refl, ap, List, [], ◌∷◌}
use service_daemon_rs.TriggerRunner.Dispatch.{wrap, build_chain}

module _ {ℓ κ} {C : Type ℓ} {R : Type κ} where
  -- The interceptors around the handler, the first one outermost.
  abbrev pub onion : List (C → (C → R) → R) → (C → R) → C → R
  onion [] handler ctx = handler ctx
  onion (interceptor ∷ rest) handler ctx = interceptor ctx (onion rest handler)

  wrap-reverse_aux :
      (is last : List (C → (C → R) → R)) (handler : C → R)
      → wrap (reverse_aux is last) handler ≡ wrap last (onion is handler)
  wrap-reverse_aux [] last handler = refl
  wrap-reverse_aux (i ∷ is) last handler = wrap-reverse_aux is (i ∷ last) handler

  -- The chain calls the interceptors in the order in which they are given, each of them with the
  -- rest of the chain as what comes next, and the handler last.
  pub build_chain-onion :
      (interceptors : List (C → (C → R) → R)) (handler : C → R) (ctx : C)
      → build_chain interceptors handler ctx ≡ onion interceptors handler ctx
  unfolding build_chain
  build_chain-onion interceptors handler ctx =
      ap (λ chain. chain ctx) (wrap-reverse_aux interceptors [] handler)
