-- ===== src/TriggerRunner/Gate/Balance.antt =====
-- No permit is lost or made up: free permits and those in use add up to the limit, under every
-- interleaving of dispatches with the loop that revokes.
use service_daemon_rs.External.Semaphore.{Semaphore, Laws, Acquires, refused, granted, acquires}
use service_daemon_rs.Prelude.{
  ℕ, ◌-◌, zero, suc, ◌+◌, ◌≡◌, ◌≤◌, refl, none, some, List, [], ◌∷◌, arith, ◌∙◌, ap, sym,
}
use service_daemon_rs.TriggerRunner.Gate.{
  Gate, Act, takes, drops, act, act_all, Schedule, first, later, revoke, take_with, drop_with,
  shrink, grow,
}

module _ (S : Semaphore) (L : Laws S) where
  open S use {Sem, available_permits, add_permits, try_acquire}

  -- All permits that the semaphore was given and that were not forgotten.
  abbrev pub capacity : Gate S → ℕ
  capacity g = available_permits g.semaphore + g.held

  take_with-capacity : (g : Gate S) → Acquires S g.semaphore → capacity (act S g takes) ≡ capacity g
  unfolding act
  take_with-capacity g (refused e n) = rw (n, take_with)
  take_with-capacity g (granted t e c) = rw (e, take_with) (omega arith)

  drop_with-capacity : (g : Gate S) (n : ℕ) → g.held ≡ n → capacity (drop_with S g n) ≡ capacity g
  drop_with-capacity g zero e = refl
  drop_with-capacity g (suc n) e = omega (arith, L.available-add g.semaphore 1)

  act-capacity : (g : Gate S) (a : Act S) → capacity (act S g a) ≡ capacity g
  unfolding act
  act-capacity g takes = take_with-capacity g (acquires S L g.semaphore)
  act-capacity g drops = drop_with-capacity g g.held refl

  act-limit : (g : Gate S) (a : Act S) → (act S g a).current_limit ≡ g.current_limit
  unfolding act
  act-limit g takes = ground arith
  act-limit g drops = ground arith

  pub act_all-capacity :
      (g : Gate S) (acts : List (Act S)) → capacity (act_all S g acts) ≡ capacity g
  unfolding act_all
  act_all-capacity g [] = refl
  act_all-capacity g (a ∷ rest) = omega (arith, act_all-capacity (act S g a) rest, act-capacity g a)

  -- What the loop does: it forgets as many permits as it counts, at most `n`.
  pub record Revokes (n : ℕ) (g : Gate S) (r : Gate S × ℕ) : Type 0 where
    pub counted : capacity r.0 + r.1 ≡ capacity g
    pub within : r.1 ≤ n

  pub revoke-Revokes : (n : ℕ) (sched : Schedule S) (g : Gate S) → Revokes n g (revoke S n sched g)
  unfolding revoke
  revoke-Revokes zero sched g = record { counted = omega arith; within = omega arith }
  revoke-Revokes (suc n) sched g =
      let g' : Gate S = act_all S g (first S sched) in
      let rest = λ (s : Sem). revoke-Revokes n (later S sched) (record g' { semaphore = s }) in
      round g' (acquires S L g'.semaphore) (act_all-capacity g (first S sched)) rest
    where
      round :
          (g' : Gate S)
          → Acquires S g'.semaphore
          → capacity g' ≡ capacity g
          → ((s : Sem)
              → Revokes n
                  (record g' { semaphore = s })
                  (revoke S n (later S sched) (record g' { semaphore = s })))
          → Revokes (suc n) g (elim (try_acquire g'.semaphore) [
            | none ↦ (g', 0)
            | some s ↦
                let (g'', revoked) = revoke S n (later S sched) (record g' { semaphore = s }) in
                (g'', suc revoked)
          ])
      round g' (refused e none_left) same rest =
          rw none_left (record { counted = omega arith; within = omega arith })
      round g' (granted t e count) same rest = rw e (record {
        counted = omega (arith, (rest t).counted);
        within = omega (arith, (rest t).within);
      })

  -- Free permits and those in use add up to the limit.
  abbrev pub IsBalanced : Gate S → Type 0
  IsBalanced g = capacity g ≡ g.current_limit

  pub act_all-limit :
      (g : Gate S) (acts : List (Act S)) → (act_all S g acts).current_limit ≡ g.current_limit
  unfolding act_all
  act_all-limit g [] = refl
  act_all-limit g (a ∷ rest) = act_all-limit (act S g a) rest ∙ act-limit g a

  -- Dispatches that start and end keep the balance.
  pub act_all-IsBalanced :
      (g : Gate S) (acts : List (Act S)) → IsBalanced g → IsBalanced (act_all S g acts)
  act_all-IsBalanced g acts b = act_all-capacity g acts ∙ b ∙ sym (act_all-limit g acts)

  -- Shrinking keeps the balance whatever dispatches do meanwhile, and lowers the limit by at most
  -- what was asked for.
  pub shrink-IsBalanced :
      (n : ℕ) (sched : Schedule S) (g : Gate S)
      → IsBalanced g
      → IsBalanced (shrink S n sched g)
        × (g.current_limit - n ≤ (shrink S n sched g).current_limit)
        × ((shrink S n sched g).current_limit ≤ g.current_limit)
  unfolding shrink
  shrink-IsBalanced n sched g b =
      let r = revoke-Revokes n sched g in
      (omega (arith, r.counted), omega (arith, r.within), omega arith)

  pub grow-limit : (new_limit : ℕ) (g : Gate S) → (grow S new_limit g).current_limit ≡ new_limit
  unfolding grow
  grow-limit new_limit g = refl

  pub grow-held : (new_limit : ℕ) (g : Gate S) → (grow S new_limit g).held ≡ g.held
  unfolding grow
  grow-held new_limit g = refl

  pub grow-IsBalanced :
      (new_limit : ℕ) (g : Gate S)
      → g.current_limit ≤ new_limit
      → IsBalanced g
      → IsBalanced (grow S new_limit g)
  unfolding grow
  grow-IsBalanced new_limit g h b =
      omega (arith, L.available-add g.semaphore (new_limit - g.current_limit))

  revoke_undisturbed :
      (n : ℕ) (g : Gate S)
      → n ≤ available_permits g.semaphore
      → ((revoke S n [] g).1 ≡ n) × ((revoke S n [] g).0.held ≡ g.held)
  unfolding revoke act_all
  revoke_undisturbed zero g h = (refl, refl)
  revoke_undisturbed (suc n) g h =
      round (acquires S L g.semaphore) λ s. revoke_undisturbed n (record g { semaphore = s })
    where
      round :
          Acquires S g.semaphore
          → ((s : Sem)
              → n ≤ available_permits s
              → ((revoke S n [] (record g { semaphore = s })).1 ≡ n)
                × ((revoke S n [] (record g { semaphore = s })).0.held ≡ g.held))
          → ((revoke S (suc n) [] g).1 ≡ suc n) × ((revoke S (suc n) [] g).0.held ≡ g.held)
      round (refused e none_left) rest = absurd (omega arith)
      round (granted t e count) rest =
          rw (e, revoke) (ap suc (rest t (omega arith)).0, (rest t (omega arith)).1)

  -- With nobody else at work, shrinking by free permits lowers the limit by exactly that many.
  pub shrink_undisturbed :
      (n : ℕ) (g : Gate S)
      → n ≤ available_permits g.semaphore
      → ((shrink S n [] g).current_limit ≡ g.current_limit - n) × ((shrink S n [] g).held ≡ g.held)
  unfolding shrink
  shrink_undisturbed n g h =
      (ap (λ r. g.current_limit - r) (revoke_undisturbed n g h).0, (revoke_undisturbed n g h).1)
