-- ===== src/TriggerRunner/Gate.antt =====
-- The semaphore and the atomic limit that a `TriggerRunner` shares with its scale monitor and with the
-- overlay store, and the loop that revokes permits, which is the same code in
-- core/trigger_runner/scaling.rs (`try_scale_down`) and core/trigger_policy_overlay.rs.
pub mod Balance
use service_daemon_rs.External.Semaphore.{Semaphore}
use service_daemon_rs.Prelude.{
  ℕ, zero, suc, ◌-◌, ◌+◌, ◌≡◌, Option, none, some, List, [], ◌∷◌, Bool, ltb, if◌then◌else◌,
}

module _ (S : Semaphore) where
  open S use {Sem, available_permits, add_permits, try_acquire}

  -- `held` counts the permits that running dispatches own. No code reads it.
  pub record Gate : Type 0 where
    pub semaphore : Sem
    pub current_limit : ℕ
    pub held : ℕ

  -- What a dispatch does to the semaphore at any moment: it takes a permit, or drops its own.
  pub data Act : Type 0 where
    takes drops : Act

  abbrev take_with : Gate → Option Sem → Gate
  take_with g none = g
  take_with g (some s) = record g { semaphore = s; held = suc g.held }

  abbrev drop_with : Gate → ℕ → Gate
  drop_with g zero = g
  drop_with g (suc n) = record g { semaphore = add_permits g.semaphore 1; held = n }

  -- A `takes` with no free permit waits, and so does nothing; only an owner can drop.
  unfoldable pub act : Gate → Act → Gate
  act g takes = take_with g (try_acquire g.semaphore)
  act g drops = drop_with g g.held

  unfoldable pub act_all : Gate → List Act → Gate
  act_all g [] = g
  act_all g (a ∷ rest) = act_all (act g a) rest

  -- What other tasks do before each round of a loop; nothing once the list is used up.
  abbrev pub Schedule : Type 0
  Schedule = List (List Act)

  abbrev first : Schedule → List Act
  first [] = []
  first (acts ∷ rest) = acts

  abbrev later : Schedule → Schedule
  later [] = []
  later (acts ∷ rest) = rest

  -- `for _ in 0..n { match semaphore.try_acquire() { Ok(permit) => { permit.forget(); revoked += 1 }
  -- Err(_) => break } }`: the gate after the loop and the count.
  pub revoke : ℕ → Schedule → Gate → Gate × ℕ
  unfolding act act_all
  revoke zero sched g = (g, 0)
  revoke (suc n) sched g =
      let g' = act_all g (first sched) in
      elim (try_acquire g'.semaphore) [
        | none ↦ (g', 0)
        | some s ↦
            let (g'', revoked) = revoke n (later sched) (record g' { semaphore = s }) in
            (g'', suc revoked)
      ]

  -- The gate after a loop that forgot permits, with the new limit stored.
  unfoldable pub shrink : ℕ → Schedule → Gate → Gate
  unfolding revoke
  shrink to_revoke sched g =
      let (g', revoked) = revoke to_revoke sched g in
      record g' { current_limit = g.current_limit - revoked }

  -- `semaphore.add_permits(n)` and the store of the new limit.
  unfoldable pub grow : ℕ → Gate → Gate
  grow new_limit g = record g {
    semaphore = add_permits g.semaphore (new_limit - g.current_limit);
    current_limit = new_limit;
  }
