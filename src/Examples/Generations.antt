-- ===== src/Examples/Generations.antt =====
-- The theorem on the generations that the diagnostics keep at a concrete input.
use service_daemon_rs.Prelude.{ℕ, zero, suc, []}
use service_daemon_rs.Diagnostics.Generations.{Generations, inserted, register_generation}
use service_daemon_rs.Diagnostics.Generations.Recent.{
  AreKeys, IsRecent, register_generation-IsRecent,
}

-- A service whose generations are registered one after the other.
abbrev registered : ℕ → Generations
registered zero = []
registered (suc n) = register_generation 4 n (registered n)

registered-AreKeys : (n : ℕ) → AreKeys (registered n)
registered-AreKeys zero = λ service. tt
registered-AreKeys (suc n) =
    (register_generation-IsRecent 4 n (registered n) (registered-AreKeys n)).still_keys

register_generation-IsRecent_example :
    IsRecent 4 (inserted 4 1030 (registered 1030)) (register_generation 4 1030 (registered 1030))
register_generation-IsRecent_example =
    register_generation-IsRecent 4 1030 (registered 1030) (registered-AreKeys 1030)
