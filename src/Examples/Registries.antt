-- ===== src/Examples/Registries.antt =====
-- The theorem on the registry of the services at a concrete input.
use mathlib.Core.List.{Memᴰ}
use service_daemon_rs.Prelude.{◌≡◌, ◌↔◌, true, some, List, [], ◌∷◌}
use service_daemon_rs.Registry.{ServiceEntry, ServiceDescription, RegistryBuilder, build}
use service_daemon_rs.Registry.Selection.{entry_at, is_selected, Ascending, build_exact}

abbrev entries : List ServiceEntry
entries =
    record { name = 0x61 ∷ []; tags = (0x78 ∷ []) ∷ [] }
    ∷ record { name = 0x62 ∷ []; tags = (0x79 ∷ []) ∷ [] }
    ∷ []

abbrev builder : RegistryBuilder
builder = record { include_tags = (0x79 ∷ []) ∷ []; exclude_tags = [] }

build_exact_example :
    ((d : ServiceDescription)
      → Memᴰ d (build builder entries)
        ↔ ((entry_at d.id entries ≡ some d.entry) × (is_selected builder d.entry ≡ true)))
    × Ascending 0 (build builder entries)
build_exact_example = build_exact builder entries
