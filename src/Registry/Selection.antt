-- ===== src/Registry/Selection.antt =====
-- What `RegistryBuilder::build` selects.
use mathlib.Core.List.{Memᴰ}
use mathlib.Core.List.Memᴰ
use service_daemon_rs.Prelude.{
  ℕ, zero, suc, ◌+◌, ◌-◌, ◌≤◌, ◌≡◌, refl, Bool, true, false, not, ◌&&◌, ◌||◌, ◌↔◌, inl, inr, Option,
  none, some, List, [], ◌∷◌, arith, Bool-cases, cons_cases,
}
use service_daemon_rs.Registry.{
  ServiceEntry, ServiceDescription, RegistryBuilder, has_any, is_empty, build_from, build,
}

-- The entry at a place of the registry.
abbrev pub entry_at : ℕ → List ServiceEntry → Option ServiceEntry
entry_at index [] = none
entry_at zero (e ∷ registry) = some e
entry_at (suc index) (e ∷ registry) = entry_at index registry

-- No include filter or a tag in it, and no tag in the exclude filter.
abbrev pub is_selected : RegistryBuilder → ServiceEntry → Bool
is_selected b e =
    (is_empty b.include_tags || has_any b.include_tags e.tags)
    && not (has_any b.exclude_tags e.tags)

-- Ascending ids, none below the first.
abbrev pub Ascending : ℕ → List ServiceDescription → Type 0
Ascending low [] = Unit
Ascending low (d ∷ rest) = (low ≤ d.id) × Ascending (suc d.id) rest

Ascending-weaken :
    (low high : ℕ) (list : List ServiceDescription)
    → low ≤ high
    → Ascending high list
    → Ascending low list
Ascending-weaken low high [] h a = tt
Ascending-weaken low high (d ∷ rest) h a = (omega (arith, a.0), a.1)

-- A built description is an entry of the registry that is selected.
Stands : RegistryBuilder → ℕ → List ServiceEntry → ServiceDescription → Type 0
Stands b index registry d =
    (index ≤ d.id)
    × (entry_at (d.id - index) registry ≡ some d.entry)
    × (is_selected b d.entry ≡ true)

takes :
    (b : RegistryBuilder) (index : ℕ) (e : ServiceEntry) (registry : List ServiceEntry)
    → is_selected b e ≡ true
    → build_from b index (e ∷ registry)
      ≡ record { id = index; entry = e } ∷ build_from b (suc index) registry
unfolding build_from
takes b index e registry h = ground (arith, h)

passes :
    (b : RegistryBuilder) (index : ℕ) (e : ServiceEntry) (registry : List ServiceEntry)
    → is_selected b e ≡ false
    → build_from b index (e ∷ registry) ≡ build_from b (suc index) registry
unfolding build_from
passes b index e registry h = ground (arith, h)

Stands-suc :
    (b : RegistryBuilder) (index : ℕ) (e : ServiceEntry) (registry : List ServiceEntry)
    (d : ServiceDescription)
    → Stands b (suc index) registry d
    → Stands b index (e ∷ registry) d
unfolding Stands
Stands-suc b index e registry d s =
    let place : d.id - index ≡ suc (d.id - suc index) = omega (arith, s.0) in
    (omega (arith, s.0), rw place s.1, s.2)

here-Stands :
    (b : RegistryBuilder) (index : ℕ) (e : ServiceEntry) (registry : List ServiceEntry)
    → is_selected b e ≡ true
    → Stands b index (e ∷ registry) (record { id = index; entry = e })
unfolding Stands
here-Stands b index e registry h =
    let place : index - index ≡ 0 = omega arith in (omega arith, rw place refl, h)

build_from-Stands :
    (b : RegistryBuilder) (index : ℕ) (registry : List ServiceEntry) (d : ServiceDescription)
    → Memᴰ d (build_from b index registry)
    → Stands b index registry d
unfolding build_from
build_from-Stands b index [] d m = absurd (Memᴰ.not-nil m)
build_from-Stands b index (e ∷ registry) d m = elim (Bool-cases (is_selected b e)) [
  | inr out ↦
      Stands-suc b index e registry d
        (build_from-Stands b (suc index) registry d (rw (passes b index e registry out) at m))
  | inl in_ ↦
      elim (cons_cases d (record { id = index; entry = e }) _
        (rw (takes b index e registry in_) at m)) [
          | inl same ↦ rw same (here-Stands b index e registry in_)
          | inr later ↦
              Stands-suc b index e registry d (build_from-Stands b (suc index) registry d later)
        ]
]

build_from-Ascending :
    (b : RegistryBuilder) (index : ℕ) (registry : List ServiceEntry)
    → Ascending index (build_from b index registry)
unfolding build_from
build_from-Ascending b index [] = tt
build_from-Ascending b index (e ∷ registry) = elim (Bool-cases (is_selected b e)) [
  | inr out ↦ rw (passes b index e registry out) (
      Ascending-weaken index (suc index) (build_from b (suc index) registry) (omega arith)
        (build_from-Ascending b (suc index) registry))
  | inl in_ ↦
      rw (takes b index e registry in_) (omega arith, build_from-Ascending b (suc index) registry)
]

build_from-mem :
    (b : RegistryBuilder) (index place : ℕ) (registry : List ServiceEntry) (e : ServiceEntry)
    → entry_at place registry ≡ some e
    → is_selected b e ≡ true
    → Memᴰ (record { id = index + place; entry = e }) (build_from b index registry)
build_from-mem b index place [] e h selected = cc
build_from-mem b index zero (x ∷ registry) e h selected =
    let same : x ≡ e = ground (arith, h) in
    let here : index + 0 ≡ index = omega arith in
    rw (here, same, takes b index e registry selected) (Memᴰ.head refl)
build_from-mem b index (suc place) (x ∷ registry) e h selected =
    let later = build_from-mem b (suc index) place registry e h selected in
    let there : index + suc place ≡ suc index + place = omega arith in
    elim (Bool-cases (is_selected b x)) [
      | inr out ↦ rw (there, passes b index x registry out) later
      | inl in_ ↦ rw (there, takes b index x registry in_) (Memᴰ.tail later)
    ]

-- The registry that is built has a description exactly for each entry that carries one of the include
-- tags, where there are any, and none of the exclude tags. Its id is the place of the entry, and the
-- descriptions stand in the order of the entries, so that no two have one id.
pub build_exact :
    (b : RegistryBuilder) (registry : List ServiceEntry)
    → ((d : ServiceDescription)
        → Memᴰ d (build b registry)
          ↔ ((entry_at d.id registry ≡ some d.entry) × (is_selected b d.entry ≡ true)))
      × Ascending 0 (build b registry)
unfolding build Stands
build_exact b registry = (
  λ d. (
    λ m.
        let stands = build_from-Stands b 0 registry d m in
        let place : d.id - 0 ≡ d.id = omega arith in (rw place at stands.1, stands.2),
    λ chosen.
        let place : 0 + d.id ≡ d.id = omega arith in
        rw place at (build_from-mem b 0 d.id registry d.entry chosen.0 chosen.1),
  ),
  build_from-Ascending b 0 registry,
)
