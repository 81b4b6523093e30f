-- ===== src/Registry.antt =====
-- models/service.rs: `RegistryBuilder` and the `Registry` that it builds from the entries of the static
-- registry. A tag is the list of its code points.
pub mod Selection
use service_daemon_rs.Prelude.{
  ℕ, suc, Bool, true, false, not, ◌&&◌, ◌||◌, List, [], ◌∷◌, ◌++◌, if◌then◌else◌, same_text,
}

-- What the builder reads of a `ServiceEntry`, and what it fills in of a `ServiceDescription`.
pub record ServiceEntry : Type 0 where
  pub name : List ℕ
  pub tags : List (List ℕ)

pub record ServiceDescription : Type 0 where
  pub id : ℕ
  pub entry : ServiceEntry

pub record RegistryBuilder : Type 0 where
  pub include_tags : List (List ℕ)
  pub exclude_tags : List (List ℕ)

abbrev pub new : RegistryBuilder
new = record { include_tags = []; exclude_tags = [] }

unfoldable pub with_tag : List ℕ → RegistryBuilder → RegistryBuilder
with_tag tag b = record b { include_tags = b.include_tags ++ (tag ∷ []) }

unfoldable pub with_tags : List (List ℕ) → RegistryBuilder → RegistryBuilder
unfolding with_tag
with_tags [] b = b
with_tags (tag ∷ tags) b = with_tags tags (with_tag tag b)

unfoldable pub exclude_tag : List ℕ → RegistryBuilder → RegistryBuilder
exclude_tag tag b = record b { exclude_tags = b.exclude_tags ++ (tag ∷ []) }

-- `contains` and `iter().any(|t| tags.contains(t))`.
abbrev pub contains_tag : List (List ℕ) → List ℕ → Bool
contains_tag [] tag = false
contains_tag (t ∷ tags) tag = same_text t tag || contains_tag tags tag

abbrev pub has_any : List (List ℕ) → List (List ℕ) → Bool
has_any tags [] = false
has_any tags (t ∷ rest) = contains_tag tags t || has_any tags rest

abbrev pub is_empty : List (List ℕ) → Bool
is_empty [] = true
is_empty (t ∷ tags) = false

-- The loop of `build`, from an index on.
unfoldable pub build_from : RegistryBuilder → ℕ → List ServiceEntry → List ServiceDescription
build_from b index [] = []
build_from b index (entry ∷ registry) =
    let others = build_from b (suc index) registry in
    if not (is_empty b.include_tags) && not (has_any b.include_tags entry.tags)
    then others
    else if has_any b.exclude_tags entry.tags
    then others
    else record { id = index; entry = entry } ∷ others

unfoldable pub build : RegistryBuilder → List ServiceEntry → List ServiceDescription
unfolding build_from
build b registry = build_from b 0 registry
