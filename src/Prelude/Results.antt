-- ===== src/Prelude/Results.antt =====
-- Rust's `Result`, with the `?` operator as the bind of `do`.
use mathlib.Core.Path.{◌≡◌, refl}
use mathlib.Core.Logic.{◌⊎◌, inl, inr}

pub data Result {ℓ κ} (A : Type ℓ) (E : Type κ) : Type (ℓ ⊔ κ) where
  ok : A → Result A E
  err : E → Result A E

module _ {ℓ κ μ} {A : Type ℓ} {B : Type κ} {E : Type μ} where
  infixl 5 ◌>>=◌
  abbrev pub ◌>>=◌ : Result A E → (A → Result B E) → Result B E
  ok value >>= next = next value
  err error >>= next = err error

  -- What a chain that succeeds went through.
  pub >>=-eq-ok :
      (first : Result A E) (next : A → Result B E) {last : B}
      → (first >>= next) ≡ ok last
      → (value : A) × (first ≡ ok value) × (next value ≡ ok last)
  >>=-eq-ok (ok value) next h = (value, refl, h)
  >>=-eq-ok (err error) next h = cc

pub Result-cases {ℓ κ} :
    {A : Type ℓ} {E : Type κ} (r : Result A E)
    → ((value : A) × (r ≡ ok value)) ⊎ ((error : E) × (r ≡ err error))
Result-cases (ok value) = inl (value, refl)
Result-cases (err error) = inr (error, refl)

infixl 5 ◌>>◌
abbrev pub ◌>>◌ {ℓ μ} : {B : Type ℓ} {E : Type μ} → Result (Unit {0}) E → Result B E → Result B E
check >> rest = check >>= λ passed. rest

-- `Result::map_err`.
abbrev pub map_err {ℓ κ μ} :
    {A : Type ℓ} {E : Type κ} {E' : Type μ} → (E → E') → Result A E → Result A E'
map_err f (ok value) = ok value
map_err f (err error) = err (f error)
