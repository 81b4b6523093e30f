-- ===== src/Prelude/Sets.antt =====
-- Lists of numbers as sets: the Boolean membership test, the count and the position of an entry.
use service_daemon_rs.Prelude.{
  ℕ, suc, ◌+◌, ◌≤◌, ◌<◌, ◌≡◌, refl, ap, ◌∙◌, Bool, true, false, ◌||◌, List, [], ◌∷◌, ◌++◌, arith,
  ◌==◌, if◌then◌else◌, length, retain, ◌↔◌,
}

abbrev pub contains : ℕ → List ℕ → Bool
contains v [] = false
contains v (x ∷ xs) = (x == v) || contains v xs

abbrev pub count : ℕ → List ℕ → ℕ
count v [] = 0
count v (x ∷ xs) = if x == v then suc (count v xs) else count v xs

-- The place of the first occurrence, the length where there is none.
abbrev pub position : ℕ → List ℕ → ℕ
position v [] = 0
position v (x ∷ xs) = if x == v then 0 else suc (position v xs)

pub contains-append :
    (v : ℕ) (xs ys : List ℕ) → contains v (xs ++ ys) ≡ (contains v xs || contains v ys)
contains-append v [] ys = refl
contains-append v (x ∷ xs) ys = ground (arith, contains-append v xs ys)

pub count-append : (v : ℕ) (xs ys : List ℕ) → count v (xs ++ ys) ≡ count v xs + count v ys
count-append v [] ys = omega arith
count-append v (x ∷ xs) ys = ground (arith, count-append v xs ys)

pub count-retain :
    (v : ℕ) (p : ℕ → Bool) (xs : List ℕ) → count v (retain p xs) ≡ (if p v then count v xs else 0)
count-retain v p [] = ground arith
count-retain v p (x ∷ xs) =
    let same : x ≡ v → p x ≡ p v = λ e. ap p e in ground (arith, count-retain v p xs, same)

pub position-le-length : (v : ℕ) (xs : List ℕ) → position v xs ≤ length xs
position-le-length v [] = omega arith
position-le-length v (x ∷ xs) = ground (arith, position-le-length v xs)

-- What is before another entry is in the list.
pub contains_of_lt : (v w : ℕ) (xs : List ℕ) → position v xs < position w xs → contains v xs ≡ true
contains_of_lt v w [] h = absurd (omega arith)
contains_of_lt v w (x ∷ xs) h = ground (arith, contains_of_lt v w xs)

pub position-retain :
    (v w : ℕ) (p : ℕ → Bool) (xs : List ℕ)
    → p v ≡ true
    → p w ≡ true
    → position v xs < position w xs
    → position v (retain p xs) < position w (retain p xs)
position-retain v w p [] hv hw h = absurd (omega arith)
position-retain v w p (x ∷ xs) hv hw h =
    let is_v : x ≡ v → p x ≡ true = λ e. ap p e ∙ hv in
    let is_w : x ≡ w → p x ≡ true = λ e. ap p e ∙ hw in
    ground (arith, position-retain v w p xs hv hw, is_v, is_w)

pub position-append :
    (v w : ℕ) (xs ys : List ℕ)
    → contains w xs ≡ true
    → position v (xs ++ ys) < position w (xs ++ ys)
    → position v xs < position w xs
position-append v w [] ys c h = cc
position-append v w (x ∷ xs) ys c h = ground (arith, position-append v w xs ys)

pub contains_iff_count : (v : ℕ) (xs : List ℕ) → (contains v xs ≡ true) ↔ (1 ≤ count v xs)
contains_iff_count v [] = ground arith
contains_iff_count v (x ∷ xs) = ground (arith, contains_iff_count v xs)
