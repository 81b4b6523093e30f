-- ===== src/Prelude/Sorting.antt =====
-- The sort of a list of numbers, and what is left of it without its first entries.
use service_daemon_rs.Prelude.{
  ℕ, zero, suc, ◌-◌, ◌<◌, ◌≡◌, refl, ap, sym, ◌∙◌, Bool, true, false, not, ◌||◌, ◌&&◌, List, [],
  ◌∷◌, arith, ◌==◌, leb, if◌then◌else◌, length, retain,
}
use service_daemon_rs.Prelude.Sets.{contains}

abbrev pub insert : ℕ → List ℕ → List ℕ
insert x [] = x ∷ []
insert x (y ∷ ys) = if leb x y then x ∷ y ∷ ys else y ∷ insert x ys

-- `sort_unstable`.
abbrev pub sort : List ℕ → List ℕ
sort [] = []
sort (x ∷ xs) = insert x (sort xs)

abbrev pub take : ℕ → List ℕ → List ℕ
take zero xs = []
take (suc n) [] = []
take (suc n) (x ∷ xs) = x ∷ take n xs

-- No entry occurs twice.
abbrev pub Distinct : List ℕ → Type 0
Distinct [] = Unit
Distinct (x ∷ xs) = (contains x xs ≡ false) × Distinct xs

pub if-Distinct :
    (b : Bool) (xs ys : List ℕ)
    → (b ≡ true → Distinct xs)
    → (b ≡ false → Distinct ys)
    → Distinct (if b then xs else ys)
if-Distinct true xs ys p q = p refl
if-Distinct false xs ys p q = q refl

abbrev Rises : List ℕ → Type 0
Rises [] = Unit
Rises (x ∷ xs) = ((v : ℕ) → contains v xs ≡ true → x < v) × Rises xs

-- What is not in a list.
abbrev pub without : List ℕ → List ℕ → List ℕ
without gone xs = retain (λ v. not (contains v gone)) xs

contains-insert : (v x : ℕ) (ys : List ℕ) → contains v (insert x ys) ≡ ((x == v) || contains v ys)
contains-insert v x [] = refl
contains-insert v x (y ∷ ys) = ground (arith, contains-insert v x ys)

pub contains-sort : (v : ℕ) (xs : List ℕ) → contains v (sort xs) ≡ contains v xs
contains-sort v [] = refl
contains-sort v (x ∷ xs) = ground (arith, contains-insert v x (sort xs), contains-sort v xs)

pub contains-retain :
    (v : ℕ) (p : ℕ → Bool) (xs : List ℕ) → contains v (retain p xs) ≡ (p v && contains v xs)
contains-retain v p [] = ground arith
contains-retain v p (x ∷ xs) =
    let same : x ≡ v → p x ≡ p v = λ e. ap p e in ground (arith, contains-retain v p xs, same)

length-insert :
    (p : ℕ → Bool) (x : ℕ) (ys : List ℕ)
    → length (retain p (insert x ys)) ≡ length (retain p (x ∷ ys))
length-insert p x [] = refl
length-insert p x (y ∷ ys) = ground (arith, length-insert p x ys)

pub length-retain-sort :
    (p : ℕ → Bool) (xs : List ℕ) → length (retain p (sort xs)) ≡ length (retain p xs)
length-retain-sort p [] = refl
length-retain-sort p (x ∷ xs) = ground (arith, length-insert p x (sort xs), length-retain-sort p xs)

if-Rises :
    (b : Bool) (xs ys : List ℕ)
    → (b ≡ true → Rises xs)
    → (b ≡ false → Rises ys)
    → Rises (if b then xs else ys)
if-Rises true xs ys p q = p refl
if-Rises false xs ys p q = q refl

insert-Rises : (x : ℕ) (ys : List ℕ) → contains x ys ≡ false → Rises ys → Rises (insert x ys)
insert-Rises x [] h r = (λ v e. absurd (ground (arith, e)), tt)
insert-Rises x (y ∷ ys) h r =
    if-Rises (leb x y) (x ∷ y ∷ ys) (y ∷ insert x ys)
      (λ b. (λ v e. ground (arith, e, b, h, r.0 v), r))
      (λ b. (
        λ v e. ground (arith, e, b, contains-insert v x ys, r.0 v),
        insert-Rises x ys (ground (arith, h)) r.1,
      ))

sort-Rises : (xs : List ℕ) → Distinct xs → Rises (sort xs)
sort-Rises [] d = tt
sort-Rises (x ∷ xs) d =
    insert-Rises x (sort xs) (ground (arith, contains-sort x xs, d.0)) (sort-Rises xs d.1)

pub without_nothing : (xs : List ℕ) → without [] xs ≡ xs
without_nothing [] = refl
without_nothing (x ∷ xs) = ap (λ rest. x ∷ rest) (without_nothing xs)

without_other :
    (x : ℕ) (gone xs : List ℕ) → contains x xs ≡ false → without (x ∷ gone) xs ≡ without gone xs
without_other x gone [] h = refl
without_other x gone (y ∷ ys) h = ground (arith, without_other x gone ys, h)

rises_fresh :
    (x : ℕ) (xs : List ℕ) → ((v : ℕ) → contains v xs ≡ true → x < v) → contains x xs ≡ false
rises_fresh x xs h = ground (arith, h x)

length-without-take : (k : ℕ) (s : List ℕ) → Rises s → length (without (take k s) s) ≡ length s - k
length-without-take zero s r = rw (without_nothing s) (omega arith)
length-without-take (suc k) [] r = omega arith
length-without-take (suc k) (x ∷ xs) r =
    let same = without_other x (take k xs) xs (rises_fresh x xs r.0) in
    ground (arith, same, length-without-take k xs r.1)

take-lt :
    (k : ℕ) (s : List ℕ) (v w : ℕ)
    → Rises s
    → contains w (take k s) ≡ true
    → contains v s ≡ true
    → contains v (take k s) ≡ false
    → w < v
take-lt zero s v w r a b c = absurd (ground (arith, a))
take-lt (suc k) [] v w r a b c = absurd (ground (arith, a))
take-lt (suc k) (x ∷ xs) v w r a b c = ground (arith, take-lt k xs v w r.1, r.0 v, a, b, c)

-- Without the first of its sorted entries a list is as much shorter.
pub length-without-sort :
    (k : ℕ) (xs : List ℕ) → Distinct xs → length (without (take k (sort xs)) xs) ≡ length xs - k
length-without-sort k xs d =
    let same : length (sort xs) ≡ length xs =
      sym (ap length (without_nothing (sort xs)))
      ∙ length-retain-sort (λ v. not (contains v [])) xs
      ∙ ap length (without_nothing xs) in
    omega (
      arith,
      same,
      length-without-take k (sort xs) (sort-Rises xs d),
      length-retain-sort (λ v. not (contains v (take k (sort xs)))) xs,
    )

-- What is taken from the sorted entries is less than what is left.
pub take-sort-lt :
    (k : ℕ) (xs : List ℕ) (v w : ℕ)
    → Distinct xs
    → contains w (take k (sort xs)) ≡ true
    → contains v xs ≡ true
    → contains v (take k (sort xs)) ≡ false
    → w < v
take-sort-lt k xs v w d a b c =
    take-lt k (sort xs) v w (sort-Rises xs d) a (rw (contains-sort v xs) b) c

pub retain-Distinct : (p : ℕ → Bool) (xs : List ℕ) → Distinct xs → Distinct (retain p xs)
retain-Distinct p [] d = tt
retain-Distinct p (x ∷ xs) d =
    if-Distinct (p x) (x ∷ retain p xs) (retain p xs)
      (λ e. (ground (arith, contains-retain x p xs, d.0), retain-Distinct p xs d.1))
      (λ e. retain-Distinct p xs d.1)
