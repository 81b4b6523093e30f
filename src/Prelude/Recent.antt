-- ===== src/Prelude/Recent.antt =====
-- A queue that keeps its most recent entries: `pop_front` when it is full, then `push_back`.
use service_daemon_rs.Prelude.{
  ℕ, zero, suc, ◌-◌, ◌≤◌, ◌≡◌, refl, List, [], ◌∷◌, ◌++◌, arith, ◌==◌, if◌then◌else◌, length,
  length-append, lt_or_le, inl, inr,
}

module _ {ℓ} {A : Type ℓ} where
  -- `VecDeque::pop_front`, without the entry.
  abbrev pub pop_front : List A → List A
  pop_front [] = []
  pop_front (x ∷ xs) = xs

  abbrev pub drop : ℕ → List A → List A
  drop zero xs = xs
  drop (suc n) [] = []
  drop (suc n) (x ∷ xs) = drop n xs

  -- The last `limit` entries.
  abbrev pub last_n : ℕ → List A → List A
  last_n limit xs = drop (length xs - limit) xs

  unfoldable pub push_recent : ℕ → A → List A → List A
  push_recent limit x xs = (if length xs == limit then pop_front xs else xs) ++ (x ∷ [])

  pub length-drop : (n : ℕ) (xs : List A) → length (drop n xs) ≡ length xs - n
  length-drop zero xs = omega arith
  length-drop (suc n) [] = omega arith
  length-drop (suc n) (x ∷ xs) = omega (arith, length-drop n xs)

  drop-append : (n : ℕ) (xs ys : List A) → n ≤ length xs → drop n (xs ++ ys) ≡ drop n xs ++ ys
  drop-append zero xs ys h = refl
  drop-append (suc n) [] ys h = absurd (omega arith)
  drop-append (suc n) (x ∷ xs) ys h = drop-append n xs ys (omega arith)

  pop_front-drop : (n : ℕ) (xs : List A) → pop_front (drop n xs) ≡ drop (suc n) xs
  pop_front-drop zero [] = refl
  pop_front-drop zero (x ∷ xs) = refl
  pop_front-drop (suc n) [] = refl
  pop_front-drop (suc n) (x ∷ xs) = pop_front-drop n xs

  -- Below the limit nothing is dropped, before the push or after it.
  push_recent-short :
      (limit : ℕ) (x : A) (xs : List A)
      → suc (length xs) ≤ limit
      → push_recent limit x (last_n limit xs) ≡ last_n limit (xs ++ (x ∷ []))
  unfolding push_recent
  push_recent-short limit x xs h =
      let before : length xs - limit ≡ 0 = omega arith in
      let after : length (xs ++ (x ∷ [])) - limit ≡ 0 = omega (arith, length-append xs (x ∷ [])) in
      rw (before, after) (ground arith)

  push_recent-full :
      (limit : ℕ) (x : A) (xs : List A)
      → 1 ≤ limit
      → limit ≤ length xs
      → push_recent limit x (last_n limit xs) ≡ last_n limit (xs ++ (x ∷ []))
  unfolding push_recent
  push_recent-full limit x xs positive h =
      let n = length xs - limit in
      let after : length (xs ++ (x ∷ [])) - limit ≡ suc n =
        omega (arith, length-append xs (x ∷ [])) in
      let full : length (drop n xs) ≡ limit = omega (arith, length-drop n xs) in
      rw (after, drop-append (suc n) xs (x ∷ []) (omega arith), ← pop_front-drop n xs)
        (ground (arith, full))

  -- Pushing onto the last entries of a history gives the last entries of the longer history.
  pub push_recent-last_n :
      (limit : ℕ) (x : A) (xs : List A)
      → 1 ≤ limit
      → push_recent limit x (last_n limit xs) ≡ last_n limit (xs ++ (x ∷ []))
  push_recent-last_n limit x xs h = elim (lt_or_le (length xs) limit) [
    | inl short ↦ push_recent-short limit x xs short
    | inr full ↦ push_recent-full limit x xs h full
  ]

  pub length-last_n-le : (limit : ℕ) (xs : List A) → length (last_n limit xs) ≤ limit
  length-last_n-le limit xs = omega (arith, length-drop (length xs - limit) xs)
