-- ===== src/Prelude/Indexed.antt =====
-- Lists that grow at the end and are changed at one index, and what holds of all their entries.
use desiree_ia.Prelude.{
  ℕ, zero, suc, ◌≤◌, ◌<◌, List, [], ◌∷◌, ◌++◌, map, length, get_or, set, take, ◌≡◌, refl, ap, arith,
  All,
}

module _ {A : Type 0} (d : A) where
  pub get_or-append :
      (P : ℕ → A → Type 0) (xs : List A) (v : A)
      → P (length xs) v
      → ((i : ℕ) → P i d)
      → ((i : ℕ) → P i (get_or xs i d))
      → (i : ℕ) → P i (get_or (xs ++ v ∷ []) i d)
  get_or-append P [] v p other h zero = p
  get_or-append P [] v p other h (suc i) = other (suc i)
  get_or-append P (x ∷ xs) v p other h zero = h 0
  get_or-append P (x ∷ xs) v p other h (suc i) =
      get_or-append (λ j. P (suc j)) xs v p (λ j. other (suc j)) (λ j. h (suc j)) i

  pub get_or-set :
      (P : ℕ → A → Type 0) (xs : List A) (idx : ℕ) (v : A)
      → P idx v
      → ((i : ℕ) → P i (get_or xs i d))
      → (i : ℕ) → P i (get_or (set xs idx v) i d)
  get_or-set P [] idx v p h i = h i
  get_or-set P (x ∷ xs) zero v p h zero = p
  get_or-set P (x ∷ xs) zero v p h (suc i) = h (suc i)
  get_or-set P (x ∷ xs) (suc idx) v p h zero = h 0
  get_or-set P (x ∷ xs) (suc idx) v p h (suc i) =
      get_or-set (λ j. P (suc j)) xs idx v p (λ j. h (suc j)) i

  pub get_or-take : (n i : ℕ) (xs : List A) → i < n → get_or xs i d ≡ get_or (take n xs) i d
  get_or-take zero i xs h = absurd (omega arith)
  get_or-take (suc n) i [] h = refl
  get_or-take (suc n) zero (x ∷ xs) h = refl
  get_or-take (suc n) (suc i) (x ∷ xs) h = get_or-take n i xs (omega arith)

module _ {A : Type 0} where
  pub length-set : (xs : List A) (i : ℕ) (v : A) → length (set xs i v) ≡ length xs
  length-set [] i v = refl
  length-set (x ∷ xs) zero v = refl
  length-set (x ∷ xs) (suc i) v = ap (λ n. suc n) (length-set xs i v)

  pub take-append : (n : ℕ) (xs ys : List A) → n ≤ length xs → take n (xs ++ ys) ≡ take n xs
  take-append zero xs ys h = refl
  take-append (suc n) [] ys h = absurd (omega arith)
  take-append (suc n) (x ∷ xs) ys h = ap (λ l. x ∷ l) (take-append n xs ys (omega arith))

  pub take-set : (n : ℕ) (xs : List A) (i : ℕ) (v : A) → n ≤ i → take n (set xs i v) ≡ take n xs
  take-set zero xs i v h = refl
  take-set (suc n) [] i v h = refl
  take-set (suc n) (x ∷ xs) zero v h = absurd (omega arith)
  take-set (suc n) (x ∷ xs) (suc i) v h = ap (λ l. x ∷ l) (take-set n xs i v (omega arith))

  pub All-imp : (P Q : A → Type 0) (xs : List A) → ((x : A) → P x → Q x) → All P xs → All Q xs
  All-imp P Q [] f h = tt
  All-imp P Q (x ∷ xs) f h = (f x h.0, All-imp P Q xs f h.1)

module _ {A B : Type 0} (f : A → B) where
  pub All-map : (P : B → Type 0) (xs : List A) → All (λ x. P (f x)) xs → All P (map f xs)
  All-map P [] h = tt
  All-map P (x ∷ xs) h = (h.0, All-map P xs h.1)

  pub length-map : (xs : List A) → length (map f xs) ≡ length xs
  length-map [] = refl
  length-map (x ∷ xs) = ap (λ n. suc n) (length-map xs)
