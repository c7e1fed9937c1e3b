-- ===== src/HashImport/Chunks.antt =====
-- The chunks of a list (`hashes[start : start + chunk_size]` of
-- src/nightfall_photo_ingress/hash_import.py).
use nightfall_photo_ingress.Base.{
  ℕ, zero, suc, ◌≤◌, ◌≡◌, refl, ap, ◌∙◌, List, [], ◌∷◌, ◌++◌, length, All, arith,
}
use nightfall_photo_ingress.Registry.HashCache.{take, drop, chunks, chunks_fuel}

module _ {A : Type 0} where
  abbrev pub flat : List (List A) → List A
  flat [] = []
  flat (c ∷ cs) = c ++ flat cs

  take-drop : (n : ℕ) (xs : List A) → take n xs ++ drop n xs ≡ xs
  unfolding take drop
  take-drop zero xs = refl
  take-drop (suc n) [] = refl
  take-drop (suc n) (x ∷ xs) = ap (λ l. x ∷ l) (take-drop n xs)

  length-drop : (n : ℕ) (xs : List A) → length (drop n xs) ≤ length xs
  unfolding drop
  length-drop zero xs = omega arith
  length-drop (suc n) [] = omega arith
  length-drop (suc n) (x ∷ xs) = omega (arith, length-drop n xs)

  chunks_fuel-flat : (f k : ℕ) (xs : List A) → length xs ≤ f → flat (chunks_fuel f (suc k) xs) ≡ xs
  unfolding chunks_fuel drop
  chunks_fuel-flat zero k [] h = refl
  chunks_fuel-flat zero k (x ∷ xs) h = absurd (omega arith)
  chunks_fuel-flat (suc f) k [] h = refl
  chunks_fuel-flat (suc f) k (x ∷ xs) h =
      rw (chunks_fuel-flat f k (drop (suc k) (x ∷ xs)) (enough k f x xs h))
        (take-drop (suc k) (x ∷ xs))
    where
      enough :
          (k f : ℕ) (x : A) (xs : List A)
          → length (x ∷ xs) ≤ suc f
          → length (drop (suc k) (x ∷ xs)) ≤ f
      enough k f x xs h = omega (arith, length-drop k xs)

  -- In order, the chunks hold all the elements: the fuel is enough.
  pub chunks-flat : (k : ℕ) (xs : List A) → 1 ≤ k → flat (chunks k xs) ≡ xs
  unfolding chunks
  chunks-flat zero xs h = absurd (omega arith)
  chunks-flat (suc k) xs h = chunks_fuel-flat (length xs) k xs (omega arith)

  abbrev pub IsFilled : List A → Type 0
  IsFilled c = 1 ≤ length c

  chunks_fuel-IsFilled : (f k : ℕ) (xs : List A) → All IsFilled (chunks_fuel f (suc k) xs)
  unfolding chunks_fuel take
  chunks_fuel-IsFilled zero k xs = tt
  chunks_fuel-IsFilled (suc f) k [] = tt
  chunks_fuel-IsFilled (suc f) k (x ∷ xs) =
      (omega arith, chunks_fuel-IsFilled f k (drop (suc k) (x ∷ xs)))

  pub chunks-IsFilled : (k : ℕ) (xs : List A) → 1 ≤ k → All IsFilled (chunks k xs)
  unfolding chunks
  chunks-IsFilled zero xs h = absurd (omega arith)
  chunks-IsFilled (suc k) xs h = chunks_fuel-IsFilled (length xs) k xs

  take-length : (xs : List A) → take (length xs) xs ≡ xs
  unfolding take
  take-length [] = refl
  take-length (x ∷ xs) = ap (λ l. x ∷ l) (take-length xs)

  drop-length : (xs : List A) → drop (length xs) xs ≡ []
  unfolding drop
  drop-length [] = refl
  drop-length (x ∷ xs) = drop-length xs

  fuel_nil : (f k : ℕ) → chunks_fuel {A = A} f k [] ≡ []
  unfolding chunks_fuel
  fuel_nil zero k = refl
  fuel_nil (suc f) k = refl

  step :
      (f k : ℕ) (x : A) (xs : List A)
      → chunks_fuel (suc f) k (x ∷ xs) ≡ take k (x ∷ xs) ∷ chunks_fuel f k (drop k (x ∷ xs))
  unfolding chunks_fuel
  step f k x xs = refl

  -- A chunk of the list's own length is the list.
  pub chunks-whole : (xs : List A) → 1 ≤ length xs → chunks (length xs) xs ≡ xs ∷ []
  unfolding chunks
  chunks-whole [] h = absurd (omega arith)
  chunks-whole (x ∷ xs) h =
      step (length xs) (length (x ∷ xs)) x xs
      ∙ rw (drop-length (x ∷ xs)) (rw fuel_nil (ap (λ c. c ∷ []) (take-length (x ∷ xs))))
