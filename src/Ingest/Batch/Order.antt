-- ===== src/Ingest/Batch/Order.antt =====
-- The order of the outcomes of a batch (`process_batch` of
-- src/nightfall_photo_ingress/domain/ingest.py), whichever order the candidates were handled in.
use nightfall_photo_ingress.Base.{
  ℕ, ◌+◌, ◌≤◌, Bool, true, false, ◌≡◌, refl, sym, ap, ◌∙◌, List, [], ◌∷◌, eqb, inl, inr, Bool-cases,
  arith, All, All-impl, map,
}
use nightfall_photo_ingress.Base.Exec.{ok, Result-split}
use nightfall_photo_ingress.World.{Os, World}
use nightfall_photo_ingress.Ingest.Candidate.{StagedCandidate, Settings}
use nightfall_photo_ingress.Ingest.Process.{process_one}
use nightfall_photo_ingress.Ingest.Batch.{
  insert_by, sort_by, index_before, enumerate, schedule, goes_first, Handled, process_scheduled,
  in_order, process_candidates, BatchCall,
}

module _ {A : Type 0} where
  pub All-insert_by :
      (P : A → Type 0) (before : A → A → Bool) (x : A) (xs : List A)
      → P x
      → All P xs
      → All P (insert_by before x xs)
  unfolding insert_by
  All-insert_by P before x [] p h = (p, tt)
  All-insert_by P before x (y ∷ ys) p h = elim (Bool-cases (before x y)) [
    | inl first ↦ rw first (p, h)
    | inr later ↦ rw later (h.0, All-insert_by P before x ys p h.1)
  ]

  pub All-sort_by :
      (P : A → Type 0) (before : A → A → Bool) (xs : List A) → All P xs → All P (sort_by before xs)
  unfolding sort_by
  All-sort_by P before [] h = tt
  All-sort_by P before (x ∷ xs) h =
      All-insert_by P before x (sort_by before xs) h.0 (All-sort_by P before xs h.1)

module _ {A B : Type 0} (f : A → B) (before : A → A → Bool) (before' : B → B → Bool)
    (same : (x y : A) → before x y ≡ before' (f x) (f y)) where
  map-insert_by :
      (x : A) (xs : List A) → map f (insert_by before x xs) ≡ insert_by before' (f x) (map f xs)
  unfolding insert_by
  map-insert_by x [] = refl
  map-insert_by x (y ∷ ys) = elim (Bool-cases (before x y)) [
    | inl first ↦ rw (sym (same x y), first) refl
    | inr later ↦ rw (sym (same x y), later) (ap (◌∷◌ (f y)) (map-insert_by x ys))
  ]

  map-sort_by : (xs : List A) → map f (sort_by before xs) ≡ sort_by before' (map f xs)
  unfolding sort_by
  map-sort_by [] = refl
  map-sort_by (x ∷ xs) =
      map-insert_by x (sort_by before xs) ∙ ap (insert_by before' (f x)) (map-sort_by xs)

module _ {A : Type 0} where
  abbrev Apart : ℕ × A → ℕ × A → Type 0
  Apart x y = eqb x.0 y.0 ≡ false

  -- The indices are pairwise different.
  abbrev IsApart : List (ℕ × A) → Type 0
  IsApart [] = Unit
  IsApart (x ∷ xs) = All (Apart x) xs × IsApart xs

  by_index : ℕ × A → List (ℕ × A) → List (ℕ × A)
  by_index = insert_by index_before

  by_index-swap :
      (x y : ℕ × A) (zs : List (ℕ × A))
      → Apart x y
      → by_index y (by_index x zs) ≡ by_index x (by_index y zs)
  unfolding by_index insert_by
  by_index-swap x y [] h = ground arith
  by_index-swap x y (z ∷ zs) h = ground (arith, by_index-swap x y zs h)

  sort-insert_by :
      (before : ℕ × A → ℕ × A → Bool) (x : ℕ × A) (xs : List (ℕ × A))
      → All (Apart x) xs
      → sort_by index_before (insert_by before x xs) ≡ by_index x (sort_by index_before xs)
  unfolding sort_by by_index insert_by
  sort-insert_by before x [] h = refl
  sort-insert_by before x (y ∷ ys) h = elim (Bool-cases (before x y)) [
    | inl first ↦ rw first refl
    | inr later ↦ rw later (
        ap (insert_by index_before y) (sort-insert_by before x ys h.1)
        ∙ by_index-swap x y (sort_by index_before ys) h.0)
  ]

  -- Any sort before the sort by index is undone by it.
  sort-sort_by :
      (before : ℕ × A → ℕ × A → Bool) (xs : List (ℕ × A))
      → IsApart xs
      → sort_by index_before (sort_by before xs) ≡ sort_by index_before xs
  unfolding sort_by by_index
  sort-sort_by before [] h = refl
  sort-sort_by before (x ∷ xs) h =
      sort-insert_by before x (sort_by before xs) (All-sort_by (Apart x) before xs h.0)
      ∙ ap (insert_by index_before x) (sort-sort_by before xs h.1)

  enumerate-bound : (n : ℕ) (xs : List A) → All (λ y. n ≤ y.0) (enumerate n xs)
  unfolding enumerate
  enumerate-bound n [] = tt
  enumerate-bound n (x ∷ xs) = (
    omega arith,
    All-impl _ _ (λ y b. omega arith) (enumerate (n + 1) xs) (enumerate-bound (n + 1) xs),
  )

  enumerate-IsApart : (n : ℕ) (xs : List A) → IsApart (enumerate n xs)
  unfolding enumerate
  enumerate-IsApart n [] = tt
  enumerate-IsApart n (x ∷ xs) = (
    All-impl _ _ (λ y b. ground arith) (enumerate (n + 1) xs) (enumerate-bound (n + 1) xs),
    enumerate-IsApart (n + 1) xs,
  )

  insert_first :
      (x : ℕ × A) (xs : List (ℕ × A))
      → All (λ y. x.0 ≤ y.0) xs
      → insert_by index_before x xs ≡ x ∷ xs
  unfolding insert_by
  insert_first x [] h = refl
  insert_first x (y ∷ ys) h = let b = h.0 in ground arith

  sort-enumerate : (n : ℕ) (xs : List A) → sort_by index_before (enumerate n xs) ≡ enumerate n xs
  unfolding sort_by enumerate
  sort-enumerate n [] = refl
  sort-enumerate n (x ∷ xs) = rw (sort-enumerate (n + 1) xs) (
      insert_first (n, x) (enumerate (n + 1) xs)
        (All-impl _ _ (λ y b. omega arith) (enumerate (n + 1) xs) (enumerate-bound (n + 1) xs)))

  map-enumerate : (n : ℕ) (xs : List A) → map (λ y. y.1) (enumerate n xs) ≡ xs
  unfolding enumerate
  map-enumerate n [] = refl
  map-enumerate n (x ∷ xs) = ap (◌∷◌ x) (map-enumerate (n + 1) xs)

-- The index and the candidate of a result.
scheduled_of : ℕ × Handled → ℕ × StagedCandidate
scheduled_of r = (r.0, r.1.0)

process_scheduled-scheduled :
    (os : Os) (s : Settings) (cs : List (ℕ × StagedCandidate)) (w : World) (rs : List (ℕ × Handled))
    → (process_scheduled os s cs w).0 ≡ ok rs
    → map scheduled_of rs ≡ cs
unfolding process_scheduled scheduled_of
process_scheduled-scheduled os s [] w rs returned = ground arith
process_scheduled-scheduled os s ((i, c) ∷ cs) w rs returned =
    elim (Result-split (process_one os s c w).0) [
      | inr (e, raised) ↦ ground arith
      | inl (o, good) ↦ elim (Result-split (process_scheduled os s cs (process_one os s c w).1).0) [
        | inr (e, raised) ↦ ground arith
        | inl (rest, more) ↦
            let tail = process_scheduled-scheduled os s cs (process_one os s c w).1 rest more in
            let whole : rs ≡ (i, (c, o)) ∷ rest = ground arith in rw whole (ap (◌∷◌ (i, c)) tail)
      ]
    ]

sort-schedule :
    (by_size : Bool) (candidates : List StagedCandidate)
    → sort_by index_before (schedule by_size candidates) ≡ enumerate 0 candidates
unfolding schedule
sort-schedule true candidates =
    sort-sort_by goes_first (enumerate 0 candidates) (enumerate-IsApart 0 candidates)
    ∙ sort-enumerate 0 candidates
sort-schedule false candidates = sort-enumerate 0 candidates

map-map :
    {A B C : Type 0} (f : A → B) (g : B → C) (xs : List A)
    → map g (map f xs) ≡ map (λ x. g (f x)) xs
map-map f g [] = refl
map-map f g (x ∷ xs) = ap (◌∷◌ (g (f x))) (map-map f g xs)

in_order-candidates :
    (rs : List (ℕ × Handled)) (by_size : Bool) (candidates : List StagedCandidate)
    → map scheduled_of rs ≡ schedule by_size candidates
    → map (λ h. h.0) (in_order rs) ≡ candidates
unfolding in_order scheduled_of
in_order-candidates rs by_size candidates h =
    map-map (λ r. r.1) (λ h. h.0) (sort_by index_before rs)
    ∙ sym (map-map scheduled_of (λ y. y.1) (sort_by index_before rs))
    ∙ ap (map (λ y. y.1)) (
        map-sort_by scheduled_of index_before index_before (λ x y. refl) rs
        ∙ ap (sort_by index_before) h
        ∙ sort-schedule by_size candidates)
    ∙ map-enumerate 0 candidates

-- Whatever the sizes say about the order in which the candidates are handled, the results of a batch
-- stand in the order of the candidates, one for each.
pub process_candidates-in_order :
    (os : Os) (call : BatchCall) (candidates : List StagedCandidate) (w : World) (hs : List Handled)
    → (process_candidates os call candidates w).0 ≡ ok hs
    → map (λ h. h.0) hs ≡ candidates
unfolding process_candidates
process_candidates-in_order os call candidates w hs returned =
    let items = schedule call.size_aware_scheduling candidates in
    elim (Result-split (process_scheduled os call.settings items w).0) [
      | inr (e, raised) ↦ ground arith
      | inl (rs, good) ↦
          let sorted =
            in_order-candidates rs call.size_aware_scheduling candidates
              (process_scheduled-scheduled os call.settings items w rs good) in
          let whole : hs ≡ in_order rs = ground arith in rw whole sorted
    ]
