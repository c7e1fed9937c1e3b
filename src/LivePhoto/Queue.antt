-- ===== src/LivePhoto/Queue.antt =====
-- The queue of live photo components and the pairs that it gives
-- (src/nightfall_photo_ingress/live_photo.py).
use native.Mathlib.Nat.{le_refl, le_trans}
use nightfall_photo_ingress.Base.{
  if◌then◌else◌, ltb, ℕ, ◌≤◌, Bool, true, false, some, List, [], ◌∷◌, ◌++◌, ◌≡◌, refl, arith, All,
  All-append, ◌⊎◌, inl, inr, Bool-cases,
}
use nightfall_photo_ingress.Sql.{select_where}
use nightfall_photo_ingress.LivePhoto.{
  LivePhotoPair, Queued, is_eligible, nearest, closer, remove_queued, same_queued, make_pair,
  pair_or_queue, ingest_queued, distance,
}

-- a and b would be paired: one account and stem, opposite components, near in time.
abbrev pub matches : ℕ → Queued → Queued → Bool
matches tolerance a = is_eligible tolerance a.entry.account a.stem a.component a.captured_at

-- No two entries of the queue are counterparts of one another.
abbrev pub IsUnpaired : ℕ → List Queued → Type 0
IsUnpaired tolerance [] = Unit
IsUnpaired tolerance (q ∷ qs) =
    All (λ x. matches tolerance x q ≡ false) qs × IsUnpaired tolerance qs

All-remove_queued :
    (P : Queued → Type 0) (q : Queued) (xs : List Queued) → All P xs → All P (remove_queued q xs)
unfolding remove_queued
All-remove_queued P q [] h = tt
All-remove_queued P q (x ∷ xs) h =
    elim (same_queued x q) as (λ b. All P (if b then xs else x ∷ remove_queued q xs)) [
      | true ↦ h.1
      | false ↦ (h.0, All-remove_queued P q xs h.1)
    ]

remove_queued-IsUnpaired :
    (tolerance : ℕ) (q : Queued) (xs : List Queued)
    → IsUnpaired tolerance xs
    → IsUnpaired tolerance (remove_queued q xs)
unfolding remove_queued
remove_queued-IsUnpaired tolerance q [] h = tt
remove_queued-IsUnpaired tolerance q (x ∷ xs) h =
    elim (same_queued x q)
      as (λ b. IsUnpaired tolerance (if b then xs else x ∷ remove_queued q xs)) [
        | true ↦ h.1
        | false ↦ (
          All-remove_queued (λ y. matches tolerance y x ≡ false) q xs h.0,
          remove_queued-IsUnpaired tolerance q xs h.1,
        )
      ]

select_where-nil :
    (p : Queued → Bool) (x : Queued) (xs : List Queued)
    → select_where p (x ∷ xs) ≡ []
    → (p x ≡ false) × (select_where p xs ≡ [])
unfolding select_where
select_where-nil p x xs e = ground arith

append-IsUnpaired :
    (tolerance : ℕ) (q : Queued) (xs : List Queued)
    → select_where (matches tolerance q) xs ≡ []
    → IsUnpaired tolerance xs
    → IsUnpaired tolerance (xs ++ q ∷ [])
unfolding select_where
append-IsUnpaired tolerance q [] e h = (tt, tt)
append-IsUnpaired tolerance q (x ∷ xs) e h =
    let (apart, rest) = select_where-nil (matches tolerance q) x xs e in
    (
      All-append (λ y. matches tolerance y x ≡ false) xs (q ∷ []) h.0 (apart, tt),
      append-IsUnpaired tolerance q xs rest h.1,
    )

pair_or_queue-IsUnpaired :
    (tolerance : ℕ) (q : Queued) (eligible queue : List Queued)
    → select_where (matches tolerance q) queue ≡ eligible
    → IsUnpaired tolerance queue
    → IsUnpaired tolerance (pair_or_queue q eligible queue).0
unfolding pair_or_queue
pair_or_queue-IsUnpaired tolerance q [] queue e h = append-IsUnpaired tolerance q queue e h
pair_or_queue-IsUnpaired tolerance q (x ∷ xs) queue e h =
    remove_queued-IsUnpaired tolerance (nearest q.captured_at x xs) queue h

-- The queue never holds two entries that are counterparts of one another: a candidate is queued
-- only if no entry matches it, and taking an entry out keeps the rest apart.
pub ingest_queued-IsUnpaired :
    (tolerance : ℕ) (q : Queued) (queue : List Queued)
    → IsUnpaired tolerance queue
    → IsUnpaired tolerance (ingest_queued tolerance q queue).0
unfolding ingest_queued
ingest_queued-IsUnpaired tolerance q queue h = pair_or_queue-IsUnpaired tolerance q _ queue refl h

-- q is one of the entries.
abbrev pub IsEntry : Queued → List Queued → Type 0
IsEntry q [] = ⊥
IsEntry q (x ∷ xs) = (q ≡ x) ⊎ IsEntry q xs

-- What is selected meets the test, and has what all entries have.
select_where-All :
    (Q : Queued → Type 0) (p : Queued → Bool) (xs : List Queued)
    → ((y : Queued) → IsEntry y xs → Q y)
    → All (λ x. Q x × (p x ≡ true)) (select_where p xs)
unfolding select_where
select_where-All Q p [] h = tt
select_where-All Q p (x ∷ xs) h = elim (Bool-cases (p x)) [
  | inl yes_here ↦
      rw yes_here ((h x (inl refl), yes_here), select_where-All Q p xs (λ y e. h y (inr e)))
  | inr other ↦ rw other (select_where-All Q p xs (λ y e. h y (inr e)))
]

closer_lem :
    (P : Queued → Type 0) (captured : ℕ) (q best : Queued)
    → P q
    → P best
    → P (closer captured q best)
      × (distance (closer captured q best).captured_at captured ≤ distance q.captured_at captured)
      × (distance (closer captured q best).captured_at captured
          ≤ distance best.captured_at captured)
unfolding closer
closer_lem P captured q best pq pb =
    elim (Bool-cases (ltb (distance q.captured_at captured) (distance best.captured_at captured))) [
      | inl nearer ↦ rw nearer (pq, le_refl _, ground arith)
      | inr not_nearer ↦ rw not_nearer (pb, ground arith, le_refl _)
    ]

-- The nearest has what all have, and no other is nearer.
nearest_lem :
    (P : Queued → Type 0) (captured : ℕ) (best : Queued) (qs : List Queued)
    → P best
    → All P qs
    → P (nearest captured best qs)
      × (distance (nearest captured best qs).captured_at captured
          ≤ distance best.captured_at captured)
      × All
          (λ x.
            distance (nearest captured best qs).captured_at captured
            ≤ distance x.captured_at captured)
          qs
unfolding nearest
nearest_lem P captured best [] pb h = (pb, omega arith, tt)
nearest_lem P captured best (q ∷ qs) pb h =
    let (m, to_q, to_best) = closer_lem P captured q best h.0 pb in
    let (a, b, c) = nearest_lem P captured (closer captured q best) qs m h.1 in
    (a, le_trans b to_best, (le_trans b to_q, c))

pair_or_queue-pair :
    (tolerance : ℕ) (q : Queued) (eligible queue : List Queued) (p : LivePhotoPair)
    → All (λ x. IsEntry x queue × (matches tolerance q x ≡ true)) eligible
    → (pair_or_queue q eligible queue).1 ≡ some p
    → (best : Queued) × (IsEntry best queue × (matches tolerance q best ≡ true))
      × (p ≡ make_pair q.entry q.component q.stem best)
      × All
          (λ x. distance best.captured_at q.captured_at ≤ distance x.captured_at q.captured_at)
          eligible
unfolding pair_or_queue
pair_or_queue-pair tolerance q [] queue p h e = cc
pair_or_queue-pair tolerance q (x ∷ xs) queue p h e =
    let (a, b, c) =
      nearest_lem (λ y. IsEntry y queue × (matches tolerance q y ≡ true)) q.captured_at x xs h.0
        h.1 in
    (nearest q.captured_at x xs, a, ground arith, (b, c))

-- A pair that is returned joins the candidate with an entry that stands in the queue and matches
-- it, of the same account and stem, the opposite component and within the tolerance, and no other
-- matching entry of the queue is nearer in time.
pub ingest_queued-pair :
    (tolerance : ℕ) (q : Queued) (queue : List Queued) (p : LivePhotoPair)
    → (ingest_queued tolerance q queue).1 ≡ some p
    → (best : Queued) × (IsEntry best queue × (matches tolerance q best ≡ true))
      × (p ≡ make_pair q.entry q.component q.stem best)
      × All
          (λ x. distance best.captured_at q.captured_at ≤ distance x.captured_at q.captured_at)
          (select_where (matches tolerance q) queue)
unfolding ingest_queued
ingest_queued-pair tolerance q queue p e =
    pair_or_queue-pair tolerance q (select_where (matches tolerance q) queue) queue p
      (select_where-All (λ x. IsEntry x queue) (matches tolerance q) queue (λ y e. e)) e
