-- ===== src/Sql/Laws.antt =====
-- Laws of the statements on tables.
use mathlib.Core.Path.{subst}
use nightfall_photo_ingress.Base.{
  inl, inr, Bool-cases, ◌+◌, Bool, true, false, ◌||◌, none, some, List, [], ◌∷◌, ◌++◌, arith, ◌≡◌,
  refl, if◌then◌else◌, All,
}
use nightfall_photo_ingress.Sql.{find_first, count_where, exists_where, update_where, upsert}

module _ {R : Type 0} where
  pub exists_where-append :
      (p : R → Bool) (rows more : List R)
      → exists_where p (rows ++ more) ≡ (exists_where p rows || exists_where p more)
  unfolding exists_where
  exists_where-append p [] more = refl
  exists_where-append p (r ∷ rows) more = ground (arith, exists_where-append p rows more)

  -- An update that does not change what `q` tests finds the row where it was, updated.
  pub find_first-update_where :
      (q p : R → Bool) (f : R → R) (rows : List R)
      → ((r : R) → q (f r) ≡ q r)
      → find_first q (update_where p f rows)
        ≡ elim (find_first q rows) [ none ↦ none | some r ↦ some (if p r then f r else r) ]
  unfolding find_first update_where
  find_first-update_where q p f [] h = refl
  find_first-update_where q p f (r ∷ rows) h =
      ground (arith, h r, find_first-update_where q p f rows h)

  pub exists_where-update_where :
      (q p : R → Bool) (f : R → R) (rows : List R)
      → ((r : R) → q (f r) ≡ q r)
      → exists_where q (update_where p f rows) ≡ exists_where q rows
  unfolding exists_where update_where
  exists_where-update_where q p f [] h = refl
  exists_where-update_where q p f (r ∷ rows) h =
      ground (arith, h r, exists_where-update_where q p f rows h)

  -- Looking for the upserted key finds the new row, or the old one updated.
  pub find_first-upsert_self :
      (p : R → Bool) (new : R) (f : R → R) (rows : List R)
      → p new ≡ true
      → ((r : R) → p (f r) ≡ p r)
      → find_first p (upsert p new f rows)
        ≡ elim (find_first p rows) [ none ↦ some new | some r ↦ some (f r) ]
  unfolding find_first upsert
  find_first-upsert_self p new f [] e h = ground arith
  find_first-upsert_self p new f (r ∷ rows) e h =
      ground (arith, h r, find_first-upsert_self p new f rows e h)

  -- A test that the new row fails, and that excludes the key, is not affected.
  pub find_first-upsert_ne :
      (q p : R → Bool) (new : R) (f : R → R) (rows : List R)
      → q new ≡ false
      → ((r : R) → p r ≡ true → q r ≡ false)
      → ((r : R) → q (f r) ≡ q r)
      → find_first q (upsert p new f rows) ≡ find_first q rows
  unfolding find_first upsert
  find_first-upsert_ne q p new f [] e d h = ground arith
  find_first-upsert_ne q p new f (r ∷ rows) e d h =
      ground (arith, h r, d r, find_first-upsert_ne q p new f rows e d h)

  -- A test that holds alike for all rows of the key: after an upsert it is met by the new row or by
  -- an old one.
  pub exists_where-upsert :
      (q p : R → Bool) (new : R) (f : R → R) (rows : List R)
      → ((r : R) → q (f r) ≡ q r)
      → ((r : R) → p r ≡ true → q r ≡ q new)
      → exists_where q (upsert p new f rows) ≡ (q new || exists_where q rows)
  unfolding exists_where upsert
  exists_where-upsert q p new f [] h k = ground arith
  exists_where-upsert q p new f (r ∷ rows) h k =
      ground (arith, h r, k r, exists_where-upsert q p new f rows h k)

  pub exists_where_of_find_first :
      (p : R → Bool) (rows : List R) (a : R)
      → find_first p rows ≡ some a
      → exists_where p rows ≡ true
  unfolding find_first exists_where
  exists_where_of_find_first p [] a h = ground arith
  exists_where_of_find_first p (x ∷ rows) a h = ground (arith, exists_where_of_find_first p rows a)

  pub count_where-append :
      (p : R → Bool) (rows more : List R)
      → count_where p (rows ++ more) ≡ count_where p rows + count_where p more
  unfolding count_where
  count_where-append p [] more = ground arith
  count_where-append p (r ∷ rows) more = ground (arith, count_where-append p rows more)

  pub All-update_where :
      (P : R → Type 0) (p : R → Bool) (f : R → R)
      → ((r : R) → P r → P (f r))
      → (rows : List R) → All P rows
      → All P (update_where p f rows)
  unfolding update_where
  All-update_where P p f k [] h = tt
  All-update_where P p f k (r ∷ rows) h = (
    elim (p r) as (λ b. P (if b then f r else r)) [ true ↦ k r h.0 | false ↦ h.0 ],
    All-update_where P p f k rows h.1,
  )

  pub All-upsert :
      (P : R → Type 0) (p : R → Bool) (new : R) (f : R → R)
      → P new
      → ((r : R) → P r → P (f r))
      → (rows : List R) → All P rows
      → All P (upsert p new f rows)
  unfolding upsert
  All-upsert P p new f n k [] h = (n, tt)
  All-upsert P p new f n k (r ∷ rows) h =
      elim (p r) as (λ b. All P (if b then f r ∷ rows else r ∷ upsert p new f rows)) [
        | true ↦ (k r h.0, h.1)
        | false ↦ (h.0, All-upsert P p new f n k rows h.1)
      ]

  pub All-find_first :
      (P : R → Type 0) (p : R → Bool) (rows : List R) (a : R)
      → All P rows
      → find_first p rows ≡ some a
      → P a
  unfolding find_first
  All-find_first P p [] a h e = ground arith
  All-find_first P p (r ∷ rows) a h e = elim (Bool-cases (p r)) [
    | inl here ↦ let same : r ≡ a = ground arith in subst P same h.0
    | inr later ↦ All-find_first P p rows a h.1 (ground arith)
  ]

  pub find_first_of_exists_where :
      (p : R → Bool) (rows : List R)
      → exists_where p rows ≡ true
      → (r : R) × (find_first p rows ≡ some r)
  unfolding find_first exists_where
  find_first_of_exists_where p [] h = cc
  find_first_of_exists_where p (x ∷ rows) h = elim (Bool-cases (p x)) [
    | inl here ↦ (x, rw here)
    | inr more ↦ let (r, e) = find_first_of_exists_where p rows (rw more at h) in (r, rw more e)
  ]

  -- A row that is found meets the test.
  pub find_first_sound :
      (p : R → Bool) (rows : List R) (a : R) → find_first p rows ≡ some a → p a ≡ true
  unfolding find_first
  find_first_sound p [] a e = ground arith
  find_first_sound p (r ∷ rows) a e = ground (arith, find_first_sound p rows a)

pub find_first-append :
    {R : Type 0} (p : R → Bool) (rows : List R) (r : R)
    → exists_where p rows ≡ false
    → p r ≡ true
    → find_first p (rows ++ r ∷ []) ≡ some r
unfolding find_first exists_where
find_first-append p [] r h e = rw e refl
find_first-append p (x ∷ rows) r h e = ground (arith, find_first-append p rows r)
