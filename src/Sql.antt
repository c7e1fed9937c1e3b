-- ===== src/Sql.antt =====
-- The statements that the program gives to SQLite, on a table that is the list of its rows in
-- insertion order. A `WHERE` clause is a Boolean test of a row.
pub mod Laws
use nightfall_photo_ingress.Base.{
  ℕ, suc, ◌<◌, ◌≡◌, Bool, true, false, ◌||◌, Option, none, some, List, [], ◌∷◌, if◌then◌else◌, ltb,
}

module _ {R : Type 0} where
  -- SELECT … WHERE p LIMIT 1, in insertion order
  unfoldable pub find_first : (R → Bool) → List R → Option R
  find_first p [] = none
  find_first p (r ∷ rows) = if p r then some r else find_first p rows

  -- SELECT … WHERE p
  unfoldable pub select_where : (R → Bool) → List R → List R
  select_where p [] = []
  select_where p (r ∷ rows) = let rest = select_where p rows in if p r then r ∷ rest else rest

  -- SELECT COUNT(*) … WHERE p
  unfoldable pub count_where : (R → Bool) → List R → ℕ
  count_where p [] = 0
  count_where p (r ∷ rows) = let rest = count_where p rows in if p r then suc rest else rest

  -- a row with p is there
  unfoldable pub exists_where : (R → Bool) → List R → Bool
  exists_where p [] = false
  exists_where p (r ∷ rows) = p r || exists_where p rows

  -- UPDATE … SET f WHERE p
  unfoldable pub update_where : (R → Bool) → (R → R) → List R → List R
  update_where p f [] = []
  update_where p f (r ∷ rows) = (if p r then f r else r) ∷ update_where p f rows

  -- INSERT … ON CONFLICT(key) DO UPDATE SET f: `p` finds the row that has the key of `new`
  unfoldable pub upsert : (R → Bool) → R → (R → R) → List R → List R
  upsert p new f [] = new ∷ []
  upsert p new f (r ∷ rows) = if p r then f r ∷ rows else r ∷ upsert p new f rows

-- The rows have pairwise different keys: `key r` finds the rows with the key of `r`.
abbrev pub IsUnique : {R : Type 0} → (R → R → Bool) → List R → Type 0
IsUnique key [] = Unit
IsUnique key (r ∷ rows) = (exists_where (key r) rows ≡ false) × IsUnique key rows

-- The ids rise strictly, all above `lo`.
abbrev pub IsIncreasing : {R : Type 0} → (R → ℕ) → ℕ → List R → Type 0
IsIncreasing id lo [] = Unit
IsIncreasing id lo (r ∷ rows) = (lo < id r) × IsIncreasing id (id r) rows
