-- ===== src/Onedrive/Delta/LastEvent.antt =====
-- The reducer of delta events beside a plain description of its result
-- (src/nightfall_photo_ingress/adapters/onedrive/client.py).
use nightfall_photo_ingress.Base.{
  ℕ, ◌+◌, ◌≤◌, ◌<◌, ◌≡◌, refl, ◌∙◌, sym, ap, String, Bool, true, false, ◌||◌, Option, none, some,
  List, [], ◌∷◌, ◌++◌, ◌==◌, leb, All, All-impl, append-nil, append_assoc, arith, eq_iff, eq_refl,
  inl, inr, Bool-cases, Option-cases, if◌then◌else◌, option_or,
}
use nightfall_photo_ingress.Onedrive.Delta.{
  RawItem, RemoteCandidate, ReducerEntry, Reducer, Reduction, set_entry, has_entry, entry_of, store,
  apply_item, apply_items, apply_delta_page_to_reducer, insert_entry, sort_entries, candidates_of,
  materialize_reduced_candidates, empty_reduction, reduce_delta_page_candidates,
}

-- The list without the entries of an id.
without : String → Reducer → Reducer
without id [] = []
without id ((k, e) ∷ d) = if k == id then without id d else (k, e) ∷ without id d

abbrev Events : Type 0
Events = List (String × Option RemoteCandidate)

abbrev add_stored : String → Option (Option RemoteCandidate) → Events → Events
add_stored id none es = es
add_stored id (some c) es = (id, c) ∷ es

add_event : String → String → Option RawItem → Events → Events
add_event now account none es = es
add_event now account (some raw) es =
    let id = option_or raw.id "" in
    if id == "" then es else add_stored id (entry_of now account raw).0 es

-- The events that store an entry, each for its id, in the order of the page.
pub stored_events : String → String → List (Option RawItem) → Events
unfolding add_event
stored_events now account [] = []
stored_events now account (x ∷ xs) = add_event now account x (stored_events now account xs)

mentions : String → List (String × Option RemoteCandidate) → Bool
mentions id [] = false
mentions id ((k, c) ∷ es) = k == id || mentions id es

-- The candidates of the events that are the last for their id; a deletion has none.
pub last_candidates : List (String × Option RemoteCandidate) → List RemoteCandidate
last_candidates [] = []
last_candidates ((id, c) ∷ es) =
    if mentions id es
    then last_candidates es
    else elim c [ none ↦ last_candidates es | some x ↦ x ∷ last_candidates es ]

abbrev Before : ℕ → String × ReducerEntry → Type 0
Before n x = x.1.sequence ≤ n

abbrev IsSorted : Reducer → Type 0
IsSorted [] = Unit
IsSorted (x ∷ xs) = All (λ y. x.1.sequence ≤ y.1.sequence) xs × IsSorted xs

abbrev HasDistinctKeys : Reducer → Type 0
HasDistinctKeys [] = Unit
HasDistinctKeys ((k, e) ∷ d) = (has_entry k d ≡ false) × HasDistinctKeys d

insert_entry-All :
    (P : String × ReducerEntry → Type 0) (x : String × ReducerEntry) (d : Reducer)
    → P x
    → All P d
    → All P (insert_entry x d)
unfolding insert_entry
insert_entry-All P x [] p h = (p, tt)
insert_entry-All P x (y ∷ ys) p h =
    elim (leb x.1.sequence y.1.sequence)
      as (λ b. All P (if b then x ∷ y ∷ ys else y ∷ insert_entry x ys)) [
        | true ↦ (p, h)
        | false ↦ (h.0, insert_entry-All P x ys p h.1)
      ]

sort_entries-All :
    (P : String × ReducerEntry → Type 0) (d : Reducer) → All P d → All P (sort_entries d)
unfolding sort_entries
sort_entries-All P [] h = tt
sort_entries-All P (x ∷ xs) h =
    insert_entry-All P x (sort_entries xs) h.0 (sort_entries-All P xs h.1)

above :
    (a b : ℕ) (d : Reducer) → a ≤ b → All (λ y. b ≤ y.1.sequence) d → All (λ y. a ≤ y.1.sequence) d
above a b d h k = All-impl _ _ (λ y (p : b ≤ y.1.sequence). omega arith) d k

insert_entry-IsSorted :
    (x : String × ReducerEntry) (d : Reducer) → IsSorted d → IsSorted (insert_entry x d)
unfolding insert_entry
insert_entry-IsSorted x [] h = (tt, tt)
insert_entry-IsSorted x (y ∷ ys) h = elim (Bool-cases (leb x.1.sequence y.1.sequence)) [
  | inl first ↦
      let le : x.1.sequence ≤ y.1.sequence = ground arith in
      rw first ((le, above x.1.sequence y.1.sequence ys le h.0), h)
  | inr later ↦
      let le : y.1.sequence ≤ x.1.sequence = ground arith in
      rw later (
        insert_entry-All (λ z. y.1.sequence ≤ z.1.sequence) x ys le h.0,
        insert_entry-IsSorted x ys h.1,
      )
]

sort_entries-IsSorted : (d : Reducer) → IsSorted (sort_entries d)
unfolding sort_entries
sort_entries-IsSorted [] = tt
sort_entries-IsSorted (x ∷ xs) =
    insert_entry-IsSorted x (sort_entries xs) (sort_entries-IsSorted xs)

insert_entry_first :
    (x : String × ReducerEntry) (d : Reducer)
    → All (λ y. x.1.sequence ≤ y.1.sequence) d
    → insert_entry x d ≡ x ∷ d
unfolding insert_entry
insert_entry_first x [] h = refl
insert_entry_first x (y ∷ ys) h = ground (arith, h.0)

insert_entry_last :
    (x : String × ReducerEntry) (n : ℕ) (d : Reducer)
    → n < x.1.sequence
    → All (Before n) d
    → insert_entry x d ≡ d ++ x ∷ []
unfolding insert_entry
insert_entry_last x n [] lt h = refl
insert_entry_last x n (y ∷ ys) lt h = ground (arith, h.0, insert_entry_last x n ys lt h.1)

insert_entry-append :
    (x z : String × ReducerEntry) (d : Reducer)
    → x.1.sequence ≤ z.1.sequence
    → insert_entry x (d ++ z ∷ []) ≡ insert_entry x d ++ z ∷ []
unfolding insert_entry
insert_entry-append x z [] le = ground arith
insert_entry-append x z (y ∷ ys) le = ground (arith, insert_entry-append x z ys le)

without-All :
    (P : String × ReducerEntry → Type 0) (id : String) (d : Reducer)
    → All P d
    → All P (without id d)
unfolding without
without-All P id [] h = tt
without-All P id ((k, e) ∷ d) h =
    elim (k == id) as (λ b. All P (if b then without id d else (k, e) ∷ without id d)) [
      | true ↦ without-All P id d h.1
      | false ↦ (h.0, without-All P id d h.1)
    ]

without-insert_entry :
    (id k : String) (e : ReducerEntry) (d : Reducer)
    → (k == id) ≡ false
    → IsSorted d
    → without id (insert_entry (k, e) d) ≡ insert_entry (k, e) (without id d)
unfolding without insert_entry
without-insert_entry id k e [] other h = rw other refl
without-insert_entry id k e ((j, y) ∷ ys) other h = elim (Bool-cases (leb e.sequence y.sequence)) [
  | inl first ↦
      let le : e.sequence ≤ y.sequence = ground arith in
      let start : insert_entry (k, e) (without id ys) ≡ (k, e) ∷ without id ys =
        insert_entry_first (k, e) (without id ys)
          (without-All _ id ys (above e.sequence y.sequence ys le h.0)) in
      ground (arith, start)
  | inr later ↦ ground (arith, without-insert_entry id k e ys other h.1)
]

without_absent : (id : String) (d : Reducer) → has_entry id d ≡ false → without id d ≡ d
unfolding without has_entry
without_absent id [] h = refl
without_absent id ((k, e) ∷ d) h = ground (arith, without_absent id d)

has_entry-insert_entry :
    (id k : String) (e : ReducerEntry) (d : Reducer)
    → has_entry id (insert_entry (k, e) d) ≡ (k == id || has_entry id d)
unfolding has_entry insert_entry
has_entry-insert_entry id k e [] = refl
has_entry-insert_entry id k e ((j, y) ∷ ys) = ground (arith, has_entry-insert_entry id k e ys)

has_entry-sort_entries :
    (id : String) (d : Reducer) → has_entry id (sort_entries d) ≡ has_entry id d
unfolding sort_entries has_entry
has_entry-sort_entries id [] = refl
has_entry-sort_entries id ((k, e) ∷ d) =
    has_entry-insert_entry id k e (sort_entries d) ∙ rw (has_entry-sort_entries id d) refl

has_entry-tail :
    (id k : String) (e : ReducerEntry) (d : Reducer)
    → has_entry id ((k, e) ∷ d) ≡ false
    → ((k == id) ≡ false) × (has_entry id d ≡ false)
unfolding has_entry
has_entry-tail id k e d h = ground arith

without-insert_entry_self :
    (id : String) (e : ReducerEntry) (d : Reducer)
    → has_entry id d ≡ false
    → without id (insert_entry (id, e) d) ≡ d
unfolding without insert_entry
without-insert_entry_self id e [] h = rw (eq_refl id) refl
without-insert_entry_self id e ((j, y) ∷ ys) h =
    let (other, rest) = has_entry-tail id j y ys h in
    ground
      (arith, eq_refl id, other, without_absent id ys rest, without-insert_entry_self id e ys rest)

-- Sorted by sequence, a reducer whose entry for an id is set anew has that entry at its end.
sort_entries-set_entry :
    (id : String) (e : ReducerEntry) (n : ℕ) (d : Reducer)
    → n < e.sequence
    → HasDistinctKeys d
    → All (Before n) d
    → sort_entries (set_entry id e d) ≡ without id (sort_entries d) ++ (id, e) ∷ []
unfolding sort_entries set_entry without insert_entry
sort_entries-set_entry id e n [] lt u h = refl
sort_entries-set_entry id e n ((k, old) ∷ d) lt u h = elim (Bool-cases (k == id)) [
  | inl same ↦
      let k_id : k ≡ id = (eq_iff k id).0 same in
      rw same (
        rw k_id (
          insert_entry_last (id, e) n (sort_entries d) lt (sort_entries-All _ d h.1)
          ∙ ap (λ l. l ++ (id, e) ∷ [])
              (sym (
                without-insert_entry_self id old (sort_entries d)
                  (has_entry-sort_entries id d ∙ rw (sym k_id) u.0)))))
  | inr other ↦ rw other (
      ap (insert_entry (k, old)) (sort_entries-set_entry id e n d lt u.1 h.1)
      ∙ insert_entry-append (k, old) (id, e) (without id (sort_entries d)) (omega (arith, h.0))
      ∙ ap (λ l. l ++ (id, e) ∷ [])
          (sym (without-insert_entry id k old (sort_entries d) other (sort_entries-IsSorted d))))
]

has_entry-set_entry :
    (k id : String) (e : ReducerEntry) (d : Reducer)
    → has_entry k (set_entry id e d) ≡ (id == k || has_entry k d)
unfolding has_entry set_entry
has_entry-set_entry k id e [] = refl
has_entry-set_entry k id e ((j, y) ∷ d) = ground (arith, has_entry-set_entry k id e d, eq_iff j id)

set_entry-HasDistinctKeys :
    (id : String) (e : ReducerEntry) (d : Reducer)
    → HasDistinctKeys d
    → HasDistinctKeys (set_entry id e d)
unfolding set_entry has_entry
set_entry-HasDistinctKeys id e [] h = (refl, tt)
set_entry-HasDistinctKeys id e ((k, y) ∷ d) h = elim (Bool-cases (k == id)) [
  | inl same ↦ rw same h
  | inr other ↦ rw other (
    has_entry-set_entry k id e d ∙ ground (arith, h.0, eq_iff k id, eq_iff id k),
    set_entry-HasDistinctKeys id e d h.1,
  )
]

set_entry-All :
    (P : String × ReducerEntry → Type 0) (id : String) (e : ReducerEntry) (d : Reducer)
    → ((k : String) → P (k, e))
    → All P d
    → All P (set_entry id e d)
unfolding set_entry
set_entry-All P id e [] p h = (p id, tt)
set_entry-All P id e ((k, y) ∷ d) p h =
    elim (k == id) as (λ b. All P (if b then (k, e) ∷ d else (k, y) ∷ set_entry id e d)) [
      | true ↦ (p k, h.1)
      | false ↦ (h.0, set_entry-All P id e d p h.1)
    ]

-- The entries whose id no later event mentions.
surviving : List (String × Option RemoteCandidate) → Reducer → Reducer
surviving es [] = []
surviving es ((k, e) ∷ d) =
    let rest = surviving es d in if mentions k es then rest else (k, e) ∷ rest

surviving-nil : (d : Reducer) → surviving [] d ≡ d
unfolding surviving mentions
surviving-nil [] = refl
surviving-nil ((k, e) ∷ d) = ap (λ l. (k, e) ∷ l) (surviving-nil d)

surviving-append :
    (es : Events) (a b : Reducer) → surviving es (a ++ b) ≡ surviving es a ++ surviving es b
unfolding surviving
surviving-append es [] b = refl
surviving-append es ((k, e) ∷ a) b = ground (arith, surviving-append es a b)

surviving-without :
    (id : String) (c : Option RemoteCandidate) (es : List (String × Option RemoteCandidate))
    (d : Reducer)
    → surviving ((id, c) ∷ es) d ≡ surviving es (without id d)
unfolding surviving without mentions
surviving-without id c es [] = refl
surviving-without id c es ((k, e) ∷ d) =
    ground (arith, surviving-without id c es d, eq_iff k id, eq_iff id k)

candidates_of-append : (a b : Reducer) → candidates_of (a ++ b) ≡ candidates_of a ++ candidates_of b
unfolding candidates_of
candidates_of-append [] b = refl
candidates_of-append ((k, e) ∷ a) b = elim (Option-cases e.candidate) [
  | inl deleted ↦ rw deleted (candidates_of-append a b)
  | inr (c, found) ↦ rw found (ap (λ l. c ∷ l) (candidates_of-append a b))
]

-- A new entry that no later event mentions gives its candidate, and no other does.
last_candidates-cons :
    (id : String) (n : ℕ) (c : Option RemoteCandidate) (es : List (String × Option RemoteCandidate))
    → candidates_of (surviving es ((id, record { sequence = n; candidate = c }) ∷ []))
        ++ last_candidates es
      ≡ last_candidates ((id, c) ∷ es)
unfolding candidates_of surviving last_candidates
last_candidates-cons id n none es = elim (Bool-cases (mentions id es)) [
  | inl later ↦ rw later refl
  | inr last ↦ rw last refl
]
last_candidates-cons id n (some c) es = elim (Bool-cases (mentions id es)) [
  | inl later ↦ rw later refl
  | inr last ↦ rw last refl
]

-- Each id has one entry, and the sequence has passed all entries.
record IsTracked (s : Reduction) : Type 0 where
  distinct : HasDistinctKeys s.reducer
  before : All (Before s.sequence) s.reducer

store-IsTracked :
    (id : String) (entry : Option (Option RemoteCandidate)) (n : ℕ) (d : Reducer)
    → HasDistinctKeys d
    → All (Before n) d
    → HasDistinctKeys (store id (n + 1) entry d) × All (Before (n + 1)) (store id (n + 1) entry d)
store-IsTracked id none n d u h = (u, All-impl _ _ (λ x (p : x.1.sequence ≤ n). omega arith) d h)
store-IsTracked id (some c) n d u h = (
  set_entry-HasDistinctKeys id _ d u,
  set_entry-All (Before (n + 1)) id _ d (λ k. omega arith)
      (All-impl _ _ (λ x (p : x.1.sequence ≤ n). omega arith) d h),
)

apply_item-IsTracked :
    (now account : String) (x : Option RawItem) (s : Reduction)
    → IsTracked s
    → IsTracked (apply_item now account x s)
unfolding apply_item
apply_item-IsTracked now account none s h = h
apply_item-IsTracked now account (some raw) s h = elim (Bool-cases (option_or raw.id "" == "")) [
  | inl missing ↦ rw missing (record { distinct = h.distinct; before = h.before })
  | inr here ↦
      let (u, b) =
        store-IsTracked (option_or raw.id "") (entry_of now account raw).0 s.sequence s.reducer
          h.distinct h.before in
      rw here (record { distinct = u; before = b })
]

-- The candidates after an entry is stored, from those before: the ones that no event mentions, and
-- then those of the last events.
store_lem :
    (id : String) (entry : Option (Option RemoteCandidate)) (n : ℕ) (d : Reducer) (es : Events)
    → HasDistinctKeys d
    → All (Before n) d
    → candidates_of (surviving es (sort_entries (store id (n + 1) entry d))) ++ last_candidates es
      ≡ candidates_of (surviving (add_stored id entry es) (sort_entries d))
        ++ last_candidates (add_stored id entry es)
store_lem id none n d es u h = refl
store_lem id (some c) n d es u h =
    let e : ReducerEntry = record { sequence = n + 1; candidate = c } in
    let kept : Reducer = without id (sort_entries d) in
    rw (sort_entries-set_entry id e n d (omega arith) u h) (
      rw (surviving-append es kept ((id, e) ∷ [])) (
        rw (candidates_of-append (surviving es kept) (surviving es ((id, e) ∷ []))) (
          append_assoc (candidates_of (surviving es kept))
            (candidates_of (surviving es ((id, e) ∷ []))) (last_candidates es)
          ∙ rw (last_candidates-cons id (n + 1) c es)
              (rw (surviving-without id c es (sort_entries d)) refl))))

apply_item_lem :
    (now account : String) (x : Option RawItem) (s : Reduction) (es : Events)
    → IsTracked s
    → candidates_of (surviving es (sort_entries (apply_item now account x s).reducer))
        ++ last_candidates es
      ≡ candidates_of (surviving (add_event now account x es) (sort_entries s.reducer))
        ++ last_candidates (add_event now account x es)
unfolding apply_item add_event
apply_item_lem now account none s es h = refl
apply_item_lem now account (some raw) s es h = elim (Bool-cases (option_or raw.id "" == "")) [
  | inl missing ↦ rw missing refl
  | inr here ↦ rw here (
      store_lem (option_or raw.id "") (entry_of now account raw).0 s.sequence s.reducer es
        h.distinct h.before)
]

apply_items_lem :
    (now account : String) (xs : List (Option RawItem)) (s : Reduction)
    → IsTracked s
    → candidates_of (sort_entries (apply_items now account xs s).reducer)
      ≡ candidates_of (surviving (stored_events now account xs) (sort_entries s.reducer))
        ++ last_candidates (stored_events now account xs)
unfolding apply_items stored_events last_candidates
apply_items_lem now account [] s h =
    rw (surviving-nil (sort_entries s.reducer)) (sym (append-nil _))
apply_items_lem now account (x ∷ xs) s h =
    apply_items_lem now account xs (apply_item now account x s)
      (apply_item-IsTracked now account x s h)
    ∙ apply_item_lem now account x s (stored_events now account xs) h

-- The candidates of a page are those of the last event of each id, in the order of these events: an
-- event that a later one with its id follows gives nothing, and neither does a deletion. Items
-- without an id, items that are no files and items that are refused are no events, so they leave an
-- earlier candidate of their id.
pub reduce_delta_page_candidates_lem :
    (now account : String) (items : List (Option RawItem))
    → reduce_delta_page_candidates now account (some items)
      ≡ last_candidates (stored_events now account items)
unfolding reduce_delta_page_candidates apply_delta_page_to_reducer materialize_reduced_candidates
    surviving candidates_of sort_entries
reduce_delta_page_candidates_lem now account items =
    apply_items_lem now account items empty_reduction (record { distinct = tt; before = tt })
