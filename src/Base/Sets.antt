-- ===== src/Base/Sets.antt =====
-- Membership in a list of texts, and the list of its different members.
use Prim.Native.String.{String}
use mathlib.Core.Bool.{Bool, true, false, ◌||◌}
use mathlib.Core.List.{List, [], ◌∷◌}
use text.Mathlib.Text.{◌==◌}
use mathlib.Core.Path.{◌≡◌, refl}
use mathlib.Core.Logic.{inl, inr}
use native.Mathlib.Omega.{arith}
use text.Mathlib.TextEquality.{eq_iff}
use nightfall_photo_ingress.Base.Tests.{if◌then◌else◌, Bool-cases}
use nightfall_photo_ingress.Base.Lists.{All, All-impl}
use text.Mathlib.TextPositions.{eq_refl}

-- s in xs
unfoldable pub contains : String → List String → Bool
contains s [] = false
contains s (x ∷ xs) = x == s || contains s xs

dedupe_from : List String → List String → List String
unfolding contains
dedupe_from seen [] = []
dedupe_from seen (x ∷ xs) =
    let rest = dedupe_from (x ∷ seen) xs in if contains x seen then rest else x ∷ rest

-- tuple(dict.fromkeys(xs))
unfoldable pub dedupe : List String → List String
unfolding dedupe_from
dedupe xs = dedupe_from [] xs

contains-dedupe_from :
    (h : String) (seen xs : List String)
    → (contains h (dedupe_from seen xs) || contains h seen) ≡ (contains h xs || contains h seen)
unfolding dedupe_from contains
contains-dedupe_from h seen [] = refl
contains-dedupe_from h seen (x ∷ xs) = elim (Bool-cases (contains x seen)) [
  | inl known ↦ ground (arith, contains-dedupe_from h (x ∷ seen) xs, eq_iff x h)
  | inr new ↦ ground (arith, contains-dedupe_from h (x ∷ seen) xs)
]

-- A list and its different members have the same members.
pub contains-dedupe : (h : String) (xs : List String) → contains h (dedupe xs) ≡ contains h xs
unfolding dedupe contains
contains-dedupe h xs = ground (arith, contains-dedupe_from h [] xs)

contains-more :
    (h x : String) (xs : List String) → contains h xs ≡ true → contains h (x ∷ xs) ≡ true
unfolding contains
contains-more h x xs e = ground arith

contains-head : (x : String) (xs : List String) → contains x (x ∷ xs) ≡ true
unfolding contains
contains-head x xs = ground (arith, eq_refl x)

-- Every element is a member.
pub All-contains : (xs : List String) → All (λ h. contains h xs ≡ true) xs
All-contains [] = tt
All-contains (x ∷ xs) =
    (contains-head x xs, All-impl _ _ (λ h. contains-more h x xs) xs (All-contains xs))
