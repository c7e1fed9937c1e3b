-- ===== src/Storage/Names.antt =====
-- The names and destinations of Storage/Render (src/nightfall_photo_ingress/domain/storage.py).
use Prim.Native.Char.{Char}
use mathlib.Core.Path.{subst}
use nightfall_photo_ingress.Base.{
  ℕ, zero, suc, ◌+◌, ◌≤◌, ◌<◌, String, Bool, true, false, ◌||◌, List, [], ◌∷◌, ◌==◌, ◌≡◌, ◌≢◌, refl,
  arith, All, inl, inr, Bool-cases, eq_iff, if◌then◌else◌,
}
use nightfall_photo_ingress.Base.Exec.{ok}
use nightfall_photo_ingress.Text.{AllChars, lstrip, rstrip, strip, split}
use nightfall_photo_ingress.World.{Os, Fs, exists}
use nightfall_photo_ingress.Storage.Render.{
  is_safe, substitute, is_edge, sanitize_filename, path_parts, has_parent_part, drop_dots,
  render_text, render_storage_relative_path, candidate, try_candidates,
  choose_collision_safe_destination_with_threshold,
}

if-AllChars :
    (q : Char → Bool) (b : Bool) (s t : String)
    → AllChars q s
    → AllChars q t
    → AllChars q (if b then s else t)
if-AllChars q true s t hs ht = hs
if-AllChars q false s t hs ht = ht

substitute-safe : (b : Bool) (s : String) → AllChars is_safe (substitute b s)
unfolding substitute is_safe
substitute-safe b String.[] = tt
substitute-safe b (String.◌∷◌ c s) = elim (Bool-cases (is_safe c)) [
  | inl safe ↦ rw safe (safe, substitute-safe false s)
  | inr other ↦
      rw other (if-AllChars is_safe b _ _ (substitute-safe true s) (refl, substitute-safe true s))
]

lstrip-AllChars : (p q : Char → Bool) (s : String) → AllChars q s → AllChars q (lstrip p s)
unfolding lstrip
lstrip-AllChars p q String.[] h = tt
lstrip-AllChars p q (String.◌∷◌ c s) h = elim (Bool-cases (p c)) [
  | inl drop ↦ rw drop (lstrip-AllChars p q s h.1)
  | inr keep ↦ rw keep h
]

rstrip-AllChars : (p q : Char → Bool) (s : String) → AllChars q s → AllChars q (rstrip p s)
unfolding rstrip
rstrip-AllChars p q String.[] h = tt
rstrip-AllChars p q (String.◌∷◌ c s) h =
    if-AllChars q _ String.[] (String.◌∷◌ c (rstrip p s)) tt (h.0, rstrip-AllChars p q s h.1)

-- A sanitised name is not empty, and every character of it is a letter, a digit, a dot, an
-- underscore, a space or a dash: no path separator is left, whatever the name was.
pub sanitize_filename-safe :
    (value : String) → (sanitize_filename value ≢ "") × AllChars is_safe (sanitize_filename value)
unfolding sanitize_filename strip is_safe
sanitize_filename-safe value =
    let cleaned : String = rstrip is_edge (lstrip is_edge (substitute false value)) in
    let safe : AllChars is_safe cleaned =
      rstrip-AllChars is_edge is_safe _
        (lstrip-AllChars is_edge is_safe _ (substitute-safe false value)) in
    elim (Bool-cases (cleaned == "")) [
      | inl empty ↦ rw empty (
        (λ e. ground (arith, eq_iff "unnamed" "")),
        (refl, (refl, (refl, (refl, (refl, (refl, (refl, tt))))))),
      )
      | inr kept ↦ rw kept ((λ e. ground (arith, eq_iff cleaned "")), safe)
    ]

-- No component is empty, a dot or two dots.
abbrev pub IsPlain : String → Type 0
IsPlain p = (p ≢ "") × (p ≢ ".") × (p ≢ "..")

no_parent :
    (p : String) (ps : List String)
    → ((p == "") || (p == ".")) ≡ false
    → has_parent_part (drop_dots (p ∷ ps)) ≡ false
    → ((p == "..") ≡ false) × (has_parent_part (drop_dots ps) ≡ false)
unfolding drop_dots has_parent_part
no_parent p ps kept h = ground arith

drop_dots-IsPlain :
    (ps : List String) → has_parent_part (drop_dots ps) ≡ false → All IsPlain (drop_dots ps)
unfolding drop_dots has_parent_part
drop_dots-IsPlain [] h = tt
drop_dots-IsPlain (p ∷ ps) h = elim (Bool-cases ((p == "") || (p == "."))) [
  | inl dropped ↦ rw dropped (drop_dots-IsPlain ps (ground arith))
  | inr kept ↦ rw kept (
    (
      λ e. ground (arith, eq_iff p ""),
      λ e. ground (arith, eq_iff p "."),
      λ e. ground (arith, eq_iff p "..", no_parent p ps kept h),
    ),
    drop_dots-IsPlain ps (no_parent p ps kept h).1,
  )
]

render_inversion :
    (os : Os) (template sha filename modified_time : String) (parts : List String)
    → render_storage_relative_path os template sha filename modified_time ≡ ok parts
    → let rendered = render_text os template sha filename modified_time in
      (has_parent_part (drop_dots (split "/" rendered)) ≡ false)
      × (drop_dots (split "/" rendered) ≡ parts)
unfolding render_storage_relative_path path_parts
render_inversion os template sha filename modified_time parts h = ground arith

-- A storage template renders to components none of which is empty, a dot or two dots, or it is
-- refused: no rendered path climbs above the root that it is joined to.
pub render-IsPlain :
    (os : Os) (template sha filename modified_time : String) (parts : List String)
    → render_storage_relative_path os template sha filename modified_time ≡ ok parts
    → All IsPlain parts
unfolding render_storage_relative_path path_parts
render-IsPlain os template sha filename modified_time parts h =
    let found : String = render_text os template sha filename modified_time in
    let (plain, same) = render_inversion os template sha filename modified_time parts h in
    subst (All IsPlain) same (drop_dots-IsPlain (split "/" found) plain)

try_candidates-fresh :
    (fs : Fs) (base : String) (attempts left index : ℕ) (p : String)
    → try_candidates fs base attempts left index ≡ ok p
    → exists p fs ≡ false
unfolding try_candidates
try_candidates-fresh fs base attempts zero index p h = cc
try_candidates-fresh fs base attempts (suc left) index p h =
    ground (arith, try_candidates-fresh fs base attempts left (index + 1) p)

try_candidates-total :
    (fs : Fs) (base : String) (attempts left index i : ℕ)
    → index ≤ i
    → i < index + left
    → exists (candidate base i) fs ≡ false
    → (p : String) × (try_candidates fs base attempts left index ≡ ok p)
unfolding try_candidates
try_candidates-total fs base attempts zero index i lo hi free = absurd (omega arith)
try_candidates-total fs base attempts (suc left) index i lo hi free =
    elim (Bool-cases (exists (candidate base index) fs)) [
      | inr here ↦ (candidate base index, rw here)
      | inl taken ↦
          let (p, e) =
            try_candidates-total fs base attempts left (index + 1) i
              (later index i lo (λ same. ground arith)) (omega arith) free in
          (p, rw taken e)
    ]
  where
    later : (a b : ℕ) → a ≤ b → a ≢ b → a + 1 ≤ b
    later a b le ne = omega arith

-- The destination chosen is a path that no file has. One is chosen whenever at least one attempt is
-- allowed and the path itself or one of the numbered names within the attempts is free.
pub choose_collision_safe_destination-fresh :
    (fs : Fs) (base : String) (attempts i : ℕ)
    → 1 ≤ i
    → i ≤ attempts
    → exists (candidate base i) fs ≡ false
    → (p : String) × (choose_collision_safe_destination_with_threshold fs base attempts ≡ ok p)
      × (exists p fs ≡ false)
unfolding choose_collision_safe_destination_with_threshold
choose_collision_safe_destination-fresh fs base attempts i lo hi free =
    elim (Bool-cases (exists base fs)) [
      | inr clear ↦ (base, ground arith, clear)
      | inl taken ↦
          let (p, e) = try_candidates-total fs base attempts attempts 1 i lo (omega arith) free in
          (p, ground arith, try_candidates-fresh fs base attempts attempts 1 p e)
    ]
