-- ===== src/Text/Splits.antt =====
-- How a text splits at a separator (`str.split`).
use Prim.Native.Char.{Char}
use nightfall_photo_ingress.Base.{
  String, Bool, true, false, not, [], ◌∷◌, ◌≡◌, refl, sym, ap, ◌∙◌, and_left, and_right, arith,
}
use nightfall_photo_ingress.Text.{cat, same_char, AllChars, all_chars, split, split_parts}

pub cat-nil : (s : String) → cat s String.[] ≡ s
unfolding cat
cat-nil String.[] = refl
cat-nil (String.◌∷◌ c s) = ap (λ t. String.◌∷◌ c t) (cat-nil s)

pub cat_assoc : (s t u : String) → cat (cat s t) u ≡ cat s (cat t u)
unfolding cat
cat_assoc String.[] t u = refl
cat_assoc (String.◌∷◌ c s) t u = ap (λ v. String.◌∷◌ c v) (cat_assoc s t u)

-- Characters with p have q where p implies q.
pub all_chars-AllChars :
    (p q : Char → Bool) (s : String)
    → ((c : Char) → p c ≡ true → q c ≡ true)
    → all_chars p s ≡ true
    → AllChars q s
unfolding all_chars
all_chars-AllChars p q String.[] k h = tt
all_chars-AllChars p q (String.◌∷◌ c s) k h = (
  k c (and_left (p c) (all_chars p s) h),
  all_chars-AllChars p q s k (and_right (p c) (all_chars p s) h),
)

-- No character is d.
abbrev pub Lacks : Char → String → Type 0
Lacks d s = AllChars (λ c. not (same_char c d)) s

pub is_false : (b : Bool) → not b ≡ true → b ≡ false
is_false true e = cc
is_false false e = refl

same_char_refl : (d : Char) → same_char d d ≡ true
same_char_refl d = ground arith

split_parts-at :
    (d c : Char) (part s : String)
    → same_char c d ≡ true
    → split_parts d part (String.◌∷◌ c s) ≡ part ∷ split_parts d String.[] s
unfolding split_parts
split_parts-at d c part s e = rw (e, split_parts) refl

split_parts-past :
    (d c : Char) (part s : String)
    → same_char c d ≡ false
    → split_parts d part (String.◌∷◌ c s) ≡ split_parts d (cat part (String.◌∷◌ c String.[])) s
unfolding split_parts
split_parts-past d c part s e = rw (e, split_parts) refl

split_parts-here :
    (d : Char) (part s t : String)
    → Lacks d s
    → split_parts d part (cat s (String.◌∷◌ d t)) ≡ cat part s ∷ split_parts d String.[] t
unfolding cat
split_parts-here d part String.[] t h =
    split_parts-at d d part t (same_char_refl d)
    ∙ ap (λ u. u ∷ split_parts d String.[] t) (sym (cat-nil part))
split_parts-here d part (String.◌∷◌ c s) t h =
    split_parts-past d c part (cat s (String.◌∷◌ d t)) (is_false (same_char c d) h.0)
    ∙ split_parts-here d (cat part (String.◌∷◌ c String.[])) s t h.1
    ∙ ap (λ u. u ∷ split_parts d String.[] t) (cat_assoc part (String.◌∷◌ c String.[]) s)

split_parts-last : (d : Char) (part s : String) → Lacks d s → split_parts d part s ≡ cat part s ∷ []
unfolding split_parts cat
split_parts-last d part String.[] h = ap (λ u. u ∷ []) (sym (cat-nil part))
split_parts-last d part (String.◌∷◌ c s) h =
    split_parts-past d c part s (is_false (same_char c d) h.0)
    ∙ split_parts-last d (cat part (String.◌∷◌ c String.[])) s h.1
    ∙ ap (λ u. u ∷ []) (cat_assoc part (String.◌∷◌ c String.[]) s)

-- The first part is the text before the first separator.
pub split-cat :
    (d : Char) (s t : String) → Lacks d s → split d (cat s (String.◌∷◌ d t)) ≡ s ∷ split d t
unfolding split cat
split-cat d s t h = split_parts-here d String.[] s t h

-- A text without the separator is its only part.
pub split-Lacks : (d : Char) (s : String) → Lacks d s → split d s ≡ s ∷ []
unfolding split cat
split-Lacks d s h = split_parts-last d String.[] s h
