-- ===== src/Text/Lines.antt =====
-- How a text splits into lines (`str.splitlines`).
use Prim.Native.Char.{Char}
use nightfall_photo_ingress.Base.{
  String, Bool, true, false, not, List, [], ◌∷◌, ◌≡◌, refl, sym, ap, ◌∙◌, All,
}
use nightfall_photo_ingress.Text.{cat, AllChars, is_line_boundary, lines_from, splitlines}
use nightfall_photo_ingress.Text.Splits.{cat-nil, cat_assoc, is_false}

-- No character ends a line.
abbrev pub IsLine : String → Type 0
IsLine s = AllChars (λ c. not (is_line_boundary c)) s

-- The text of lines, each with a line feed behind it.
unfoldable pub text_of_lines : List String → String
unfolding cat
text_of_lines [] = String.[]
text_of_lines (line ∷ lines) = cat line (String.◌∷◌ "\n" (text_of_lines lines))

pub cat-AllChars :
    (p : Char → Bool) (s t : String) → AllChars p s → AllChars p t → AllChars p (cat s t)
unfolding cat
cat-AllChars p String.[] t h k = k
cat-AllChars p (String.◌∷◌ c s) t h k = (h.0, cat-AllChars p s t h.1 k)

lines_from-past :
    (c : Char) (part s : String)
    → not (is_line_boundary c) ≡ true
    → lines_from false part (String.◌∷◌ c s)
      ≡ lines_from false (cat part (String.◌∷◌ c String.[])) s
unfolding lines_from
lines_from-past c part s e = rw (is_false (is_line_boundary c) e, lines_from) refl

lines_from-line :
    (part s t : String)
    → IsLine s
    → lines_from false part (cat s (String.◌∷◌ "\n" t)) ≡ cat part s ∷ lines_from false String.[] t
unfolding cat lines_from is_line_boundary
lines_from-line part String.[] t h = ap (λ u. u ∷ lines_from false String.[] t) (sym (cat-nil part))
lines_from-line part (String.◌∷◌ c s) t h =
    lines_from-past c part (cat s (String.◌∷◌ "\n" t)) h.0
    ∙ lines_from-line (cat part (String.◌∷◌ c String.[])) s t h.1
    ∙ ap (λ u. u ∷ lines_from false String.[] t) (cat_assoc part (String.◌∷◌ c String.[]) s)

-- The lines of a text that is made of lines are these lines.
pub splitlines-text_of_lines :
    (lines : List String) → All IsLine lines → splitlines (text_of_lines lines) ≡ lines
unfolding splitlines text_of_lines lines_from cat
splitlines-text_of_lines [] h = refl
splitlines-text_of_lines (line ∷ lines) h =
    lines_from-line String.[] line (text_of_lines lines) h.0
    ∙ ap (λ l. line ∷ l) (splitlines-text_of_lines lines h.1)
