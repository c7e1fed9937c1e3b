-- ===== src/Text.antt =====
-- Texts, character by character, for what the program computes with them: concatenation, `strip`,
-- `lower`, `replace`, `startswith`, decimal numerals and the parts of a path's last component.
pub mod Splits
pub mod Lines
use Prim.Native.Char.{Char, code}
use nightfall_photo_ingress.Base.{
  ℕ, zero, suc, ◌+◌, ◌-◌, ◌/◌, ◌%◌, String, Bool, true, false, ◌&&◌, ◌||◌, Option, none, some, List,
  [], ◌∷◌, ◌==◌, ◌≡◌, eqb, leb, ltb, if◌then◌else◌,
}

-- a + b
unfoldable pub cat : String → String → String
cat String.[] t = t
cat (String.◌∷◌ c s) t = String.◌∷◌ c (cat s t)

-- len(s)
unfoldable pub text_length : String → ℕ
text_length String.[] = 0
text_length (String.◌∷◌ c s) = suc (text_length s)

abbrev pub same_char : Char → Char → Bool
same_char c d = eqb (code c) (code d)

-- Every character has p.
abbrev pub AllChars : (Char → Bool) → String → Type 0
AllChars p String.[] = Unit
AllChars p (String.◌∷◌ c s) = (p c ≡ true) × AllChars p s

-- all(p(c) for c in s)
unfoldable pub all_chars : (Char → Bool) → String → Bool
all_chars p String.[] = true
all_chars p (String.◌∷◌ c s) = p c && all_chars p s

-- s.lstrip and s.rstrip of the characters with p
unfoldable pub lstrip : (Char → Bool) → String → String
lstrip p String.[] = String.[]
lstrip p (String.◌∷◌ c s) = let rest = lstrip p s in if p c then rest else String.◌∷◌ c s

abbrev is_empty : String → Bool
is_empty String.[] = true
is_empty (String.◌∷◌ c s) = false

unfoldable pub rstrip : (Char → Bool) → String → String
rstrip p String.[] = String.[]
rstrip p (String.◌∷◌ c s) =
    let rest = rstrip p s in if is_empty rest && p c then String.[] else String.◌∷◌ c rest

unfoldable pub strip : (Char → Bool) → String → String
unfolding lstrip rstrip
strip p s = rstrip p (lstrip p s)

-- The characters that `str.strip()` removes.
unfoldable pub is_space : Char → Bool
is_space c =
    let n = code c in
    (leb 9 n && leb n 13)
    || (leb 28 n && leb n 32)
    || eqb n 133
    || eqb n 160
    || eqb n 5760
    || (leb 8192 n && leb n 8202)
    || eqb n 8232
    || eqb n 8233
    || eqb n 8239
    || eqb n 8287
    || eqb n 12288

-- The n-th character of a text, or the default beyond its end.
nth : ℕ → Char → String → Char
nth n d String.[] = d
nth zero d (String.◌∷◌ c s) = c
nth (suc n) d (String.◌∷◌ c s) = nth n d s

-- `str.lower()` on the ASCII letters; other characters are left.
lower_char : Char → Char
unfolding nth
lower_char c =
    let n = code c in
    if leb 65 n && leb n 90 then nth (n - 65) c "abcdefghijklmnopqrstuvwxyz" else c

unfoldable pub lower : String → String
unfolding lower_char
lower String.[] = String.[]
lower (String.◌∷◌ c s) = String.◌∷◌ (lower_char c) (lower s)

-- s.startswith(prefix)
unfoldable pub starts : String → String → Bool
starts String.[] s = true
starts (String.◌∷◌ p ps) String.[] = false
starts (String.◌∷◌ p ps) (String.◌∷◌ c s) = same_char p c && starts ps s

-- s.replace(needle, new), for a needle that is not empty; `skip` characters of a match are left
replace_from : String → String → ℕ → String → String
unfolding starts cat text_length
replace_from needle new skip String.[] = String.[]
replace_from needle new (suc skip) (String.◌∷◌ c s) = replace_from needle new skip s
replace_from needle new zero (String.◌∷◌ c s) =
    let here = starts needle (String.◌∷◌ c s) in
    let rest = replace_from needle new (if here then text_length needle - 1 else 0) s in
    if here then cat new rest else String.◌∷◌ c rest

unfoldable pub replace : String → String → String → String
unfolding replace_from
replace s needle new = replace_from needle new 0 s

-- s[:n]
unfoldable pub take_text : ℕ → String → String
take_text zero s = String.[]
take_text (suc n) String.[] = String.[]
take_text (suc n) (String.◌∷◌ c s) = String.◌∷◌ c (take_text n s)

-- The text before and after the last character d.
unfoldable pub split_last : Char → String → Option (String × String)
split_last d String.[] = none
split_last d (String.◌∷◌ c s) = elim (split_last d s) [
  | some (a, b) ↦ some (String.◌∷◌ c a, b)
  | none ↦ if same_char c d then some (String.[], s) else none
]

-- The components of a text between the characters d.
split_parts : Char → String → String → List String
split_parts d part String.[] = part ∷ []
split_parts d part (String.◌∷◌ c s) = elim (same_char c d) [
  | true ↦ part ∷ split_parts d String.[] s
  | false ↦ split_parts d (cat part (String.◌∷◌ c String.[])) s
]

-- The characters that end a line for `str.splitlines()`.
unfoldable pub is_line_boundary : Char → Bool
is_line_boundary c =
    let n = code c in
    (leb 10 n && leb n 13) || (leb 28 n && leb n 30) || eqb n 133 || eqb n 8232 || eqb n 8233

-- The lines, where `part` is read of the present one; a line feed behind a carriage return is its end.
unfoldable pub lines_from : Bool → String → String → List String
unfolding cat is_line_boundary
lines_from after_cr part String.[] = if is_empty part then [] else part ∷ []
lines_from after_cr part (String.◌∷◌ c s) = elim (after_cr && eqb (code c) 10) [
  | true ↦ lines_from false part s
  | false ↦ elim (is_line_boundary c) [
    | true ↦ part ∷ lines_from (eqb (code c) 13) String.[] s
    | false ↦ lines_from false (cat part (String.◌∷◌ c String.[])) s
  ]
]

-- s.splitlines()
unfoldable pub splitlines : String → List String
unfolding lines_from
splitlines s = lines_from false String.[] s

-- s.split(d)
unfoldable pub split : Char → String → List String
unfolding split_parts cat
split d s = split_parts d String.[] s

-- str(n)
digit : ℕ → Char
unfolding nth
digit n = nth n "0" "0123456789"

decimal_fuel : ℕ → ℕ → String → String
unfolding digit
decimal_fuel zero n acc = acc
decimal_fuel (suc f) n acc =
    let acc' = String.◌∷◌ (digit (n % 10)) acc in
    let rest = decimal_fuel f (n / 10) acc' in if ltb n 10 then acc' else rest

unfoldable pub decimal : ℕ → String
unfolding decimal_fuel
decimal n = decimal_fuel (suc n) n String.[]

-- `x or d`, for an optional text: None and the empty text are falsy.
abbrev pub text_or : Option String → String → String
text_or none d = d
text_or (some s) d = if s == "" then d else s

-- s[n:]
unfoldable pub drop_text : ℕ → String → String
drop_text zero s = s
drop_text (suc n) String.[] = String.[]
drop_text (suc n) (String.◌∷◌ c s) = drop_text n s

-- s.find(needle), where there is one
find_from : ℕ → String → String → Option ℕ
unfolding starts
find_from i needle String.[] = if starts needle String.[] then some i else none
find_from i needle (String.◌∷◌ c s) =
    let rest = find_from (i + 1) needle s in if starts needle (String.◌∷◌ c s) then some i else rest

unfoldable pub find_text : String → String → Option ℕ
unfolding find_from
find_text needle s = find_from 0 needle s
