-- ===== src/Storage/Lint.antt =====
-- The security findings on a storage template (`lint_storage_template` of
-- src/nightfall_photo_ingress/domain/storage.py).
use nightfall_photo_ingress.Base.{
  String, Bool, true, false, not, ◌&&◌, ◌||◌, Option, none, some, List, [], ◌∷◌, ◌++◌, ◌==◌,
  is_some, if◌then◌else◌,
}
use nightfall_photo_ingress.Text.{cat, starts, find_text, same_char}

-- needle in s
has_text : String → String → Bool
unfolding find_text
has_text needle s = is_some (find_text needle s)

-- re.findall(r"\{([^{}]+)\}", s): the texts between a brace and the next one, if that one closes it.
-- `run` is the text since the last opening brace.
placeholders_from : Option String → String → List String
unfolding cat
placeholders_from run String.[] = []
placeholders_from none (String.◌∷◌ c s) =
    placeholders_from (if same_char c "{" then some "" else none) s
placeholders_from (some run) (String.◌∷◌ c s) =
    let rest =
      placeholders_from
        (if same_char c "{"
          then some ""
          else if same_char c "}"
          then none
          else some (cat run (String.◌∷◌ c "")))
        s in
    if same_char c "}" && not (run == "") then run ∷ rest else rest

unfoldable pub placeholders : String → List String
unfolding placeholders_from
placeholders s = placeholders_from none s

abbrev is_supported : String → Bool
is_supported p = (p == "yyyy") || (p == "mm") || (p == "sha8") || (p == "original")

abbrev finding_if : Bool → String → List String
finding_if true finding = finding ∷ []
finding_if false finding = []

unknown_placeholders : List String → List String
unfolding cat
unknown_placeholders [] = []
unknown_placeholders (p ∷ ps) =
    finding_if (not (is_supported p)) (cat "template_unknown_placeholder:{" (cat p "}"))
    ++ unknown_placeholders ps

unfoldable pub lint_storage_template : String → List String
unfolding has_text starts unknown_placeholders placeholders
lint_storage_template t =
    finding_if (starts "/" t) "template_must_be_relative"
    ++ finding_if (has_text ".." t) "template_contains_traversal"
    ++ finding_if (not (has_text "{original}" t) && not (has_text "{sha8}" t))
        "template_missing_filename_component"
    ++ unknown_placeholders (placeholders t)
