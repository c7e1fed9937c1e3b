-- ===== src/Tests/Responses.antt =====
-- A text format for responses that reads back what it wrote: each character of a field after an "x",
-- and an "e" at the end of the field.
use nightfall_photo_ingress.Base.{String, ◌≡◌, refl, if◌then◌else◌}
use nightfall_photo_ingress.Text.{same_char}
use nightfall_photo_ingress.Base.Exec.{Result, ok}
use nightfall_photo_ingress.Api.Keys.{Wire}
use nightfall_photo_ingress.Api.Triage.{TriageResponse}

unfoldable pub written : String → String → String
written String.[] t = String.◌∷◌ "e" t
written (String.◌∷◌ c s) t = String.◌∷◌ "x" (String.◌∷◌ c (written s t))

unfoldable pub field : String → String × String
field String.[] = ("", "")
field (String.◌∷◌ mark String.[]) = ("", "")
field (String.◌∷◌ mark (String.◌∷◌ c t)) =
    let (s, rest) = field t in
    if same_char mark "x" then (String.◌∷◌ c s, rest) else ("", String.◌∷◌ c t)

field-written : (s t : String) → field (written s t) ≡ (s, t)
unfolding written field
field-written String.[] String.[] = refl
field-written String.[] (String.◌∷◌ c t) = refl
field-written (String.◌∷◌ c s) t = rw (field-written s t) refl

unfoldable pub dumps : TriageResponse → String
unfolding written
dumps r = written r.action_correlation_id (written r.item_id (written r.state ""))

unfoldable pub loads : String → Result TriageResponse
unfolding field
loads text =
    let (key, t1) = field text in
    let (item, t2) = field t1 in
    let (state, t3) = field t2 in
    ok (record { action_correlation_id = key; item_id = item; state = state })

pub loads-dumps : (r : TriageResponse) → loads (dumps r) ≡ ok r
unfolding loads dumps
loads-dumps r =
    rw
      (
        field-written r.action_correlation_id (written r.item_id (written r.state "")),
        field-written r.item_id (written r.state ""),
        field-written r.state "",
      )
      refl

abbrev pub wire : Wire TriageResponse
wire = record { dumps = dumps; loads = loads; expires = λ now. now }
