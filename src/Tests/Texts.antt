-- ===== src/Tests/Texts.antt =====
-- Runs of the functions on texts.
use nightfall_photo_ingress.Base.{◌≡◌, refl}
use nightfall_photo_ingress.Text.{decimal, replace}

decimal_test : decimal 9070 ≡ "9070"
unfolding decimal
decimal_test = refl

replace_test : replace "{yyyy}/{mm}/{yyyy}x" "{yyyy}" "2026" ≡ "2026/{mm}/2026x"
unfolding replace
replace_test = refl
