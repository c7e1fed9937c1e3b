-- ===== src/LivePhoto/Heuristics.antt =====
-- The settings of the pairing and their check (`LivePhotoHeuristics` and `enforce_v1_defaults` of
-- src/nightfall_photo_ingress/live_photo.py).
use nightfall_photo_ingress.Base.{ℕ, String, not, ◌==◌, eqb}
use nightfall_photo_ingress.Base.Exec.{unsupported_heuristic, Exec, raise_if, ◌>>◌}

pub record LivePhotoHeuristics : Type 0 where
  pub capture_tolerance_seconds : ℕ
  pub stem_mode : String
  pub component_order : String
  pub conflict_policy : String

unfoldable pub enforce_v1_defaults : {S : Type 0} → LivePhotoHeuristics → Exec S Unit
enforce_v1_defaults h = do
  raise_if (not (eqb h.capture_tolerance_seconds 3))
      (unsupported_heuristic "live_photo_capture_tolerance_seconds")
  raise_if (not (h.stem_mode == "exact_stem")) (unsupported_heuristic "live_photo_stem_mode")
  raise_if (not (h.component_order == "photo_first"))
      (unsupported_heuristic "live_photo_component_order")
  raise_if (not (h.conflict_policy == "nearest_capture_time"))
      (unsupported_heuristic "live_photo_conflict_policy")
