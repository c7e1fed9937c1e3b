-- ===== src/Review/Outcome/Purged.antt =====
-- What a purge deletes (src/nightfall_photo_ingress/reject.py).
use nightfall_photo_ingress.Base.{String, true, ◌≡◌, ◌≢◌, refl, Option, none, some, eq_iff, arith}
use nightfall_photo_ingress.World.{Os, World, content}
use nightfall_photo_ingress.World.Laws.{content-remove}
use nightfall_photo_ingress.Storage.Render.{is_within}
use nightfall_photo_ingress.Review.Results.{Core}
use nightfall_photo_ingress.Review.Accept.{purge_path}

-- A file that the deletion of a row's path does not keep is at that path, below the rejected root.
pub purge_path-deletes :
    (os : Os) (core : Core) (path : Option String) (w : World) (x : String)
    → content x (purge_path os core path w).1.fs ≢ content x w.fs
    → (path ≡ some x) × (is_within os x core.rejected_path ≡ true)
unfolding purge_path
purge_path-deletes os core none w x changed = absurd (changed refl)
purge_path-deletes os core (some p) w x changed =
    ground (arith, content-remove x p w.fs, eq_iff p x)
