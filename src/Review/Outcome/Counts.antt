-- ===== src/Review/Outcome/Counts.antt =====
-- The counters of a trash run (src/nightfall_photo_ingress/reject.py).
use nightfall_photo_ingress.Base.{ℕ, suc, ◌+◌, ◌≤◌, String, ◌≡◌, List, [], ◌∷◌, length, arith}
use nightfall_photo_ingress.Base.Exec.{ok}
use nightfall_photo_ingress.Base.Exec.Ensures.{Ensures, Ensures-last, Ensures-step}
use nightfall_photo_ingress.World.{Os, World, on_db}
use nightfall_photo_ingress.Registry.Migrations.{initialize}
use nightfall_photo_ingress.Review.Results.{Core, RejectResult, TrashProcessResult}
use nightfall_photo_ingress.Review.Trash.{tally, trash_one, trash_loop, process_trash}

-- Every file processed was rejected or was rejected before, and what was unknown was rejected.
pub record AddsUp (n : ℕ) (t : TrashProcessResult) : Type 0 where
  pub all_files : t.processed_files ≡ n
  pub each_once : t.rejected_files + t.noop_files ≡ t.processed_files
  pub unknown_rejected : t.unknown_files ≤ t.rejected_files

tally-AddsUp :
    (n : ℕ) (path : String) (r : RejectResult) (t : TrashProcessResult)
    → AddsUp n t
    → AddsUp (n + 1) (tally path r t)
tally-AddsUp n path r t h = ground arith

shift : (n k : ℕ) → n + suc k ≡ n + 1 + k
shift n k = omega arith

trash_loop-AddsUp :
    (os : Os) (core : Core) (paths : List String) (n : ℕ) (t : TrashProcessResult)
    → AddsUp n t
    → Ensures (λ t' _. AddsUp (n + length paths) t') (trash_loop os core paths t)
unfolding trash_loop
trash_loop-AddsUp os core [] n t h = record { at = λ s a e. ground arith }
trash_loop-AddsUp os core (path ∷ paths) n t h =
    Ensures-last _ (trash_one os core path) (λ r. trash_loop os core paths (tally path r t))
      (λ r.
        rw (shift n (length paths))
          (trash_loop-AddsUp os core paths (n + 1) (tally path r t) (tally-AddsUp n path r t h)))

abbrev start : TrashProcessResult
start = record {
  processed_files = 0;
  rejected_files = 0;
  noop_files = 0;
  unknown_files = 0;
  removed_paths = [];
}

run-AddsUp :
    (os : Os) (core : Core) (paths : List String)
    → Ensures (λ t _. AddsUp (length paths) t) (process_trash os core paths)
unfolding process_trash
run-AddsUp os core paths = Ensures-last _ (on_db initialize) _ (λ _.
    Ensures-step (λ t _. AddsUp (0 + length paths) t) _ (trash_loop os core paths start) _
      (trash_loop-AddsUp os core paths 0 start (omega arith)) (λ t s h b e. ground arith))

-- A trash run that returns has processed every file listed: each is counted once, as rejected or as
-- rejected before, and the unknown ones are among the rejected.
pub process_trash-AddsUp :
    (os : Os) (core : Core) (paths : List String) (w : World) (t : TrashProcessResult)
    → (process_trash os core paths w).0 ≡ ok t
    → AddsUp (length paths) t
process_trash-AddsUp os core paths w t returned = (run-AddsUp os core paths).at w t returned
