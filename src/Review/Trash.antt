-- ===== src/Review/Trash.antt =====
-- The processing of the trash folder (`process_trash` of src/nightfall_photo_ingress/reject.py). The
-- files that `rglob` lists, sorted, are its argument.
use nightfall_photo_ingress.Base.{dedupe, ◌+◌, String, some, List, [], ◌∷◌, ◌++◌}
use nightfall_photo_ingress.Base.Exec.{Exec, pure, ◌>>=◌, ◌>>◌}
use nightfall_photo_ingress.Registry.Migrations.{initialize}
use nightfall_photo_ingress.World.{Os, World, on_db, unlink}
use nightfall_photo_ingress.Storage.Render.{parent_name}
use nightfall_photo_ingress.Storage.Commit.{sha256_file, file_size}
use nightfall_photo_ingress.Review.Results.{
  Core, RejectResult, rejected_unknown, reject_noop_already_rejected, TrashProcessResult,
}
use nightfall_photo_ingress.Review.Reject.{apply_reject}

-- The counters after one file.
abbrev pub tally : String → RejectResult → TrashProcessResult → TrashProcessResult
tally path result t =
    let paths = t.removed_paths ++ path ∷ result.removed_paths in
    elim result.action [
      | rejected_unknown ↦ record t {
        processed_files = t.processed_files + 1;
        unknown_files = t.unknown_files + 1;
        rejected_files = t.rejected_files + 1;
        removed_paths = paths;
      }
      | reject_noop_already_rejected ↦ record t {
        processed_files = t.processed_files + 1;
        noop_files = t.noop_files + 1;
        removed_paths = paths;
      }
      | _ ↦ record t {
        processed_files = t.processed_files + 1;
        rejected_files = t.rejected_files + 1;
        removed_paths = paths;
      }
    ]

unfoldable pub trash_one : Os → Core → String → Exec World RejectResult
trash_one os core path = do
  sha ← sha256_file os path
  size ← file_size path
  result ← apply_reject os core (record {
    sha256 = sha;
    reason = "trash_reject";
    actor = "trash_watch";
    fallback_original_filename = some (parent_name path).1;
    fallback_size_bytes = size;
    incoming_path = some path;
  })
  unlink path
  pure result

unfoldable pub trash_loop :
    Os → Core → List String → TrashProcessResult → Exec World TrashProcessResult
trash_loop os core [] t = pure t
trash_loop os core (path ∷ paths) t = do
  result ← trash_one os core path
  trash_loop os core paths (tally path result t)

unfoldable pub process_trash : Os → Core → List String → Exec World TrashProcessResult
unfolding trash_loop
process_trash os core paths = do
  on_db initialize
  t ← trash_loop os core paths (record {
    processed_files = 0;
    rejected_files = 0;
    noop_files = 0;
    unknown_files = 0;
    removed_paths = [];
  })
  pure (record t { removed_paths = dedupe t.removed_paths })
