-- ===== src/Review/Moves.antt =====
-- The physical moves into the rejected queue (`_move_physical_to_rejected` and
-- `_move_to_rejected_folder` of src/nightfall_photo_ingress/reject.py).
use nightfall_photo_ingress.Base.{
  String, not, ◌&&◌, Option, none, some, List, [], ◌∷◌, if◌then◌else◌,
}
use nightfall_photo_ingress.Base.Exec.{
  unsafe_reject_source, Exec, pure, raise_if, lift, gets, ◌>>=◌, ◌>>◌,
}
use nightfall_photo_ingress.Text.{text_or}
use nightfall_photo_ingress.Registry.Schema.{FileRow}
use nightfall_photo_ingress.Registry.Files.{
  AcceptContext, get_file, get_accept_context, clear_current_path, update_current_path,
}
use nightfall_photo_ingress.World.{Os, World, exists, on_db, utc_now, rename}
use nightfall_photo_ingress.Storage.Render.{
  is_within, render_storage_relative_path, join, parent_name, choose_collision_safe_destination,
}
use nightfall_photo_ingress.Review.Results.{Core}

-- The move of a file that exists.
unfoldable pub move_existing :
    Os → Core → String → String → Option String → String → Exec World (Option String)
move_existing os core source sha filename modified_time = do
  parts ← lift (
      render_storage_relative_path os core.storage_template sha
        (text_or filename (parent_name source).1) modified_time)
  fs ← gets (λ w. w.fs)
  destination ← lift (choose_collision_safe_destination fs (join core.rejected_path parts))
  rename source destination
  pure (some destination)

unfoldable pub move_physical_to_rejected :
    Os → Core → Option String → String → Option String → String → Exec World (Option String)
unfolding move_existing
move_physical_to_rejected os core none sha filename modified_time = pure none
move_physical_to_rejected os core (some source) sha filename modified_time = do
  there ← gets (λ w. exists source w.fs)
  if there then move_existing os core source sha filename modified_time else pure none

-- The stored path of the file that was moved, and the path that it left.
unfoldable pub record_move : Os → String → String → Option String → Exec World (List String)
record_move os sha source none = pure []
record_move os sha source (some destination) = do
  now ← utc_now os
  on_db (update_current_path sha destination now)
  pure (source ∷ [])

abbrev context_time : Option AcceptContext → String → String
context_time none now = now
context_time (some context) now = context.modified_time

-- The move of the file of a row with a current path. The clock is read once, for the time that is
-- used where the registry has none.
unfoldable pub move_current : Os → Core → String → FileRow → String → Exec World (List String)
unfolding record_move
move_current os core sha row source = do
  there ← gets (λ w. exists source w.fs)
  now ← utc_now os
  if not there then (do on_db (clear_current_path sha now); pure []) else (do
    raise_if
        (not (is_within os source core.pending_path)
          && not (is_within os source core.accepted_path))
        (unsafe_reject_source source)
    context ← gets (λ w. get_accept_context sha now w.db)
    moved ←
        move_physical_to_rejected os core (some source) sha row.original_filename
          (context_time context now)
    record_move os sha source moved)

unfoldable pub move_path : Os → Core → String → FileRow → Option String → Exec World (List String)
unfolding move_current
move_path os core sha row none = pure []
move_path os core sha row (some source) = move_current os core sha row source

unfoldable pub move_row : Os → Core → String → Option FileRow → Exec World (List String)
unfolding move_path
move_row os core sha none = pure []
move_row os core sha (some row) = move_path os core sha row row.current_path

unfoldable pub move_to_rejected_folder : Os → Core → String → Exec World (List String)
unfolding move_row
move_to_rejected_folder os core sha = do
  found ← gets (λ w. get_file sha w.db)
  move_row os core sha found
