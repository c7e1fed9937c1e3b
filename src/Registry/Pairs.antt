-- ===== src/Registry/Pairs.antt =====
-- The live photo pairs of `class Registry` (src/nightfall_photo_ingress/domain/registry.py).
use nightfall_photo_ingress.Base.{String, Bool, not, Option, ◌==◌, ◌||◌}
use nightfall_photo_ingress.Base.Exec.{
  invalid_pair_status, invalid_propagated_status, missing_pair, injected, Exec, raise, raise_if,
  or_raise, gets, ◌>>=◌, ◌>>◌,
}
use nightfall_photo_ingress.Sql.{find_first, update_where, upsert}
use nightfall_photo_ingress.Registry.Schema.{Db, PairRow, pair_key}
use nightfall_photo_ingress.Registry.Conn.{
  begin_immediate, commit, with_connect, write, write_reference, is_allowed,
}
use nightfall_photo_ingress.Registry.Lifecycle.{transition_status}

unfoldable pub is_pair_status : String → Bool
unfolding is_allowed
is_pair_status s = s == "paired" || is_allowed s

-- INSERT INTO live_photo_pairs … ON CONFLICT(pair_id) DO UPDATE
unfoldable pub write_pair : String → String → String → String → String → String → String → Db → Db
write_pair id account stem photo video status now db = record db {
  live_photo_pairs =
      upsert (pair_key id)
        (record {
          pair_id = id;
          account = account;
          stem = stem;
          photo_sha256 = photo;
          video_sha256 = video;
          status = status;
          created_at = now;
          updated_at = now;
        })
        (λ r. record r {
          account = account;
          stem = stem;
          photo_sha256 = photo;
          video_sha256 = video;
          status = status;
          updated_at = now;
        })
        db.live_photo_pairs;
}

-- Both members are foreign keys.
unfoldable pub upsert_live_photo_pair :
    String → String → String → String → String → String → String → Exec Db Unit
upsert_live_photo_pair id account stem photo video status now = do
  raise_if (not (is_pair_status status)) (invalid_pair_status status)
  with_connect (do
    begin_immediate
    write_reference photo (λ db. db)
    write_reference video (write_pair id account stem photo video status now)
    commit)

unfoldable pub get_live_photo_pair : String → Db → Option PairRow
get_live_photo_pair id db = find_first (pair_key id) db.live_photo_pairs

-- WHERE photo_sha256 = ? OR video_sha256 = ?
abbrev pub has_member : String → PairRow → Bool
has_member sha r = (r.photo_sha256 == sha) || (r.video_sha256 == sha)

unfoldable pub get_live_photo_pair_for_member : String → Db → Option PairRow
get_live_photo_pair_for_member sha db = find_first (has_member sha) db.live_photo_pairs

-- UPDATE live_photo_pairs SET status = ?, updated_at = ? WHERE pair_id = ?
unfoldable pub set_pair_status : String → String → String → Db → Db
set_pair_status id new_status now db = record db {
  live_photo_pairs =
      update_where (pair_key id) (λ r. record r { status = new_status; updated_at = now })
        db.live_photo_pairs;
}

-- Four connections, one after the other: the lookup, both members and the pair itself; each
-- write reads the clock anew.
unfoldable pub apply_live_photo_pair_status :
    String → String → String → String → String → String → String → Exec Db Unit
apply_live_photo_pair_status id new_status reason actor now_photo now_video now = do
  raise_if (not (is_allowed new_status)) (invalid_propagated_status new_status)
  found ← gets (get_live_photo_pair id)
  pair ← or_raise found (missing_pair id)
  transition_status pair.photo_sha256 new_status reason actor now_photo
  transition_status pair.video_sha256 new_status reason actor now_video
  with_connect (do begin_immediate; write (set_pair_status id new_status now); commit)

-- The same call where a connection fails after the first transition, or the last one does after both.
-- What is committed by then stays.
unfoldable pub apply_live_photo_pair_status_cut :
    Bool → String → String → String → String → String → String → Exec Db Unit
apply_live_photo_pair_status_cut at_first id new_status reason actor now_photo now_video = do
  raise_if (not (is_allowed new_status)) (invalid_propagated_status new_status)
  found ← gets (get_live_photo_pair id)
  pair ← or_raise found (missing_pair id)
  transition_status pair.photo_sha256 new_status reason actor now_photo
  raise_if at_first (injected 1)
  transition_status pair.video_sha256 new_status reason actor now_video
  raise (injected 2)
