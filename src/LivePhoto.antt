-- ===== src/LivePhoto.antt =====
-- The pairing of live photos: a queue of components that wait for their counterpart
-- (src/nightfall_photo_ingress/live_photo.py). A time is its distance from the epoch in
-- microseconds.
pub mod Queue
pub mod Heuristics
pub mod Unresolved
use nightfall_photo_ingress.Base.{
  ℕ, ◌+◌, ◌-◌, ◌*◌, String, Bool, true, false, ◌&&◌, ◌||◌, Option, none, some, List, [], ◌∷◌, ◌++◌,
  ◌==◌, eqb, leb, ltb, if◌then◌else◌,
}
use nightfall_photo_ingress.Sql.{select_where}
use nightfall_photo_ingress.Text.{lower}
use nightfall_photo_ingress.Storage.Render.{stem_suffix, path_parts}

pub data Component : Type 0 where
  photo video : Component

pub record LivePhotoCandidate : Type 0 where
  pub account : String
  pub onedrive_id : String
  pub filename : String
  pub captured_at : String

pub record LivePhotoPair : Type 0 where
  pub account : String
  pub stem : String
  pub photo_onedrive_id : String
  pub video_onedrive_id : String

-- The dataclass `_Queued`.
pub record Queued : Type 0 where
  pub entry : LivePhotoCandidate
  pub component : Component
  pub stem : String
  pub captured_at : ℕ
  pub queued_at : String

abbrev pub last_part : List String → String
last_part [] = ""
last_part (p ∷ []) = p
last_part (p ∷ q ∷ ps) = last_part (q ∷ ps)

-- Path(filename).suffix.lower()
extension : String → String
unfolding path_parts stem_suffix lower
extension filename = lower (stem_suffix (last_part (path_parts filename))).1

-- `_stem`
unfoldable pub stem_of : String → String
unfolding path_parts stem_suffix
stem_of filename = (stem_suffix (last_part (path_parts filename))).0

-- `_classify_component`
unfoldable pub classify_component : String → Option Component
unfolding extension
classify_component filename =
    let ext = extension filename in
    if (ext == ".heic") || (ext == ".jpg") || (ext == ".jpeg") || (ext == ".png")
    then some photo
    else if (ext == ".mov") || (ext == ".mp4") || (ext == ".m4v")
    then some video
    else none

abbrev pub counterpart_of : Component → Component
counterpart_of photo = video
counterpart_of video = photo

abbrev pub same_component : Component → Component → Bool
same_component photo photo = true
same_component video video = true
same_component _ _ = false

-- |a - b|
abbrev pub distance : ℕ → ℕ → ℕ
distance a b = if leb a b then b - a else a - b

-- `_within_tolerance`, for a tolerance in seconds
abbrev pub within_tolerance : ℕ → ℕ → ℕ → Bool
within_tolerance tolerance a b = leb (distance a b) (tolerance * 1000000)

-- The filter of `ingest`: a queued counterpart of a component with this account, stem and time.
abbrev pub is_eligible : ℕ → String → String → Component → ℕ → Queued → Bool
is_eligible tolerance account stem component captured q =
    (q.entry.account == account)
    && (q.stem == stem)
    && same_component q.component (counterpart_of component)
    && within_tolerance tolerance q.captured_at captured

-- min(…, key=…): the first of the nearest
closer : ℕ → Queued → Queued → Queued
closer captured q best =
    if ltb (distance q.captured_at captured) (distance best.captured_at captured) then q else best

nearest : ℕ → Queued → List Queued → Queued
nearest captured best [] = best
nearest captured best (q ∷ qs) = nearest captured (closer captured q best) qs

same_queued : Queued → Queued → Bool
same_queued a b =
    (a.entry.account == b.entry.account)
    && (a.entry.onedrive_id == b.entry.onedrive_id)
    && (a.entry.filename == b.entry.filename)
    && (a.entry.captured_at == b.entry.captured_at)
    && same_component a.component b.component
    && (a.stem == b.stem)
    && eqb a.captured_at b.captured_at
    && (a.queued_at == b.queued_at)

-- `list.remove`: the first equal entry
unfoldable pub remove_queued : Queued → List Queued → List Queued
unfolding same_queued
remove_queued q [] = []
remove_queued q (x ∷ xs) = if same_queued x q then xs else x ∷ remove_queued q xs

pub make_pair : LivePhotoCandidate → Component → String → Queued → LivePhotoPair
make_pair c photo stem q = record {
  account = c.account;
  stem = stem;
  photo_onedrive_id = c.onedrive_id;
  video_onedrive_id = q.entry.onedrive_id;
}
make_pair c video stem q = record {
  account = c.account;
  stem = stem;
  photo_onedrive_id = q.entry.onedrive_id;
  video_onedrive_id = c.onedrive_id;
}

-- The queue after one candidate with a component, and the pair that it completes, if any: `queued`
-- is the entry for the candidate itself.
pair_or_queue : Queued → List Queued → List Queued → List Queued × Option LivePhotoPair
unfolding nearest closer make_pair
pair_or_queue queued [] queue = (queue ++ queued ∷ [], none)
pair_or_queue queued (q ∷ qs) queue =
    let best = nearest queued.captured_at q qs in
    (remove_queued best queue, some (make_pair queued.entry queued.component queued.stem best))

unfoldable pub ingest_queued : ℕ → Queued → List Queued → List Queued × Option LivePhotoPair
unfolding pair_or_queue select_where
ingest_queued tolerance queued queue =
    pair_or_queue queued
      (select_where
        (is_eligible tolerance queued.entry.account queued.stem queued.component queued.captured_at)
        queue)
      queue

ingest_component :
    ℕ
    → LivePhotoCandidate
    → Option Component
    → ℕ
    → String
    → List Queued
    → List Queued × Option LivePhotoPair
ingest_component tolerance c none captured now queue = (queue, none)
ingest_component tolerance c (some component) captured now queue =
    ingest_queued tolerance
      (record {
        entry = c;
        component = component;
        stem = stem_of c.filename;
        captured_at = captured;
        queued_at = now;
      })
      queue

-- `DeferredPairQueue.ingest`, with the parsed time of the candidate and the clock's.
unfoldable pub ingest :
    ℕ → LivePhotoCandidate → ℕ → String → List Queued → List Queued × Option LivePhotoPair
unfolding ingest_component
ingest tolerance c captured now queue =
    ingest_component tolerance c (classify_component c.filename) captured now queue
