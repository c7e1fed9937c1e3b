-- ===== src/LivePhoto/Unresolved.antt =====
-- The entries of the pairing queue that found no counterpart (`unresolved_diagnostics` and
-- `pop_aged_unresolved` of src/nightfall_photo_ingress/live_photo.py).
use Prim.Native.String.{compare}
use Prim.Native.Nat.{Ordering}
use nightfall_photo_ingress.Base.{
  ℕ, String, Bool, true, false, List, [], ◌∷◌, leb, map, if◌then◌else◌,
}
use nightfall_photo_ingress.Ingest.Batch.{sort_by}
use nightfall_photo_ingress.LivePhoto.{Queued, Component}

-- The dataclass `UnresolvedLivePhotoCandidate`.
pub record UnresolvedLivePhotoCandidate : Type 0 where
  pub account : String
  pub onedrive_id : String
  pub filename : String
  pub component : Component
  pub stem : String
  pub captured_at : String
  pub queued_at : String
  pub age_seconds : ℕ

-- a <= b, then by `next` where they are equal
abbrev at_most : String → String → Bool → Bool
at_most a b next = elim (compare a b) [
  | Ordering.lt ↦ true
  | Ordering.eq ↦ next
  | Ordering.gt ↦ false
]

-- The key (account, stem, queued_at), by which a stable sort leaves equal rows in their order.
unfoldable pub row_before : UnresolvedLivePhotoCandidate → UnresolvedLivePhotoCandidate → Bool
row_before a b =
    at_most a.account b.account (at_most a.stem b.stem (at_most a.queued_at b.queued_at true))

-- The seconds since the time at which an entry was queued, by the clock at the call.
module _ (age : String → ℕ) where
  unfoldable pub unresolved : Queued → UnresolvedLivePhotoCandidate
  unresolved q = record {
    account = q.entry.account;
    onedrive_id = q.entry.onedrive_id;
    filename = q.entry.filename;
    component = q.component;
    stem = q.stem;
    captured_at = q.entry.captured_at;
    queued_at = q.queued_at;
    age_seconds = age q.queued_at;
  }

  unfoldable pub unresolved_diagnostics : List Queued → List UnresolvedLivePhotoCandidate
  unfolding unresolved sort_by row_before
  unresolved_diagnostics queue = sort_by row_before (map unresolved queue)

  -- The queue in two parts: what is removed, and what is kept.
  unfoldable pub split_aged : ℕ → List Queued → List Queued × List Queued
  split_aged max_age [] = ([], [])
  split_aged max_age (q ∷ qs) =
      let (removed, kept) = split_aged max_age qs in
      if leb max_age (age q.queued_at) then (q ∷ removed, kept) else (removed, q ∷ kept)

  unfoldable pub pop_aged_unresolved :
      ℕ → List Queued → List UnresolvedLivePhotoCandidate × List Queued
  unfolding unresolved sort_by row_before split_aged
  pop_aged_unresolved max_age queue =
      let (removed, kept) = split_aged max_age queue in
      (sort_by row_before (map unresolved removed), kept)
