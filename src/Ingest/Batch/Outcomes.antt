-- ===== src/Ingest/Batch/Outcomes.antt =====
-- The result of a batch (`process_batch` of src/nightfall_photo_ingress/domain/ingest.py).
use nightfall_photo_ingress.Base.{
  ℕ, suc, ◌+◌, String, Bool, not, ◌≡◌, refl, sym, ap, ◌∙◌, List, [], ◌∷◌, inl, inr, Bool-cases,
  arith, All, map, length,
}
use nightfall_photo_ingress.Base.Exec.{ok}
use nightfall_photo_ingress.Base.Exec.Returns.{
  Returns, Returns-pure, Returns-then, Returns-step, returns_rules,
}
use nightfall_photo_ingress.Sql.{count_where}
use nightfall_photo_ingress.World.{Os, World}
use nightfall_photo_ingress.Ingest.Candidate.{StagedCandidate, IngestOutcome, Settings}
use nightfall_photo_ingress.Ingest.Process.{process_one}
use nightfall_photo_ingress.Ingest.Identity.{IsFor, process_one-IsFor}
use nightfall_photo_ingress.Ingest.Batch.{
  BatchCall, IngestBatchResult, Handled, index_before, sort_by, schedule, process_scheduled,
  in_order, process_candidates, summarise, conclude, run_batch, process_batch,
}
use nightfall_photo_ingress.Ingest.Batch.Order.{All-sort_by, process_candidates-in_order}

process_scheduled-IsFor :
    (os : Os) (s : Settings) (cs : List (ℕ × StagedCandidate))
    → Returns (All (λ r. IsFor r.1.0 r.1.1)) (process_scheduled os s cs)
unfolding process_scheduled
process_scheduled-IsFor os s [] = Returns-pure [] tt
process_scheduled-IsFor os s ((i, c) ∷ cs) =
    Returns-step (IsFor c) (process_one os s c) _ (process_one-IsFor os s c) (λ o h.
      Returns-step (All (λ r. IsFor r.1.0 r.1.1)) (process_scheduled os s cs) _
        (process_scheduled-IsFor os s cs) (λ rest hs. Returns-pure ((i, (c, o)) ∷ rest) (h, hs)))

map-All :
    (rs : List (ℕ × Handled))
    → All (λ r. IsFor r.1.0 r.1.1) rs
    → All (λ h. IsFor h.0 h.1) (map (λ r. r.1) rs)
map-All [] h = tt
map-All (r ∷ rs) h = (h.0, map-All rs h.1)

process_candidates-IsFor :
    (os : Os) (call : BatchCall) (candidates : List StagedCandidate)
    → Returns (All (λ h. IsFor h.0 h.1)) (process_candidates os call candidates)
unfolding process_candidates in_order
process_candidates-IsFor os call candidates =
    let items = schedule call.size_aware_scheduling candidates in
    Returns-step (All (λ r. IsFor r.1.0 r.1.1)) (process_scheduled os call.settings items) _
      (process_scheduled-IsFor os call.settings items)
      (λ rs h. Returns-pure (in_order rs) (
        map-All (sort_by index_before rs) (All-sort_by (λ r. IsFor r.1.0 r.1.1) index_before rs h)))

-- The account and the id of a candidate, and of an outcome.
abbrev pub candidate_key : StagedCandidate → String × String
candidate_key c = (c.account_name, c.onedrive_id)

abbrev pub outcome_key : IngestOutcome → String × String
outcome_key o = (o.account_name, o.onedrive_id)

keys-IsFor :
    (hs : List Handled)
    → All (λ h. IsFor h.0 h.1) hs
    → map outcome_key (map (λ h. h.1) hs) ≡ map candidate_key (map (λ h. h.0) hs)
keys-IsFor [] h = refl
keys-IsFor ((c, o) ∷ hs) ((account, id), rest) =
    rw (account, id) (ap (◌∷◌ (candidate_key c)) (keys-IsFor hs rest))

count-not :
    {A : Type 0} (p : A → Bool) (xs : List A)
    → count_where p xs + count_where (λ x. not (p x)) xs ≡ length xs
unfolding count_where
count-not p [] = refl
count-not p (x ∷ xs) = elim (Bool-cases (p x)) [
  | inl hit ↦ rw hit (omega (arith, count-not p xs))
  | inr miss ↦ rw miss (omega (arith, count-not p xs))
]

length-map : {A B : Type 0} (f : A → B) (xs : List A) → length (map f xs) ≡ length xs
length-map f [] = refl
length-map f (x ∷ xs) = ap suc (length-map f xs)

-- `r` reports on these candidates.
abbrev pub Reports : List StagedCandidate → IngestBatchResult → Type 0
Reports candidates r =
    (map outcome_key r.outcomes ≡ map candidate_key candidates)
    × (r.prefilter_hit_count + r.prefilter_miss_count ≡ length candidates)

summarise-Reports :
    (candidates : List StagedCandidate) (hs : List Handled)
    → map (λ h. h.0) hs ≡ candidates
    → All (λ h. IsFor h.0 h.1) hs
    → Reports candidates (summarise (map (λ h. h.1) hs))
unfolding summarise
summarise-Reports candidates hs same h = (
  keys-IsFor hs h ∙ ap (map candidate_key) same,
  count-not (λ o. o.prefilter_hit) (map (λ h. h.1) hs)
      ∙ length-map (λ h. h.1) hs
      ∙ sym (length-map (λ h. h.0) hs)
      ∙ ap length same,
)

run_batch-Returns :
    (os : Os) (call : BatchCall) (batch : String) (candidates : List StagedCandidate)
    → Returns (Reports candidates) (run_batch os call batch candidates)
unfolding run_batch
run_batch-Returns os call batch candidates =
    Returns-step (λ hs. (map (λ h. h.0) hs ≡ candidates) × All (λ h. IsFor h.0 h.1) hs)
      (process_candidates os call candidates) _
      (record {
        at = λ w hs returned. (
          process_candidates-in_order os call candidates w hs returned,
          (process_candidates-IsFor os call candidates).at w hs returned,
        );
      })
      (λ hs h.
        Returns-then
          (conclude os call.live_photo_heuristics batch 0 (record { queue = []; hashes = [] }) hs) _
          (Returns-pure (summarise (map (λ h. h.1) hs)) (summarise-Reports candidates hs h.0 h.1)))

process_batch-Returns :
    (os : Os) (call : BatchCall) (candidates : List StagedCandidate)
    → Returns (Reports candidates) (process_batch os call candidates)
unfolding process_batch
process_batch-Returns os call candidates = search (returns_rules, run_batch-Returns) depth 20

-- A batch that returns reports one outcome for each candidate, in the order of the candidates and
-- under their accounts and ids, in whichever order their sizes had them handled; and the hits and
-- misses of the pre-filter add up to the candidates.
pub process_batch-Reports :
    (os : Os) (call : BatchCall) (candidates : List StagedCandidate) (w : World)
    (r : IngestBatchResult)
    → (process_batch os call candidates w).0 ≡ ok r
    → (map outcome_key r.outcomes ≡ map candidate_key candidates)
      × (r.prefilter_hit_count + r.prefilter_miss_count ≡ length candidates)
process_batch-Reports os call candidates w r returned =
    (process_batch-Returns os call candidates).at w r returned
