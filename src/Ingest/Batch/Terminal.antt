-- ===== src/Ingest/Batch/Terminal.antt =====
-- The terminal events of a batch (the loop of `process_batch` over the ordered results, in
-- src/nightfall_photo_ingress/domain/ingest.py).
use nightfall_photo_ingress.Base.{
  ℕ, ◌+◌, String, ◌≡◌, refl, sym, ap, ◌∙◌, Option, none, some, List, [], ◌∷◌, ◌++◌, map,
  append_assoc, append-nil, arith, inl, inr,
}
use nightfall_photo_ingress.Base.Exec.{ok, Result-split}
use nightfall_photo_ingress.Base.Exec.Keeps.{Keeps, keeps_rules}
use nightfall_photo_ingress.Registry.Schema.{TerminalRow}
use nightfall_photo_ingress.Registry.Files.{append_ingest_terminal_event}
use nightfall_photo_ingress.Registry.Pairs.{upsert_live_photo_pair, write_pair}
use nightfall_photo_ingress.World.{Os, World, on_db, utc_now}
use nightfall_photo_ingress.LivePhoto.{LivePhotoCandidate, LivePhotoPair, Component, Queued}
use nightfall_photo_ingress.LivePhoto.Heuristics.{LivePhotoHeuristics}
use nightfall_photo_ingress.Ingest.Candidate.{StagedCandidate, IngestOutcome}
use nightfall_photo_ingress.Ingest.Batch.{
  Handled, Hashes, Pairing, queue_component, record_known, record_pair, pair_candidate, with_hash,
  append_terminal, conclude,
}

-- What a terminal event says of its candidate: the run, the number, the account and the id, and the
-- hash and the action of the outcome.
abbrev pub Event : Type 0
Event = String × (ℕ × (String × (String × (Option String × String))))

abbrev pub event_of : TerminalRow → Event
event_of r = (r.batch_run_id, (r.sequence_no, (r.account, (r.onedrive_id, (r.sha256, r.action)))))

-- One event for each result, in order, numbered from seq + 1.
abbrev pub expected_events : String → ℕ → List Handled → List Event
expected_events batch seq [] = []
expected_events batch seq ((c, o) ∷ hs) =
    (batch, (seq + 1, (c.account_name, (c.onedrive_id, (o.sha256, o.action)))))
    ∷ expected_events batch (seq + 1) hs

abbrev pub events : World → List Event
events w = map event_of w.db.ingest_terminal_audit

-- The terminal events are these.
abbrev HasEvents : List TerminalRow → World → Type 0
HasEvents rows w = w.db.ingest_terminal_audit ≡ rows

module _ (os : Os) (rows : List TerminalRow) where
  utc_now-HasEvents : Keeps (HasEvents rows) (utc_now os)
  utc_now-HasEvents = record { at = λ w h. h }

  upsert_pair-HasEvents :
      (id account stem photo video status now : String)
      → Keeps
          (HasEvents rows)
          (on_db (upsert_live_photo_pair id account stem photo video status now))
  unfolding upsert_live_photo_pair write_pair
  upsert_pair-HasEvents id account stem photo video status now = record { at = λ w h. ground arith }

  record_known-HasEvents :
      (pair : LivePhotoPair) (photo video : Option String)
      → Keeps (HasEvents rows) (record_known os pair photo video)
  unfolding record_known
  record_known-HasEvents pair (some photo) (some video) =
      search (keeps_rules, utc_now-HasEvents, upsert_pair-HasEvents) depth 12
  record_known-HasEvents pair none video = search keeps_rules
  record_known-HasEvents pair (some photo) none = search keeps_rules

  record_pair-HasEvents :
      (hashes : Hashes) (pair : Option LivePhotoPair)
      → Keeps (HasEvents rows) (record_pair os hashes pair)
  unfolding record_pair
  record_pair-HasEvents hashes none = search keeps_rules
  record_pair-HasEvents hashes (some pair) = search (keeps_rules, record_known-HasEvents)

  queue_component-HasEvents :
      (tolerance : ℕ) (c : LivePhotoCandidate) (component : Option Component) (queue : List Queued)
      → Keeps (HasEvents rows) (queue_component os tolerance c component queue)
  unfolding queue_component
  queue_component-HasEvents tolerance c none queue = search keeps_rules
  queue_component-HasEvents tolerance c (some component) queue =
      search (keeps_rules, utc_now-HasEvents) depth 12

  pair_candidate-HasEvents :
      (h : Option LivePhotoHeuristics) (c : StagedCandidate) (p : Pairing)
      → Keeps (HasEvents rows) (pair_candidate os h c p)
  unfolding pair_candidate
  pair_candidate-HasEvents none c p = search keeps_rules
  pair_candidate-HasEvents (some h) c p =
      search (keeps_rules, queue_component-HasEvents, record_pair-HasEvents) depth 12

map-append : {A B : Type 0} (f : A → B) (xs ys : List A) → map f (xs ++ ys) ≡ map f xs ++ map f ys
map-append f [] ys = refl
map-append f (x ∷ xs) ys = ap (◌∷◌ (f x)) (map-append f xs ys)

append_terminal-events :
    (os : Os) (batch : String) (seq : ℕ) (c : StagedCandidate) (o : IngestOutcome) (w : World)
    → ((n : ℕ) × ((append_terminal os batch seq (c, o) w).0 ≡ ok n))
      × (events (append_terminal os batch seq (c, o) w).1
          ≡ events w
            ++ (batch, (seq, (c.account_name, (c.onedrive_id, (o.sha256, o.action))))) ∷ [])
unfolding append_terminal append_ingest_terminal_event
append_terminal-events os batch seq c o w =
    ((w.db.terminal_seq + 1, refl), map-append event_of w.db.ingest_terminal_audit _)

-- The loop that ends a batch, where it returns, has appended one terminal event for each result, in
-- the order of the results and numbered without a gap, with the run's id, the candidate's account and
-- id and the outcome's hash and action, whatever pairs of live photos it found.
pub conclude-events :
    (os : Os) (h : Option LivePhotoHeuristics) (batch : String) (seq : ℕ) (p : Pairing)
    (hs : List Handled) (w : World)
    → (conclude os h batch seq p hs w).0 ≡ ok tt
    → events (conclude os h batch seq p hs w).1 ≡ events w ++ expected_events batch seq hs
unfolding conclude
conclude-events os h batch seq p [] w returned = sym (append-nil (events w))
conclude-events os h batch seq p ((c, o) ∷ rest) w returned =
    let start : Pairing = record p { hashes = with_hash c.onedrive_id o.sha256 p.hashes } in
    elim (Result-split (pair_candidate os h c start w).0) [
      | inr (e, raised) ↦ ground arith
      | inl (p', good) ↦
          let w1 : World = (pair_candidate os h c start w).1 in
          let kept = (pair_candidate-HasEvents os w.db.ingest_terminal_audit h c start).at w refl in
          let ((n, fine), one) = append_terminal-events os batch (seq + 1) c o w1 in
          let w2 : World = (append_terminal os batch (seq + 1) (c, o) w1).1 in
          let more = conclude-events os h batch (seq + 1) p' rest w2 in
          rw (good, fine)
            (more (ground arith) ∙ rw (one, ap (map event_of) kept) (append_assoc (events w) _ _))
    ]
