-- ===== src/Tests/Services.antt =====
-- The theorems on the import of hashes, the downloads, the delta pages and the triage at concrete
-- inputs.
use nightfall_photo_ingress.Api.Keys.{persist_idempotency, replay_if_present}
use nightfall_photo_ingress.Registry.Conn.{update_file, write_audit}
use nightfall_photo_ingress.Sql.{exists_where, find_first}
use nightfall_photo_ingress.Base.{
  ℕ, String, true, false, Option, none, some, List, [], ◌∷◌, ◌++◌, length, All, eqb, if◌then◌else◌,
  refl, ◌≡◌, ◌≤◌, ◌<◌, ◌+◌, arith,
}
use nightfall_photo_ingress.Base.Exec.{ok, download_failed, item_not_found}
use nightfall_photo_ingress.World.{World, content}
use nightfall_photo_ingress.Registry.HashCache.{
  HashImportChunkResult, bulk_insert_hash_import, chunks, drop, insert_or_ignore, take,
}
use nightfall_photo_ingress.HashImport.{
  HashImportDirectoryPlan, recompute, execute_hash_import_chunks, build_hash_import_summary,
}
use nightfall_photo_ingress.HashImport.DryRun.{
  execute_hash_import_chunks-dry_run, build_hash_import_summary-totals,
}
use nightfall_photo_ingress.Onedrive.Retry.{
  RetryPolicy, Clockwork, compute_delay, compute_delay-le, classify_status,
}
use nightfall_photo_ingress.Onedrive.Download.{
  Reply, takes, transport_error, response, Session, download_with_retry, size_error,
}
use nightfall_photo_ingress.Onedrive.Download.Outcome.{
  download_with_retry-delivers, download_with_retry-cleans, download_with_retry-bounds,
}
use nightfall_photo_ingress.Onedrive.Delta.{RawItem, size_of, reduce_delta_page_candidates}
use nightfall_photo_ingress.Onedrive.Delta.LastEvent.{
  stored_events, last_candidates, reduce_delta_page_candidates_lem,
}
use nightfall_photo_ingress.Api.Triage.{TriageResponse, TriageCall, Details, execute}
use nightfall_photo_ingress.Api.Triage.Replay.{execute-replay}
use nightfall_photo_ingress.Api.Triage.Failure.{execute-raises}
use nightfall_photo_ingress.Tests.Data.{os, w, sha_a, sha_b}
use nightfall_photo_ingress.Tests.Responses.{wire, loads-dumps}

abbrev hashes : List String
hashes = sha_a ∷ sha_b ∷ sha_a ∷ []

execute_hash_import_chunks-dry_run_example :
    ((execute_hash_import_chunks os hashes 2 true w).0
      ≡ (execute_hash_import_chunks os hashes 2 false w).0)
    × ((execute_hash_import_chunks os hashes 2 true w).1 ≡ w)
execute_hash_import_chunks-dry_run_example = execute_hash_import_chunks-dry_run os hashes 2 w

abbrev reported : List HashImportChunkResult
reported =
    record { chunk_index = 1; imported = 2; skipped_existing = 0 }
    ∷ record { chunk_index = 2; imported = 0; skipped_existing = 1 }
    ∷ []

abbrev plans : List HashImportDirectoryPlan
plans =
    record { source = recompute; sha256_values = hashes; stale_or_invalid_cache_replaced = true }
    ∷ []

build_hash_import_summary-totals_example :
    (build_hash_import_summary plans reported).total_imported
      + (build_hash_import_summary plans reported).total_skipped
    ≡ 3
unfolding execute_hash_import_chunks bulk_insert_hash_import chunks drop insert_or_ignore take
    exists_where
build_hash_import_summary-totals_example =
    build_hash_import_summary-totals os plans hashes 2 false w reported refl

abbrev pub clockwork : Clockwork
clockwork = record { float_of = λ s. none; date_offset = λ s. none; jitter = λ n. n }

abbrev pub policy : RetryPolicy
policy = record { max_attempts = 2; base_delay = 3; max_delay = 10 }

compute_delay-le_example : compute_delay 5 none policy 1 ≤ 10
compute_delay-le_example = compute_delay-le 5 none policy 1

abbrev pub session : Session
session = record {
  fs = [];
  sleeps = [];
  download_request_total = 0;
  retry_attempt_total = 0;
  retry_transport_error_total = 0;
  throttle_response_total = 0;
}

-- A server that is not reached at first, and then sends three bytes.
abbrev late : ℕ → Reply
late n =
    if eqb n 1
    then transport_error false
    else response 200 none ((7 ∷ 8 ∷ []) ∷ (9 ∷ []) ∷ []) takes false

-- A server that is busy.
abbrev busy : ℕ → Reply
busy n = response 503 none [] takes false

download_with_retry-delivers_example :
    (bytes : List ℕ) × (content "/staging/c"
        (download_with_retry clockwork policy "/staging/c" late (some 3) session).1.fs
      ≡ some bytes)
    × (length bytes ≡ 3)
unfolding classify_status download_with_retry size_error
download_with_retry-delivers_example =
    download_with_retry-delivers clockwork policy "/staging/c" late 3 session (omega arith) refl

download_with_retry-cleans_example :
    content "/staging/c" (download_with_retry clockwork policy "/staging/c" busy none session).1.fs
    ≡ none
unfolding download_with_retry classify_status
download_with_retry-cleans_example =
    download_with_retry-cleans clockwork policy "/staging/c" busy none session
      (download_failed ("download_retry_exhausted", some 503)) (omega arith) (λ attempt. refl) refl

download_with_retry-bounds_example :
    ((download_with_retry clockwork policy "/staging/c" busy none session).1.download_request_total
      ≤ 0 + 2)
    × ((more : List ℕ) × ((download_with_retry clockwork policy "/staging/c" busy none
            session).1.sleeps
          ≡ [] ++ more)
        × All (λ d. d ≤ 10) more
        × (length more < 2))
download_with_retry-bounds_example =
    download_with_retry-bounds clockwork policy "/staging/c" busy none session (omega arith)

abbrev pub item : String → String → RawItem
item id name = record {
  id = some id;
  name = some name;
  deleted = false;
  has_file = true;
  size = size_of 3;
  parent_path = some (some "/drive/root:/Camera");
  last_modified = none;
  download_url = some "https://host/x";
}

abbrev page : List (Option RawItem)
page =
    some (item "1" "a.jpg")
    ∷ none
    ∷ some (item "2" "b.jpg")
    ∷ some (record (item "1" "a.jpg") { deleted = true })
    ∷ []

reduce_delta_page_candidates_lem_example :
    reduce_delta_page_candidates "t" "anna" (some page)
    ≡ last_candidates (stored_events "t" "anna" page)
reduce_delta_page_candidates_lem_example = reduce_delta_page_candidates_lem "t" "anna" page

abbrev details : Details
details item phase state ip = phase

abbrev call : TriageCall
call = record {
  action = "defer";
  item_id = sha_b;
  idempotency_key = "key";
  reason = none;
  actor = "anna";
  client_ip = none;
}

abbrev triaged : ℕ × TriageResponse
triaged = (200, record { action_correlation_id = "key"; item_id = sha_b; state = "pending" })

abbrev after : World
after = (execute os wire details call w).1

execute-replay_example :
    execute os wire details (record call { actor = "ben" }) after ≡ (ok triaged, after)
unfolding execute exists_where persist_idempotency replay_if_present update_file write_audit
    find_first
execute-replay_example =
    execute-replay os wire details call (record call { actor = "ben" }) w triaged loads-dumps refl
      refl refl refl

execute-raises_example :
    ((execute os wire details (record call { item_id = "nowhere" }) w).1.db.files ≡ w.db.files)
    × ((execute os wire details (record call { item_id = "nowhere" }) w).1.db.ui_action_idempotency
        ≡ [])
unfolding execute find_first replay_if_present write_audit
execute-raises_example =
    execute-raises os wire details (record call { item_id = "nowhere" }) w item_not_found refl
