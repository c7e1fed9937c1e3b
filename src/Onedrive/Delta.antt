-- ===== src/Onedrive/Delta.antt =====
-- The reduction of delta pages to download candidates: `_apply_delta_page_to_reducer`,
-- `_materialize_reduced_candidates` and what they call in
-- src/nightfall_photo_ingress/adapters/onedrive/client.py. A JSON object is the record of the fields
-- that the code reads; the anomaly counters are a list of the reasons recorded.
pub mod LastEvent
use Prim.Native.Char.{Char, code}
use nightfall_photo_ingress.Base.{
  ℕ, zero, suc, ◌+◌, String, Bool, true, false, not, ◌&&◌, ◌||◌, Option, none, some, List, [], ◌∷◌,
  ◌++◌, ◌==◌, eqb, leb, length, if◌then◌else◌, contains, option_or,
}
use nightfall_photo_ingress.Text.{cat, strip, is_space, starts, text_or, drop_text, find_text}

-- The field `size`: absent, a number, a negative number, or what `int` refuses.
pub data SizeField : Type 0 where
  no_size : SizeField
  size_of : ℕ → SizeField
  negative_size malformed_size : SizeField

pub record RawItem : Type 0 where
  pub id : Option String
  pub name : Option String
  pub deleted : Bool
  pub has_file : Bool
  pub size : SizeField
  pub parent_path : Option (Option String)
  pub last_modified : Option String
  pub download_url : Option String

-- The dataclass `RemoteCandidate`; its modified time is the normalised one.
pub record RemoteCandidate : Type 0 where
  pub account_name : String
  pub item_id : String
  pub name : String
  pub relative_path : String
  pub size_bytes : Option ℕ
  pub raw_modified_time : Option String
  pub normalized_modified_time : String
  pub download_url : Option String

-- str.strip("/")
unfoldable pub is_slash : Char → Bool
is_slash c = eqb (code c) 47

abbrev rooted : String → String
rooted s = if s == "" then "" else if starts "/" s then s else cat "/" s

after_marker : String → Option ℕ → String
unfolding strip is_space is_slash drop_text starts cat
after_marker raw none = rooted (strip is_space raw)
after_marker raw (some n) =
    let rel = strip is_slash (drop_text (n + 6) raw) in if rel == "" then "" else cat "/" rel

-- `_extract_relative_path`: the path after the first "/root:", or the whole
unfoldable pub extract_relative_path : RawItem → String
unfolding after_marker find_text
extract_relative_path raw = elim raw.parent_path [
  | none ↦ ""
  | some p ↦ let path = option_or p "" in after_marker path (find_text "/root:" path)
]

abbrev size_bytes_of : SizeField → Option (Option ℕ)
size_bytes_of no_size = some none
size_bytes_of (size_of n) = some (some n)
size_bytes_of negative_size = none
size_bytes_of malformed_size = none

-- `_build_candidate_from_payload`, with the clock's time for an item without one
unfoldable pub build_candidate_from_payload : String → String → RawItem → Option RemoteCandidate
unfolding extract_relative_path
build_candidate_from_payload now account raw =
    let item_id = option_or raw.id "" in
    let name = option_or raw.name "" in
    if (item_id == "") || (name == "") then none else elim (size_bytes_of raw.size) [
      | none ↦ none
      | some size ↦ some (record {
        account_name = account;
        item_id = item_id;
        name = name;
        relative_path = extract_relative_path raw;
        size_bytes = size;
        raw_modified_time = raw.last_modified;
        normalized_modified_time = text_or raw.last_modified now;
        download_url = raw.download_url;
      })
    ]

unfoldable pub classify_invalid_candidate_reason : RawItem → String
classify_invalid_candidate_reason raw =
    if option_or raw.id "" == ""
    then "delta_item_missing_id"
    else if option_or raw.name "" == ""
    then "delta_file_missing_name"
    else elim raw.size [
      | no_size ↦ "delta_file_missing_size"
      | size_of n ↦ "delta_file_invalid_payload"
      | _ ↦ "delta_file_invalid_size"
    ]

-- The dataclass `_ReducerEntry`; no candidate is a tombstone.
pub record ReducerEntry : Type 0 where
  pub sequence : ℕ
  pub candidate : Option RemoteCandidate

abbrev pub Reducer : Type 0
Reducer = List (String × ReducerEntry)

-- reducer[item_id] = entry: a key that is there keeps its place
unfoldable pub set_entry : String → ReducerEntry → Reducer → Reducer
set_entry id e [] = (id, e) ∷ []
set_entry id e ((k, old) ∷ d) = if k == id then (k, e) ∷ d else (k, old) ∷ set_entry id e d

unfoldable pub has_entry : String → Reducer → Bool
has_entry id [] = false
has_entry id ((k, old) ∷ d) = k == id || has_entry id d

-- The reducer, the sequence and the reasons recorded.
pub record Reduction : Type 0 where
  pub reducer : Reducer
  pub sequence : ℕ
  pub reasons : List String

abbrev pub record_reason : Bool → String → List String → List String
record_reason true reason reasons = reasons ++ reason ∷ []
record_reason false reason reasons = reasons

-- What an item with an id does to the reducer: nothing, or an entry for its id; and the reason that
-- it records besides, if any.
unfoldable pub entry_of :
    String → String → RawItem → Option (Option RemoteCandidate) × Option String
unfolding build_candidate_from_payload
entry_of now account raw =
    if raw.deleted
    then (some none, some "delta_reducer_tombstone_event")
    else if not raw.has_file
    then (none, none)
    else elim (build_candidate_from_payload now account raw) [
      | none ↦ (none, some (classify_invalid_candidate_reason raw))
      | some c ↦ (some (some c), none)
    ]

abbrev pub store : String → ℕ → Option (Option RemoteCandidate) → Reducer → Reducer
store id sequence none d = d
store id sequence (some c) d = set_entry id (record { sequence = sequence; candidate = c }) d

abbrev pub note : Option String → List String → List String
note none reasons = reasons
note (some reason) reasons = reasons ++ reason ∷ []

-- One element of the page; what is no JSON object is skipped.
unfoldable pub apply_item : String → String → Option RawItem → Reduction → Reduction
apply_item now account none s = s
apply_item now account (some raw) s =
    let id = option_or raw.id "" in
    if id == ""
    then record s { reasons = record_reason true "delta_item_missing_id" s.reasons }
    else let (entry, reason) = entry_of now account raw in
      record {
        reducer = store id (s.sequence + 1) entry s.reducer;
        sequence = s.sequence + 1;
        reasons =
            note reason
              (record_reason (has_entry id s.reducer) "delta_reducer_event_overwrite" s.reasons);
      }

unfoldable pub apply_items : String → String → List (Option RawItem) → Reduction → Reduction
unfolding apply_item
apply_items now account [] s = s
apply_items now account (x ∷ xs) s = apply_items now account xs (apply_item now account x s)

-- A page whose "value" is no list changes nothing.
unfoldable pub apply_delta_page_to_reducer :
    String → String → Option (List (Option RawItem)) → Reduction → Reduction
unfolding apply_items
apply_delta_page_to_reducer now account none s = s
apply_delta_page_to_reducer now account (some items) s = apply_items now account items s

-- sorted(…, key=lambda entry: entry.sequence), which is stable
unfoldable pub insert_entry : String × ReducerEntry → Reducer → Reducer
insert_entry x [] = x ∷ []
insert_entry x (y ∷ ys) =
    if leb x.1.sequence y.1.sequence then x ∷ y ∷ ys else y ∷ insert_entry x ys

unfoldable pub sort_entries : Reducer → Reducer
unfolding insert_entry
sort_entries [] = []
sort_entries (x ∷ xs) = insert_entry x (sort_entries xs)

unfoldable pub candidates_of : Reducer → List RemoteCandidate
candidates_of [] = []
candidates_of ((k, e) ∷ d) =
    let rest = candidates_of d in elim e.candidate [ none ↦ rest | some c ↦ c ∷ rest ]

unfoldable pub materialize_reduced_candidates : Reducer → List RemoteCandidate
unfolding sort_entries candidates_of
materialize_reduced_candidates reducer = candidates_of (sort_entries reducer)

abbrev pub empty_reduction : Reduction
empty_reduction = record { reducer = []; sequence = 0; reasons = [] }

-- `_reduce_delta_page_candidates`
unfoldable pub reduce_delta_page_candidates :
    String → String → Option (List (Option RawItem)) → List RemoteCandidate
unfolding apply_delta_page_to_reducer materialize_reduced_candidates
reduce_delta_page_candidates now account page =
    materialize_reduced_candidates
      (apply_delta_page_to_reducer now account page empty_reduction).reducer
