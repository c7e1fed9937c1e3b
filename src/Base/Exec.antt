-- ===== src/Base/Exec.antt =====
-- Methods that mutate a state and may raise. What was written before a raise stays written, so the
-- state comes back beside the error too.
pub mod Keeps
pub mod Ensures
pub mod Returns
pub mod Triples
use Prim.Native.Nat.{ℕ}
use Prim.Native.String.{String}
use mathlib.Core.Path.{◌≡◌, refl}
use mathlib.Core.Logic.{◌⊎◌, inl, inr}
use mathlib.Core.Bool.{Bool, true, false}
use mathlib.Core.Option.{Option, none, some}
use mathlib.Core.List.{List}

-- The exceptions of the program, one constructor for each place that raises one, with the values
-- that the source formats into the message.
pub data Error : Type 0 where
  -- sqlite3.IntegrityError
  integrity : Error
  -- RegistryError
  invalid_status : String → Error
  accept_missing : String → Error
  accept_status : String → Error
  invalid_known_status : String → Error
  purge_missing : String → Error
  purge_status : String → Error
  transition_missing : String → Error
  injected : ℕ → Error
  chunk_size : Error
  invalid_pair_status : String → Error
  invalid_propagated_status : String → Error
  missing_pair : String → Error
  schema_newer : ℕ → Error
  schema_legacy : ℕ → Error
  -- RejectFlowError
  invalid_sha256 : String → Error
  no_origin_context : String → Error
  unknown_sha256 : String → Error
  accept_flow_status : String → Error
  no_current_path : String → Error
  unsafe_accept_source : String → Error
  purge_flow_status : String → Error
  unsafe_purge_path : String → Error
  unsafe_reject_source : String → Error
  flow : Error → Error
  -- StorageError
  template_not_relative : Error
  template_unsafe_parts : Error
  max_attempts_too_small : Error
  collision_threshold : String → ℕ → Error
  staged_source_missing : String → Error
  escapes_root : String → Error
  copy_size_mismatch : ℕ → ℕ → Error
  copy_hash_mismatch : Error
  fsync_failed : String → Error
  -- OSError, of the disk
  os_error : Error
  -- FileNotFoundError
  file_not_found : String → Error
  -- HashImportError
  import_chunk_size : Error
  -- IngestError
  input_schema : ℕ → Error
  malformed_candidate : ℕ → String → Error
  worker_count_too_small : Error
  attempts_too_small : Error
  unsafe_template : List String → Error
  -- ValueError of datetime.fromisoformat
  invalid_time : String → Error
  -- LivePhotoError
  unsupported_heuristic : String → Error
  -- ValueError and LookupError of the API services
  unsupported_action : String → Error
  key_conflict : Error
  item_not_found : Error
  rule_conflict : Error
  rule_not_found : Error
  -- AssertionError
  assertion : Error
  -- DownloadError and GraphError, with their code and the status of the response
  download_failed : String × Option ℕ → Error
  graph_failed : String × Option ℕ → Error
  -- GraphResyncRequired, with the address of the new delta
  resync_required : Option String → Error
  -- HashImportParseError, with the line, and HashImportError for a directory without a hash
  hash_parse : ℕ → String → Error
  directory_hash_failed : String → Error

pub data Result {ℓ} (A : Type ℓ) : Type ℓ where
  ok : A → Result A
  err : Error → Result A

pub Result-cases : (r : Result (Unit {0})) → (r ≡ ok tt) ⊎ ((e : Error) × (r ≡ err e))
Result-cases (ok tt) = inl refl
Result-cases (err e) = inr (e, refl)

pub Result-split :
    {A : Type 0} (r : Result A) → ((a : A) × (r ≡ ok a)) ⊎ ((e : Error) × (r ≡ err e))
Result-split (ok a) = inl (a, refl)
Result-split (err e) = inr (e, refl)

-- What follows a value that is there.
abbrev pub and_then : {A B : Type 0} → Result A → (A → Result B) → Result B
and_then (ok a) f = f a
and_then (err e) f = err e

pub and_then-ok :
    {A B : Type 0} (r : Result A) (f : A → Result B) (b : B)
    → and_then r f ≡ ok b
    → (a : A) × (r ≡ ok a) × (f a ≡ ok b)
and_then-ok (ok a) f b e = (a, refl, e)
and_then-ok (err x) f b e = cc

abbrev pub Exec {ℓ} : Type ℓ → Type ℓ → Type ℓ
Exec S A = S → Result A × S

module _ {ℓ} {S A : Type ℓ} where
  abbrev pub pure : A → Exec S A
  pure a s = (ok a, s)

  abbrev pub raise : Error → Exec S A
  raise e s = (err e, s)

  abbrev pub lift : Result A → Exec S A
  lift r s = (r, s)

  abbrev pub gets : (S → A) → Exec S A
  gets f s = (ok (f s), s)

module _ {ℓ} {S A B : Type ℓ} where
  abbrev pub continue : Result A → (A → Exec S B) → Exec S B
  continue (ok a) f s = f a s
  continue (err e) f s = (err e, s)

  infixl 10 ◌>>=◌ ◌>>◌
  abbrev pub ◌>>=◌ : Exec S A → (A → Exec S B) → Exec S B
  ◌>>=◌ m f s = let (r, s') = m s in continue r f s'

  abbrev pub ◌>>◌ : Exec S A → Exec S B → Exec S B
  m >> n = m >>= λ _. n

abbrev pub modify : {S : Type 0} → (S → S) → Exec S Unit
modify f s = (ok tt, f s)

-- `if test: raise e`
abbrev pub raise_if : {S : Type 0} → Bool → Error → Exec S Unit
raise_if true e s = (err e, s)
raise_if false e s = (ok tt, s)

-- `if o is None: raise e`, else the value.
abbrev pub or_raise : {S A : Type 0} → Option A → Error → Exec S A
or_raise none e s = (err e, s)
or_raise (some a) e s = (ok a, s)

-- `try: m except …: raise RejectFlowError(str(exc)) from exc`
abbrev pub wrap_flow : {S A : Type 0} → Exec S A → Exec S A
wrap_flow m s = let (r, s') = m s in (rewrap r, s')
  where
    rewrap : {A : Type 0} → Result A → Result A
    rewrap (ok a) = ok a
    rewrap (err e) = err (flow e)
