-- ===== src/World.antt =====
-- What the flows act on: the registry database, the files on disk, the clock and the ingest journal.
-- A file system is the list of its regular files with their bytes, keyed by the text of the path;
-- directories are made on demand by the program and are not kept.
pub mod Laws
pub mod Keeps
use nightfall_photo_ingress.Base.{
  ℕ, suc, ◌+◌, String, Bool, true, false, Option, none, some, List, [], ◌∷◌, ◌==◌, if◌then◌else◌,
  is_some,
}
use nightfall_photo_ingress.Base.Exec.{
  Error, file_not_found, Result, ok, err, Exec, pure, raise, gets, ◌>>=◌, ◌>>◌,
}
use nightfall_photo_ingress.Registry.Schema.{Db}

-- One line of the ingest journal, the dataclass `JournalRecord` of
-- src/nightfall_photo_ingress/domain/journal.py.
pub record JournalRecord : Type 0 where
  pub op_id : String
  pub phase : String
  pub ts : String
  pub account : String
  pub onedrive_id : String
  pub staging_path : String
  pub destination_path : Option String
  pub sha256 : Option String

-- What the program takes from its surroundings: the n-th reading of the clock as
-- `datetime.now(UTC).isoformat()`, hashlib's digest of some bytes, the text of `Path.resolve()`,
-- whether two directories are on one device, `datetime.fromisoformat` as the year and month in
-- digits, the year and month of the clock, the bytes that `shutil.copy2` leaves at its target, random
-- identifiers of twelve digits and whole ones, hashlib's digest of a text in UTF-8, the clock in whole seconds, a time in microseconds, `fnmatch.fnmatch`, `re.search` (no
-- value for an invalid pattern), and whether the journal's file has reached its largest size.
pub record Os : Type 0 where
  pub clock : ℕ → String
  pub hexdigest : List ℕ → String
  pub resolve : String → String
  pub same_device : String → String → Bool
  pub year_month : String → Option (String × String)
  pub current_year_month : String × String
  pub copied : List ℕ → List ℕ
  pub chmod_fails : String → Bool
  pub fsync_fails : String → Bool
  pub uuid : ℕ → String
  pub run_id : ℕ → String
  pub text_hexdigest : String → String
  pub epoch_seconds : ℕ → ℕ
  pub instant : String → Option ℕ
  pub fnmatch : String → String → Bool
  pub re_search : String → String → Option Bool
  pub journal_full : List JournalRecord → Bool

abbrev pub Fs : Type 0
Fs = List (String × List ℕ)

unfoldable pub content : String → Fs → Option (List ℕ)
content p [] = none
content p ((q, bytes) ∷ fs) = if q == p then some bytes else content p fs

unfoldable pub remove : String → Fs → Fs
remove p [] = []
remove p ((q, bytes) ∷ fs) = let rest = remove p fs in if q == p then rest else (q, bytes) ∷ rest

unfoldable pub put : String → List ℕ → Fs → Fs
unfolding remove
put p bytes fs = (p, bytes) ∷ remove p fs

-- Path.exists(), on the paths of regular files
abbrev pub exists : String → Fs → Bool
exists p fs = is_some (content p fs)

pub record World : Type 0 where
  pub db : Db
  pub fs : Fs
  pub reads : ℕ
  pub journal : List JournalRecord

-- A call of the registry.
abbrev pub on_db : {A : Type 0} → Exec Db A → Exec World A
on_db m w = let (r, db') = m w.db in (r, record w { db = db' })

-- datetime.now(UTC).isoformat()
abbrev pub utc_now : Os → Exec World String
utc_now os w = (ok (os.clock w.reads), record w { reads = suc w.reads })

-- path.unlink(missing_ok=True)
abbrev pub unlink : String → Exec World Unit
unlink p w = (ok tt, record w { fs = remove p w.fs })

-- The bytes of a file that is opened for reading.
abbrev pub read_bytes : String → Exec World (List ℕ)
read_bytes p w = elim (content p w.fs) [ none ↦ (err (file_not_found p), w) | some b ↦ (ok b, w) ]

-- open(path, "wb") and shutil.copy2's target
abbrev pub write_bytes : String → List ℕ → Exec World Unit
write_bytes p bytes w = (ok tt, record w { fs = put p bytes w.fs })

-- source.replace(target): rename, over what was there
abbrev pub rename : String → String → Exec World Unit
rename p q w = elim (content p w.fs) [
  | none ↦ (err (file_not_found p), w)
  | some bytes ↦ (ok tt, record w { fs = put q bytes (remove p w.fs) })
]
