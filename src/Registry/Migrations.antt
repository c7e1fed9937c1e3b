-- ===== src/Registry/Migrations.antt =====
-- Opening a registry (`initialize` and what it calls in
-- src/nightfall_photo_ingress/domain/registry.py). The creation of missing tables and indices has no
-- counterpart: the record of tables is the one that it ends with. Of a rebuild of the hash cache that
-- was interrupted, the stop between its copy and its drop is a layout of its own.
use nightfall_photo_ingress.Base.{ℕ, [], eqb, ltb, if◌then◌else◌}
use nightfall_photo_ingress.Base.Exec.{
  integrity, schema_newer, schema_legacy, Result, ok, err, Exec, pure, raise, ◌>>=◌, ◌>>◌,
}
use nightfall_photo_ingress.Base.Exec.Keeps.{Keeps, keeps_rules}
use nightfall_photo_ingress.Registry.Schema.{Db, HashCacheLayout, h1, older, half_rebuilt}
use nightfall_photo_ingress.Registry.Conn.{
  Conn, with_connect, close_connection, commit, query, write,
}
use nightfall_photo_ingress.Registry.WellFormed.{IsWellFormed}

abbrev pub latest_schema_version : ℕ
latest_schema_version = 2

run_migrations : Exec Conn Unit
run_migrations = do
  current ← query (λ db. db.user_version)
  if ltb latest_schema_version current
      then raise (schema_newer current)
      else if eqb current 0
      then write (λ db. record db { user_version = latest_schema_version })
      else if eqb current latest_schema_version
      then pure tt
      else raise (schema_legacy current)

-- `executescript` commits first, and then each statement by itself. The rows of a copy that is filled
-- already break its primary key.
ensure_external_hash_cache_h1_schema : HashCacheLayout → Exec Conn Unit
ensure_external_hash_cache_h1_schema h1 = pure tt
ensure_external_hash_cache_h1_schema older = do
  commit
  write (λ db. record db { hash_cache_layout = h1 })
  commit
ensure_external_hash_cache_h1_schema half_rebuilt = do commit; raise integrity

ensure_optional_tables : Exec Conn Unit
unfolding ensure_external_hash_cache_h1_schema
ensure_optional_tables = do
  layout ← query (λ db. db.hash_cache_layout)
  ensure_external_hash_cache_h1_schema layout
  commit

unfoldable pub initialize : Exec Db Unit
unfolding run_migrations ensure_optional_tables
initialize = with_connect (do run_migrations; ensure_optional_tables)

-- A database file that does not exist yet.
abbrev pub empty_db : Db
empty_db = record {
  user_version = 0;
  files = [];
  metadata_index = [];
  accepted_records = [];
  accepted_seq = 0;
  file_origins = [];
  audit_log = [];
  audit_seq = 0;
  live_photo_pairs = [];
  external_hash_cache = [];
  hash_cache_layout = h1;
  ingest_terminal_audit = [];
  terminal_seq = 0;
  blocked_rules = [];
  blocked_seq = 0;
  ui_action_idempotency = [];
}

pub empty_db-IsWellFormed : IsWellFormed empty_db
empty_db-IsWellFormed = record {
  unique = tt;
  statuses = tt;
  origins = tt;
  acceptances = tt;
  photos = tt;
  videos = tt;
  pair_statuses = tt;
  audit_bound = tt;
  audit_order = tt;
}

-- The version and the layout are no part of the invariant.
opened-IsWellFormed :
    (db : Db) (v : ℕ) (layout : HashCacheLayout)
    → IsWellFormed db
    → IsWellFormed (record db { user_version = v; hash_cache_layout = layout })
opened-IsWellFormed db v layout h = record {
  unique = h.unique;
  statuses = h.statuses;
  origins = h.origins;
  acceptances = h.acceptances;
  photos = h.photos;
  videos = h.videos;
  pair_statuses = h.pair_statuses;
  audit_bound = h.audit_bound;
  audit_order = h.audit_order;
}

-- A connection of which both sides are well-formed.
abbrev IsOpen : Conn → Type 0
IsOpen c = IsWellFormed c.disk × IsWellFormed c.work

Keeps-commit : Keeps IsOpen commit
Keeps-commit = record { at = λ c h. (h.1, h.1) }

Keeps-query : {A : Type 0} (f : Db → A) → Keeps IsOpen (query f)
Keeps-query f = record { at = λ c h. h }

Keeps-write :
    (f : Db → Db) → ((db : Db) → IsWellFormed db → IsWellFormed (f db)) → Keeps IsOpen (write f)
Keeps-write f k = record { at = λ c h. (h.0, k c.work h.1) }

set_version-IsOpen : Keeps IsOpen (write (λ db. record db { user_version = latest_schema_version }))
set_version-IsOpen =
    Keeps-write _ (λ db h. opened-IsWellFormed db latest_schema_version db.hash_cache_layout h)

set_layout-IsOpen : Keeps IsOpen (write (λ db. record db { hash_cache_layout = h1 }))
set_layout-IsOpen = Keeps-write _ (λ db h. opened-IsWellFormed db db.user_version h1 h)

run_migrations-IsOpen : Keeps IsOpen run_migrations
unfolding run_migrations
run_migrations-IsOpen = search (keeps_rules, Keeps-query, set_version-IsOpen) depth 12

ensure_h1-IsOpen :
    (layout : HashCacheLayout) → Keeps IsOpen (ensure_external_hash_cache_h1_schema layout)
unfolding ensure_external_hash_cache_h1_schema
ensure_h1-IsOpen h1 = search keeps_rules
ensure_h1-IsOpen older = search (keeps_rules, Keeps-commit, set_layout-IsOpen) depth 12
ensure_h1-IsOpen half_rebuilt = search (keeps_rules, Keeps-commit) depth 12

ensure_optional_tables-IsOpen : Keeps IsOpen ensure_optional_tables
unfolding ensure_optional_tables
ensure_optional_tables-IsOpen =
    search (keeps_rules, Keeps-query, Keeps-commit, ensure_h1-IsOpen) depth 12

opening-IsOpen : Keeps IsOpen (run_migrations >> ensure_optional_tables)
opening-IsOpen = search (keeps_rules, run_migrations-IsOpen, ensure_optional_tables-IsOpen) depth 12

closed : (r : Result (Unit {0})) (c : Conn) → IsOpen c → IsWellFormed (close_connection (r, c)).1
closed (ok tt) c h = h.1
closed (err e) c h = h.0

pub initialize-IsWellFormed : (db : Db) → IsWellFormed db → IsWellFormed (initialize db).1
unfolding initialize
initialize-IsWellFormed db h =
    closed _ _ (opening-IsOpen.at (record { disk = db; work = db }) (h, h))
