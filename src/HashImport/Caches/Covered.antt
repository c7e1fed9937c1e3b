-- ===== src/HashImport/Caches/Covered.antt =====
-- The rows behind the plan for a directory (`build_hash_import_directory_plan` of
-- src/nightfall_photo_ingress/hash_import.py).
use nightfall_photo_ingress.Base.{String, ◌≡◌, List, contains}
use nightfall_photo_ingress.World.{Fs}
use nightfall_photo_ingress.HashImport.{PlanSource}
use nightfall_photo_ingress.HashImport.Caches.{Tools, HashImportDirectoryRow}
use nightfall_photo_ingress.HashImport.Caches.Rows.{importable, Origin, paths_of}

module _ (tools : Tools) (fs : Fs) (directory : String) where
  -- Rows that cover the directory, with their origin.
  Covering : PlanSource → List HashImportDirectoryRow → Type 0
  Covering source rows =
      ((p : String) → contains p (paths_of rows) ≡ contains p (importable tools fs directory))
      × (Origin tools fs directory) source rows
