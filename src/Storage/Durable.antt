-- ===== src/Storage/Durable.antt =====
-- The move into a queue where it returns (`commit_staging_to_accepted` of
-- src/nightfall_photo_ingress/domain/storage.py).
pub mod Raised
use mathlib.Core.Path.{subst}
use nightfall_photo_ingress.Base.{
  ℕ, String, Bool, true, false, Option, none, some, List, length, ◌==◌, ◌≡◌, ◌≢◌, arith, eq_iff,
  eq_refl, sym, ap, ◌∙◌, inl, inr, Option-cases, eqb, if◌then◌else◌,
}
use nightfall_photo_ingress.Base.Exec.{
  Error, Result, ok, err, copy_hash_mismatch, copy_size_mismatch, os_error, fsync_failed,
}
use nightfall_photo_ingress.Text.{cat}
use nightfall_photo_ingress.World.{Os, Fs, World, content, remove, put}
use nightfall_photo_ingress.World.Laws.{content-remove, content-put}
use nightfall_photo_ingress.Storage.Commit.{
  CommitResult, copy_verify_unlink, parent_of, place_copy, install_copy, commit_staging_to_accepted,
  commit_rename, commit_copy,
}

-- Behind the copy's rename.
abbrev replaced : String → String → World → List ℕ → World
replaced tmp destination w copy = record w { fs = put destination copy (remove tmp w.fs) }

-- The ends of a verified copy: it cannot be flushed, or it is renamed to the destination, and the source
-- goes if the destination and its folder can be flushed.
abbrev place_ends : Os → String → String → String → World → List ℕ → ℕ → Result CommitResult × World
place_ends os source tmp destination w copy size =
    if os.fsync_fails tmp
    then (err (fsync_failed tmp), w)
    else if os.chmod_fails destination
    then (err os_error, replaced tmp destination w copy)
    else if os.fsync_fails (parent_of destination)
    then (err (fsync_failed (parent_of destination)), replaced tmp destination w copy)
    else (
      ok (record {
        destination_path = destination;
        bytes_written = size;
        method = copy_verify_unlink;
      }),
      record w { fs = remove source (put destination copy (remove tmp w.fs)) },
    )

pub place_copy_lem :
    (os : Os) (source tmp destination : String) (w : World) (copy : List ℕ) (size : ℕ)
    → content tmp w.fs ≡ some copy
    → place_copy os source tmp destination size w ≡ place_ends os source tmp destination w copy size
unfolding place_copy
place_copy_lem os source tmp destination w copy size there = ground arith

-- The ends of a copy: a size or a hash that differs removes the copy; else it is put in place.
abbrev install_ends :
    Os → String → String → String → World → List ℕ → List ℕ → Result CommitResult × World
install_ends os source tmp destination w bytes copy =
    if eqb (length bytes) (length copy)
    then (if os.hexdigest bytes == os.hexdigest copy
        then place_copy os source tmp destination (length copy) w
        else (err copy_hash_mismatch, record w { fs = remove tmp w.fs }))
    else (err (copy_size_mismatch (length bytes) (length copy)), record w { fs = remove tmp w.fs })

install_copy_lem :
    (os : Os) (source tmp destination : String) (w : World) (bytes copy : List ℕ)
    → content source w.fs ≡ some bytes
    → content tmp w.fs ≡ some copy
    → install_copy os source tmp destination w ≡ install_ends os source tmp destination w bytes copy
unfolding install_copy
install_copy_lem os source tmp destination w bytes copy hs ht = ground arith

-- What a move that returned `r` has done: `copy` stands at the destination with the size and the
-- digest of the source's bytes, the source is gone, and the result names the destination and the
-- size.
pub record IsDelivered (os : Os) (source destination : String) (bytes copy : List ℕ)
    (r : CommitResult) (fs : Fs) : Type 0 where
  pub placed : content destination fs ≡ some copy
  pub same_digest : os.hexdigest copy ≡ os.hexdigest bytes
  pub same_size : length copy ≡ length bytes
  pub moved : content source fs ≡ none
  pub named : r.destination_path ≡ destination
  pub sized : r.bytes_written ≡ length bytes

module _ (os : Os) (source destination : String) (w : World) where
  abbrev pub after_copy : List ℕ → World
  after_copy bytes = record w { fs = put (cat destination ".tmp") (os.copied bytes) w.fs }

  commit_copy_lem :
      (bytes : List ℕ)
      → content source w.fs ≡ some bytes
      → commit_copy os source destination w
        ≡ install_copy os source (cat destination ".tmp") destination (after_copy bytes)
  unfolding commit_copy
  commit_copy_lem bytes there = ground arith

  pub after_copy-source :
      (bytes : List ℕ)
      → source ≢ cat destination ".tmp"
      → content source (after_copy bytes).fs ≡ content source w.fs
  after_copy-source bytes ne = ground (
    arith,
    content-put source (cat destination ".tmp") (os.copied bytes) w.fs,
    eq_iff (cat destination ".tmp") source,
  )

  pub after_copy-tmp :
      (bytes : List ℕ)
      → content (cat destination ".tmp") (after_copy bytes).fs ≡ some (os.copied bytes)
  after_copy-tmp bytes =
      content-put (cat destination ".tmp") (cat destination ".tmp") (os.copied bytes) w.fs
      ∙ rw (eq_refl (cat destination ".tmp"))

  pub commit_copy_ends :
      (bytes : List ℕ)
      → source ≢ cat destination ".tmp"
      → content source w.fs ≡ some bytes
      → commit_copy os source destination w
        ≡ install_ends os source
            (cat destination ".tmp")
            destination
            (after_copy bytes)
            bytes
            (os.copied bytes)
  commit_copy_ends bytes ne there =
      commit_copy_lem bytes there
      ∙ install_copy_lem os source (cat destination ".tmp") destination (after_copy bytes) bytes
          (os.copied bytes) (after_copy-source bytes ne ∙ there) (after_copy-tmp bytes)

  abbrev installed_fs : List ℕ → Fs
  installed_fs bytes =
      remove source
        (put destination (os.copied bytes) (remove (cat destination ".tmp") (after_copy bytes).fs))

  delivered_fs :
      (bytes : List ℕ)
      → source ≢ destination
      → (content destination (installed_fs bytes) ≡ some (os.copied bytes))
        × (content source (installed_fs bytes) ≡ none)
  delivered_fs bytes nd =
      let before : Fs = remove (cat destination ".tmp") (after_copy bytes).fs in
      ground (
        arith,
        content-remove source source (put destination (os.copied bytes) before),
        content-remove destination source (put destination (os.copied bytes) before),
        content-put destination destination (os.copied bytes) before,
        eq_refl source,
        eq_refl destination,
        eq_iff source destination,
      )

  commit_copy-delivers :
      (bytes : List ℕ) (r : CommitResult)
      → source ≢ cat destination ".tmp"
      → source ≢ destination
      → content source w.fs ≡ some bytes
      → (commit_copy os source destination w).0 ≡ ok r
      → IsDelivered os source destination bytes
          (os.copied bytes)
          r
          (commit_copy os source destination w).1.fs
  commit_copy-delivers bytes r ne nd there returned = ground (
    arith,
    commit_copy_ends bytes ne there,
    place_copy_lem os source (cat destination ".tmp") destination (after_copy bytes)
        (os.copied bytes) (length (os.copied bytes)) (after_copy-tmp bytes),
    delivered_fs bytes nd,
    eq_iff (os.hexdigest bytes) (os.hexdigest (os.copied bytes)),
  )

  commit_rename-delivers :
      (bytes : List ℕ) (r : CommitResult)
      → source ≢ destination
      → content source w.fs ≡ some bytes
      → (commit_rename os source destination w).0 ≡ ok r
      → IsDelivered os source destination bytes bytes r (commit_rename os source destination w).1.fs
  unfolding commit_rename
  commit_rename-delivers bytes r nd there returned = ground (
    arith,
    content-put destination destination bytes (remove source w.fs),
    content-put source destination bytes (remove source w.fs),
    content-remove source source w.fs,
    eq_refl source,
    eq_refl destination,
    eq_iff destination source,
  )

  -- What is before the move itself changes nothing.
  commit_run :
      (same_pool : Bool) (root : Option String) (r : CommitResult)
      → (commit_staging_to_accepted os source destination same_pool root w).0 ≡ ok r
      → commit_staging_to_accepted os source destination same_pool root w
        ≡ (if same_pool
              then commit_rename os source destination
              else commit_copy os source destination)
            w
  unfolding commit_staging_to_accepted
  commit_run same_pool root r returned = ground arith

  -- A move that returns has put at the destination bytes with the size and the digest of the
  -- source's, and the source is gone; the result names the destination and the size. The source is
  -- neither the destination nor the copy's temporary name.
  pub commit-delivers :
      (same_pool : Bool) (root : Option String) (bytes : List ℕ) (r : CommitResult)
      → source ≢ cat destination ".tmp"
      → source ≢ destination
      → content source w.fs ≡ some bytes
      → (commit_staging_to_accepted os source destination same_pool root w).0 ≡ ok r
      → (copy : List ℕ) × IsDelivered os source destination bytes copy r
          (commit_staging_to_accepted os source destination same_pool root w).1.fs
  commit-delivers true root bytes r ne nd there returned =
      let run = commit_run true root r returned in
      (
        bytes,
        subst (λ v. IsDelivered os source destination bytes bytes r v.1.fs) (sym run)
            (commit_rename-delivers bytes r nd there (ap (λ v. v.0) (sym run) ∙ returned)),
      )
  commit-delivers false root bytes r ne nd there returned =
      let run = commit_run false root r returned in
      (
        os.copied bytes,
        subst (λ v. IsDelivered os source destination bytes (os.copied bytes) r v.1.fs) (sym run)
            (commit_copy-delivers bytes r ne nd there (ap (λ v. v.0) (sym run) ∙ returned)),
      )
