-- ===== src/Storage/Durable/Raised.antt =====
-- The move into a queue where it raises (`commit_staging_to_accepted` of
-- src/nightfall_photo_ingress/domain/storage.py).
use mathlib.Core.Path.{subst}
use nightfall_photo_ingress.Base.{
  ℕ, String, Bool, true, false, not, Option, none, some, List, length, ◌==◌, ◌≡◌, ◌≢◌, refl, sym,
  ap, arith, eq_iff, eq_refl, ◌∙◌, ◌⊎◌, inl, inr, Option-cases, Bool-cases, eqb, ◌&&◌, and_left,
  and_right,
}
use nightfall_photo_ingress.Base.Exec.{
  Error, staged_source_missing, Result, ok, err, Exec, raise_if, lift, gets,
}
use nightfall_photo_ingress.Base.Exec.Triples.{Triple, Ends, Triple-if, Triple-bind, Triple-then}
use nightfall_photo_ingress.Text.{cat}
use nightfall_photo_ingress.World.{Os, World, content, remove, exists}
use nightfall_photo_ingress.World.Laws.{content-remove, content-put}
use nightfall_photo_ingress.Storage.Render.{ensure_within_root}
use nightfall_photo_ingress.Storage.Commit.{
  CommitResult, place_copy, commit_staging_to_accepted, commit_rename, commit_copy, check_root,
  chmod, parent_of,
}
use nightfall_photo_ingress.Storage.Durable.{
  after_copy, after_copy-source, after_copy-tmp, commit_copy_ends, place_copy_lem,
}

raised-Ends :
    {A : Type 0} (E : World → Type 0) (r : Result A) (s : World)
    → ((e : Error) → r ≡ err e → E s)
    → Ends (λ a s. Unit) E r s
raised-Ends E (ok a) s h = tt
raised-Ends E (err e) s h = h e refl

Ends-raised :
    {A : Type 0} (E : World → Type 0) (r : Result A) (s : World) (e : Error)
    → Ends (λ a s. Unit) E r s
    → r ≡ err e
    → E s
Ends-raised E (ok a) s e h raised = cc
Ends-raised E (err x) s e h raised = h

module _ (os : Os) (source destination : String) (w : World) where
  -- No byte is lost: the source is as it was, or the destination holds what has its size and digest.
  unfoldable pub IsSafe : World → Type 0
  IsSafe v =
      (content source v.fs ≡ content source w.fs)
      ⊎ ((bytes : List ℕ) × (content source w.fs ≡ some bytes)
          × ((copy : List ℕ) × (content destination v.fs ≡ some copy)
              × (os.hexdigest copy ≡ os.hexdigest bytes)
              × (length copy ≡ length bytes)))

  place_copy-IsSafe :
      (bytes : List ℕ) (e : Error)
      → source ≢ cat destination ".tmp"
      → content source w.fs ≡ some bytes
      → os.hexdigest (os.copied bytes) ≡ os.hexdigest bytes
      → length (os.copied bytes) ≡ length bytes
      → (place_copy os source
          (cat destination ".tmp")
          destination
          (length (os.copied bytes))
          (after_copy os source destination w bytes)).0
        ≡ err e
      → IsSafe
          (place_copy os source
            (cat destination ".tmp")
            destination
            (length (os.copied bytes))
            (after_copy os source destination w bytes)).1
  unfolding IsSafe
  place_copy-IsSafe bytes e ne there digest size raised =
      let tmp = cat destination ".tmp" in
      let v = after_copy os source destination w bytes in
      let ends =
        place_copy_lem os source tmp destination v (os.copied bytes) (length (os.copied bytes))
          (after_copy-tmp os source destination w bytes) in
      elim (Bool-cases (os.fsync_fails tmp)) [
        | inl fails ↦ inl (ground (arith, ends, after_copy-source os source destination w bytes ne))
        | inr flushed ↦ inr (
          bytes,
          there,
          (
            os.copied bytes,
            ground (
              arith,
              ends,
              content-put destination destination (os.copied bytes) (remove tmp v.fs),
              eq_refl destination,
            ),
            digest,
            size,
          ),
        )
      ]

  commit_copy-IsSafe :
      (e : Error)
      → source ≢ cat destination ".tmp"
      → (commit_copy os source destination w).0 ≡ err e
      → IsSafe (commit_copy os source destination w).1
  commit_copy-IsSafe e ne raised = elim (Option-cases (content source w.fs)) [
    | inl missing ↦ unfold commit_copy IsSafe in inl (ground arith)
    | inr (bytes, there) ↦
        let ends = commit_copy_ends os source destination w bytes ne there in
        elim (Bool-cases (
          eqb (length bytes) (length (os.copied bytes))
          && (os.hexdigest bytes == os.hexdigest (os.copied bytes)))) [
            | inl same ↦
                let same_size = eqb (length bytes) (length (os.copied bytes)) in
                let same_digest = os.hexdigest bytes == os.hexdigest (os.copied bytes) in
                let size = and_left same_size same_digest same in
                let digest = and_right same_size same_digest same in
                subst (λ r. r.0 ≡ err e → IsSafe r.1) (sym (ends ∙ rw (size, digest) refl))
                  (place_copy-IsSafe bytes e ne there
                    (ground (arith, eq_iff (os.hexdigest bytes) (os.hexdigest (os.copied bytes))))
                    (ground arith))
                  raised
            | inr differs ↦
                unfold IsSafe in
                inl (
                  ground (
                    arith,
                    ends,
                    content-remove source (cat destination ".tmp")
                        (after_copy os source destination w bytes).fs,
                    after_copy-source os source destination w bytes ne,
                    eq_iff (cat destination ".tmp") source,
                  ))
          ]
  ]

  commit_rename-IsSafe :
      (e : Error)
      → (commit_rename os source destination w).0 ≡ err e
      → IsSafe (commit_rename os source destination w).1
  unfolding commit_rename IsSafe
  commit_rename-IsSafe e raised = elim (Option-cases (content source w.fs)) [
    | inl missing ↦ inl (ground arith)
    | inr (bytes, there) ↦ inr (
      bytes,
      there,
      (
        bytes,
        ground (
          arith,
          content-put destination destination bytes (remove source w.fs),
          eq_refl destination,
        ),
        refl,
        refl,
      ),
    )
  ]

  IsSafe-start : (v : World) → w ≡ v → IsSafe v
  unfolding IsSafe
  IsSafe-start v p = inl (ap (λ u. content source u.fs) (sym p))

  raise_if-Triple :
      (b : Bool) (e : Error) → Triple (λ v. w ≡ v) (λ a v. w ≡ v) IsSafe (raise_if b e)
  raise_if-Triple true e = record { at = IsSafe-start }
  raise_if-Triple false e = record { at = λ v p. p }

  lift-Triple : (r : Result (Unit {0})) → Triple (λ v. w ≡ v) (λ a v. w ≡ v) IsSafe (lift r)
  lift-Triple (ok tt) = record { at = λ v p. p }
  lift-Triple (err e) = record { at = IsSafe-start }

  check_root-Triple :
      (path : String) (root : Option String)
      → Triple (λ v. w ≡ v) (λ a v. w ≡ v) IsSafe (check_root os path root)
  check_root-Triple path none = record { at = λ v p. p }
  check_root-Triple path (some root) = lift-Triple (ensure_within_root os path root)

  started :
      (m : Exec World CommitResult)
      → ((e : Error) → (m w).0 ≡ err e → IsSafe (m w).1)
      → Triple (λ v. w ≡ v) (λ a v. Unit) IsSafe m
  started m h = record {
    at = λ v p.
        subst (λ u. Ends (λ a s. Unit) IsSafe (m u).0 (m u).1) p
          (raised-Ends IsSafe (m w).0 (m w).1 h);
  }

  -- A move that raises has lost no byte. It raises for a missing source, a destination outside its
  -- root, a copy whose size or hash differs, and a `chmod` or `fsync` that fails. The source is as it
  -- was, or the destination holds bytes with the size and the digest of the source's. The source does
  -- not have the copy's temporary name.
  pub commit-keeps_source :
      (same_pool : Bool) (root : Option String) (e : Error)
      → source ≢ cat destination ".tmp"
      → (commit_staging_to_accepted os source destination same_pool root w).0 ≡ err e
      → IsSafe (commit_staging_to_accepted os source destination same_pool root w).1
  unfolding commit_staging_to_accepted
  commit-keeps_source same_pool root e ne raised =
      Ends-raised IsSafe _ _ e
        ((Triple-bind (gets (λ v. exists source v.fs)) _ (record { at = λ v p. p })
            (λ there.
              Triple-then (raise_if (not there) (staged_source_missing source)) _
                (raise_if-Triple (not there) _)
                (Triple-then (check_root os destination root) _ (check_root-Triple destination root)
                  (Triple-then (chmod os (parent_of destination)) _
                    (raise_if-Triple (os.chmod_fails (parent_of destination)) _)
                    (Triple-if same_pool _ _
                      (started (commit_rename os source destination) commit_rename-IsSafe)
                      (started (commit_copy os source destination)
                        (λ x. commit_copy-IsSafe x ne))))))).at
          w refl)
        raised
