-- ===== src/Artifact/Manifest/Reported.antt =====
-- What the manifest of `collect_outputs` in native/src/artifact.rs reports.
use micro_sandbox.Prelude.{
  ℕ, ◌≡◌, refl, sym, ap, true, false, not, ◌&&◌, ◌||◌, Option, none, some, List, [], ◌∷◌, inl, inr,
  ◌⊎◌, ltb, ◌==◌, Bool-cases, arith,
}
use mathlib.Core.Path.{subst}
use mathlib.Core.List.{Perm}
use micro_sandbox.Error.{
  IoError, SandboxError, Result, ok, err, refuse_if, refuse_if-ok, >>=-eq-ok, ok_injective,
}
use micro_sandbox.Host.{IoResult}
use micro_sandbox.Artifact.{ArtifactLimits}
use micro_sandbox.Artifact.Tree.{Directory, Found}
use micro_sandbox.Artifact.Outputs.{ValidatedOutput}
use micro_sandbox.Artifact.Workspace.{ValidatedWorkspace}
use micro_sandbox.Protocol.{Bytes}
use micro_sandbox.Artifact.Manifest.{
  ArtifactManifestEntry, PinnedMetadata, PinnedFiles, or_security, read_pinned, report,
  collect_output, push, collect_all, collected, collect_outputs,
}
use micro_sandbox.Artifact.Manifest.Order.{is_ordered, sort-perm, sort-ordered}

some_injective : {A : Type 0} {a b : A} → some a ≡ some b → a ≡ b
some_injective h = cc h

module _ (files : PinnedFiles) where
  -- What is known of the pinned file of an output.
  abbrev pub IsPinned : ValidatedOutput → ℕ → PinnedMetadata → Type 0
  IsPinned output file metadata =
      (files.try_clone output.handle ≡ inr file) × (files.metadata file ≡ inr metadata)

  -- An output that is left out: it is empty, and nobody requires it.
  abbrev pub IsSkipped : ValidatedOutput → Type 0
  IsSkipped output =
      (file : ℕ) × (metadata : PinnedMetadata) × IsPinned output file metadata
      × ((metadata.len == 0) ≡ true)
      × (output.required ≡ false)

  -- An entry for an output: the file is still a regular one with a single link, and within the
  -- maximum; its size and the hash of all that was read are those of the entry.
  abbrev pub IsReported : ValidatedOutput → ArtifactManifestEntry → Type 0
  IsReported output entry =
      (file : ℕ) × (metadata : PinnedMetadata) × (read : Bytes) × IsPinned output file metadata
      × (metadata.is_file ≡ true)
      × ((metadata.nlink == 1) ≡ true)
      × (ltb output.max_bytes metadata.len ≡ false)
      × (read_pinned [] (files.reads file) ≡ ok read)
      × (entry ≡ record { path = output.relative; size = metadata.len; sha256 = files.sha256 read })

  -- One entry for each output that is not left out, in their order.
  abbrev pub Reports : List ValidatedOutput → List ArtifactManifestEntry → Type 0
  Reports [] entries = entries ≡ []
  Reports (output ∷ rest) entries =
      (IsSkipped output × Reports rest entries)
      ⊎ ((entry : ArtifactManifestEntry) × (later : List ArtifactManifestEntry) × (entries
            ≡ entry ∷ later)
          × IsReported output entry
          × Reports rest later)

  or_security_ok :
      {A : Type 0} (r : IoResult A) (to_error : IoError → SandboxError) {a : A}
      → or_security r to_error ≡ ok a
      → r ≡ inr a
  or_security_ok (inl e) to_error h = absurd (cc h)
  or_security_ok (inr b) to_error h = ap inr (ok_injective h)

  abbrev Outcome : ValidatedOutput → Option ArtifactManifestEntry → Type 0
  Outcome output none = IsSkipped output
  Outcome output (some entry) = IsReported output entry

  report-Outcome :
      (output : ValidatedOutput) (file : ℕ) (metadata : PinnedMetadata)
      (entry : Option ArtifactManifestEntry)
      → IsPinned output file metadata
      → report files output file metadata ≡ ok entry
      → Outcome output entry
  unfolding report
  report-Outcome output file metadata entry pinned h =
      let (_, checked, h1) =
        >>=-eq-ok
          (refuse_if
            (not metadata.is_file
              || (not (metadata.nlink == 1) || ltb output.max_bytes metadata.len))
            _)
          _ h in
      let (read, all, h2) = >>=-eq-ok (read_pinned [] (files.reads file)) _ h1 in
      let passed = refuse_if-ok _ _ checked in
      subst (Outcome output) (ok_injective h2) (
        file,
        metadata,
        read,
        pinned,
        ground (arith, passed),
        ground (arith, passed),
        ground (arith, passed),
        all,
        refl,
      )

  collect_output-Outcome :
      (output : ValidatedOutput) (entry : Option ArtifactManifestEntry)
      → collect_output files output ≡ ok entry
      → Outcome output entry
  unfolding collect_output
  collect_output-Outcome output entry h =
      let (file, cloned, h1) = >>=-eq-ok (or_security (files.try_clone output.handle) _) _ h in
      let (metadata, stat, h2) = >>=-eq-ok (or_security (files.metadata file) _) _ h1 in
      let pinned : IsPinned output file metadata = (
        or_security_ok (files.try_clone output.handle) _ cloned,
        or_security_ok (files.metadata file) _ stat,
      ) in
      elim (Bool-cases (metadata.len == 0 && not output.required)) [
        | inl p ↦
            subst (Outcome output) (ok_injective (rw p at h2))
              (file, metadata, pinned, ground (arith, p), ground (arith, p))
        | inr p ↦ report-Outcome output file metadata entry pinned (rw p at h2)
      ]

  push-Reports :
      (output : ValidatedOutput) (rest : List ValidatedOutput)
      (entry : Option ArtifactManifestEntry) (later : List ArtifactManifestEntry)
      → Outcome output entry
      → Reports rest later
      → Reports (output ∷ rest) (push files entry later)
  push-Reports output rest none later o r = inl (o, r)
  push-Reports output rest (some entry) later o r = inr (entry, later, refl, o, r)

  collect_all-Reports :
      (outputs : List ValidatedOutput) (entries : List ArtifactManifestEntry)
      → collect_all files outputs ≡ ok entries
      → Reports outputs entries
  unfolding collect_all
  collect_all-Reports [] entries h = sym (ok_injective h)
  collect_all-Reports (output ∷ rest) entries h =
      let (entry, one, h1) = >>=-eq-ok (collect_output files output) _ h in
      let (later, others, h2) = >>=-eq-ok (collect_all files rest) _ h1 in
      subst (Reports (output ∷ rest)) (ok_injective h2) (
        push-Reports output rest entry later (collect_output-Outcome output entry one)
          (collect_all-Reports rest later others))

  -- The manifest, for the entries in the order of the outputs.
  abbrev pub IsManifest : List ValidatedOutput → List ArtifactManifestEntry → Type 0
  IsManifest outputs manifest =
      (entries : List ArtifactManifestEntry) × Reports outputs entries
      × (is_ordered manifest ≡ true)
      × Perm manifest entries

  collected-IsManifest :
      (workspace : ValidatedWorkspace) (manifest : List ArtifactManifestEntry)
      (found : Option (Result Found))
      → collected files workspace found ≡ some (ok manifest)
      → IsManifest workspace.outputs manifest
  collected-IsManifest workspace manifest none h = absurd (cc h)
  collected-IsManifest workspace manifest (some (err e)) h = absurd (cc h)
  collected-IsManifest workspace manifest (some (ok _)) h =
      let (entries, all, h1) =
        >>=-eq-ok (collect_all files workspace.outputs) _ (some_injective h) in
      subst (IsManifest workspace.outputs) (ok_injective h1) (
        entries,
        collect_all-Reports workspace.outputs entries all,
        sort-ordered entries,
        sort-perm entries,
      )

  -- The manifest that is reported holds one entry for each declared output but those that are empty
  -- and not required. An entry stands for the pinned file of its output, which is still a regular
  -- file with one link and within its maximum, and has its size and the hash of all that was read
  -- of it. The manifest is these entries, each unchanged and as often as it was made, in the order of
  -- their paths.
  pub collect_outputs-IsManifest :
      (directory : Directory) (workspace : ValidatedWorkspace) (limits : ArtifactLimits)
      (manifest : List ArtifactManifestEntry)
      → collect_outputs files directory workspace limits ≡ some (ok manifest)
      → IsManifest workspace.outputs manifest
  unfolding collect_outputs
  collect_outputs-IsManifest directory workspace limits manifest h =
      collected-IsManifest workspace manifest _ h
