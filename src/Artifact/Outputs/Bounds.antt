-- ===== src/Artifact/Outputs/Bounds.antt =====
-- What `validate_declared_outputs` of native/src/artifact.rs accepts.
use mathlib.Core.Path.{subst, subst₂}
use mathlib.Core.List.{append-nil, append_assoc}
use micro_sandbox.Prelude.{
  ℕ, ◌≤◌, ◌<◌, ◌≡◌, refl, sym, Option, none, some, List, [], ◌∷◌, ◌++◌, All, length, ltb, ◌==◌,
  Bool-cases, inl, inr, arith,
}
use micro_sandbox.Error.{Text, Result, ok, err, >>=-eq-ok, ok_injective, Result-cases}
use micro_sandbox.Host.{FilePath}
use micro_sandbox.Artifact.{ArtifactLimits, DeclaredOutput}
use micro_sandbox.Artifact.Tree.{Found, inspect_tree}
use micro_sandbox.Artifact.Tree.Figures.{files_of_directory, bytes_of_directory}
use micro_sandbox.Artifact.Tree.Bounds.{inspect_tree-plain}
use micro_sandbox.Artifact.Outputs.{
  OutputFiles, ValidatedOutput, Declared, declare, declare_all, empty_tree, nothing_declared,
  validate_declared_outputs, compared,
}
use micro_sandbox.Artifact.Outputs.Round.{
  paths, declared_paths, Distinct, budget, IsSound, declare-IsSound,
}

some_injective : {A : Type 0} {a b : A} → some a ≡ some b → a ≡ b
some_injective h = cc

module _ (files : OutputFiles) (root : FilePath) (limits : ArtifactLimits) where
  declare_all-IsSound :
      (items : List DeclaredOutput) (seen : List Text) (d d' : Declared)
      → IsSound files root limits seen d
      → declare_all files root limits items d ≡ ok d'
      → IsSound files root limits (seen ++ declared_paths items) d'
  unfolding declare_all
  declare_all-IsSound [] seen d d' v h =
      subst₂ (IsSound files root limits) (sym (append-nil seen)) (ok_injective h) v
  declare_all-IsSound (item ∷ rest) seen d d' v h =
      let (d1, first, later) = >>=-eq-ok (declare files root limits item d) _ h in
      subst (λ s. IsSound files root limits s d')
        (append_assoc seen (item.path ∷ []) (declared_paths rest))
        (declare_all-IsSound rest (seen ++ item.path ∷ []) d1 d'
          (declare-IsSound files root limits seen item d d1 v first) later)

  nothing_declared-IsSound : IsSound files root limits [] (nothing_declared files root limits)
  nothing_declared-IsSound = record {
    named = refl;
    total = refl;
    within = omega arith;
    each = tt;
    uniform = tt;
    distinct = tt;
  }

  -- What the last comparison has found out.
  compared-ok :
      (outputs found_outputs : List ValidatedOutput) (r : Option (Result Found))
      → compared files root limits outputs r ≡ some (ok found_outputs)
      → (found : Found) × (r ≡ some (ok found))
        × (length found.files ≡ length outputs)
        × (outputs ≡ found_outputs)
  compared-ok outputs found_outputs none h = absurd (cc h)
  compared-ok outputs found_outputs (some (err e)) h = absurd (cc h)
  compared-ok outputs found_outputs (some (ok found)) h =
      elim (Bool-cases (length found.files == length outputs)) [
        | inl p ↦ (found, refl, ground arith, ok_injective (some_injective (rw p at h)))
        | inr p ↦ absurd (cc (rw p at h))
      ]

  -- The outputs that `validate_declared_outputs` accepts are those that were declared, in their order
  -- and under distinct paths. They have one maximum each, the same for all, that is positive and
  -- within the limit of a file, and together they are within the limit of all outputs. The output
  -- directory holds as many files as were declared, all of them empty.
  pub validate_declared_outputs_sound :
      (declared : List DeclaredOutput) (outputs : List ValidatedOutput)
      → validate_declared_outputs files root limits declared ≡ some (ok outputs)
      → (paths outputs ≡ declared_paths declared)
        × Distinct outputs
        × All (λ o. (0 < o.max_bytes) × (o.max_bytes ≤ limits.output_file_bytes)) outputs
        × ((uniform : Option ℕ) × All (λ o. some o.max_bytes ≡ uniform) outputs)
        × (budget outputs ≤ limits.output_bytes)
        × (files_of_directory (files.directory root) ≡ length outputs)
        × (bytes_of_directory (files.directory root) ≡ 0)
  unfolding validate_declared_outputs
  validate_declared_outputs_sound declared outputs h =
      elim (Bool-cases (ltb limits.output_files (length declared))) [
        | inl many ↦ absurd (cc (rw many at h))
        | inr few ↦
            elim (Result-cases
              (declare_all files root limits declared (nothing_declared files root limits))) [
                | inl (e, p) ↦ absurd (cc (rw (few, p) at h))
                | inr (d, p) ↦
                    let (found, walked, same, e) =
                      compared-ok d.outputs outputs
                        (inspect_tree (empty_tree files root limits) (files.directory root))
                        (rw (few, p) at h) in
                    let (_, listed, count, bytes, within) =
                      inspect_tree-plain (empty_tree files root limits) (files.directory root) found
                        walked in
                    let v =
                      declare_all-IsSound declared [] (nothing_declared files root limits) d
                        nothing_declared-IsSound p in
                    subst
                      (λ o.
                        (paths o ≡ declared_paths declared)
                        × Distinct o
                        × All (λ o. (0 < o.max_bytes) × (o.max_bytes ≤ limits.output_file_bytes)) o
                        × ((uniform : Option ℕ) × All (λ o. some o.max_bytes ≡ uniform) o)
                        × (budget o ≤ limits.output_bytes)
                        × (files_of_directory (files.directory root) ≡ length o)
                        × (bytes_of_directory (files.directory root) ≡ 0))
                      e
                      (
                        v.named,
                        v.distinct,
                        v.each,
                        (d.uniform_max, v.uniform),
                        omega (arith, v.total, v.within),
                        omega (arith, count, same),
                        omega (arith, bytes, within.bytes, within.summed),
                      )
              ]
      ]
