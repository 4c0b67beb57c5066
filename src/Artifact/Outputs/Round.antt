-- ===== src/Artifact/Outputs/Round.antt =====
-- One round of the loop of `validate_declared_outputs` of native/src/artifact.rs.
use mathlib.Core.Path.{subst, ap₂}
use micro_sandbox.Prelude.{
  ℕ, ◌+◌, ◌≤◌, ◌<◌, ◌≡◌, refl, sym, ap, ◌∙◌, false, ◌||◌, Option, none, some, List, [], ◌∷◌, ◌++◌,
  All, sum_of, ltb, ◌==◌, Bool-cases, inl, inr, arith,
}
use micro_sandbox.Prelude.Words.{checked_add_u64}
use micro_sandbox.Error.{
  Text, SandboxError, literal, policy_violation, ok, ok_or, refuse_if, refuse_if-ok, >>=-eq-ok,
  ok_injective,
}
use micro_sandbox.Text.{text_eq}
use micro_sandbox.Text.Equal.{text_eq_sound, text_eq_refl}
use micro_sandbox.Path.{components, join_components}
use micro_sandbox.Host.{FilePath, from_io}
use micro_sandbox.Artifact.{ArtifactLimits, DeclaredOutput}
use micro_sandbox.Artifact.Outputs.{
  OutputMetadata, OutputFiles, ValidatedOutput, Declared, bad_path, differs, max_of, is_declared,
  unsafe_output, declare,
}

abbrev pub paths : List ValidatedOutput → List Text
paths [] = []
paths (o ∷ rest) = o.relative ∷ paths rest

abbrev pub declared_paths : List DeclaredOutput → List Text
declared_paths [] = []
declared_paths (item ∷ rest) = item.path ∷ declared_paths rest

-- No two outputs have the same path.
abbrev pub Distinct : List ValidatedOutput → Type 0
Distinct [] = Unit {0}
Distinct (o ∷ rest) = (is_declared o.relative rest ≡ false) × Distinct rest

abbrev pub budget : List ValidatedOutput → ℕ
budget outputs = sum_of (λ o. o.max_bytes) outputs

paths-append :
    (xs : List ValidatedOutput) (o : ValidatedOutput)
    → paths (xs ++ o ∷ []) ≡ paths xs ++ o.relative ∷ []
paths-append [] o = refl
paths-append (x ∷ xs) o = ap (◌∷◌ x.relative) (paths-append xs o)

budget-append :
    (xs : List ValidatedOutput) (o : ValidatedOutput)
    → budget (xs ++ o ∷ []) ≡ budget xs + o.max_bytes
budget-append [] o = omega arith
budget-append (x ∷ xs) o = omega (arith, budget-append xs o)

All-snoc :
    {A : Type 0} (P : A → Type 0) (xs : List A) (y : A) → All P xs → P y → All P (xs ++ y ∷ [])
All-snoc P [] y h k = (k, tt)
All-snoc P (x ∷ xs) y (h, hs) k = (h, All-snoc P xs y hs k)

text_eq_flip : (a b : Text) → text_eq a b ≡ false → text_eq b a ≡ false
text_eq_flip a b h = elim (Bool-cases (text_eq b a)) [
  | inl p ↦ absurd (cc (text_eq_sound b a p, text_eq_refl a, h))
  | inr p ↦ p
]

is_declared-append :
    (path : Text) (xs : List ValidatedOutput) (o : ValidatedOutput)
    → is_declared path xs ≡ false
    → text_eq o.relative path ≡ false
    → is_declared path (xs ++ o ∷ []) ≡ false
is_declared-append path [] o h k = ground arith
is_declared-append path (x ∷ xs) o h k = ground (arith, is_declared-append path xs o)

Distinct-snoc :
    (xs : List ValidatedOutput) (o : ValidatedOutput)
    → Distinct xs
    → is_declared o.relative xs ≡ false
    → Distinct (xs ++ o ∷ [])
Distinct-snoc [] o h k = (refl, tt)
Distinct-snoc (x ∷ xs) o (hx, h) k = (
  is_declared-append x.relative xs o hx (text_eq_flip x.relative o.relative (ground arith)),
  Distinct-snoc xs o h (ground arith),
)

added_sum : (a b n : ℕ) (e : SandboxError) → ok_or (checked_add_u64 a b) e ≡ ok n → n ≡ a + b
added_sum a b n e h = ground arith

safe_new :
    (root : FilePath) (metadata : OutputMetadata) (canonical : FilePath) (path : Text)
    (outputs : List ValidatedOutput)
    → unsafe_output root metadata canonical path outputs ≡ false
    → is_declared path outputs ≡ false
safe_new root metadata canonical path outputs h = ground arith

-- The outputs before all have the maximum of the next one.
same_maximum :
    (uniform : Option ℕ) (max_bytes : ℕ) (outputs : List ValidatedOutput)
    → differs uniform max_bytes ≡ false
    → All (λ o. some o.max_bytes ≡ uniform) outputs
    → All (λ o. some o.max_bytes ≡ some max_bytes) outputs
same_maximum uniform max_bytes [] h k = tt
same_maximum none max_bytes (o ∷ rest) h (k, ks) = absurd (cc k)
same_maximum (some expected) max_bytes (o ∷ rest) h (k, ks) =
    (k ∙ ap some (ground arith), same_maximum (some expected) max_bytes rest h ks)

module _ (files : OutputFiles) (root : FilePath) (limits : ArtifactLimits) where
  pub record IsSound (seen : List Text) (d : Declared) : Type 0 where
    pub named : paths d.outputs ≡ seen
    pub total : d.declared_bytes ≡ budget d.outputs
    pub within : d.declared_bytes ≤ limits.output_bytes
    pub each : All (λ o. (0 < o.max_bytes) × (o.max_bytes ≤ limits.output_file_bytes)) d.outputs
    pub uniform : All (λ o. some o.max_bytes ≡ d.uniform_max) d.outputs
    pub distinct : Distinct d.outputs

  fits_bounds :
      (max_bytes bytes : ℕ)
      → (max_bytes == 0
          || (ltb limits.output_file_bytes max_bytes || ltb limits.output_bytes bytes))
        ≡ false
      → (0 < max_bytes) × (max_bytes ≤ limits.output_file_bytes) × (bytes ≤ limits.output_bytes)
  fits_bounds max_bytes bytes h = (ground arith, ground arith, ground arith)

  -- What a round has found out where it goes on.
  abbrev Passed : DeclaredOutput → Declared → Declared → Type 0
  Passed item d d' =
      (o : ValidatedOutput) × (o.relative ≡ item.path)
      × (differs d.uniform_max o.max_bytes ≡ false)
      × (d.declared_bytes + o.max_bytes ≤ limits.output_bytes)
      × ((0 < o.max_bytes) × (o.max_bytes ≤ limits.output_file_bytes))
      × (is_declared item.path d.outputs ≡ false)
      × (record {
        outputs = d.outputs ++ o ∷ [];
        declared_bytes = d.declared_bytes + o.max_bytes;
        uniform_max = some o.max_bytes;
      }
          ≡ d')

  declare-Passed :
      (item : DeclaredOutput) (d d' : Declared)
      → declare files root limits item d ≡ ok d'
      → Passed item d d'
  unfolding declare
  declare-Passed item d d' h =
      let max_bytes = max_of item limits in
      let host = join_components root (components item.path) in
      let (_, _, h1) =
        >>=-eq-ok
          (refuse_if (bad_path item.path)
            (policy_violation (literal "declared artifact output path is invalid")))
          _ h in
      let (_, same, h2) =
        >>=-eq-ok
          (refuse_if (differs d.uniform_max max_bytes)
            (policy_violation (literal "declared outputs must use one uniform hard maximum")))
          _ h1 in
      let (bytes, added, h3) =
        >>=-eq-ok
          (ok_or (checked_add_u64 d.declared_bytes max_bytes)
            (policy_violation (literal "artifact output byte count overflowed")))
          _ h2 in
      let (_, fits, h4) =
        >>=-eq-ok
          (refuse_if
            (max_bytes == 0
              || (ltb limits.output_file_bytes max_bytes || ltb limits.output_bytes bytes))
            (policy_violation (literal "declared outputs exceed their limits")))
          _ h3 in
      let (metadata, _, h5) = >>=-eq-ok (from_io (files.symlink_metadata host)) _ h4 in
      let (canonical, _, h6) = >>=-eq-ok (from_io (files.canonicalize host)) _ h5 in
      let (_, safe, h7) =
        >>=-eq-ok
          (refuse_if (unsafe_output root metadata canonical item.path d.outputs)
            (policy_violation (literal "declared artifact output is unsafe")))
          _ h6 in
      let (handle, _, h8) = >>=-eq-ok (from_io (files.open_read_write host)) _ h7 in
      let sum : bytes ≡ d.declared_bytes + max_bytes =
        added_sum d.declared_bytes max_bytes bytes _ added in
      let (some_bytes, file_fits, all_fit) = fits_bounds max_bytes bytes (refuse_if-ok _ _ fits) in
      (
        record {
          relative = item.path;
          host = canonical;
          handle = handle;
          max_bytes = max_bytes;
          required = item.required;
        },
        refl,
        refuse_if-ok (differs d.uniform_max max_bytes) _ same,
        omega (arith, sum, all_fit),
        (some_bytes, file_fits),
        safe_new root metadata canonical item.path d.outputs (refuse_if-ok _ _ safe),
        ap
              (λ n. record {
                outputs =
                    d.outputs
                    ++ record {
                      relative = item.path;
                      host = canonical;
                      handle = handle;
                      max_bytes = max_bytes;
                      required = item.required;
                    }
                      ∷ [];
                declared_bytes = n;
                uniform_max = some max_bytes;
              })
              (sym sum)
            ∙ ok_injective h8,
      )

  pub declare-IsSound :
      (seen : List Text) (item : DeclaredOutput) (d d' : Declared)
      → IsSound seen d
      → declare files root limits item d ≡ ok d'
      → IsSound (seen ++ item.path ∷ []) d'
  declare-IsSound seen item d d' v h =
      let (o, name, same, fits, each, new, e) = declare-Passed item d d' h in
      subst (IsSound (seen ++ item.path ∷ [])) e (record {
        named = paths-append d.outputs o ∙ ap₂ (λ a b. a ++ b ∷ []) v.named name;
        total = omega (arith, v.total, budget-append d.outputs o);
        within = fits;
        each =
            All-snoc (λ o. (0 < o.max_bytes) × (o.max_bytes ≤ limits.output_file_bytes)) d.outputs o
              v.each each;
        uniform =
            All-snoc (λ p. some p.max_bytes ≡ some o.max_bytes) d.outputs o
              (same_maximum d.uniform_max o.max_bytes d.outputs same v.uniform) refl;
        distinct =
            Distinct-snoc d.outputs o v.distinct (ap (λ n. is_declared n d.outputs) name ∙ new);
      })
