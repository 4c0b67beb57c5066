-- ===== src/Artifact/Manifest/Order.antt =====
-- The order of the manifest of `collect_outputs` in native/src/artifact.rs.
use mathlib.Core.List.{Perm}
use mathlib.Core.List.Perm
use micro_sandbox.Prelude.{
  ◌≡◌, refl, Bool, true, false, not, ◌&&◌, List, [], ◌∷◌, inl, inr, Bool-cases, arith,
}
use micro_sandbox.Error.{Text}
use micro_sandbox.Job.Exec.{text_less}
use micro_sandbox.Artifact.Manifest.{ArtifactManifestEntry, insert_entry, sort_entries}

-- No entry has a smaller path than the one before it.
abbrev pub is_ordered : List ArtifactManifestEntry → Bool
is_ordered [] = true
is_ordered (entry ∷ []) = true
is_ordered (entry ∷ next ∷ rest) = not (text_less next.path entry.path) && is_ordered (next ∷ rest)

less_asym : (s t : Text) → text_less s t ≡ true → text_less t s ≡ false
unfolding text_less
less_asym [] [] h = absurd (cc h)
less_asym [] (b ∷ t) h = refl
less_asym (a ∷ s) [] h = absurd (cc h)
less_asym (a ∷ s) (b ∷ t) h = ground (arith, less_asym s t)

insert-perm :
    (entry : ArtifactManifestEntry) (entries : List ArtifactManifestEntry)
    → Perm (insert_entry entry entries) (entry ∷ entries)
unfolding insert_entry
insert-perm entry [] = Perm.rfl
insert-perm entry (other ∷ rest) = elim (Bool-cases (text_less other.path entry.path)) [
  | inl p ↦
      rw p (Perm.trans (Perm.cons other (insert-perm entry rest)) (Perm.swap entry other rest))
  | inr p ↦ rw p Perm.rfl
]

pub sort-perm : (entries : List ArtifactManifestEntry) → Perm (sort_entries entries) entries
unfolding sort_entries
sort-perm [] = Perm.rfl
sort-perm (entry ∷ rest) =
    Perm.trans (insert-perm entry (sort_entries rest)) (Perm.cons entry (sort-perm rest))

insert-ordered :
    (entry : ArtifactManifestEntry) (entries : List ArtifactManifestEntry)
    → is_ordered entries ≡ true
    → is_ordered (insert_entry entry entries) ≡ true
unfolding insert_entry
insert-ordered entry [] h = refl
insert-ordered entry (other ∷ []) h = elim (Bool-cases (text_less other.path entry.path)) [
  | inl p ↦ rw p (rw (less_asym other.path entry.path p) refl)
  | inr p ↦ rw p (rw p refl)
]
insert-ordered entry (other ∷ next ∷ rest) h =
    let tail : is_ordered (next ∷ rest) ≡ true = ground (arith, h) in
    let first : text_less next.path other.path ≡ false = ground (arith, h) in
    let ih = insert-ordered entry (next ∷ rest) tail in
    elim (Bool-cases (text_less other.path entry.path)) [
      | inl p ↦ elim (Bool-cases (text_less next.path entry.path)) [
        | inl q ↦ rw (p, q) (rw first (rw q at ih))
        | inr q ↦ rw (p, q) (rw (less_asym other.path entry.path p, q) tail)
      ]
      | inr p ↦ rw p (rw (p, first) tail)
    ]

pub sort-ordered : (entries : List ArtifactManifestEntry) → is_ordered (sort_entries entries) ≡ true
unfolding sort_entries
sort-ordered [] = refl
sort-ordered (entry ∷ rest) = insert-ordered entry (sort_entries rest) (sort-ordered rest)
