-- ===== src/Artifact/Tree/Bounds.antt =====
-- What `inspect_tree` of native/src/artifact.rs accepts.
use mathlib.Core.Path.{subst}
use mathlib.Core.List.{Perm, append-nil}
use mathlib.Core.List.Perm
use micro_sandbox.Prelude.{
  ℕ, zero, suc, ◌+◌, ◌≤◌, ◌≡◌, refl, true, some, [], ◌∷◌, ◌++◌, length, inl, inr, arith,
}
use micro_sandbox.Error.{Result, ok, err, ok_injective, Result-cases}
use micro_sandbox.Artifact.Tree.{
  Directory, closed, listing, Inspection, Found, Pending, scan_directory, walk, directories,
  inspect_tree, nothing_found,
}
use micro_sandbox.Artifact.Tree.Figures.{
  files_of_directory, bytes_of_directory, is_plain_directory, pending_files, pending_bytes,
  pending_directories, pending_plain, pending_listed, listed_in_directory, sizes,
}
use micro_sandbox.Artifact.Tree.Counts.{IsWithin, scan_directory-Counts}

some_injective : {A : Type 0} {a b : A} → some a ≡ some b → a ≡ b
some_injective h = cc

directories-pos : (d : Directory) → 1 ≤ directories d
directories-pos (closed e) = omega arith
directories-pos (listing es) = omega arith

module _ (l : Inspection) where
  -- The result of a whole walk.
  record Inspected (p : Pending) (w w' : Found) : Type 0 where
    count : length w'.files ≡ length w.files + pending_files p
    total : w'.total ≡ w.total + pending_bytes p
    clean : pending_plain p ≡ true
    listed : Perm w'.files (w.files ++ pending_listed l.root p)
    within : IsWithin l w → IsWithin l w'

  walk-Inspected :
      (fuel : ℕ) (p : Pending) (w w' : Found) → walk l fuel p w ≡ some (ok w') → Inspected p w w'
  unfolding walk
  walk-Inspected fuel [] w w' h =
      subst (λ x. Inspected [] w x) (ok_injective (some_injective h))
        (record {
          count = omega arith;
          total = omega arith;
          clean = refl;
          listed = rw (append-nil w.files) Perm.rfl;
          within = λ v. v;
        })
  walk-Inspected zero (_ ∷ _) w w' h = absurd (cc h)
  walk-Inspected (suc fuel) ((path, d) ∷ p) w w' h =
      elim (Result-cases (scan_directory l path d w p)) [
        | inl (e, k) ↦ absurd (cc (rw k at h))
        | inr (r, k) ↦
            let (left, count, total, clean, within, listed) =
              scan_directory-Counts l path d w p r k in
            let i = walk-Inspected fuel r.1 r.0 w' (rw k at h) in
            record {
              count = omega (arith, i.count, count);
              total = omega (arith, i.total, total);
              clean = clean i.clean;
              listed = Perm.trans i.listed listed;
              within = λ v. i.within (within v);
            }
      ]

  walk_enough :
      (fuel : ℕ) (p : Pending) (w : Found)
      → pending_directories p ≤ fuel
      → (r : Result Found) × (walk l fuel p w ≡ some r)
  unfolding walk
  walk_enough fuel [] w h = (ok w, refl)
  walk_enough zero ((path, d) ∷ p) w h = absurd (omega (arith, directories-pos d))
  walk_enough (suc fuel) ((path, d) ∷ p) w h = elim (Result-cases (scan_directory l path d w p)) [
    | inl (e, k) ↦ (err e, rw k refl)
    | inr (r, k) ↦
        let left = (scan_directory-Counts l path d w p r k).0 in
        let (res, e) = walk_enough fuel r.1 r.0 (omega (arith, left)) in (res, rw k e)
  ]

  -- `inspect_tree` always ends: the fuel that it is given, one for each directory, suffices.
  pub inspect_tree_ends : (root : Directory) → (r : Result Found) × (inspect_tree l root ≡ some r)
  unfolding inspect_tree
  inspect_tree_ends root =
      walk_enough (directories root) (([], root) ∷ []) nothing_found (omega arith)

  -- A tree that `inspect_tree` accepts holds nothing but directories, 32 deep at most, and regular
  -- files with one link each. The files found are those of the tree, each under its path with its
  -- size, once and in some order; their sizes add up to the total, and the number of files, the
  -- total and each size are within the caller's bounds.
  pub inspect_tree-plain :
      (root : Directory) (found : Found)
      → inspect_tree l root ≡ some (ok found)
      → (is_plain_directory 0 root ≡ true)
        × Perm found.files (listed_in_directory l.root root)
        × (length found.files ≡ files_of_directory root)
        × (sizes found.files ≡ bytes_of_directory root)
        × IsWithin l found
  unfolding inspect_tree
  inspect_tree-plain root found h =
      let i = walk-Inspected (directories root) (([], root) ∷ []) nothing_found found h in
      let within =
        i.within (record { count = omega arith; bytes = omega arith; each = tt; summed = refl }) in
      (
        ground (arith, i.clean),
        rw (append-nil (listed_in_directory l.root root)) at i.listed,
        omega (arith, i.count),
        omega (arith, i.total, within.summed),
        within,
      )
