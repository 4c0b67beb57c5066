-- ===== src/Artifact/Tree/Counts.antt =====
-- What one directory adds in `inspect_tree` of native/src/artifact.rs.
use mathlib.Core.Path.{subst}
use mathlib.Core.List.{Perm, append_assoc}
use mathlib.Core.List.Perm
use micro_sandbox.Prelude.{
  ℕ, ◌+◌, ◌≤◌, ◌≡◌, refl, Bool, true, false, ◌&&◌, List, [], ◌∷◌, ◌++◌, length, leb, ltb, ◌==◌, All,
  inl, inr, length-append, arith, Bool-cases,
}
use micro_sandbox.Prelude.Words.{saturating_mul_u64, saturating_add_u64}
use micro_sandbox.Error.{ok, >>=-eq-ok, ok_injective}
use micro_sandbox.Host.{FilePath}
use micro_sandbox.Artifact.{max_artifact_depth}
use micro_sandbox.Artifact.Tree.{
  Metadata, Node, Directory, Entries, unreadable, symlink, directory, other, closed, listing,
  finished, failed, entry, Inspection, Found, Pending, add_file, add_node, add_entry, scan,
  scan_directory, directories, directories_of, directories_of_node, count_file, exceeds,
  max_entries,
}
use micro_sandbox.Artifact.Tree.Steps.{listed_then}
use micro_sandbox.Artifact.Tree.Figures.{
  files_of_node, files_of_directory, files_of, bytes_of_node, bytes_of_directory, bytes_of,
  is_plain_node, is_plain_directory, is_plain, pending_files, pending_bytes, pending_directories,
  pending_plain, pending_listed, listed_in_node, listed_in_directory, listed_in, sizes,
}

-- The bounds that the caller sets.
pub record IsWithin (l : Inspection) (w : Found) : Type 0 where
  pub count : length w.files ≤ l.max_files
  pub bytes : w.total ≤ l.max_bytes
  pub each : All (λ f. f.1 ≤ l.max_file_bytes) w.files
  pub summed : w.total ≡ sizes w.files

-- What a step does with a part of the tree that has so many files, bytes and directories, and these
-- files.
pub record Counts (l : Inspection) (files bytes dirs : ℕ) (plain : Bool)
    (here : List (FilePath × ℕ)) (w : Found) (p : Pending) (w' : Found) (p' : Pending)
    : Type 0 where
  count : length w'.files + pending_files p' ≡ length w.files + (files + pending_files p)
  total : w'.total + pending_bytes p' ≡ w.total + (bytes + pending_bytes p)
  left : pending_directories p' ≡ dirs + pending_directories p
  clean : pending_plain p' ≡ true → (plain ≡ true) × (pending_plain p ≡ true)
  listed :
      Perm (w'.files ++ pending_listed l.root p') (w.files ++ (here ++ pending_listed l.root p))
  within : IsWithin l w → IsWithin l w'

sizes-append : (xs ys : List (FilePath × ℕ)) → sizes (xs ++ ys) ≡ sizes xs + sizes ys
sizes-append [] ys = omega arith
sizes-append (x ∷ xs) ys = omega (arith, sizes-append xs ys)

All-append : {A : Type 0} (P : A → Type 0) (xs ys : List A) → All P xs → All P ys → All P (xs ++ ys)
All-append P [] ys h k = k
All-append P (x ∷ xs) ys (h, hs) k = (h, All-append P xs ys hs k)

module _ (l : Inspection) where
  add_file-ok :
      (path : FilePath) (m : Metadata) (w w' : Found)
      → add_file l path m w ≡ ok w'
      → (allocated : ℕ) × ((m.is_file && m.nlink == 1) ≡ true)
        × (exceeds l (count_file l path m w (w.total + m.len) allocated) m.len ≡ false)
        × (count_file l path m w (w.total + m.len) allocated ≡ w')
  unfolding add_file
  add_file-ok path m w w' h =
      (w.allocated + saturating_mul_u64 m.blocks 512, ground arith, ground arith, ground arith)

  exceeds-false :
      (w : Found) (size : ℕ)
      → exceeds l w size ≡ false
      → (length w.files ≤ l.max_files) × (w.total ≤ l.max_bytes) × (size ≤ l.max_file_bytes)
  exceeds-false w size h = (ground arith, ground arith, ground arith)

  count_file-Counts :
      (path : FilePath) (m : Metadata) (w : Found) (p : Pending) (allocated : ℕ)
      → exceeds l (count_file l path m w (w.total + m.len) allocated) m.len ≡ false
      → Counts l 1 m.len 0 true
          ((path ++ l.root, m.len) ∷ [])
          w
          p
          (count_file l path m w (w.total + m.len) allocated)
          p
  count_file-Counts path m w p allocated h =
      let file : List (FilePath × ℕ) = (path ++ l.root, m.len) ∷ [] in
      let (hc, hb, he) =
        exceeds-false (count_file l path m w (w.total + m.len) allocated) m.len h in
      record {
        count = rw (length-append w.files file) (omega arith);
        total = omega arith;
        left = omega arith;
        clean = λ k. (refl, k);
        listed = rw (append_assoc w.files file (pending_listed l.root p)) Perm.rfl;
        within = λ v. record {
          count = hc;
          bytes = hb;
          each = All-append (λ f. f.1 ≤ l.max_file_bytes) w.files file v.each (he, tt);
          summed = rw (sizes-append w.files file) (omega (arith, v.summed));
        };
      }

  add_file-Counts :
      (path : FilePath) (m : Metadata) (w w' : Found) (p : Pending)
      → add_file l path m w ≡ ok w'
      → Counts l 1 m.len 0 (m.is_file && m.nlink == 1) ((path ++ l.root, m.len) ∷ []) w p w' p
  add_file-Counts path m w w' p h =
      let (allocated, regular, within, same) = add_file-ok path m w w' h in
      rw regular (rw same at (count_file-Counts path m w p allocated within))

  IsWithin-entries :
      (w : Found) (entries : ℕ) → IsWithin l w → IsWithin l (record w { entries = entries })
  IsWithin-entries w entries v = record {
    count = v.count;
    bytes = v.bytes;
    each = v.each;
    summed = v.summed;
  }

  nothing-Counts : (w : Found) (p : Pending) → Counts l 0 0 0 true [] w p w p
  nothing-Counts w p = record {
    count = omega arith;
    total = omega arith;
    left = omega arith;
    clean = λ k. (refl, k);
    listed = Perm.rfl;
    within = λ v. v;
  }

  push-Counts :
      (path : FilePath) (d : Directory) (w : Found) (p : Pending)
      → leb (length path) max_artifact_depth ≡ true
      → Counts l
          (files_of_directory d)
          (bytes_of_directory d)
          (directories d)
          (leb (length path) max_artifact_depth && is_plain_directory (length path) d)
          (listed_in_directory (path ++ l.root) d)
          w
          p
          w
          ((path, d) ∷ p)
  push-Counts path d w p h = record {
    count = omega arith;
    total = omega arith;
    left = omega arith;
    clean = λ k. ground arith;
    listed = Perm.rfl;
    within = λ v. v;
  }

  add_node-Counts :
      (path : FilePath) (node : Node) (w : Found) (p : Pending) (r : Found × Pending)
      → add_node l path node w p ≡ ok r
      → Counts l
          (files_of_node node)
          (bytes_of_node node)
          (directories_of_node node)
          (is_plain_node (length path) node)
          (listed_in_node (path ++ l.root) node)
          w
          p
          r.0
          r.1
  unfolding add_node
  add_node-Counts path (unreadable e) w p r h = absurd (cc h)
  add_node-Counts path symlink w p r h = absurd (cc h)
  add_node-Counts path (directory d) w p r h =
      elim (Bool-cases (ltb max_artifact_depth (length path))) [
        | inl deep ↦ absurd (cc (rw deep at h))
        | inr fits ↦
            subst
              (λ r.
                Counts l (files_of_directory d) (bytes_of_directory d) (directories d)
                  (leb (length path) max_artifact_depth && is_plain_directory (length path) d)
                  (listed_in_directory (path ++ l.root) d) w p r.0 r.1)
              (ok_injective (rw fits at h)) (push-Counts path d w p (ground arith))
      ]
  add_node-Counts path (other m) w p r h =
      let (w', added, same) = >>=-eq-ok (add_file l path m w) _ h in
      subst
        (λ r.
          Counts l 1 m.len 0 (m.is_file && m.nlink == 1) ((path ++ l.root, m.len) ∷ []) w p r.0 r.1)
        (ok_injective same) (add_file-Counts path m w w' p added)

  add_entry-Counts :
      (path : FilePath) (node : Node) (w : Found) (p : Pending) (r : Found × Pending)
      → add_entry l path node w p ≡ ok r
      → Counts l
          (files_of_node node)
          (bytes_of_node node)
          (directories_of_node node)
          (is_plain_node (length path) node)
          (listed_in_node (path ++ l.root) node)
          w
          p
          r.0
          r.1
  unfolding add_entry
  add_entry-Counts path node w p r h =
      elim (Bool-cases (ltb (max_entries l) (saturating_add_u64 w.entries 1))) [
        | inl many ↦ absurd (cc (rw many at h))
        | inr few ↦
            let w1 : Found = record w { entries = saturating_add_u64 w.entries 1 } in
            let c = add_node-Counts path node w1 p r (rw few at h) in
            record {
              count = c.count;
              total = c.total;
              left = c.left;
              clean = c.clean;
              listed = c.listed;
              within = λ v. c.within (IsWithin-entries w (saturating_add_u64 w.entries 1) v);
            }
      ]

  scan-Counts :
      (path : FilePath) (es : Entries) (w : Found) (p : Pending) (r : Found × Pending)
      → scan l path es w p ≡ ok r
      → Counts l
          (files_of es)
          (bytes_of es)
          (directories_of es)
          (is_plain (length path) es)
          (listed_in (path ++ l.root) es)
          w
          p
          r.0
          r.1
  unfolding scan
  scan-Counts path finished w p r h =
      subst (λ r. Counts l 0 0 0 true [] w p r.0 r.1) (ok_injective h) (nothing-Counts w p)
  scan-Counts path (failed e rest) w p r h = absurd (cc h)
  scan-Counts path (entry name node rest) w p r h =
      let (r1, first, then_) = >>=-eq-ok (add_entry l (name ∷ path) node w p) _ h in
      let c1 = add_entry-Counts (name ∷ path) node w p r1 first in
      let c2 = scan-Counts path rest r1.0 r1.1 r then_ in
      record {
        count = omega (arith, c1.count, c2.count);
        total = omega (arith, c1.total, c2.total);
        left = omega (arith, c1.left, c2.left);
        clean = λ k. let (k2, k1) = c2.clean k in let (n1, p1) = c1.clean k1 in (ground arith, p1);
        listed =
            listed_then w.files r1.0.files r.0.files (listed_in_node (name ∷ path ++ l.root) node)
              (listed_in (path ++ l.root) rest) (pending_listed l.root p)
              (pending_listed l.root r1.1) (pending_listed l.root r.1) c1.listed c2.listed;
        within = λ v. c2.within (c1.within v);
      }

  pub scan_directory-Counts :
      (path : FilePath) (d : Directory) (w : Found) (p : Pending) (r : Found × Pending)
      → scan_directory l path d w p ≡ ok r
      → (pending_directories r.1 + 1 ≡ directories d + pending_directories p)
        × (length r.0.files + pending_files r.1
            ≡ length w.files + (files_of_directory d + pending_files p))
        × (r.0.total + pending_bytes r.1 ≡ w.total + (bytes_of_directory d + pending_bytes p))
        × (pending_plain r.1 ≡ true
            → (is_plain_directory (length path) d && pending_plain p) ≡ true)
        × (IsWithin l w → IsWithin l r.0)
        × Perm
            (r.0.files ++ pending_listed l.root r.1)
            (w.files ++ (listed_in_directory (path ++ l.root) d ++ pending_listed l.root p))
  unfolding scan_directory
  scan_directory-Counts path (closed e) w p r h = absurd (cc h)
  scan_directory-Counts path (listing es) w p r h =
      let c = scan-Counts path es w p r h in
      (
        omega (arith, c.left),
        c.count,
        c.total,
        (λ k. let (a, b) = c.clean k in ground arith),
        c.within,
        c.listed,
      )
