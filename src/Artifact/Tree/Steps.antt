-- ===== src/Artifact/Tree/Steps.antt =====
-- Two steps of the walk of `inspect_tree` in native/src/artifact.rs after one another: what has been
-- found and what is still to come, up to the order.
use micro_sandbox.Prelude.{List, [], ◌∷◌, ◌++◌}
use mathlib.Core.List.{Perm, perm_middle, append_assoc}
use mathlib.Core.List.Perm

swap_parts {ℓ} : {A : Type ℓ} (a b c : List A) → Perm (a ++ (b ++ c)) (b ++ (a ++ c))
swap_parts [] b c = Perm.rfl
swap_parts (x ∷ a) b c =
    Perm.trans (Perm.cons x (swap_parts a b c)) (Perm.symm (perm_middle b (a ++ c)))

-- Two steps after one another.
pub listed_then :
    {A : Type 0} (w w1 w2 first second p p1 p2 : List A)
    → Perm (w1 ++ p1) (w ++ (first ++ p))
    → Perm (w2 ++ p2) (w1 ++ (second ++ p1))
    → Perm (w2 ++ p2) (w ++ ((first ++ second) ++ p))
listed_then w w1 w2 first second p p1 p2 h k = rw (append_assoc first second p) (
    Perm.trans k (
      Perm.trans (swap_parts w1 second p1) (
        Perm.trans (Perm.append_left second h) (
          Perm.trans (swap_parts second w (first ++ p))
            (Perm.append_left w (swap_parts second first p))))))
