-- ===== src/Job/Spec/Paths.antt =====
-- Which guest paths native/src/job.rs accepts.
use micro_sandbox.Prelude.{
  ◌≡◌, refl, sym, ◌∙◌, ◌↔◌, true, false, not, ◌||◌, List, [], ◌∷◌, any, Bool-cases, inl, inr,
  String, arith,
}
use micro_sandbox.Error.{Text, ok, refuse_if-ok}
use micro_sandbox.Text.{codes, text_eq, split}
use micro_sandbox.Path.{later_components, is_absolute}
use micro_sandbox.Job.Spec.{is_guest_component, validate_guest_path}

not_dots :
    (name : Text)
    → (text_eq name [] || text_eq name (codes ".")) ≡ true
    → text_eq name (codes "..") ≡ false
not_dots [] h = refl
not_dots (a ∷ []) h = ground arith
not_dots (a ∷ b ∷ t) h = ground arith

later_guest :
    (names : List Text)
    → any (λ c. not (is_guest_component c)) (later_components names)
      ≡ any (λ name. text_eq name (codes "..")) names
later_guest [] = refl
later_guest (name ∷ rest) = elim (Bool-cases (text_eq name [] || text_eq name (codes "."))) [
  | inl p ↦ rw (p, not_dots name p) (later_guest rest)
  | inr p ↦ elim (Bool-cases (text_eq name (codes ".."))) [
    | inl q ↦ rw (p, q) refl
    | inr q ↦ rw (p, q) (later_guest rest)
  ]
]

-- A guest path is accepted exactly if it begins with a slash and none of the names between its
-- slashes is `..`; a `.` and an empty name are let through.
pub validate_guest_path-exact :
    (path : Text) (label : String)
    → (validate_guest_path path label ≡ ok tt) ↔ (
        (is_absolute path ≡ true)
        × (any (λ name. text_eq name (codes "..")) (split b'/' path) ≡ false))
unfolding validate_guest_path
validate_guest_path-exact path label = (
  (λ h.
      let z = refuse_if-ok _ _ h in
      elim (Bool-cases (is_absolute path)) [
        | inl p ↦ (p, sym (later_guest (split b'/' path)) ∙ rw p at z)
        | inr p ↦ absurd (cc (rw p at z))
      ]),
  (λ (p, q). rw (p, later_guest (split b'/' path), q) refl),
)
