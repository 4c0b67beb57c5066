-- ===== src/Job/Exec/Ready.antt =====
-- A specification that the checks of native/src/job.rs accept can be executed.
use micro_sandbox.Prelude.{
  ◌≡◌, refl, Bool, true, false, not, ◌&&◌, ◌||◌, List, [], ◌∷◌, ◌++◌, all, any, length, ltb, ◌==◌,
  Bool-cases, inl, inr, arith,
}
use micro_sandbox.Error.{
  Text, Message, literal, policy_violation, ok, refuse_if, refuse_if-ok, >>=-eq-ok,
}
use micro_sandbox.Text.{is_ascii_alphanumeric}
use micro_sandbox.Config.{validate_transport_bounds, as_policy}
use micro_sandbox.Job.{LaunchSpec}
use micro_sandbox.Job.Spec.{
  has_nul, valid_environment_name, bad_variable, validate_fields, validate_guest_path,
}
use micro_sandbox.Job.Exec.{
  Variables, insert, extend, default_variables, c_strings, assignments, exec,
}

c_strings_ok : (m : Message) (ts : List Text) → any has_nul ts ≡ false → c_strings m ts ≡ ok ts
unfolding c_strings
c_strings_ok m [] h = refl
c_strings_ok m (t ∷ ts) h = elim (Bool-cases (has_nul t)) [
  | inl p ↦ absurd (cc (rw p at h))
  | inr p ↦ rw (p, c_strings_ok m ts (rw p at h)) refl
]

has_nul-append : (s t : Text) → has_nul s ≡ false → has_nul t ≡ false → has_nul (s ++ t) ≡ false
has_nul-append [] t h k = k
has_nul-append (c ∷ s) t h k = ground (arith, has_nul-append s t)

name_bytes :
    (name : Text)
    → all (λ b. is_ascii_alphanumeric b || b == b'_') name ≡ true
    → has_nul name ≡ false
name_bytes [] h = refl
name_bytes (c ∷ name) h = ground (arith, name_bytes name)

name_nul : (name : Text) → valid_environment_name name ≡ true → has_nul name ≡ false
unfolding valid_environment_name
name_nul [] h = refl
name_nul (c ∷ name) h = ground (arith, name_bytes name)

-- A map that `execve` takes.
abbrev nul_free : Variables → Bool
nul_free [] = true
nul_free ((name, value) ∷ rest) = not (has_nul name) && (not (has_nul value) && nul_free rest)

insert-nul_free :
    (name value : Text) (values : Variables)
    → has_nul name ≡ false
    → has_nul value ≡ false
    → nul_free values ≡ true
    → nul_free (insert name value values) ≡ true
unfolding insert
insert-nul_free name value [] h k v = ground arith
insert-nul_free name value ((other, old) ∷ rest) h k v =
    ground (arith, insert-nul_free name value rest h k)

extend-nul_free :
    (values env : Variables)
    → nul_free values ≡ true
    → any bad_variable env ≡ false
    → nul_free (extend values env) ≡ true
unfolding extend
extend-nul_free values [] v h = v
extend-nul_free values ((name, value) ∷ env) v h =
    extend-nul_free (insert name value values) env
      (insert-nul_free name value values (name_nul name (ground arith)) (ground arith) v)
      (ground arith)

assignments-nul_free :
    (values : Variables) → nul_free values ≡ true → any has_nul (assignments values) ≡ false
assignments-nul_free [] h = refl
assignments-nul_free ((name, value) ∷ rest) h = ground (
  arith,
  has_nul-append name (b'=' ∷ value) (ground arith) (ground arith),
  assignments-nul_free rest (ground arith),
)

-- What the checks accept never fails in `exec` before the call itself: no string of the command,
-- the arguments or the environment contains a NUL. The call gets the command and the arguments as
-- they are, and the default variables with the caller's put in.
pub exec-validate_fields :
    (spec : LaunchSpec)
    → validate_fields spec ≡ ok tt
    → exec spec ≡ ok (spec.command ∷ spec.args, assignments (extend default_variables spec.env))
unfolding exec validate_fields
exec-validate_fields spec h =
    let (_, _, h1) =
      >>=-eq-ok
        (refuse_if (spec.limits.timeout_ms == 0)
          (policy_violation (literal "timeout limit must be positive")))
        _ h in
    let (_, _, h2) = >>=-eq-ok (as_policy (validate_transport_bounds spec.limits)) _ h1 in
    let (_, _, h3) = >>=-eq-ok (validate_guest_path spec.command "command") _ h2 in
    let (_, strings, h4) =
      >>=-eq-ok
        (refuse_if (has_nul spec.command || any has_nul spec.args)
          (policy_violation (literal "command and arguments may not contain NUL")))
        _ h3 in
    let (_, _, h5) = >>=-eq-ok (validate_guest_path spec.cwd "working directory") _ h4 in
    let no_nul = refuse_if-ok (has_nul spec.command || any has_nul spec.args) _ strings in
    let variables = refuse_if-ok (ltb 128 (length spec.env) || any bad_variable spec.env) _ h5 in
    let command : has_nul spec.command ≡ false = ground (arith, no_nul) in
    let environment =
      assignments-nul_free (extend default_variables spec.env)
        (extend-nul_free default_variables spec.env refl (ground (arith, variables))) in
    rw
      (
        command,
        c_strings_ok (literal "command argument contains NUL") spec.args (ground (arith, no_nul)),
        c_strings_ok (literal "environment contains NUL") _ environment,
      )
      refl
