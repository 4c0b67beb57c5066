-- ===== src/Job/Exec.antt =====
-- What `exec` of native/src/job.rs passes to `execve`.
pub mod Ready
pub mod Environment
use micro_sandbox.Prelude.{
  ℕ, Bool, true, false, Option, none, some, List, [], ◌∷◌, ◌++◌, any, ltb, ◌==◌, if◌then◌else◌,
}
use micro_sandbox.Error.{
  Text, Message, literal, policy_violation, Result, ok, err, refuse_if, ◌>>=◌, ◌>>◌,
}
use micro_sandbox.Text.{codes, text_eq}
use micro_sandbox.Job.{LaunchSpec}
use micro_sandbox.Job.Spec.{has_nul}

-- The order of strings, which is that of their bytes.
unfoldable pub text_less : Text → Text → Bool
text_less [] [] = false
text_less [] (_ ∷ _) = true
text_less (_ ∷ _) [] = false
text_less (a ∷ s) (b ∷ t) = let rest = text_less s t in if a == b then rest else ltb a b

-- A `BTreeMap` of strings, by ascending names.
abbrev pub Variables : Type 0
Variables = List (Text × Text)

-- `insert`, which replaces the value of a name that is there.
unfoldable pub insert : Text → Text → Variables → Variables
unfolding text_less
insert name value [] = (name, value) ∷ []
insert name value ((other, old) ∷ rest) =
    let later = insert name value rest in
    if text_eq other name
    then (name, value) ∷ rest
    else if text_less name other
    then (name, value) ∷ (other, old) ∷ rest
    else (other, old) ∷ later

-- `extend`.
unfoldable pub extend : Variables → Variables → Variables
unfolding insert
extend values [] = values
extend values ((name, value) ∷ rest) = extend (insert name value values) rest

abbrev pub default_variables : Variables
default_variables =
    (codes "HOME", codes "/tmp")
    ∷ (codes "LANG", codes "C.UTF-8")
    ∷ (codes "PATH", codes "/usr/local/sbin:/usr/local/bin:/usr/sbin:/usr/bin:/sbin:/bin")
    ∷ []

-- `CString::new`, with the error that the caller makes of a NUL.
abbrev pub c_string : Message → Text → Result Text
c_string message t = if has_nul t then err (policy_violation message) else ok t

unfoldable pub c_strings : Message → List Text → Result (List Text)
c_strings message [] = ok []
c_strings message (t ∷ rest) = do
  first ← c_string message t
  later ← c_strings message rest
  ok (first ∷ later)

abbrev pub assignments : Variables → List Text
assignments [] = []
assignments ((name, value) ∷ rest) = (name ++ b'=' ∷ value) ∷ assignments rest

-- The arguments, the command first, and the environment of the call.
unfoldable pub exec : LaunchSpec → Result (List Text × List Text)
unfolding c_strings extend
exec spec = do
  command ← c_string (literal "command contains NUL") spec.command
  arguments ← c_strings (literal "command argument contains NUL") spec.args
  environment ←
      c_strings (literal "environment contains NUL")
        (assignments (extend default_variables spec.env))
  ok (command ∷ arguments, environment)
