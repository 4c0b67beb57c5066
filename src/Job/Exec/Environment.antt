-- ===== src/Job/Exec/Environment.antt =====
-- The environment that `exec` of native/src/job.rs makes.
use micro_sandbox.Prelude.{◌≡◌, false, Option, none, some, [], ◌∷◌, if◌then◌else◌}
use micro_sandbox.Error.{Text}
use micro_sandbox.Text.{codes, text_eq}
use micro_sandbox.Job.Exec.{Variables}

-- The value of a name.
abbrev pub lookup : Text → Variables → Option Text
lookup name [] = none
lookup name ((other, value) ∷ rest) = if text_eq other name then some value else lookup name rest

-- The last of the values that a list gives to a name, and otherwise `default`.
abbrev pub last_value : Text → Variables → Option Text → Option Text
last_value name [] default = default
last_value name ((other, value) ∷ rest) default =
    last_value name rest (if text_eq other name then some value else default)

-- The environment of a call, for what the caller has asked for.
abbrev pub IsEnvironment : Variables → Variables → Type 0
IsEnvironment env values =
    (lookup (codes "HOME") values ≡ last_value (codes "HOME") env (some (codes "/tmp")))
    × (lookup (codes "LANG") values ≡ last_value (codes "LANG") env (some (codes "C.UTF-8")))
    × (lookup (codes "PATH") values
        ≡ last_value (codes "PATH") env
            (some (codes "/usr/local/sbin:/usr/local/bin:/usr/sbin:/usr/bin:/sbin:/bin")))
    × ((name : Text)
        → text_eq (codes "HOME") name ≡ false
        → text_eq (codes "LANG") name ≡ false
        → text_eq (codes "PATH") name ≡ false
        → lookup name values ≡ last_value name env none)
