-- ===== src/Linux/Mount/Sealed.antt =====
-- The mounts that `build_root` of native/src/linux/mount.rs leaves: what they share, and how the
-- host's root goes.
use micro_sandbox.Prelude.{
  ◌≡◌, refl, sym, ◌∙◌, ap, Bool, true, false, ◌&&◌, ◌||◌, Option, none, some, List, [], ◌∷◌, ◌++◌,
  any, String, arith,
}
use mathlib.Core.Path.{ap₂, subst}
use micro_sandbox.Error.{ok, Result, IoError}
use micro_sandbox.Text.Equal.{text_eq_refl}
use micro_sandbox.Path.{path_eq}
use micro_sandbox.Host.{FilePath}
use micro_sandbox.Cgroup.{path_cstring}
use micro_sandbox.Linux.{
  MountFlag, ms_private, ms_nosuid, MountAttr, attr_rdonly, attr_nosuid, Call, mount_at,
  set_attributes, Kernel, Io, ◌>>=◌, ◌>>◌, perform, lift, observe,
}
use micro_sandbox.Linux.Trace.{
  Calls, One, Does, weaken, Does-then, exactly_then, Does-lift, Does-observe, Does-perform,
  is_execute,
}
use micro_sandbox.Linux.Mount.{source_cstring, mount, set_mount_attributes_recursive}

abbrev pub is_nosuid : MountFlag → Bool
is_nosuid ms_nosuid = true
is_nosuid _ = false

abbrev pub is_private : MountFlag → Bool
is_private ms_private = true
is_private _ = false

abbrev pub is_attr_nosuid : MountAttr → Bool
is_attr_nosuid attr_nosuid = true
is_attr_nosuid _ = false

abbrev pub is_attr_rdonly : MountAttr → Bool
is_attr_rdonly attr_rdonly = true
is_attr_rdonly _ = false

-- The next call takes set-user-ID programs out of the mount at this target and of all mounts below
-- it, and the right to write, unless the target may be written.
unfoldable pub closed_by : (FilePath → Bool) → FilePath → List Call → Bool
closed_by writable target (set_attributes other recursive attributes ∷ rest) =
    path_eq target other
    && (recursive
        && any is_attr_nosuid attributes
        && (any is_attr_rdonly attributes || writable target))
closed_by writable target _ = false

-- A mount of host files is closed by the call that follows it; a new file system is mounted without
-- set-user-ID programs; and what is left only makes the tree private.
unfoldable pub sealed : (FilePath → Bool) → List Call → Bool
unfolding closed_by
sealed writable [] = true
sealed writable (mount_at (some source) target none flags options ∷ rest) =
    closed_by writable target rest && sealed writable rest
sealed writable (mount_at (some source) target (some filesystem) flags options ∷ rest) =
    any is_nosuid flags && sealed writable rest
sealed writable (mount_at none target filesystem flags options ∷ rest) =
    any is_private flags && sealed writable rest
sealed writable (_ ∷ rest) = sealed writable rest

closed_by-append :
    (writable : FilePath → Bool) (target : FilePath) (xs ys : List Call)
    → closed_by writable target xs ≡ true
    → closed_by writable target (xs ++ ys) ≡ true
unfolding closed_by
closed_by-append writable target [] ys h = cc
closed_by-append writable target (set_attributes other recursive attributes ∷ xs) ys h = h
closed_by-append writable target (x ∷ xs) ys h = h

sealed-append :
    (writable : FilePath → Bool) (xs ys : List Call)
    → sealed writable xs ≡ true
    → sealed writable ys ≡ true
    → sealed writable (xs ++ ys) ≡ true
unfolding sealed
sealed-append writable [] ys h k = k
sealed-append writable (mount_at (some source) target none flags options ∷ xs) ys h k =
    ground (arith, sealed-append writable xs ys, closed_by-append writable target xs ys)
sealed-append writable (mount_at (some source) target (some filesystem) flags options ∷ xs) ys h k =
    ground (arith, sealed-append writable xs ys)
sealed-append writable (mount_at none target filesystem flags options ∷ xs) ys h k =
    ground (arith, sealed-append writable xs ys)
sealed-append writable (x ∷ xs) ys h k = sealed-append writable xs ys h k

abbrev pub Sealing : (FilePath → Bool) → Calls
Sealing writable before calls = sealed writable calls ≡ true

pub Sealing-then :
    {A B : Type 0} {m : Io A} {next : A → Io B} (writable : FilePath → Bool)
    → Does m (Sealing writable)
    → ((a : A) → Does (next a) (Sealing writable))
    → Does (m >>= next) (Sealing writable)
Sealing-then writable d e = weaken (Does-then d e) λ before calls (front, back, eq, p, q).
    subst (λ l. sealed writable l ≡ true) (sym eq) (sealed-append writable front back p q)

-- A call that mounts nothing.
pub plain_call :
    (k : Kernel) (on_error : IoError → Result (Unit {0})) (call : Call)
    → is_execute call ≡ false
    → ((writable : FilePath → Bool) → sealed writable (call ∷ []) ≡ true)
    → (writable : FilePath → Bool) → Does (perform k on_error call) (Sealing writable)
plain_call k on_error call h p writable =
    weaken (Does-perform k on_error call h)
      λ before calls eq. subst (λ l. sealed writable l ≡ true) (sym eq) (p writable)

pub mount-Does :
    (k : Kernel) (source : Option FilePath) (target : FilePath) (filesystem : Option String)
    (flags : List MountFlag) (options : Option String)
    → Does
        (mount k source target filesystem flags options)
        (One (mount_at source target filesystem flags options))
unfolding mount
mount-Does k source target filesystem flags options =
    exactly_then (Does-lift (source_cstring source)) λ _.
      exactly_then (Does-lift (path_cstring target))
        λ _. Does-perform k _ (mount_at source target filesystem flags options) refl

pub attributes-Does :
    (k : Kernel) (target : FilePath) (attributes : List MountAttr)
    → Does
        (set_mount_attributes_recursive k target attributes)
        (One (set_attributes target true attributes))
unfolding set_mount_attributes_recursive
attributes-Does k target attributes =
    exactly_then (Does-lift (path_cstring target))
      λ _. Does-perform k _ (set_attributes target true attributes) refl

pub path_eq_refl : (path : FilePath) → path_eq path path ≡ true
path_eq_refl [] = refl
path_eq_refl (name ∷ path) = rw (text_eq_refl name, path_eq_refl path) refl

-- A mount, and the call that closes it.
abbrev pub closed_mount : FilePath → FilePath → List MountFlag → List MountAttr → List Call
closed_mount source target flags attributes =
    mount_at (some source) target none flags none ∷ set_attributes target true attributes ∷ []

pub closed_mount-sealed :
    (writable : FilePath → Bool) (source target : FilePath) (flags : List MountFlag)
    (attributes : List MountAttr)
    → any is_attr_nosuid attributes ≡ true
    → (any is_attr_rdonly attributes || writable target) ≡ true
    → sealed writable (closed_mount source target flags attributes) ≡ true
unfolding sealed closed_by
closed_mount-sealed writable source target flags attributes h w =
    rw (path_eq_refl target, h, w) refl

pub bind-Does :
    (k : Kernel) (writable : FilePath → Bool) (source target : FilePath) (flags : List MountFlag)
    (attributes : List MountAttr)
    → any is_attr_nosuid attributes ≡ true
    → (any is_attr_rdonly attributes || writable target) ≡ true
    → Does
        (mount k (some source) target none flags none
          >> set_mount_attributes_recursive k target attributes)
        (Sealing writable)
bind-Does k writable source target flags attributes h w =
    weaken
      (exactly_then (mount-Does k (some source) target none flags none)
        λ _. attributes-Does k target attributes)
      λ before calls eq.
        subst (λ l. sealed writable l ≡ true) (sym eq)
          (closed_mount-sealed writable source target flags attributes h w)

pub bind_then :
    {B : Type 0} {next : Io B} (k : Kernel) (writable : FilePath → Bool) (source target : FilePath)
    (flags : List MountFlag) (attributes : List MountAttr)
    → any is_attr_nosuid attributes ≡ true
    → (any is_attr_rdonly attributes || writable target) ≡ true
    → Does next (Sealing writable)
    → Does
        (mount k (some source) target none flags none
          >> (set_mount_attributes_recursive k target attributes >> next))
        (Sealing writable)
bind_then k writable source target flags attributes h w d =
    weaken
      (Does-then (mount-Does k (some source) target none flags none)
        λ _. Does-then (attributes-Does k target attributes) λ _. d)
      λ before calls (front, back, eq, p, (closing, later, eq', p', q)).
        subst (λ l. sealed writable l ≡ true)
          (sym (eq ∙ ap₂ (λ x y. x ++ y) p (eq' ∙ ap (λ x. x ++ later) p')))
          (sealed-append writable (closed_mount source target flags attributes) later
            (closed_mount-sealed writable source target flags attributes h w) q)

pub nothing-Sealing : (writable : FilePath → Bool) → Does (lift (ok tt)) (Sealing writable)
unfolding sealed
nothing-Sealing writable =
    weaken (Does-lift (ok tt))
      λ before calls eq. subst (λ l. sealed writable l ≡ true) (sym eq) refl

pub look-Sealing :
    {A B : Type 0} {next : A → Io B} (writable : FilePath → Bool) (look : List Call → Result A)
    → ((a : A) → Does (next a) (Sealing writable))
    → Does (observe look >>= next) (Sealing writable)
unfolding sealed
look-Sealing writable look e =
    Sealing-then writable
      (weaken (Does-observe look)
        λ before calls eq. subst (λ l. sealed writable l ≡ true) (sym eq) refl)
      e
