-- ===== src/Linux/Completion.antt =====
-- Operations of native/src/linux whose calls are known: they make all of them in order, or some
-- first ones and fail.
use mathlib.Core.List.{append_assoc, append-nil}
use micro_sandbox.Prelude.{ℕ, ◌≡◌, refl, sym, ◌∙◌, ap, ◌⊎◌, inl, inr, List, [], ◌∷◌, ◌++◌}
use micro_sandbox.Error.{IoError, SandboxError, Result, ok, err}
use micro_sandbox.Linux.{Call, write_to, Kernel, Io, follow, ◌>>=◌, perform, write_byte, lift}

-- The calls of an operation, all of them where it ends well, and some first ones where it fails.
abbrev pub Ends : {A : Type 0} → List Call → A → List Call → Result A × List Call → Type 0
Ends calls a log r =
    (r ≡ (ok a, log ++ calls))
    ⊎ ((e : SandboxError) × (done : List Call) × (left : List Call) × (calls ≡ done ++ left)
        × (r ≡ (err e, log ++ done)))

one-Ends :
    (call : Call) (log : List Call) (r : Result (Unit {0}))
    → Ends (call ∷ []) tt log (r, log ++ call ∷ [])
one-Ends call log (err e) = inr (e, call ∷ [], [], refl, refl)
one-Ends call log (ok _) = inl refl

Ends-then :
    {A B : Type 0} (front back : List Call) (a : A) (b : B) (next : A → Io B) (log : List Call)
    (r : Result A × List Call)
    → Ends front a log r
    → ((now : List Call) → Ends back b now (next a now))
    → Ends (front ++ back) b log (follow r next)
Ends-then front back a b next log r (inr (e, done, left, split, eq)) d = inr (
  e,
  done,
  left ++ back,
  ap (λ l. l ++ back) split ∙ append_assoc done left back,
  ap (λ r. follow r next) eq,
)
Ends-then front back a b next log r (inl eq) d = elim (d (log ++ front)) [
  | inl eq' ↦
      inl (ap (λ r. follow r next) eq ∙ eq' ∙ ap (λ l. (ok b, l)) (append_assoc log front back))
  | inr (e, done, left, split, eq') ↦ inr (
    e,
    front ++ done,
    left,
    ap (λ l. front ++ l) split ∙ sym (append_assoc front done left),
    ap (λ r. follow r next) eq ∙ eq' ∙ ap (λ l. (err e, l)) (append_assoc log front done),
  )
]

pub record Completes {A : Type 0} (m : Io A) (calls : List Call) (a : A) : Type 0 where
  pub ends : (log : List Call) → Ends calls a log (m log)

pub Completes-then :
    {A B : Type 0} {front back : List Call} {a : A} {b : B} {m : Io A} {next : A → Io B}
    → Completes m front a
    → ((x : A) → Completes (next x) back b)
    → Completes (m >>= next) (front ++ back) b
Completes-then {front} {back} {a} {b} {m} {next} d e = record {
  ends = λ log. Ends-then front back a b next log (m log) (d.ends log) (e a).ends;
}

pub Completes-perform :
    (k : Kernel) (on_error : IoError → Result (Unit {0})) (call : Call)
    → Completes (perform k on_error call) (call ∷ []) tt
Completes-perform k on_error call = record { ends = λ log. one-Ends call log _ }

pub Completes-write_byte :
    (k : Kernel) (fd value : ℕ) → Completes (write_byte k fd value) (write_to fd value ∷ []) tt
unfolding write_byte
Completes-write_byte k fd value = record { ends = λ log. one-Ends (write_to fd value) log _ }

pub Completes-lift : {A : Type 0} (a : A) → Completes (lift (ok a)) [] a
Completes-lift a = record { ends = λ log. inl (ap (λ l. (ok a, l)) (sym (append-nil log))) }
