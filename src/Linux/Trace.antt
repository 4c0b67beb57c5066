-- ===== src/Linux/Trace.antt =====
-- Reasoning on the log that an operation of native/src/linux leaves: every run adds calls to it,
-- none of which starts another program, and a run that ends well adds calls as described.
use micro_sandbox.Prelude.{
  ℕ, ◌≡◌, refl, sym, ◌∙◌, ap, Bool, true, false, List, [], ◌∷◌, ◌++◌, any, if◌then◌else◌, arith,
}
use mathlib.Core.List.{append_assoc, append-nil}
use mathlib.Core.Path.{subst, ap₂}
use micro_sandbox.Error.{IoError, Result, ok, err}
use micro_sandbox.Linux.{
  Call, execute, Kernel, Io, follow, ◌>>=◌, perform, lift, observe, answered, write_to, write_byte,
}

abbrev pub is_execute : Call → Bool
is_execute (execute _ _) = true
is_execute _ = false

pub any-append {ℓ} :
    {A : Type ℓ} (p : A → Bool) (xs ys : List A)
    → any p xs ≡ false
    → any p ys ≡ false
    → any p (xs ++ ys) ≡ false
any-append p [] ys h k = k
any-append p (x ∷ xs) ys h k = ground (arith, any-append p xs ys)

-- What is asked of the calls before and the calls of an operation.
abbrev pub Calls : Type 1
Calls = List Call → List Call → Type 0

abbrev pub Ending : {A : Type 0} → (List Call → Type 0) → Result A → List Call → Type 0
Ending P (err _) calls = Unit
Ending P (ok _) calls = P calls

abbrev pub Added : {A : Type 0} → Calls → List Call → Result A × List Call → Type 0
Added P log (r, log') =
    (calls : List Call) × (log' ≡ log ++ calls)
    × (any is_execute calls ≡ false)
    × Ending (P log) r calls

pub record Does {A : Type 0} (m : Io A) (P : Calls) : Type 0 where
  pub runs : (log : List Call) → Added P log (m log)

-- The calls of one operation, and then those of another.
abbrev pub Then : Calls → Calls → Calls
Then P Q before calls =
    (front : List Call) × (back : List Call) × (calls ≡ front ++ back)
    × P before front
    × Q (before ++ front) back

-- Exactly these calls.
abbrev pub Exactly : (List Call → List Call) → Calls
Exactly expected before calls = calls ≡ expected before

abbrev pub One : Call → Calls
One call before calls = calls ≡ call ∷ []

weaken-Added :
    {A : Type 0} (P Q : Calls) (log : List Call) (r : Result A × List Call)
    → ((before calls : List Call) → P before calls → Q before calls)
    → Added P log r
    → Added Q log r
weaken-Added P Q log (err e, log') f (calls, eq, quiet, _) = (calls, eq, quiet, tt)
weaken-Added P Q log (ok a, log') f (calls, eq, quiet, p) = (calls, eq, quiet, f log calls p)

pub weaken :
    {A : Type 0} {P Q : Calls} {m : Io A}
    → Does m P
    → ((before calls : List Call) → P before calls → Q before calls)
    → Does m Q
weaken {P} {Q} {m} d f = record { runs = λ log. weaken-Added P Q log (m log) f (d.runs log) }

Ending-then :
    {B : Type 0} (P Q : Calls) (log front back : List Call) (r : Result B)
    → P log front
    → Ending (Q (log ++ front)) r back
    → Ending (Then P Q log) r (front ++ back)
Ending-then P Q log front back (err e) p q = tt
Ending-then P Q log front back (ok b) p q = (front, back, refl, p, q)

follow-Added :
    {A B : Type 0} (P Q : Calls) (next : A → Io B) (log : List Call) (r : Result A × List Call)
    → Added P log r
    → ((a : A) → Does (next a) Q)
    → Added (Then P Q) log (follow r next)
follow-Added P Q next log (err e, log') (calls, eq, quiet, _) d = (calls, eq, quiet, tt)
follow-Added P Q next log (ok a, log') (front, eq, quiet, p) d =
    let (back, eq', quiet', q) = (d a).runs log' in
    (
      front ++ back,
      eq' ∙ ap (λ l. l ++ back) eq ∙ append_assoc log front back,
      any-append is_execute front back quiet quiet',
      Ending-then P Q log front back (next a log').0 p
          (subst (λ l. Ending (Q l) (next a log').0 back) eq q),
    )

pub Does-then :
    {A B : Type 0} {P Q : Calls} {m : Io A} {next : A → Io B}
    → Does m P
    → ((a : A) → Does (next a) Q)
    → Does (m >>= next) (Then P Q)
Does-then {P} {Q} {m} {next} d e = record {
  runs = λ log. follow-Added P Q next log (m log) (d.runs log) e;
}

Ending-exactly : {A : Type 0} (log : List Call) (r : Result A) → Ending (Exactly (λ _. []) log) r []
Ending-exactly log (err e) = tt
Ending-exactly log (ok a) = refl

pub Does-lift : {A : Type 0} (r : Result A) → Does (lift r) (Exactly λ _. [])
Does-lift r = record { runs = λ log. ([], sym (append-nil log), refl, Ending-exactly log r) }

Added-one :
    {A : Type 0} (call : Call) (log : List Call) (r : Result A)
    → is_execute call ≡ false
    → Added (One call) log (r, log ++ call ∷ [])
Added-one call log (err e) h = (call ∷ [], refl, rw h refl, tt)
Added-one call log (ok a) h = (call ∷ [], refl, rw h refl, refl)

pub Does-perform :
    (k : Kernel) (on_error : IoError → Result (Unit {0})) (call : Call)
    → is_execute call ≡ false
    → Does (perform k on_error call) (One call)
Does-perform k on_error call h = record {
  runs = λ log. Added-one call log (answered on_error (k.answer log call)) h;
}

pub Does-write_byte :
    (k : Kernel) (fd value : ℕ) → Does (write_byte k fd value) (One (write_to fd value))
unfolding write_byte
Does-write_byte k fd value = record { runs = λ log. Added-one (write_to fd value) log _ refl }

pub exactly_then :
    {A B : Type 0} {f g : List Call → List Call} {m : Io A} {next : A → Io B}
    → Does m (Exactly f)
    → ((a : A) → Does (next a) (Exactly g))
    → Does (m >>= next) (Exactly λ before. f before ++ g (before ++ f before))
exactly_then {f} {g} d e = weaken (Does-then d e) λ before calls (front, back, eq, p, q).
    (eq ∙ ap₂ (λ x y. x ++ y) p (q ∙ ap (λ x. g (before ++ x)) p))

-- A run that ends well.
pub run_ok :
    {A : Type 0} {P : Calls} {m : Io A} (d : Does m P) (log log' : List Call) (a : A)
    → m log ≡ (ok a, log')
    → (calls : List Call) × (log' ≡ log ++ calls) × P log calls
run_ok {P} d log log' a h =
    let (calls, eq, _, ending) = d.runs log in
    (
      calls,
      sym (ap (λ r. r.1) h) ∙ eq,
      subst (λ r. Ending (P log) r calls) (ap (λ r. r.0) h) ending,
    )

-- An operation that looks at the moment at which it starts.
pub Does-from :
    {A : Type 0} {P : List Call → Calls} {m : List Call → Io A}
    → ((now : List Call) → Does (m now) (P now))
    → Does (λ log. m log log) (λ before. P before before)
Does-from d = record { runs = λ log. (d log).runs log }

pub Does-observe :
    {A : Type 0} (look : List Call → Result A) → Does (observe look) (Exactly λ _. [])
Does-observe look = record {
  runs = λ log. ([], sym (append-nil log), refl, Ending-exactly log (look log));
}

-- An operation that ends well behind another has run behind a good end of that one.
pub follow-eq-ok :
    {A B : Type 0} (r : Result A × List Call) (next : A → Io B) {b : B} {log' : List Call}
    → follow r next ≡ (ok b, log')
    → (a : A) × (log : List Call) × (r ≡ (ok a, log)) × (next a log ≡ (ok b, log'))
follow-eq-ok (err e, log) next h = absurd (cc (ap (λ r. r.0) h))
follow-eq-ok (ok a, log) next h = (a, log, refl, h)

pub Does-if :
    {A : Type 0} {P : Calls} {m m' : Io A} (b : Bool)
    → Does m P
    → Does m' P
    → Does (if b then m else m') P
Does-if true d e = d
Does-if false d e = e
