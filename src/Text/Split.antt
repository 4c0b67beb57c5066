-- ===== src/Text/Split.antt =====
-- Fields that hold no separator come back from a split as they went in.
use micro_sandbox.Prelude.{
  ℕ, ◌+◌, ◌≡◌, refl, Bool, true, not, none, some, [], ◌∷◌, ◌++◌, length, all, ltb, ◌==◌, arith,
}
use micro_sandbox.Error.{Text}
use micro_sandbox.Text.{is_ascii_digit, split, strip_prefix, rsplit_once, str_len}

abbrev pub without : ℕ → Text → Bool
without sep t = all (λ c. not (c == sep)) t

pub split-field :
    (sep : ℕ) (field rest : Text)
    → without sep field ≡ true
    → split sep (field ++ sep ∷ rest) ≡ field ∷ split sep rest
unfolding split
split-field sep [] rest h = ground arith
split-field sep (c ∷ t) rest h = ground (arith, split-field sep t rest)

pub split-last : (sep : ℕ) (field : Text) → without sep field ≡ true → split sep field ≡ field ∷ []
unfolding split
split-last sep [] h = refl
split-last sep (c ∷ t) h = ground (arith, split-last sep t)

pub strip_prefix-append : (p t : Text) → strip_prefix p (p ++ t) ≡ some t
unfolding strip_prefix
strip_prefix-append [] t = refl
strip_prefix-append (c ∷ p) t = ground (arith, strip_prefix-append p t)

rsplit_once-none : (sep : ℕ) (t : Text) → without sep t ≡ true → rsplit_once sep t ≡ none
unfolding rsplit_once
rsplit_once-none sep [] h = refl
rsplit_once-none sep (c ∷ t) h = ground (arith, rsplit_once-none sep t)

pub rsplit_once-append :
    (sep : ℕ) (before after : Text)
    → without sep after ≡ true
    → rsplit_once sep (before ++ sep ∷ after) ≡ some (before, after)
unfolding rsplit_once
rsplit_once-append sep [] after h = ground (arith, rsplit_once-none sep after)
rsplit_once-append sep (c ∷ t) after h = ground (arith, rsplit_once-append sep t after)

pub digits-without :
    (sep : ℕ) (t : Text) → ltb sep 48 ≡ true → all is_ascii_digit t ≡ true → without sep t ≡ true
digits-without sep [] h d = refl
digits-without sep (c ∷ t) h d = ground (arith, digits-without sep t)

pub str_len-digits : (t : Text) → all is_ascii_digit t ≡ true → str_len t ≡ length t
str_len-digits [] d = refl
str_len-digits (c ∷ t) d = ground (arith, str_len-digits t)

pub str_len-append : (s t : Text) → str_len (s ++ t) ≡ str_len s + str_len t
str_len-append [] t = omega arith
str_len-append (c ∷ s) t = omega (arith, str_len-append s t)
