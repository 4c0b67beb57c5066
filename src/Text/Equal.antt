-- ===== src/Text/Equal.antt =====
-- Equality of strings, as `==` decides it.
use mathlib.Core.Path.{ap₂}
use micro_sandbox.Prelude.{◌≡◌, refl, sym, ap, ◌∙◌, true, [], ◌∷◌, arith}
use micro_sandbox.Error.{Text}
use micro_sandbox.Text.{text_eq}

pub text_eq_sound : (s t : Text) → text_eq s t ≡ true → s ≡ t
text_eq_sound [] [] h = refl
text_eq_sound [] (b ∷ t) h = absurd (cc h)
text_eq_sound (a ∷ s) [] h = absurd (cc h)
text_eq_sound (a ∷ s) (b ∷ t) h = ap₂ ◌∷◌ (ground arith) (text_eq_sound s t (ground arith))

pub text_eq_refl : (t : Text) → text_eq t t ≡ true
text_eq_refl [] = refl
text_eq_refl (c ∷ t) = ground (arith, text_eq_refl t)

-- Two names that equal a third are equal.
pub text_eq_join : (a b c : Text) → text_eq a c ≡ true → text_eq b c ≡ true → text_eq a b ≡ true
text_eq_join a b c h k =
    ap (text_eq a) (text_eq_sound b c k ∙ sym (text_eq_sound a c h)) ∙ text_eq_refl a
