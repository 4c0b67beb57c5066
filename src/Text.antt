-- ===== src/Text.antt =====
-- The operations of the Rust standard library on strings that the sources use, over code points:
-- whitespace, trimming, splitting, prefixes, UTF-8 lengths, `parse::<u64>` and the decimal print.
pub mod Decimal
pub mod Split
pub mod Utf8
pub mod Equal
use Prim.Native.Char.{code}
use Prim.Native.String
use micro_sandbox.Prelude.{
  ℕ, zero, suc, ◌+◌, ◌-◌, ◌*◌, ◌/◌, ◌%◌, String, Bool, true, false, ◌&&◌, ◌||◌, Option, none, some,
  List, [], ◌∷◌, ◌++◌, leb, ltb, ◌==◌, if◌then◌else◌,
}
use micro_sandbox.Error.{Text}

-- A literal's code points.
abbrev pub codes : String → Text
codes String.[] = []
codes (String.◌∷◌ c s) = code c ∷ codes s

abbrev pub text_eq : Text → Text → Bool
text_eq [] [] = true
text_eq (a ∷ s) (b ∷ t) = a == b && text_eq s t
text_eq _ _ = false

-- `str::len`, in bytes of UTF-8.
abbrev pub utf8_width : ℕ → ℕ
utf8_width c = if ltb c 0x80 then 1 else if ltb c 0x800 then 2 else if ltb c 0x10000 then 3 else 4

abbrev pub str_len : Text → ℕ
str_len [] = 0
str_len (c ∷ t) = utf8_width c + str_len t

-- `char::is_whitespace`: the Unicode property White_Space.
unfoldable pub is_whitespace : ℕ → Bool
is_whitespace c =
    leb 9 c && leb c 13
    || (c == 32
        || (c == 0x85
            || (c == 0xa0
                || (c == 0x1680
                    || (leb 0x2000 c && leb c 0x200a
                        || (c == 0x2028
                            || (c == 0x2029 || (c == 0x202f || (c == 0x205f || c == 0x3000)))))))))

unfoldable pub trim_start : Text → Text
trim_start [] = []
trim_start (c ∷ t) = if is_whitespace c then trim_start t else c ∷ t

-- `trim_end`: a character stays if it is not whitespace or something after it stays.
keep_end : ℕ → Text → Text
keep_end c [] = if is_whitespace c then [] else c ∷ []
keep_end c (d ∷ t) = c ∷ d ∷ t

unfoldable pub trim_end : Text → Text
unfolding keep_end
trim_end [] = []
trim_end (c ∷ t) = keep_end c (trim_end t)

unfoldable pub trim : Text → Text
unfolding trim_start trim_end is_whitespace
trim t = trim_end (trim_start t)

-- Puts a character before the first field.
abbrev pub cons_head : ℕ → List Text → List Text
cons_head c [] = (c ∷ []) ∷ []
cons_head c (w ∷ ws) = (c ∷ w) ∷ ws

-- `split(sep)`: always one field at least.
unfoldable pub split : ℕ → Text → List Text
split sep [] = [] ∷ []
split sep (c ∷ t) = let rest = split sep t in if c == sep then [] ∷ rest else cons_head c rest

-- `split_whitespace`: the non-empty fields between runs of whitespace. `word` is the field that is
-- being read, in reverse.
abbrev emit : Text → List Text → List Text
emit [] rest = rest
emit (c ∷ w) rest = (c ∷ w) ∷ rest

unfoldable pub split_fields : Text → List Text
split_fields [] = [] ∷ []
split_fields (c ∷ t) =
    let rest = split_fields t in if is_whitespace c then [] ∷ rest else cons_head c rest

abbrev pub non_empty : List Text → List Text
non_empty [] = []
non_empty (w ∷ ws) = emit w (non_empty ws)

unfoldable pub split_whitespace : Text → List Text
unfolding split_fields is_whitespace
split_whitespace t = non_empty (split_fields t)

-- `strip_prefix`.
unfoldable pub strip_prefix : Text → Text → Option Text
strip_prefix [] t = some t
strip_prefix (p ∷ ps) [] = none
strip_prefix (p ∷ ps) (c ∷ t) = if p == c then strip_prefix ps t else none

-- `rsplit_once(sep)`: the text before and after the last separator.
abbrev later_split : ℕ → ℕ → Text → Option (Text × Text) → Option (Text × Text)
later_split sep c t none = if c == sep then some ([], t) else none
later_split sep c t (some (before, after)) = some (c ∷ before, after)

unfoldable pub rsplit_once : ℕ → Text → Option (Text × Text)
rsplit_once sep [] = none
rsplit_once sep (c ∷ t) = later_split sep c t (rsplit_once sep t)

abbrev pub is_ascii_digit : ℕ → Bool
is_ascii_digit c = leb 48 c && leb c 57

abbrev pub is_ascii_alphabetic : ℕ → Bool
is_ascii_alphabetic c = leb 65 c && leb c 90 || leb 97 c && leb c 122

abbrev pub is_ascii_alphanumeric : ℕ → Bool
is_ascii_alphanumeric c = is_ascii_digit c || is_ascii_alphabetic c

-- The digits of an unsigned integer of at most `max_value`, after the digits that `acc` stands for.
unfoldable pub parse_digits : ℕ → ℕ → Text → Option ℕ
parse_digits max_value acc [] = some acc
parse_digits max_value acc (c ∷ t) =
    let acc' = acc * 10 + (c - 48) in
    if is_ascii_digit c && leb acc' max_value then parse_digits max_value acc' t else none

-- `parse::<u64>()`, `parse::<u32>()`: one `+` may stand in front, and there is a digit at least.
unfoldable pub parse_unsigned : ℕ → Text → Option ℕ
unfolding parse_digits
parse_unsigned max_value [] = none
parse_unsigned max_value (c ∷ []) = parse_digits max_value 0 (c ∷ [])
parse_unsigned max_value (c ∷ d ∷ t) =
    if c == b'+' then parse_digits max_value 0 (d ∷ t) else parse_digits max_value 0 (c ∷ d ∷ t)

-- `to_string()` of an unsigned integer, before `after`: a digit in each round, on fuel.
unfoldable pub print_digits : ℕ → ℕ → Text → Text
print_digits zero n after = after
print_digits (suc fuel) n after = elim (ltb n 10) [
  | true ↦ (48 + n % 10) ∷ after
  | false ↦ print_digits fuel (n / 10) ((48 + n % 10) ∷ after)
]

unfoldable pub decimal : ℕ → Text
unfolding print_digits
decimal n = print_digits (suc n) n []

-- `lines()`: the fields between line feeds, without an empty last one, each without a carriage
-- return at its end.
abbrev strip_cr : Text → Text
strip_cr [] = []
strip_cr (c ∷ []) = if c == 13 then [] else c ∷ []
strip_cr (c ∷ d ∷ t) = c ∷ strip_cr (d ∷ t)

abbrev line_fields : List Text → List Text
line_fields [] = []
line_fields ([] ∷ []) = []
line_fields (w ∷ []) = w ∷ []
line_fields (w ∷ v ∷ ws) = strip_cr w ∷ line_fields (v ∷ ws)

unfoldable pub lines : Text → List Text
unfolding split
lines t = line_fields (split 10 t)
