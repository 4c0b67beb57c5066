-- ===== src/Text/Utf8.antt =====
-- `String::from_utf8_lossy`: each maximal part of an ill-formed sequence becomes U+FFFD.
use micro_sandbox.Prelude.{
  ℕ, ◌+◌, ◌*◌, ◌%◌, Bool, true, false, ◌&&◌, List, [], ◌∷◌, leb, if◌then◌else◌, ◌==◌,
}
use micro_sandbox.Error.{Text}

abbrev between : ℕ → ℕ → ℕ → Bool
between lo hi b = leb lo b && leb b hi

-- The range of the second byte, after a lead byte of three or of four.
abbrev second_ok : ℕ → ℕ → Bool
second_ok lead b =
    if lead == 0xe0
    then between 0xa0 0xbf b
    else if lead == 0xed
    then between 0x80 0x9f b
    else if lead == 0xf0
    then between 0x90 0xbf b
    else if lead == 0xf4
    then between 0x80 0x8f b
    else between 0x80 0xbf b

abbrev replacement : ℕ
replacement = 0xfffd

abbrev join_bits : ℕ → ℕ → ℕ
join_bits acc b = acc * 64 + b % 64

unfoldable pub from_utf8_lossy : List ℕ → Text
from_utf8_lossy [] = []
from_utf8_lossy (a ∷ []) = (if leb a 0x7f then a else replacement) ∷ []
from_utf8_lossy (a ∷ b ∷ []) = elim (leb a 0x7f) [
  | true ↦ a ∷ from_utf8_lossy (b ∷ [])
  | false ↦ elim (between 0xc2 0xdf a && between 0x80 0xbf b) [
    | true ↦ join_bits (a % 32) b ∷ []
    | false ↦ elim (between 0xe0 0xf4 a && second_ok a b) [
      | true ↦ replacement ∷ []
      | false ↦ replacement ∷ from_utf8_lossy (b ∷ [])
    ]
  ]
]
from_utf8_lossy (a ∷ b ∷ c ∷ []) = elim (leb a 0x7f) [
  | true ↦ a ∷ from_utf8_lossy (b ∷ c ∷ [])
  | false ↦ elim (between 0xc2 0xdf a && between 0x80 0xbf b) [
    | true ↦ join_bits (a % 32) b ∷ from_utf8_lossy (c ∷ [])
    | false ↦ elim (between 0xe0 0xf4 a && second_ok a b) [
      | false ↦ replacement ∷ from_utf8_lossy (b ∷ c ∷ [])
      | true ↦ elim (between 0x80 0xbf c) [
        | false ↦ replacement ∷ from_utf8_lossy (c ∷ [])
        | true ↦
            (if between 0xe0 0xef a then join_bits (join_bits (a % 16) b) c else replacement) ∷ []
      ]
    ]
  ]
]
from_utf8_lossy (a ∷ b ∷ c ∷ d ∷ t) = elim (leb a 0x7f) [
  | true ↦ a ∷ from_utf8_lossy (b ∷ c ∷ d ∷ t)
  | false ↦ elim (between 0xc2 0xdf a && between 0x80 0xbf b) [
    | true ↦ join_bits (a % 32) b ∷ from_utf8_lossy (c ∷ d ∷ t)
    | false ↦ elim (between 0xe0 0xf4 a && second_ok a b) [
      | false ↦ replacement ∷ from_utf8_lossy (b ∷ c ∷ d ∷ t)
      | true ↦ elim (between 0x80 0xbf c) [
        | false ↦ replacement ∷ from_utf8_lossy (c ∷ d ∷ t)
        | true ↦ elim (between 0xe0 0xef a) [
          | true ↦ join_bits (join_bits (a % 16) b) c ∷ from_utf8_lossy (d ∷ t)
          | false ↦ elim (between 0x80 0xbf d) [
            | true ↦ join_bits (join_bits (join_bits (a % 8) b) c) d ∷ from_utf8_lossy t
            | false ↦ replacement ∷ from_utf8_lossy (d ∷ t)
          ]
        ]
      ]
    ]
  ]
]
