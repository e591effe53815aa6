-- ===== src/Base/Texts.antt =====
-- Texts as lists of code points: white space, letters and numbers as the standard library of Rust
-- reads them.
use Prim.Native.Nat.{ℕ, zero, suc, ◌+◌, ◌-◌, ◌*◌, ◌/◌, ◌%◌, ◌≤◌}
use mathlib.Core.Path.{◌≡◌, refl}
use mathlib.Core.Logic.{inl, inr}
use mathlib.Core.Bool.{Bool, true, false, ◌&&◌, ◌||◌}
use mathlib.Core.Option.{Option, none, some}
use mathlib.Core.List.{List, [], ◌∷◌, ◌++◌}
use native.Mathlib.Omega.{arith}
use aeon_flow.Base.Tests.{ltb, leb, ◌==◌, if◌then◌else◌, Bool-cases}

abbrev pub Text : Type 0
Text = List ℕ

abbrev pub within : ℕ → ℕ → ℕ → Bool
within lo hi c = leb lo c && leb c hi

-- `char::is_whitespace`
unfoldable pub is_whitespace : ℕ → Bool
is_whitespace c =
    within 9 13 c
    || c == 32
    || c == 0x85
    || c == 0xa0
    || c == 0x1680
    || within 0x2000 0x200a c
    || c == 0x2028
    || c == 0x2029
    || c == 0x202f
    || c == 0x205f
    || c == 0x3000

-- `to_ascii_lowercase` of one character, and of a text
abbrev pub lower : ℕ → ℕ
lower c = if within b'A' b'Z' c then c + 32 else c

unfoldable pub to_ascii_lowercase : Text → Text
to_ascii_lowercase [] = []
to_ascii_lowercase (c ∷ cs) = lower c ∷ to_ascii_lowercase cs

abbrev pub is_empty {ℓ} : {A : Type ℓ} → List A → Bool
is_empty [] = true
is_empty (_ ∷ _) = false

-- `trim_start_matches` and `trim_end_matches`
unfoldable pub trim_start_by : (ℕ → Bool) → Text → Text
trim_start_by p [] = []
trim_start_by p (c ∷ cs) = let rest = trim_start_by p cs in if p c then rest else c ∷ cs

unfoldable pub trim_end_by : (ℕ → Bool) → Text → Text
trim_end_by p [] = []
trim_end_by p (c ∷ cs) =
    let rest = trim_end_by p cs in if is_empty rest && p c then [] else c ∷ rest

unfoldable pub trim : Text → Text
unfolding trim_start_by trim_end_by is_whitespace
trim s = trim_end_by is_whitespace (trim_start_by is_whitespace s)

-- `split(p)`, without its empty parts: `word` is the part read so far.
unfoldable pub split_onto : (ℕ → Bool) → Text → Text → List Text
split_onto p word [] = if is_empty word then [] else word ∷ []
split_onto p word (c ∷ cs) =
    let next = split_onto p [] cs in
    let longer = split_onto p (word ++ c ∷ []) cs in
    if p c then (if is_empty word then next else word ∷ next) else longer

-- The value of a digit in a radix up to 16, as `char::to_digit`
abbrev pub digit_value : ℕ → ℕ
digit_value c =
    if within b'0' b'9' c
    then c - b'0'
    else if within b'a' b'f' c
    then c - 87
    else if within b'A' b'F' c
    then c - 55
    else 16

unfoldable pub digits_onto : (radix max acc : ℕ) → Text → Option ℕ
digits_onto radix max acc [] = some acc
digits_onto radix max acc (c ∷ cs) =
    let acc' = acc * radix + digit_value c in
    let rest = digits_onto radix max acc' cs in
    if ltb (digit_value c) radix && leb acc' max then rest else none

-- `from_str_radix` of an unsigned type with the largest value `max`
unfoldable pub parse_uint : (radix max : ℕ) → Text → Option ℕ
unfolding digits_onto
parse_uint radix max [] = none
parse_uint radix max (c ∷ []) = if c == b'+' then none else digits_onto radix max 0 (c ∷ [])
parse_uint radix max (c ∷ d ∷ cs) =
    if c == b'+' then digits_onto radix max 0 (d ∷ cs) else digits_onto radix max 0 (c ∷ d ∷ cs)

digits_onto-le :
    (radix max acc : ℕ) (s : Text) {n : ℕ}
    → acc ≤ max
    → digits_onto radix max acc s ≡ some n
    → n ≤ max
unfolding digits_onto
digits_onto-le radix max acc [] l e = ground arith
digits_onto-le radix max acc (c ∷ cs) l e =
    elim (Bool-cases (leb (acc * radix + digit_value c) max)) [
      | inl t ↦ elim (Bool-cases (ltb (digit_value c) radix)) [
        | inl u ↦
            digits_onto-le radix max (acc * radix + digit_value c) cs (ground arith)
              (rw (u, t) at e)
        | inr u ↦ absurd (cc (rw u at e))
      ]
      | inr t ↦ elim (Bool-cases (ltb (digit_value c) radix)) [
        | inl u ↦ absurd (cc (rw (u, t) at e))
        | inr u ↦ absurd (cc (rw u at e))
      ]
    ]

-- A number that is read is at most the largest of its type.
pub parse_uint-le : (radix max : ℕ) (s : Text) {n : ℕ} → parse_uint radix max s ≡ some n → n ≤ max
unfolding parse_uint
parse_uint-le radix max [] e = absurd (cc e)
parse_uint-le radix max (c ∷ []) e = elim (Bool-cases (c == b'+')) [
  | inl t ↦ absurd (cc (rw t at e))
  | inr t ↦ digits_onto-le radix max 0 (c ∷ []) (omega arith) (rw t at e)
]
parse_uint-le radix max (c ∷ d ∷ cs) e = elim (Bool-cases (c == b'+')) [
  | inl t ↦ digits_onto-le radix max 0 (d ∷ cs) (omega arith) (rw t at e)
  | inr t ↦ digits_onto-le radix max 0 (c ∷ d ∷ cs) (omega arith) (rw t at e)
]

-- The code points of a text in UTF-8, and back: `String` keeps the bytes, and `chars` reads them.
abbrev utf8_char : ℕ → List ℕ
utf8_char c =
    if ltb c 0x80
    then (c ∷ [])
    else if ltb c 0x800
    then ((0xc0 + c / 64) ∷ (0x80 + c % 64) ∷ [])
    else if ltb c 0x10000
    then ((0xe0 + c / 4096) ∷ (0x80 + c / 64 % 64) ∷ (0x80 + c % 64) ∷ [])
    else ((0xf0 + c / 262144)
        ∷ (0x80 + c / 4096 % 64)
        ∷ (0x80 + c / 64 % 64)
        ∷ (0x80 + c % 64)
        ∷ [])

unfoldable pub to_utf8 : Text → List ℕ
to_utf8 [] = []
to_utf8 (c ∷ cs) = utf8_char c ++ to_utf8 cs

-- A code point so far and the continuation bytes that it still needs, at the next byte: those after
-- it, and the code point where it is complete.
abbrev utf8_next : (due acc b : ℕ) → (ℕ × ℕ) × Option ℕ
utf8_next zero acc b =
    if ltb b 0x80
    then ((0, 0), some b)
    else if ltb b 0xe0
    then ((1, b - 0xc0), none)
    else if ltb b 0xf0
    then ((2, b - 0xe0), none)
    else ((3, b - 0xf0), none)
utf8_next (suc zero) acc b = ((0, 0), some (acc * 64 + (b - 0x80)))
utf8_next (suc (suc due)) acc b = ((suc due, acc * 64 + (b - 0x80)), none)

-- The characters of bytes that are UTF-8.
unfoldable pub chars_onto : (due acc : ℕ) → List ℕ → Text
chars_onto due acc [] = []
chars_onto due acc (b ∷ bs) =
    let ((due', acc'), char) = utf8_next due acc b in
    let rest = chars_onto due' acc' bs in elim char [ none ↦ rest | some c ↦ c ∷ rest ]

chars_onto_test :
    chars_onto 0 0 (0x61 ∷ 0xc3 ∷ 0xa9 ∷ 0xe2 ∷ 0x82 ∷ 0xac ∷ 0xf0 ∷ 0x9f ∷ 0x98 ∷ 0x80 ∷ [])
    ≡ 0x61 ∷ 0xe9 ∷ 0x20ac ∷ 0x1f600 ∷ []
unfolding chars_onto
chars_onto_test = refl

to_utf8_test :
    to_utf8 (0x61 ∷ 0xe9 ∷ 0x20ac ∷ 0x1f600 ∷ [])
    ≡ 0x61 ∷ 0xc3 ∷ 0xa9 ∷ 0xe2 ∷ 0x82 ∷ 0xac ∷ 0xf0 ∷ 0x9f ∷ 0x98 ∷ 0x80 ∷ []
unfolding to_utf8
to_utf8_test = refl
