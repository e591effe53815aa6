-- ===== src/Base/ByteStrings.antt =====
-- Byte strings: Rust's `Vec<u8>`, `[u8; N]`, and `String` as its UTF-8 bytes. The equality test is
-- the derived `==`, and `is_utf8` is the test of `std::str::from_utf8`.
use Prim.Native.Nat.{ℕ, zero, suc, ◌+◌, ◌*◌, ◌/◌, ◌%◌, ◌<◌}
use Prim.Native.Char.{code}
use Prim.Native.String.{String}
use mathlib.Core.Path.{◌≡◌, refl, ap}
use mathlib.Core.Logic.{◌↔◌, ◌≢◌, inl, inr}
use mathlib.Core.Bool.{Bool, true, false, ◌&&◌, ◌||◌}
use mathlib.Core.List.{List, [], ◌∷◌, ◌++◌}
use native.Mathlib.Omega.{arith}
use aeon_flow.Base.Lists.{length}
use aeon_flow.Base.Tests.{ltb, leb, ◌==◌, if◌then◌else◌, Bool-cases}

abbrev pub Bytes : Type 0
Bytes = List ℕ

-- Every cell is a `u8`.
abbrev pub AreBytes : Bytes → Type 0
AreBytes [] = Unit
AreBytes (b ∷ bs) = (b < 256) × AreBytes bs

unfoldable pub bytes_eq : Bytes → Bytes → Bool
bytes_eq [] [] = true
bytes_eq (a ∷ as') (b ∷ bs) = a == b && bytes_eq as' bs
bytes_eq _ _ = false

-- `Vec::contains`
unfoldable pub contains : Bytes → List Bytes → Bool
contains s [] = false
contains s (t ∷ ts) = bytes_eq t s || contains s ts

pub bytes_eq_refl : (a : Bytes) → bytes_eq a a ≡ true
unfolding bytes_eq
bytes_eq_refl [] = refl
bytes_eq_refl (x ∷ a) = ground (arith, bytes_eq_refl a)

pub eq_of_bytes_eq : (a b : Bytes) → bytes_eq a b ≡ true → a ≡ b
unfolding bytes_eq
eq_of_bytes_eq [] [] h = refl
eq_of_bytes_eq [] (y ∷ b) h = cc
eq_of_bytes_eq (x ∷ a) [] h = cc
eq_of_bytes_eq (x ∷ a) (y ∷ b) h = ground (arith, eq_of_bytes_eq a b)

pub bytes_eq_of_eq : (a b : Bytes) → a ≡ b → bytes_eq a b ≡ true
bytes_eq_of_eq a b e = rw (← e) (bytes_eq_refl a)

pub bytes_eq_iff : (a b : Bytes) → (bytes_eq a b ≡ true) ↔ (a ≡ b)
bytes_eq_iff a b = (eq_of_bytes_eq a b, bytes_eq_of_eq a b)

pub bytes_eq_of_ne : (a b : Bytes) → a ≢ b → bytes_eq a b ≡ false
bytes_eq_of_ne a b h = elim (Bool-cases (bytes_eq a b)) [
  | inl e ↦ absurd (h (eq_of_bytes_eq a b e))
  | inr e ↦ e
]

pub bytes_eq_comm : (a b : Bytes) → bytes_eq a b ≡ bytes_eq b a
unfolding bytes_eq
bytes_eq_comm [] [] = refl
bytes_eq_comm [] (y ∷ b) = refl
bytes_eq_comm (x ∷ a) [] = refl
bytes_eq_comm (x ∷ a) (y ∷ b) = ground (arith, bytes_eq_comm a b)

-- The bytes of an ASCII text.
abbrev pub ascii : String → Bytes
ascii String.[] = []
ascii (String.◌∷◌ c s) = code c ∷ ascii s

abbrev continuation : ℕ → Bool
continuation b = leb 0x80 b && ltb b 0xc0

abbrev between : ℕ → ℕ → ℕ → Bool
between lo hi b = leb lo b && leb b hi

-- The second byte that may follow a leading byte of three or of four bytes.
abbrev second_of_three : ℕ → ℕ → Bool
second_of_three a b =
    if a == 0xe0
    then between 0xa0 0xbf b
    else if a == 0xed
    then between 0x80 0x9f b
    else between 0xe1 0xef a && continuation b

abbrev second_of_four : ℕ → ℕ → Bool
second_of_four a b =
    if a == 0xf0
    then between 0x90 0xbf b
    else if a == 0xf4
    then between 0x80 0x8f b
    else between 0xf1 0xf3 a && continuation b

-- The bytes are a sequence of well-formed UTF-8 code points: first the count of continuation bytes
-- still due, then a restriction on the next of them.
unfoldable pub utf8_rest : ℕ → Bytes → Bool
utf8_rest zero [] = true
utf8_rest (suc n) [] = false
utf8_rest (suc n) (b ∷ bs) = continuation b && utf8_rest n bs
utf8_rest zero (a ∷ []) = ltb a 0x80
utf8_rest zero (a ∷ b ∷ bs) = elim (ltb a 0x80) [
  | true ↦ utf8_rest zero (b ∷ bs)
  | false ↦ elim (between 0xc2 0xdf a) [
    | true ↦ continuation b && utf8_rest zero bs
    | false ↦ elim (second_of_three a b) [
      | true ↦ utf8_rest 1 bs
      | false ↦ second_of_four a b && utf8_rest 2 bs
    ]
  ]
]

unfoldable pub is_utf8 : Bytes → Bool
unfolding utf8_rest
is_utf8 = utf8_rest 0

is_utf8_test :
    is_utf8 (0x61 ∷ 0xc3 ∷ 0xa9 ∷ 0xe2 ∷ 0x82 ∷ 0xac ∷ 0xf0 ∷ 0x9f ∷ 0x98 ∷ 0x80 ∷ []) ≡ true
unfolding is_utf8
is_utf8_test = refl

is_utf8_bad : is_utf8 (0x61 ∷ 0xff ∷ []) ≡ false
unfolding is_utf8
is_utf8_bad = refl

-- `to_le_bytes` and `from_le_bytes`, for `n` bytes
unfoldable pub le_bytes : ℕ → ℕ → Bytes
le_bytes zero v = []
le_bytes (suc n) v = v % 256 ∷ le_bytes n (v / 256)

unfoldable pub le_value : Bytes → ℕ
le_value [] = 0
le_value (b ∷ bs) = b + 256 * le_value bs

-- How many numbers `n` bytes hold.
abbrev pub le_space : ℕ → ℕ
le_space zero = 1
le_space (suc n) = 256 * le_space n

pub le_value-le_bytes : (n v : ℕ) → v < le_space n → le_value (le_bytes n v) ≡ v
unfolding le_value le_bytes
le_value-le_bytes zero v l = omega arith
le_value-le_bytes (suc n) v l = omega (arith, le_value-le_bytes n (v / 256) (omega arith))

pub length-le_bytes : (n v : ℕ) → length (le_bytes n v) ≡ n
unfolding le_bytes
length-le_bytes zero v = refl
length-le_bytes (suc n) v = ap suc (length-le_bytes n (v / 256))

pub contains-append :
    (s : Bytes) (xs ys : List Bytes) → contains s (xs ++ ys) ≡ (contains s xs || contains s ys)
unfolding contains
contains-append s [] ys = refl
contains-append s (x ∷ xs) ys = ground (arith, contains-append s xs ys)
