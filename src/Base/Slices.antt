-- ===== src/Base/Slices.antt =====
-- A range of a list, as `&xs[i..i + n]` and `xs[i..i + n].copy_from_slice(ys)` read and write it.
use Prim.Native.Nat.{ℕ, zero, suc, ◌+◌, ◌≤◌}
use mathlib.Core.Path.{◌≡◌, refl, ap}
use mathlib.Core.Logic.{◌⊎◌}
use mathlib.Core.List.{List, [], ◌∷◌, ◌++◌}
use native.Mathlib.Omega.{arith}
use Prim.Native.Nat.add
use aeon_flow.Base.Lists.{length, take, drop, length-take, length-drop}

module _ {ℓ} {A : Type ℓ} where
  abbrev pub slice : List A → ℕ → ℕ → List A
  slice xs i n = take n (drop i xs)

  -- `xs` with `ys` written from place `i` on, for `i + length ys ≤ length xs`.
  unfoldable pub splice : List A → ℕ → List A → List A
  splice xs zero [] = xs
  splice [] i ys = []
  splice (x ∷ xs) zero (y ∷ ys) = y ∷ splice xs zero ys
  splice (x ∷ xs) (suc i) ys = x ∷ splice xs i ys

  pub length-slice : (xs : List A) (i n : ℕ) → i + n ≤ length xs → length (slice xs i n) ≡ n
  length-slice xs i n h = omega (arith, length-take n (drop i xs), length-drop i xs)

  pub length-splice : (xs : List A) (i : ℕ) (ys : List A) → length (splice xs i ys) ≡ length xs
  unfolding splice
  length-splice [] zero [] = refl
  length-splice (x ∷ xs) zero [] = refl
  length-splice [] zero (y ∷ ys) = refl
  length-splice [] (suc i) ys = refl
  length-splice (x ∷ xs) zero (y ∷ ys) = ap suc (length-splice xs zero ys)
  length-splice (x ∷ xs) (suc i) ys = ap suc (length-splice xs i ys)

  pub take-drop-append :
      (xs ys : List A) (i n : ℕ) → i + n ≤ length xs → slice (xs ++ ys) i n ≡ slice xs i n
  take-drop-append xs ys zero zero h = refl
  take-drop-append [] ys zero (suc n) h = absurd (omega arith)
  take-drop-append (x ∷ xs) ys zero (suc n) h =
      ap (λ t. x ∷ t) (take-drop-append xs ys zero n (omega arith))
  take-drop-append [] ys (suc i) n h = absurd (omega arith)
  take-drop-append (x ∷ xs) ys (suc i) n h = take-drop-append xs ys i n (omega arith)

  pub drop-append_past :
      (xs ys : List A) (i j : ℕ) → i ≡ length xs + j → drop i (xs ++ ys) ≡ drop j ys
  drop-append_past [] ys i j h = let e : i ≡ j = omega arith in rw e
  drop-append_past (x ∷ xs) ys zero j h = absurd (omega arith)
  drop-append_past (x ∷ xs) ys (suc i) j h = drop-append_past xs ys i j (omega arith)

  pub splice-append :
      (xs ys zs : List A) (i : ℕ)
      → i + length zs ≤ length xs
      → splice (xs ++ ys) i zs ≡ splice xs i zs ++ ys
  unfolding splice
  splice-append [] [] [] zero h = refl
  splice-append [] (y ∷ ys) [] zero h = refl
  splice-append (x ∷ xs) ys [] zero h = refl
  splice-append [] ys (z ∷ zs) zero h = absurd (omega arith)
  splice-append [] ys zs (suc i) h = absurd (omega arith)
  splice-append (x ∷ xs) ys (z ∷ zs) zero h =
      ap (λ t. z ∷ t) (splice-append xs ys zs zero (omega arith))
  splice-append (x ∷ xs) ys zs (suc i) h = ap (λ t. x ∷ t) (splice-append xs ys zs i (omega arith))

  pub splice-append_past :
      (xs ys zs : List A) (i j : ℕ)
      → i ≡ length xs + j
      → splice (xs ++ ys) i zs ≡ xs ++ splice ys j zs
  unfolding splice
  splice-append_past [] ys zs i j h = let e : i ≡ j = omega arith in rw e
  splice-append_past (x ∷ xs) ys zs zero j h = absurd (omega arith)
  splice-append_past (x ∷ xs) ys zs (suc i) j h =
      ap (λ t. x ∷ t) (splice-append_past xs ys zs i j (omega arith))

  drop-drop : (xs : List A) (i m : ℕ) → drop m (drop i xs) ≡ drop (i + m) xs
  drop-drop xs zero m = rw add.zero
  drop-drop [] (suc i) zero = rw add.suc
  drop-drop [] (suc i) (suc m) = rw add.suc
  drop-drop (x ∷ xs) (suc i) m = rw add.suc (drop-drop xs i m)

  take_split : (xs : List A) (m n : ℕ) → take (m + n) xs ≡ take m xs ++ take n (drop m xs)
  take_split xs zero n = rw add.zero
  take_split [] (suc m) zero = rw add.suc
  take_split [] (suc m) (suc n) = rw add.suc
  take_split (x ∷ xs) (suc m) n = rw add.suc (ap (λ t. x ∷ t) (take_split xs m n))

  -- A long slice is read in two parts, and a long write made in two parts.
  pub slice_split :
      (xs : List A) (i m n : ℕ) → slice xs i (m + n) ≡ slice xs i m ++ slice xs (i + m) n
  slice_split xs i m n = rw (take_split, drop-drop)

  splice_nil : (i : ℕ) (ys : List A) → splice [] i ys ≡ []
  unfolding splice
  splice_nil zero [] = refl
  splice_nil zero (y ∷ ys) = refl
  splice_nil (suc i) ys = refl

  pub splice_split :
      (xs : List A) (i j : ℕ) (ys zs : List A)
      → j ≡ i + length ys
      → splice (splice xs i ys) j zs ≡ splice xs i (ys ++ zs)
  unfolding splice
  splice_split [] i j ys zs e = rw (splice_nil, splice_nil, splice_nil)
  splice_split (x ∷ xs) zero j [] zs e = let e' : j ≡ 0 = omega arith in rw e'
  splice_split (x ∷ xs) zero zero (y ∷ ys) zs e = absurd (omega arith)
  splice_split (x ∷ xs) zero (suc j) (y ∷ ys) zs e =
      ap (λ t. y ∷ t) (splice_split xs zero j ys zs (omega arith))
  splice_split (x ∷ xs) (suc i) zero ys zs e = absurd (omega arith)
  splice_split (x ∷ xs) (suc i) (suc j) ys zs e =
      ap (λ t. x ∷ t) (splice_split xs i j ys zs (omega arith))

  pub slice-splice :
      (xs : List A) (i : ℕ) (ys : List A)
      → i + length ys ≤ length xs
      → slice (splice xs i ys) i (length ys) ≡ ys
  unfolding splice
  slice-splice xs zero [] h = refl
  slice-splice [] zero (y ∷ ys) h = absurd (omega arith)
  slice-splice (x ∷ xs) zero (y ∷ ys) h = ap (λ t. y ∷ t) (slice-splice xs zero ys (omega arith))
  slice-splice [] (suc i) ys h = absurd (omega arith)
  slice-splice (x ∷ xs) (suc i) ys h = slice-splice xs i ys (omega arith)

  -- Writing back what a range held, whatever was written there meanwhile.
  pub splice-slice_back :
      (xs : List A) (i : ℕ) (ys : List A)
      → i + length ys ≤ length xs
      → splice (splice xs i ys) i (slice xs i (length ys)) ≡ xs
  unfolding splice
  splice-slice_back [] zero [] h = refl
  splice-slice_back (x ∷ xs) zero [] h = refl
  splice-slice_back [] zero (y ∷ ys) h = absurd (omega arith)
  splice-slice_back (x ∷ xs) zero (y ∷ ys) h =
      ap (λ t. x ∷ t) (splice-slice_back xs zero ys (omega arith))
  splice-slice_back [] (suc i) ys h = absurd (omega arith)
  splice-slice_back (x ∷ xs) (suc i) ys h =
      ap (λ t. x ∷ t) (splice-slice_back xs i ys (omega arith))

  pub take_all : (xs : List A) (n : ℕ) → length xs ≤ n → take n xs ≡ xs
  take_all [] zero h = refl
  take_all [] (suc n) h = refl
  take_all (x ∷ xs) zero h = absurd (omega arith)
  take_all (x ∷ xs) (suc n) h = ap (λ t. x ∷ t) (take_all xs n (omega arith))

  take-append-drop : (n : ℕ) (xs : List A) → take n xs ++ drop n xs ≡ xs
  take-append-drop zero xs = refl
  take-append-drop (suc n) [] = refl
  take-append-drop (suc n) (x ∷ xs) = ap (λ t. x ∷ t) (take-append-drop n xs)

  pub drop_split : (xs : List A) (i n : ℕ) → slice xs i n ++ drop (i + n) xs ≡ drop i xs
  drop_split xs i n = rw (← drop-drop xs i n) (take-append-drop n (drop i xs))

  pub drop_all : (xs : List A) (n : ℕ) → length xs ≤ n → drop n xs ≡ []
  drop_all [] zero h = refl
  drop_all [] (suc n) h = refl
  drop_all (x ∷ xs) zero h = absurd (omega arith)
  drop_all (x ∷ xs) (suc n) h = drop_all xs n (omega arith)

  pub splice_none : (xs : List A) (i : ℕ) → splice xs i [] ≡ xs
  unfolding splice
  splice_none [] zero = refl
  splice_none (x ∷ xs) zero = refl
  splice_none [] (suc i) = refl
  splice_none (x ∷ xs) (suc i) = ap (λ t. x ∷ t) (splice_none xs i)

  pub slice-splice_apart :
      (xs : List A) (i : ℕ) (ys : List A) (j n : ℕ)
      → (j + n ≤ i) ⊎ (i + length ys ≤ j)
      → slice (splice xs i ys) j n ≡ slice xs j n
  unfolding splice
  slice-splice_apart [] i ys j n h = rw splice_nil
  slice-splice_apart (x ∷ xs) zero [] j n h = refl
  slice-splice_apart (x ∷ xs) zero (y ∷ ys) zero zero h = refl
  slice-splice_apart (x ∷ xs) zero (y ∷ ys) zero (suc n) h = absurd (omega arith)
  slice-splice_apart (x ∷ xs) zero (y ∷ ys) (suc j) n h =
      slice-splice_apart xs zero ys j n (omega arith)
  slice-splice_apart (x ∷ xs) (suc i) ys zero zero h = refl
  slice-splice_apart (x ∷ xs) (suc i) ys zero (suc n) h =
      ap (λ t. x ∷ t) (slice-splice_apart xs i ys zero n (omega arith))
  slice-splice_apart (x ∷ xs) (suc i) ys (suc j) n h = slice-splice_apart xs i ys j n (omega arith)
