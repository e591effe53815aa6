-- ===== src/Base/Outcomes.antt =====
-- `Result<A, E>` of code that may also panic.
use mathlib.Core.Path.{◌≡◌, refl, subst, sym}
use mathlib.Core.Bool.{Bool, true, false}
use mathlib.Core.Option.{Option, none, some}

pub data Outcome {ℓ} (E : Type ℓ) (A : Type ℓ) : Type ℓ where
  ok : A → Outcome E A
  err : E → Outcome E A
  panic : Outcome E A

infixl 5 ◌>>=◌ ◌>>◌
abbrev pub ◌>>=◌ {ℓ} : {E A B : Type ℓ} → Outcome E A → (A → Outcome E B) → Outcome E B
ok a >>= f = f a
err e >>= f = err e
panic >>= f = panic

abbrev pub ◌>>◌ {ℓ} : {E B : Type ℓ} → Outcome E (Unit {ℓ}) → Outcome E B → Outcome E B
m >> k = m >>= λ _. k

-- `x.ok_or(e)`
abbrev pub ok_or {ℓ} : {E A : Type ℓ} → Option A → E → Outcome E A
ok_or none e = err e
ok_or (some a) e = ok a

-- `xs[i]`: a panic out of range
abbrev pub expect {ℓ} : {E A : Type ℓ} → Option A → Outcome E A
expect none = panic
expect (some a) = ok a

abbrev pub map_err {ℓ} : {E F A : Type ℓ} → (E → F) → Outcome E A → Outcome F A
map_err f (ok a) = ok a
map_err f (err e) = err (f e)
map_err f panic = panic

-- An early `return Err(e)` unless the test holds.
abbrev pub guard {ℓ} : {E : Type ℓ} → Bool → E → Outcome E (Unit {ℓ})
guard true e = ok tt
guard false e = err e

pub bind-eq-ok {ℓ} :
    {E A B : Type ℓ} (m : Outcome E A) (f : A → Outcome E B) {b : B}
    → (m >>= f) ≡ ok b
    → (a : A) × (m ≡ ok a) × (f a ≡ ok b)
bind-eq-ok (ok a) f h = (a, refl, h)
bind-eq-ok (err e) f h = cc
bind-eq-ok panic f h = cc

pub guard-bind {ℓ} :
    {E B : Type ℓ} (b : Bool) (e : E) (m : Outcome E B) {x : B}
    → (guard b e >> m) ≡ ok x
    → (b ≡ true) × (m ≡ ok x)
guard-bind true e m h = (refl, h)
guard-bind false e m h = cc

abbrev pub map_ok {ℓ} : {E A B : Type ℓ} → (A → B) → Outcome E A → Outcome E B
map_ok f (ok a) = ok (f a)
map_ok f (err e) = err e
map_ok f panic = panic

pub ok_or-eq-ok {ℓ} : {E A : Type ℓ} (o : Option A) (e : E) {a : A} → ok_or o e ≡ ok a → o ≡ some a
ok_or-eq-ok none e h = cc
ok_or-eq-ok (some a) e h = cc

pub map_err-eq-ok {ℓ} :
    {E F A : Type ℓ} (f : E → F) (m : Outcome E A) {a : A} → map_err f m ≡ ok a → m ≡ ok a
map_err-eq-ok f (ok b) h = cc
map_err-eq-ok f (err e) h = cc
map_err-eq-ok f panic h = cc

-- The result holds where there is one, and there is no panic.
abbrev pub Ensures {ℓ} : {E A : Type ℓ} → (A → Type 0) → Outcome E A → Type 0
Ensures P (ok a) = P a
Ensures P (err e) = Unit
Ensures P panic = ⊥

module _ {ℓ} {E A B : Type ℓ} (P : A → Type 0) where
  pub Ensures-bind :
      (Q : B → Type 0) (m : Outcome E A) (f : A → Outcome E B)
      → Ensures P m
      → ((a : A) → P a → Ensures Q (f a))
      → Ensures Q (m >>= f)
  Ensures-bind Q (ok a) f h k = k a h
  Ensures-bind Q (err e) f h k = tt
  Ensures-bind Q panic f h k = elim h [ ]

module _ {ℓ} {E A : Type ℓ} (P : A → Type 0) where
  pub Ensures-ok_or : (o : Option A) (e : E) → ((a : A) → o ≡ some a → P a) → Ensures P (ok_or o e)
  Ensures-ok_or none e h = tt
  Ensures-ok_or (some a) e h = h a refl

  pub Ensures-expect :
      (o : Option A) (a : A) (e : Outcome E A) → e ≡ expect o → o ≡ some a → P a → Ensures P e
  Ensures-expect none a e d f h = cc
  Ensures-expect (some b) a e d f h =
      let same : a ≡ b = cc f in subst (Ensures P) (sym d) (subst P same h)

  pub Ensures-guard :
      (b : Bool) (e : E) (m : Outcome E A) → (b ≡ true → Ensures P m) → Ensures P (guard b e >> m)
  Ensures-guard true e m h = h refl
  Ensures-guard false e m h = tt

  pub Ensures-at : (m : Outcome E A) {a : A} → Ensures P m → m ≡ ok a → P a
  Ensures-at (ok b) {a = a} h e = let same : b ≡ a = cc e in subst P same h
  Ensures-at (err _) h e = cc
  Ensures-at panic h e = cc
