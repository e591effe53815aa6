-- ===== src/Forth/Effects.antt =====
-- The words that work on the data stack alone (aeon-vm/src/forth.rs), as functions on lists.
use aeon_flow.Base.{
  ℕ, ◌+◌, ◌-◌, ◌*◌, ◌%◌, ◌^◌, ◌<◌, ◌≡◌, refl, inl, inr, Bool, true, false, Bool-cases, List, [],
  ◌∷◌, arith, ltb, leb, ◌==◌, if◌then◌else◌, length, Outcome, ok, err,
}
use aeon_flow.Machine.{VmState, pure, ◌>>◌}
use aeon_flow.Forth.{
  ForthError, Runtime, stack_underflow, stack_overflow, push, binop, compare, Word, w_add, w_sub,
  w_mul, w_eq, w_lt, w_gt, w_dup, w_swap, w_over, w_drop, w_depth, w_emit, w_var, w_set, w_get,
  w_if, w_then, w_do, w_index, w_loop, exec_word,
}
use aeon_flow.Forth.Stack.{
  Holds, capacity, pop-ok, pop-empty, push-ok, push-full, popped_room, holds_room, stack_depth-ok,
}

abbrev pub IsStackWord : Word → Type 0
IsStackWord w_add = Unit
IsStackWord w_sub = Unit
IsStackWord w_mul = Unit
IsStackWord w_eq = Unit
IsStackWord w_lt = Unit
IsStackWord w_gt = Unit
IsStackWord w_dup = Unit
IsStackWord w_swap = Unit
IsStackWord w_over = Unit
IsStackWord w_drop = Unit
IsStackWord w_depth = Unit
IsStackWord _ = ⊥

abbrev pub binary_effect : (ℕ → ℕ → ℕ) → List ℕ → Outcome ForthError (List ℕ)
binary_effect op (b ∷ a ∷ s) = ok (op a b ∷ s)
binary_effect op _ = err stack_underflow

abbrev pub flag : Bool → ℕ
flag b = if b then 1 else 0

-- A stack that needs room for `n` values in all
abbrev pub within_room : ℕ → ℕ → List ℕ → Outcome ForthError (List ℕ)
within_room room n s = if leb n room then ok s else err stack_overflow

-- What each word makes of a stack, its top first, that has room for `room` values.
abbrev pub stack_effect : ℕ → Word → List ℕ → Outcome ForthError (List ℕ)
stack_effect room w_add s = binary_effect (λ a b. (a + b) % 2 ^ 64) s
stack_effect room w_sub s = binary_effect (λ a b. (a + (2 ^ 64 - b)) % 2 ^ 64) s
stack_effect room w_mul s = binary_effect (λ a b. a * b % 2 ^ 64) s
stack_effect room w_eq s = binary_effect (λ a b. flag (a == b)) s
stack_effect room w_lt s = binary_effect (λ a b. flag (ltb a b)) s
stack_effect room w_gt s = binary_effect (λ a b. flag (ltb b a)) s
stack_effect room w_dup (v ∷ s) = within_room room (length s + 2) (v ∷ v ∷ s)
stack_effect room w_swap (b ∷ a ∷ s) = ok (a ∷ b ∷ s)
stack_effect room w_over (b ∷ a ∷ s) = within_room room (length s + 3) (a ∷ b ∷ a ∷ s)
stack_effect room w_drop (v ∷ s) = ok s
stack_effect room w_depth s = within_room room (length s + 1) (length s ∷ s)
stack_effect room _ _ = err stack_underflow

-- The action on the machine does what is said of the stack: the same error, or the value `a` and a
-- machine that has the new stack.
abbrev pub Implements :
    {A : Type 0} → ℕ → A → Outcome ForthError A × VmState → Outcome ForthError (List ℕ) → Type 0
Implements len a (ok b, vm) (ok s) = (b ≡ a) × Holds len vm s
Implements len a (err e, vm) (err e') = e ≡ e'
Implements len a _ _ = ⊥

module _ (len : ℕ) where
  flag_small : (b : Bool) → flag b < 2 ^ 64
  flag_small true = omega arith
  flag_small false = omega arith

  binop-Implements :
      (op : ℕ → ℕ → ℕ) (rt : Runtime) (vm : VmState) (s : List ℕ)
      → ((a b : ℕ) → op a b < 2 ^ 64)
      → Holds len vm s
      → Implements len rt ((binop op >> pure rt) vm) (binary_effect op s)
  unfolding binop
  binop-Implements op rt vm [] small h = rw (pop-empty len vm h) refl
  binop-Implements op rt vm (b ∷ []) small h =
      let (vm₁, e₁, h₁) = pop-ok len vm b [] h in rw (e₁, pop-empty len vm₁ h₁) refl
  binop-Implements op rt vm (b ∷ a ∷ s) small h =
      let (vm₁, e₁, h₁) = pop-ok len vm b (a ∷ s) h in
      let (vm₂, e₂, h₂) = pop-ok len vm₁ a s h₁ in
      let (vm₃, e₃, h₃) =
        push-ok len vm₂ (op a b) s (small a b) (popped_room len vm₁ a s h₁).0 h₂ in
      rw (e₁, e₂, e₃) (refl, h₃)

  compare-Implements :
      (op : ℕ → ℕ → Bool) (rt : Runtime) (vm : VmState) (s : List ℕ)
      → Holds len vm s
      → Implements len rt ((compare op >> pure rt) vm) (binary_effect (λ a b. flag (op a b)) s)
  unfolding compare binop
  compare-Implements op rt vm s h =
      binop-Implements (λ a b. flag (op a b)) rt vm s (λ a b. flag_small (op a b)) h

  push-Implements :
      (v : ℕ) (rt : Runtime) (vm : VmState) (s : List ℕ)
      → v < 2 ^ 64
      → Holds len vm s
      → Implements len rt
          ((push v >> pure rt) vm)
          (within_room (capacity len) (length s + 1) (v ∷ s))
  push-Implements v rt vm s small h = elim (Bool-cases (leb (length s + 1) (capacity len))) [
    | inl t ↦ let (vm₁, e₁, h₁) = push-ok len vm v s small (ground arith) h in rw (t, e₁) (refl, h₁)
    | inr t ↦ rw (t, push-full len vm v s (ground arith) h) refl
  ]

  -- A stack word does on the machine what its effect says, for every state of the stack: the new stack
  -- where the effect is defined, an underflow where an operand is missing, an overflow where there is
  -- no room. The runtime stays as it is, and nothing panics.
  pub exec_word-stack_effect :
      (w : Word) (rt : Runtime) (vm : VmState) (s : List ℕ)
      → IsStackWord w
      → Holds len vm s
      → Implements len rt (exec_word w rt vm) (stack_effect (capacity len) w s)
  unfolding exec_word
  exec_word-stack_effect w_add rt vm s _ h =
      binop-Implements (λ a b. (a + b) % 2 ^ 64) rt vm s (λ a b. omega arith) h
  exec_word-stack_effect w_sub rt vm s _ h =
      binop-Implements (λ a b. (a + (2 ^ 64 - b)) % 2 ^ 64) rt vm s (λ a b. omega arith) h
  exec_word-stack_effect w_mul rt vm s _ h =
      binop-Implements (λ a b. a * b % 2 ^ 64) rt vm s (λ a b. omega arith) h
  exec_word-stack_effect w_eq rt vm s _ h = compare-Implements (λ a b. a == b) rt vm s h
  exec_word-stack_effect w_lt rt vm s _ h = compare-Implements (λ a b. ltb a b) rt vm s h
  exec_word-stack_effect w_gt rt vm s _ h = compare-Implements (λ a b. ltb b a) rt vm s h
  exec_word-stack_effect w_dup rt vm [] _ h = rw (pop-empty len vm h) refl
  exec_word-stack_effect w_dup rt vm (v ∷ s) _ h =
      let (room, small) = popped_room len vm v s h in
      let (vm₁, e₁, h₁) = pop-ok len vm v s h in
      let (vm₂, e₂, h₂) = push-ok len vm₁ v s small room h₁ in
      let z : length s + 2 ≡ length (v ∷ s) + 1 = omega arith in
      rw (e₁, e₂, z) (push-Implements v rt vm₂ (v ∷ s) small h₂)
  exec_word-stack_effect w_swap rt vm [] _ h = rw (pop-empty len vm h) refl
  exec_word-stack_effect w_swap rt vm (b ∷ []) _ h =
      let (vm₁, e₁, h₁) = pop-ok len vm b [] h in rw (e₁, pop-empty len vm₁ h₁) refl
  exec_word-stack_effect w_swap rt vm (b ∷ a ∷ s) _ h =
      let (room, small) = popped_room len vm b (a ∷ s) h in
      let (vm₁, e₁, h₁) = pop-ok len vm b (a ∷ s) h in
      let (room', small') = popped_room len vm₁ a s h₁ in
      let (vm₂, e₂, h₂) = pop-ok len vm₁ a s h₁ in
      let (vm₃, e₃, h₃) = push-ok len vm₂ b s small room' h₂ in
      let (vm₄, e₄, h₄) = push-ok len vm₃ a (b ∷ s) small' room h₃ in rw (e₁, e₂, e₃, e₄) (refl, h₄)
  exec_word-stack_effect w_over rt vm [] _ h = rw (pop-empty len vm h) refl
  exec_word-stack_effect w_over rt vm (b ∷ []) _ h =
      let (vm₁, e₁, h₁) = pop-ok len vm b [] h in rw (e₁, pop-empty len vm₁ h₁) refl
  exec_word-stack_effect w_over rt vm (b ∷ a ∷ s) _ h =
      let (room, small) = popped_room len vm b (a ∷ s) h in
      let (vm₁, e₁, h₁) = pop-ok len vm b (a ∷ s) h in
      let (room', small') = popped_room len vm₁ a s h₁ in
      let (vm₂, e₂, h₂) = pop-ok len vm₁ a s h₁ in
      let (vm₃, e₃, h₃) = push-ok len vm₂ a s small' room' h₂ in
      let (vm₄, e₄, h₄) = push-ok len vm₃ b (a ∷ s) small room h₃ in
      let z : length s + 3 ≡ length (b ∷ a ∷ s) + 1 = omega arith in
      rw (e₁, e₂, e₃, e₄, z) (push-Implements a rt vm₄ (b ∷ a ∷ s) small' h₄)
  exec_word-stack_effect w_drop rt vm [] _ h = rw (pop-empty len vm h) refl
  exec_word-stack_effect w_drop rt vm (v ∷ s) _ h =
      let (vm₁, e₁, h₁) = pop-ok len vm v s h in rw e₁ (refl, h₁)
  exec_word-stack_effect w_depth rt vm s _ h =
      rw (stack_depth-ok len vm s h)
        (push-Implements (length s) rt vm s (omega (arith, holds_room len vm s h)) h)
  exec_word-stack_effect w_emit rt vm s x h = elim x [ ]
  exec_word-stack_effect w_var rt vm s x h = elim x [ ]
  exec_word-stack_effect w_set rt vm s x h = elim x [ ]
  exec_word-stack_effect w_get rt vm s x h = elim x [ ]
  exec_word-stack_effect w_if rt vm s x h = elim x [ ]
  exec_word-stack_effect w_then rt vm s x h = elim x [ ]
  exec_word-stack_effect w_do rt vm s x h = elim x [ ]
  exec_word-stack_effect w_index rt vm s x h = elim x [ ]
  exec_word-stack_effect w_loop rt vm s x h = elim x [ ]
