-- ===== src/Machine/Fibonacci.antt =====
-- `programs::fibonacci` (aeon-vm/src/program.rs) on the machine.
use aeon_flow.Base.{
  ℕ, zero, suc, ◌+◌, ◌-◌, ◌*◌, ◌%◌, ◌^◌, ◌≤◌, ◌<◌, ◌≡◌, refl, ap, ◌∙◌, sym, true, false, ◌==◌, some,
  List, [], arith, get_elem?, replicate, Bytes, ok,
}
use aeon_flow.Inst.{Program, fibonacci}
use aeon_flow.Machine.{
  VmState, StepResult, reg, set_reg, next_pc, offset_pc, exec_inst, finish_step, step, run_bounded,
  new,
}
use aeon_flow.Machine.Runs.{run_bounded-ok, run_bounded-halted}
use aeon_flow.Machine.Registers.{five, at_pc, new-at_pc, in_bounds}

abbrev pub fib : ℕ → ℕ
fib zero = 0
fib (suc zero) = 1
fib (suc (suc n)) = fib (suc n) + fib n

abbrev pub fibonacci_program : ℕ → Program
fibonacci_program n = record { name = []; instructions = fibonacci n }

zero_test : (k : ℕ) → (suc k == 0) ≡ false
zero_test k = ground arith

abbrev inc : ℕ → ℕ
inc s = (s + 1) % 2 ^ 64

-- The machine in the loop: registers 1 and 2 hold two numbers of the sequence, register 0 the rounds
-- left.
abbrev looping : VmState → List ℕ → ℕ → ℕ → ℕ → ℕ → ℕ → VmState
looping vm rest k a b c s = at_pc vm rest (five k a b c 1) 4 s

module _ (n : ℕ) (vm : VmState) (rest : List ℕ) (k a b c s : ℕ) (fits : suc k < 2 ^ 64) where
  jz_on :
      step (fibonacci_program n) (looping vm rest (suc k) a b c s)
      ≡ (StepResult.ok, at_pc vm rest (five (suc k) a b c 1) 5 (inc s))
  unfolding step exec_inst reg finish_step
  jz_on = rw (zero_test k)

  loop_add :
      step (fibonacci_program n) (at_pc vm rest (five (suc k) a b c 1) 5 s)
      ≡ (StepResult.ok, at_pc vm rest (five (suc k) a b ((a + b) % 2 ^ 64) 1) 6 (inc s))
  unfolding step exec_inst reg set_reg next_pc finish_step
  loop_add = rw (in_bounds 3 rest (five (suc k) a b c 1) (omega arith))

  loop_mov1 :
      step (fibonacci_program n) (at_pc vm rest (five (suc k) a b c 1) 6 s)
      ≡ (StepResult.ok, at_pc vm rest (five (suc k) b b c 1) 7 (inc s))
  unfolding step exec_inst reg set_reg next_pc finish_step
  loop_mov1 = rw (in_bounds 1 rest (five (suc k) a b c 1) (omega arith))

  loop_mov2 :
      step (fibonacci_program n) (at_pc vm rest (five (suc k) a b c 1) 7 s)
      ≡ (StepResult.ok, at_pc vm rest (five (suc k) a c c 1) 8 (inc s))
  unfolding step exec_inst reg set_reg next_pc finish_step
  loop_mov2 = rw (in_bounds 2 rest (five (suc k) a b c 1) (omega arith))

  loop_sub :
      step (fibonacci_program n) (at_pc vm rest (five (suc k) a b c 1) 8 s)
      ≡ (StepResult.ok, at_pc vm rest (five k a b c 1) 9 (inc s))
  unfolding step exec_inst reg set_reg next_pc finish_step
  loop_sub =
      let e : (suc k + (2 ^ 64 - 1)) % 2 ^ 64 ≡ k = omega arith in
      rw (in_bounds 0 rest (five (suc k) a b c 1) (omega arith), e)

  loop_jump :
      step (fibonacci_program n) (at_pc vm rest (five k a b c 1) 9 s)
      ≡ (StepResult.ok, looping vm rest k a b c (inc s))
  unfolding step exec_inst offset_pc finish_step
  loop_jump = refl

-- One round of the loop, in six steps.
loop_round :
    (n : ℕ) (vm : VmState) (rest : List ℕ) (k a b c s f : ℕ)
    → suc k < 2 ^ 64
    → (s' : ℕ) × (run_bounded
          (fibonacci_program n)
          (suc (suc (suc (suc (suc (suc f))))))
          (looping vm rest (suc k) a b c s)
        ≡ run_bounded
            (fibonacci_program n)
            f
            (looping vm rest k b ((a + b) % 2 ^ 64) ((a + b) % 2 ^ 64) s'))
loop_round n vm rest k a b c s f l =
    let p = fibonacci_program n in
    let x = (a + b) % 2 ^ 64 in
    (
      inc (inc (inc (inc (inc (inc s))))),
      run_bounded-ok p _ _ (jz_on n vm rest k a b c s l)
          ∙ run_bounded-ok p _ _ (loop_add n vm rest k a b c (inc s) l)
          ∙ run_bounded-ok p _ _ (loop_mov1 n vm rest k a b x (inc (inc s)) l)
          ∙ run_bounded-ok p _ _ (loop_mov2 n vm rest k b b x (inc (inc (inc s))) l)
          ∙ run_bounded-ok p _ _ (loop_sub n vm rest k b x x (inc (inc (inc (inc s)))) l)
          ∙ run_bounded-ok p _ _ (loop_jump n vm rest k b x x (inc (inc (inc (inc (inc s))))) l),
    )

abbrev pub HaltsWith : Program → ℕ → VmState → ℕ → ℕ → Type 0
HaltsWith p m vm r x =
    (steps : ℕ) × (vm' : VmState) × (run_bounded p m vm ≡ (ok (steps, true), vm'))
    × (get_elem? vm'.regs r ≡ some x)

loop_end :
    (n : ℕ) (vm : VmState) (rest : List ℕ) (a b c s f : ℕ)
    → HaltsWith (fibonacci_program n) (suc (suc f)) (looping vm rest 0 a b c s) 2 b
unfolding step exec_inst reg offset_pc finish_step
loop_end n vm rest a b c s f =
    let p = fibonacci_program n in
    (
      inc s,
      at_pc vm rest (five 0 a b c 1) 10 (inc s),
      run_bounded-ok p (suc f) (looping vm rest 0 a b c s) refl
          ∙ run_bounded-halted p f (at_pc vm rest (five 0 a b c 1) 10 (inc s)) refl,
      refl,
    )

-- Fuel for `k` rounds.
abbrev rounds : ℕ → ℕ → ℕ
rounds zero f = f
rounds (suc k) f = suc (suc (suc (suc (suc (suc (rounds k f))))))

rounds_lem : (k f : ℕ) → rounds k f ≡ 6 * k + f
rounds_lem zero f = omega arith
rounds_lem (suc k) f = omega (arith, rounds_lem k f)

loop-HaltsWith :
    (n : ℕ) (vm : VmState) (rest : List ℕ) (k i a b c s f : ℕ)
    → k < 2 ^ 64
    → a ≡ fib i % 2 ^ 64
    → b ≡ fib (suc i) % 2 ^ 64
    → (j : ℕ) → j ≡ k + suc i
    → HaltsWith
        (fibonacci_program n)
        (rounds k (suc (suc f)))
        (looping vm rest k a b c s)
        2
        (fib j % 2 ^ 64)
loop-HaltsWith n vm rest zero i a b c s f l ea eb j ej =
    let e : j ≡ suc i = omega arith in
    let (steps, vm', r, x) = loop_end n vm rest a b c s f in
    (steps, vm', r, x ∙ ap some (eb ∙ ap (λ t. fib t % 2 ^ 64) (sym e)))
loop-HaltsWith n vm rest (suc k) i a b c s f l ea eb j ej =
    let (s', r) = loop_round n vm rest k a b c s (rounds k (suc (suc f))) l in
    let x = (a + b) % 2 ^ 64 in
    let (steps, vm', r', y) =
      loop-HaltsWith n vm rest k (suc i) b x x s' f (omega arith) eb (omega arith) j
        (omega arith) in
    (steps, vm', r ∙ r', y)

-- The four loads in front of the loop.
module _ (k : ℕ) (vm : VmState) (rest : List ℕ) (a b c d e s : ℕ) where
  load_0 :
      step (fibonacci_program (suc k)) (at_pc vm rest (five a b c d e) 0 s)
      ≡ (StepResult.ok, at_pc vm rest (five k b c d e) 1 (inc s))
  unfolding step exec_inst set_reg next_pc finish_step
  load_0 =
      let p : suc k - 1 ≡ k = omega arith in
      rw (in_bounds 0 rest (five a b c d e) (omega arith), zero_test k, p)

  load_1 :
      step (fibonacci_program (suc k)) (at_pc vm rest (five a b c d e) 1 s)
      ≡ (StepResult.ok, at_pc vm rest (five a 0 c d e) 2 (inc s))
  unfolding step exec_inst set_reg next_pc finish_step
  load_1 = rw (in_bounds 1 rest (five a b c d e) (omega arith))

  load_2 :
      step (fibonacci_program (suc k)) (at_pc vm rest (five a b c d e) 2 s)
      ≡ (StepResult.ok, at_pc vm rest (five a b 1 d e) 3 (inc s))
  unfolding step exec_inst set_reg next_pc finish_step
  load_2 = rw (in_bounds 2 rest (five a b c d e) (omega arith))

  load_4 :
      step (fibonacci_program (suc k)) (at_pc vm rest (five a b c d e) 3 s)
      ≡ (StepResult.ok, at_pc vm rest (five a b c d 1) 4 (inc s))
  unfolding step exec_inst set_reg next_pc finish_step
  load_4 = rw (in_bounds 4 rest (five a b c d e) (omega arith))

start :
    (k : ℕ) (vm : VmState) (rest : List ℕ) (f : ℕ)
    → run_bounded
        (fibonacci_program (suc k))
        (suc (suc (suc (suc f))))
        (at_pc vm rest (five 0 0 0 0 0) 0 0)
      ≡ run_bounded
          (fibonacci_program (suc k))
          f
          (looping vm rest k 0 1 0 (inc (inc (inc (inc 0)))))
start k vm rest f =
    let p = fibonacci_program (suc k) in
    run_bounded-ok p _ _ (load_0 k vm rest 0 0 0 0 0 0)
    ∙ run_bounded-ok p _ _ (load_1 k vm rest k 0 0 0 0 (inc 0))
    ∙ run_bounded-ok p _ _ (load_2 k vm rest k 0 0 0 0 (inc (inc 0)))
    ∙ run_bounded-ok p _ _ (load_4 k vm rest k 0 1 0 0 (inc (inc (inc 0))))

-- For every `n` from 1 below 2 ^ 64, the program of `programs::fibonacci(n)`, started on a new
-- machine with a bound of at least 6 n steps, halts, and register 2 holds the n-th Fibonacci number
-- as a `u64`.
pub fibonacci-computes :
    (id : Bytes) (n m : ℕ)
    → 0 < n
    → n < 2 ^ 64
    → 6 * n ≤ m
    → HaltsWith (fibonacci_program n) m (new id) 2 (fib n % 2 ^ 64)
fibonacci-computes id zero m pos l e = absurd (omega arith)
fibonacci-computes id (suc k) m pos l e =
    let n = suc k in
    let vm = new id in
    let rest : List ℕ = replicate 251 0 in
    let f = m - 6 * n in
    let fuel : m ≡ suc (suc (suc (suc (rounds k (suc (suc f)))))) =
      omega (arith, rounds_lem k (suc (suc f))) in
    let (steps, vm', r, x) =
      loop-HaltsWith n vm rest k 0 0 1 0 (inc (inc (inc (inc 0)))) f (omega arith) (omega arith)
        (omega arith) n (omega arith) in
    let begin = ap (run_bounded (fibonacci_program n) m) (new-at_pc id) in
    let enough =
      ap (λ t. run_bounded (fibonacci_program n) t (at_pc vm rest (five 0 0 0 0 0) 0 0)) fuel in
    (steps, vm', begin ∙ enough ∙ start k vm rest (rounds k (suc (suc f))) ∙ r, x)
