-- ===== src/Forth/Safety.antt =====
-- Each step of a Forth program (aeon-vm/src/forth.rs) keeps the invariant of the machine and does not
-- panic, whatever the program, its runtime and the stack pointer.
use aeon_flow.Base.{
  ℕ, ◌+◌, ◌-◌, ◌%◌, ◌^◌, ◌∙◌, inl, inr, Bool, ◌||◌, Bool-cases, Option, none, some, List, [], ◌∷◌,
  arith, ltb, leb, leb→le, lt→ltb, if◌then◌else◌, length, length-set, get_elem?, get_elem?-lt,
  le_bytes, lookup, Text, parse_uint, map_err,
}
use aeon_flow.Heap
use aeon_flow.Heap.{CowHeap}
use aeon_flow.Heap.Flat
use aeon_flow.Heap.Ops.{write-ok, write-err, read-refines}
use aeon_flow.Heap.Ranges.{read-eq-slice, check_range-err}
use aeon_flow.Machine.{raise, lift, gets, modify, ◌>>=◌, ◌>>◌}
use aeon_flow.Machine.Safe.{
  NoPanic, IsSafe, safe_rules, IsSafe-bind, IsSafe-if, IsSafe-ok_or, IsSafe-lift, IsSafe-pure,
  IsSafe-raise, IsSafe-then,
}
use aeon_flow.Machine.Parts.{set_heap-IsValid}
use aeon_flow.Forth.{
  F, stack_overflow, bad_control, heap_fault, Runtime, Dictionary, stack_reg, stack_base,
  stack_limit, stack_ptr, set_stack_ptr, push, pop, stack_depth, binop, compare, next_token,
  skip_from, skip_to, get_var, next_round, Word, w_add, w_sub, w_mul, w_eq, w_lt, w_gt, w_dup,
  w_swap, w_over, w_drop, w_depth, w_emit, w_var, w_set, w_get, w_if, w_then, w_do, w_index, w_loop,
  words, exec_word, exec_other, exec_token, step_once,
}

stack_ptr-IsSafe : IsSafe stack_ptr
unfolding stack_ptr
stack_ptr-IsSafe = record {
  at = λ vm v.
      let (x, e) = get_elem?-lt vm.regs stack_reg (omega (arith, v.regs_256)) in rw e (tt, v);
}

set_stack_ptr-IsSafe : (p : ℕ) → IsSafe (set_stack_ptr p)
unfolding set_stack_ptr
set_stack_ptr-IsSafe p = record {
  at = λ vm v. rw (lt→ltb stack_reg (length vm.regs) (omega (arith, v.regs_256))) (
    tt,
    record {
      regs_256 = length-set vm.regs stack_reg p ∙ v.regs_256;
      heap_ok = v.heap_ok;
      top_within = v.top_within;
      fs_ok = v.fs_ok;
    },
  );
}

-- The accesses to the heap, with the heap that is there.
heap_read-NoPanic :
    (h : CowHeap) (a n : ℕ)
    → Flat.IsValid h
    → NoPanic (map_err (λ e. bad_control (heap_fault e)) (Heap.read h a n))
heap_read-NoPanic h a n v = elim (Bool-cases (leb (a + n) h.len)) [
  | inl t ↦ rw (read-eq-slice h a n v (leb→le _ _ t)) tt
  | inr t ↦ let (x, q) = check_range-err h a n (ground arith) in rw (read-refines h a n v, q) tt
]

push_at-IsSafe :
    (p q v : ℕ)
    → IsSafe (
        gets (λ vm. vm.heap) >>= λ heap.
        if ltb p stack_base || ltb stack_limit q || ltb heap.len q
        then raise stack_overflow
        else (lift (map_err (λ _. stack_overflow) (Heap.write heap p (le_bytes 8 v))) >>= λ heap'.
            modify (λ vm. record vm { heap = heap' }) >> set_stack_ptr q))
push_at-IsSafe p q v = record {
  at = λ vm w. elim (Bool-cases (ltb p stack_base || ltb stack_limit q || ltb vm.heap.len q)) [
    | inl t ↦ rw t (tt, w)
    | inr t ↦ elim (Bool-cases (leb (p + length (le_bytes 8 v)) vm.heap.len)) [
      | inl l ↦
          let (h, e, ok', _, n) = write-ok vm.heap p (le_bytes 8 v) w.heap_ok (leb→le _ _ l) in
          rw (t, e)
            ((set_stack_ptr-IsSafe q).at (record vm { heap = h }) (set_heap-IsValid vm h w ok' n))
      | inr l ↦ let (x, e) = write-err vm.heap p (le_bytes 8 v) (ground arith) in rw (t, e) (tt, w)
    ]
  ];
}

pub push-IsSafe : (v : ℕ) → IsSafe (push v)
unfolding push
push-IsSafe v = IsSafe-bind _ _ stack_ptr-IsSafe λ p.
    IsSafe-bind _ _ (IsSafe-ok_or (Heap.checked_add p 8) stack_overflow) λ q. push_at-IsSafe p q v

pub pop-IsSafe : IsSafe pop
unfolding pop
pop-IsSafe = IsSafe-bind _ _ stack_ptr-IsSafe λ p. record {
  at = λ vm w.
      (IsSafe-if (leb p stack_base || ltb stack_limit p || ltb vm.heap.len p) _ _ (IsSafe-raise _) (
          IsSafe-bind _ _ (IsSafe-lift _ (heap_read-NoPanic vm.heap (p - 8) 8 w.heap_ok))
            λ bytes. IsSafe-then _ _ (set_stack_ptr-IsSafe (p - 8)) (IsSafe-pure _))).at
        vm w;
}

stack_depth-IsSafe : IsSafe stack_depth
unfolding stack_depth
stack_depth-IsSafe = search (safe_rules, stack_ptr-IsSafe)

ruleset stack_rules = (safe_rules, push-IsSafe, pop-IsSafe, stack_depth-IsSafe)

binop-IsSafe : (op : ℕ → ℕ → ℕ) → IsSafe (binop op)
unfolding binop
binop-IsSafe op = search stack_rules

compare-IsSafe : (op : ℕ → ℕ → Bool) → IsSafe (compare op)
unfolding compare
compare-IsSafe op = search stack_rules

-- What works on the runtime alone gives a result or an error.
module _ {A B : Type 0} (P : B → Type 0) (n : B) where
  match_option :
      (o : Option A) (s : A → B)
      → P n
      → ((a : A) → P (s a))
      → P (elim o [ none ↦ n | some a ↦ s a ])
  match_option none s p q = p
  match_option (some a) s p q = q a

  match_list :
      (xs : List A) (s : A → List A → B)
      → P n
      → ((a : A) (rest : List A) → P (s a rest))
      → P (elim xs [ [] ↦ n | a ∷ rest ↦ s a rest ])
  match_list [] s p q = p
  match_list (a ∷ rest) s p q = q a rest

next_token-IsSafe : (rt : Runtime) (op : Text) → IsSafe (lift (next_token rt op))
unfolding next_token
next_token-IsSafe rt op =
    IsSafe-lift _ (match_option NoPanic _ (get_elem? rt.tokens rt.ip) _ tt (λ _. tt))

skip_to-IsSafe : (rt : Runtime) (a b : Text) → IsSafe (lift (skip_to rt a b))
unfolding skip_to
skip_to-IsSafe rt a b = IsSafe-lift _ (
    match_option NoPanic _ (skip_from a b rt.tokens (length rt.tokens - rt.ip) rt.ip 0) _ tt
      (λ _. tt))

get_var-IsSafe : (name : Text) (envs : List _) → IsSafe (lift (get_var name envs))
unfolding get_var
get_var-IsSafe name envs = search safe_rules

next_round-IsSafe : (rt : Runtime) → IsSafe (lift (next_round rt))
unfolding next_round
next_round-IsSafe rt = IsSafe-lift _ (
    match_list NoPanic _ rt.loops _ tt λ l loops.
      elim (Bool-cases (ltb ((l.index + 1) % 2 ^ 64) l.limit)) [
        | inl t ↦ rw t tt
        | inr t ↦ rw t tt
      ])

ruleset word_rules = (
  stack_rules, binop-IsSafe, compare-IsSafe, next_token-IsSafe, skip_to-IsSafe, get_var-IsSafe,
  next_round-IsSafe,
)

abbrev GoesOn : F Runtime → Type 0
GoesOn m = IsSafe m

exec_word-IsSafe : (w : Word) (rt : Runtime) → IsSafe (exec_word w rt)
unfolding exec_word
exec_word-IsSafe w_add rt = search word_rules
exec_word-IsSafe w_sub rt = search word_rules
exec_word-IsSafe w_mul rt = search word_rules
exec_word-IsSafe w_eq rt = search word_rules
exec_word-IsSafe w_lt rt = search word_rules
exec_word-IsSafe w_gt rt = search word_rules
exec_word-IsSafe w_dup rt = search word_rules
exec_word-IsSafe w_swap rt = search word_rules
exec_word-IsSafe w_over rt = search word_rules depth 8
exec_word-IsSafe w_drop rt = search word_rules
exec_word-IsSafe w_depth rt = search word_rules
exec_word-IsSafe w_emit rt = search word_rules
exec_word-IsSafe w_var rt = search word_rules
exec_word-IsSafe w_set rt = search word_rules
exec_word-IsSafe w_get rt = search word_rules
exec_word-IsSafe w_if rt = search word_rules
exec_word-IsSafe w_then rt = search word_rules
exec_word-IsSafe w_do rt = search word_rules
exec_word-IsSafe w_index rt =
    match_list GoesOn _ rt.loops _ (IsSafe-raise _) (λ l loops. search word_rules)
exec_word-IsSafe w_loop rt = search word_rules

exec_other-IsSafe :
    (dict : Dictionary) (word : Text) (rt : Runtime) → IsSafe (exec_other dict word rt)
unfolding exec_other
exec_other-IsSafe dict word rt =
    match_option GoesOn _ (lookup word dict) _
      (match_option GoesOn _ (parse_uint 10 (2 ^ 64 - 1) word) _ (IsSafe-raise _)
        (λ value. IsSafe-then _ _ (push-IsSafe value) (IsSafe-pure rt)))
      (λ body. IsSafe-pure _)

exec_token-IsSafe :
    (dict : Dictionary) (token : Text) (rt : Runtime) → IsSafe (exec_token dict token rt)
unfolding exec_token
exec_token-IsSafe dict token rt =
    match_option GoesOn _ (lookup token words) _ (exec_other-IsSafe dict token rt)
      (λ w. exec_word-IsSafe w rt)

-- One step of any Forth program, from any runtime, on a valid machine: it does not panic, and it
-- leaves the machine valid, also where it reports an error.
pub step_once-IsSafe : (dict : Dictionary) (rt : Runtime) → IsSafe (step_once dict rt)
unfolding step_once
step_once-IsSafe dict rt =
    match_option GoesOn _ (get_elem? rt.tokens rt.ip) _ (IsSafe-pure _)
      (λ t. exec_token-IsSafe dict t _)
