-- ===== src/Forth/Words.antt =====
-- The words of Forth (aeon-vm/src/forth.rs): the data stack in the heap, control flow over the tokens
-- of the running word, and one step. An error leaves what was done to the machine before it.
use aeon_flow.Base.{
  ℕ, zero, suc, ◌+◌, ◌-◌, ◌*◌, ◌/◌, ◌%◌, ◌^◌, Bool, true, ◌||◌, Option, none, some, List, [], ◌∷◌,
  ◌++◌, ltb, leb, ◌==◌, if◌then◌else◌, length, get_elem?, bytes_eq, ascii, le_bytes, le_value,
  Table, lookup, insert, Text, parse_uint, Outcome, map_err, ok_or, expect, set,
}
use aeon_flow.Heap
use aeon_flow.Heap.{checked_add}
use aeon_flow.Machine.{VmState, Exec, pure, raise, lift, gets, modify, ◌>>=◌, ◌>>◌}
use aeon_flow.Forth.Storage.{
  ForthError, stack_underflow, stack_overflow, unknown_word, unknown_variable, bad_control,
  missing_operand, no_loop_here, loop_without_do, unclosed, heap_fault, Dictionary, Runtime,
}

abbrev pub F : Type 0 → Type 0
F = Exec VmState ForthError

-- STACK_REG, STACK_BASE, STACK_LIMIT
abbrev pub stack_reg : ℕ
stack_reg = 200

abbrev pub stack_base : ℕ
stack_base = 65536

abbrev pub stack_limit : ℕ
stack_limit = 131072

-- `vm.regs[STACK_REG]`, read and written
unfoldable pub stack_ptr : F ℕ
stack_ptr vm = (expect (get_elem? vm.regs stack_reg), vm)

unfoldable pub set_stack_ptr : ℕ → F Unit
set_stack_ptr ptr vm =
    if ltb stack_reg (length vm.regs)
    then (Outcome.ok tt, record vm { regs = set vm.regs stack_reg ptr })
    else (Outcome.panic, vm)

unfoldable pub push : ℕ → F Unit
unfolding stack_ptr set_stack_ptr
push value = do
  ptr ← stack_ptr
  end ← lift (ok_or (checked_add ptr 8) stack_overflow)
  heap ← gets (λ vm. vm.heap)
  if ltb ptr stack_base || ltb stack_limit end || ltb heap.len end then raise stack_overflow else do
    heap' ← lift (map_err (λ _. stack_overflow) (Heap.write heap ptr (le_bytes 8 value)))
    modify (λ vm. record vm { heap = heap' })
    set_stack_ptr end

unfoldable pub pop : F ℕ
unfolding stack_ptr set_stack_ptr
pop = do
  ptr ← stack_ptr
  heap ← gets (λ vm. vm.heap)
  if leb ptr stack_base || ltb stack_limit ptr || ltb heap.len ptr
      then raise stack_underflow
      else do
        bytes ← lift (map_err (λ e. bad_control (heap_fault e)) (Heap.read heap (ptr - 8) 8))
        set_stack_ptr (ptr - 8)
        pure (le_value bytes)

unfoldable pub stack_depth : F ℕ
unfolding stack_ptr
stack_depth = do
  ptr ← stack_ptr
  heap ← gets (λ vm. vm.heap)
  if ltb ptr stack_base || ltb stack_limit ptr || ltb heap.len ptr
      then raise stack_underflow
      else pure ((ptr - stack_base) / 8)

unfoldable pub binop : (ℕ → ℕ → ℕ) → F Unit
unfolding push pop
binop op = do b ← pop; a ← pop; push (op a b)

unfoldable pub compare : (ℕ → ℕ → Bool) → F Unit
unfolding push pop
compare op = do b ← pop; a ← pop; push (if op a b then 1 else 0)

-- `next_token`: the token, and the runtime behind it
unfoldable pub next_token : Runtime → Text → Outcome ForthError (Text × Runtime)
next_token rt op = elim (get_elem? rt.tokens rt.ip) [
  | none ↦ Outcome.err (bad_control (missing_operand op))
  | some token ↦ Outcome.ok (token, record rt { ip = rt.ip + 1 })
]

-- A round of the loop of `skip_to`: `depth - 1` behind the token, and none where `depth` gets to 0.
abbrev skip_token : (opening closing token : Text) (deeper : ℕ) → Option ℕ
skip_token opening closing token deeper =
    if bytes_eq token opening
    then some (deeper + 1)
    else if bytes_eq token closing
    then (if deeper == 0 then none else some (deeper - 1))
    else some deeper

-- The loop, with the `n` tokens from `ip` on; it gives the new `ip`.
unfoldable pub skip_from :
    (opening closing : Text) (tokens : List Text) (n ip deeper : ℕ) → Option ℕ
skip_from opening closing tokens zero ip deeper = none
skip_from opening closing tokens (suc n) ip deeper = elim (get_elem? tokens ip) [
  | none ↦ none
  | some token ↦ elim (skip_token opening closing token deeper) [
    | none ↦ some (ip + 1)
    | some d ↦ skip_from opening closing tokens n (ip + 1) d
  ]
]

unfoldable pub skip_to : Runtime → (opening closing : Text) → Outcome ForthError Runtime
unfolding skip_from
skip_to rt opening closing =
    elim (skip_from opening closing rt.tokens (length rt.tokens - rt.ip) rt.ip 0) [
      | none ↦ Outcome.err (bad_control (unclosed opening closing))
      | some ip ↦ Outcome.ok (record rt { ip = ip })
    ]

-- `current_env`, for what is then done to it
unfoldable pub current_env : (Table ℕ → Table ℕ) → List (Table ℕ) → List (Table ℕ)
current_env f [] = f [] ∷ []
current_env f (env ∷ envs) = f env ∷ envs

-- The search of `set_var`, from the innermost environment out
unfoldable pub set_existing : Text → ℕ → List (Table ℕ) → Option (List (Table ℕ))
set_existing name value [] = none
set_existing name value (env ∷ envs) =
    let outer = set_existing name value envs in
    elim (lookup name env) [
      | some _ ↦ some (insert name value env ∷ envs)
      | none ↦ elim outer [ none ↦ none | some envs' ↦ some (env ∷ envs') ]
    ]

unfoldable pub set_var : Text → ℕ → List (Table ℕ) → List (Table ℕ)
unfolding set_existing current_env
set_var name value envs = elim (set_existing name value envs) [
  | some envs' ↦ envs'
  | none ↦ current_env (insert name value) envs
]

unfoldable pub find_var : Text → List (Table ℕ) → Option ℕ
find_var name [] = none
find_var name (env ∷ envs) =
    let outer = find_var name envs in elim (lookup name env) [ some v ↦ some v | none ↦ outer ]

unfoldable pub get_var : Text → List (Table ℕ) → Outcome ForthError ℕ
unfolding find_var
get_var name envs = ok_or (find_var name envs) (unknown_variable name)

-- The arms of the match on the token
pub data Word : Type 0 where
  w_add w_sub w_mul w_eq w_lt w_gt w_dup w_swap w_over w_drop w_depth w_emit : Word
  w_var w_set w_get w_if w_then w_do w_index w_loop : Word

abbrev pub words : Table Word
words =
    (ascii "+", w_add)
    ∷ (ascii "-", w_sub)
    ∷ (ascii "*", w_mul)
    ∷ (ascii "=", w_eq)
    ∷ (ascii "<", w_lt)
    ∷ (ascii ">", w_gt)
    ∷ (ascii "dup", w_dup)
    ∷ (ascii "swap", w_swap)
    ∷ (ascii "over", w_over)
    ∷ (ascii "drop", w_drop)
    ∷ (ascii "depth", w_depth)
    ∷ (ascii ".", w_emit)
    ∷ (ascii "var", w_var)
    ∷ (ascii "set", w_set)
    ∷ (ascii "get", w_get)
    ∷ (ascii "if", w_if)
    ∷ (ascii "then", w_then)
    ∷ (ascii "do", w_do)
    ∷ (ascii "i", w_index)
    ∷ (ascii "loop", w_loop)
    ∷ []

-- `word_loop`, on the innermost loop
unfoldable pub next_round : Runtime → Outcome ForthError Runtime
next_round rt = elim rt.loops [
  | [] ↦ Outcome.err (bad_control loop_without_do)
  | l ∷ loops ↦
      let index = (l.index + 1) % 2 ^ 64 in
      if ltb index l.limit
      then Outcome.ok (record rt { ip = l.start_ip; loops = record l { index = index } ∷ loops })
      else Outcome.ok (record rt { loops = loops })
]

abbrev pub enter_loop : ℕ → ℕ → Runtime → Runtime
enter_loop start limit rt = record rt {
  loops = record { start_ip = rt.ip; index = start; limit = limit } ∷ rt.loops;
}

-- `entry(name).or_insert(0)`
abbrev or_zero : Text → Table ℕ → Table ℕ
or_zero name env = elim (lookup name env) [ none ↦ insert name 0 env | some _ ↦ env ]

unfoldable pub exec_word : Word → Runtime → F Runtime
unfolding binop compare stack_depth next_token skip_to set_var get_var next_round
exec_word w_add rt = do binop (λ a b. (a + b) % 2 ^ 64); pure rt
exec_word w_sub rt = do binop (λ a b. (a + (2 ^ 64 - b)) % 2 ^ 64); pure rt
exec_word w_mul rt = do binop (λ a b. a * b % 2 ^ 64); pure rt
exec_word w_eq rt = do compare (λ a b. a == b); pure rt
exec_word w_lt rt = do compare (λ a b. ltb a b); pure rt
exec_word w_gt rt = do compare (λ a b. ltb b a); pure rt
exec_word w_dup rt = do value ← pop; push value; push value; pure rt
exec_word w_swap rt = do b ← pop; a ← pop; push b; push a; pure rt
exec_word w_over rt = do b ← pop; a ← pop; push a; push b; push a; pure rt
exec_word w_drop rt = do _ ← pop; pure rt
exec_word w_depth rt = do depth ← stack_depth; push depth; pure rt
exec_word w_emit rt = do value ← pop; pure (record rt { output = rt.output ++ value ∷ [] })
exec_word w_var rt = do
  r ← lift (next_token rt (ascii "var"))
  pure (record r.1 { envs = current_env (or_zero r.0) r.1.envs })
exec_word w_set rt = do
  r ← lift (next_token rt (ascii "set"))
  value ← pop
  pure (record r.1 { envs = set_var r.0 value r.1.envs })
exec_word w_get rt = do
  r ← lift (next_token rt (ascii "get"))
  value ← lift (get_var r.0 r.1.envs)
  push value
  pure r.1
exec_word w_if rt = do
  value ← pop
  if value == 0 then lift (skip_to rt (ascii "if") (ascii "then")) else pure rt
exec_word w_then rt = pure rt
exec_word w_do rt = do
  start ← pop
  limit ← pop
  if leb limit start
      then lift (skip_to rt (ascii "do") (ascii "loop"))
      else pure (enter_loop start limit rt)
exec_word w_index rt = elim rt.loops [
  | [] ↦ raise (bad_control no_loop_here)
  | l ∷ _ ↦ do push l.index; pure rt
]
exec_word w_loop rt = lift (next_round rt)

-- The last arm: a word of the dictionary, or a number
abbrev pub call_word : List Text → Runtime → Runtime
call_word body rt = record rt {
  frames = record { tokens = rt.tokens; ip = rt.ip } ∷ rt.frames;
  tokens = body;
  ip = 0;
  envs = [] ∷ rt.envs;
}

unfoldable pub exec_other : Dictionary → Text → Runtime → F Runtime
unfolding push
exec_other dict word rt = elim (lookup word dict) [
  | some body ↦ pure (call_word body rt)
  | none ↦ elim (parse_uint 10 (2 ^ 64 - 1) word) [
    | some value ↦ do push value; pure rt
    | none ↦ raise (unknown_word word)
  ]
]

unfoldable pub exec_token : Dictionary → Text → Runtime → F Runtime
unfolding exec_word exec_other
exec_token dict token rt = elim (lookup token words) [
  | some w ↦ exec_word w rt
  | none ↦ exec_other dict token rt
]

-- `if runtime.envs.len() > 1 { runtime.envs.pop(); }`
abbrev pub leave_env : List (Table ℕ) → List (Table ℕ)
leave_env [] = []
leave_env (env ∷ []) = env ∷ []
leave_env (env ∷ outer ∷ envs) = outer ∷ envs

-- The end of the running word
unfoldable pub leave_word : Runtime → Runtime
leave_word rt = elim rt.frames [
  | [] ↦ record rt { halted = true }
  | f ∷ frames ↦ record rt {
    frames = frames;
    envs = leave_env rt.envs;
    tokens = f.tokens;
    ip = f.ip;
  }
]

unfoldable pub step_once : Dictionary → Runtime → F Runtime
unfolding exec_token leave_word
step_once dict rt = elim (get_elem? rt.tokens rt.ip) [
  | none ↦ pure (leave_word rt)
  | some token ↦ exec_token dict token (record rt { ip = rt.ip + 1 })
]
