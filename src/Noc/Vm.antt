-- ===== src/Noc/Vm.antt =====
-- kernel/noc/vm.c, lines 101 to 474: the stack machine. The stack of 4096 words is memory indexed from 0;
-- the frames are a list with the active one first, and a frame's copies of its function's fields are
-- those of the function that it holds. The registry of functions belongs to the rest of the system.
pub mod Bounds
pub mod Run
mod Tests
use no_os.Base.{
  ℕ, zero, suc, ◌+◌, ◌-◌, ◌%◌, ◌^◌, Bool, true, false, not, ◌&&◌, ◌||◌, Option, none, some, List,
  [], ◌∷◌, ltb, leb, ◌==◌, if◌then◌else◌, length, get_elem?, sub64, read32, read64,
}
use no_os.Noc.Registry.{Str, Fn, noc_lookup}
use no_os.Noc.Alu.{
  BinOp, op_add, op_sub, op_mul, op_div, op_mod, op_eq, op_ne, op_lt, op_le, op_gt, op_ge, op_band,
  op_bor, op_bxor, op_shl, op_shr, UnOp, op_not, op_neg, op_bnot, AluResult, value, zero_divisor,
  divide_exception, binary, unary,
}

abbrev pub noc_stack_size : ℕ
noc_stack_size = 4096

abbrev pub noc_max_frames : ℕ
noc_max_frames = 256

-- The instructions, by the shape of what they do.
pub data Op : Type 0 where
  op_push op_pushstr op_dup op_pop op_load op_store op_call op_ret op_jmp op_jmpf op_jmpt op_halt :
      Op
  op_binary : BinOp → Op
  op_unary : UnOp → Op

abbrev ops : List Op
ops =
    op_push
    ∷ op_pushstr
    ∷ op_dup
    ∷ op_pop
    ∷ op_load
    ∷ op_store
    ∷ op_call
    ∷ op_ret
    ∷ op_jmp
    ∷ op_jmpf
    ∷ op_jmpt
    ∷ op_binary op_add
    ∷ op_binary op_sub
    ∷ op_binary op_mul
    ∷ op_binary op_div
    ∷ op_binary op_mod
    ∷ op_binary op_eq
    ∷ op_binary op_ne
    ∷ op_binary op_lt
    ∷ op_binary op_le
    ∷ op_binary op_gt
    ∷ op_binary op_ge
    ∷ op_binary op_band
    ∷ op_binary op_bor
    ∷ op_binary op_bxor
    ∷ op_binary op_shl
    ∷ op_binary op_shr
    ∷ op_unary op_not
    ∷ op_unary op_neg
    ∷ op_unary op_bnot
    ∷ op_halt
    ∷ []

-- The opcode with the number, as the enumeration counts them.
pub decode : ℕ → Option Op
decode n = get_elem? ops n

pub data VmError : Type 0 where
  stack_overflow stack_underflow interrupted code_end bad_string bad_slot bad_function : VmError
  unknown_function few_arguments builtin_failed deep_nesting bad_frame call_overflow : VmError
  top_return division_by_zero unknown_opcode no_frame empty_program many_locals : VmError

pub record Frame : Type 0 where
  pub fn : Fn
  pub pc : ℕ
  pub vbase : ℕ

pub record Vm (W : Type 0) : Type 0 where
  pub stack : ℕ → ℕ
  pub sp : ℕ
  pub frames : List Frame
  pub world : W

-- What the machine asks of the rest of the system, whose state is of type `W`: the key that waits, its removal,
-- and the builtins by index, with `none` for one that fails. A builtin is given its arguments, and may change
-- the machine: one can write any memory, and one runs another program.
pub record Platform (W : Type 0) : Type 0 where
  pub kbd_peek : W → Option ℕ
  pub kbd_poll : W → W
  pub builtin : ℕ → List ℕ → Vm W → Option ℕ × Vm W

-- How an instruction ends. `trap` is an exception of the processor.
pub data Outcome (W : Type 0) : Type 0 where
  next halted trap : Vm W → Outcome W
  failed : VmError → Vm W → Outcome W

abbrev pub write : ℕ → ℕ → (ℕ → ℕ) → ℕ → ℕ
write i v stack j = if i == j then v else stack j

abbrev pub clear : ℕ → ℕ → (ℕ → ℕ) → ℕ → ℕ
clear first end stack j = if leb first j && ltb j end then 0 else stack j

-- The `n` words of the stack from `i` on.
pub words : (ℕ → ℕ) → ℕ → ℕ → List ℕ
words stack i zero = []
words stack i (suc n) = stack i ∷ words stack (i + 1) n

module _ {W : Type 0} where
  pub push : ℕ → Vm W → Outcome W
  push v vm =
      if leb noc_stack_size vm.sp
      then failed stack_overflow vm
      else next (record vm { stack = write vm.sp v vm.stack; sp = vm.sp + 1 })

  -- The rest of an instruction that pops a value.
  pub with_pop : Vm W → (ℕ → Vm W → Outcome W) → Outcome W
  with_pop vm k =
      if vm.sp == 0
      then failed stack_underflow vm
      else k (vm.stack (vm.sp - 1)) (record vm { sp = vm.sp - 1 })

  -- The active frame `f`, above `below`, goes on at `pc`.
  abbrev pub jump : Frame → List Frame → ℕ → Vm W → Vm W
  jump f below pc vm = record vm { frames = record f { pc = pc } ∷ below }

  pub binary_result : AluResult → Vm W → Outcome W
  unfolding push
  binary_result (value r) vm = push r vm
  binary_result zero_divisor vm = failed division_by_zero vm
  binary_result divide_exception vm = trap vm

  pub store : Frame → ℕ → ℕ → Vm W → Outcome W
  store f slot v vm =
      if leb f.fn.nlocals slot
      then failed bad_slot vm
      else next (record vm { stack = write (f.vbase + slot) v vm.stack })

  -- A call of a function that has code, with `count` arguments on the stack.
  pub enter : Fn → ℕ → Vm W → Outcome W
  enter callee count vm =
      let vbase = vm.sp - count in
      if leb noc_max_frames (length vm.frames)
      then failed deep_nesting vm
      else (if ltb callee.nlocals count
          then failed bad_frame vm
          else (if ltb noc_stack_size (vbase + callee.nlocals)
              then failed call_overflow vm
              else next (record vm {
                stack = clear (vbase + count) (vbase + callee.nlocals) vm.stack;
                sp = vbase + callee.nlocals;
                frames = record { fn = callee; pc = 0; vbase = vbase } ∷ vm.frames;
              })))

  -- `OP_RET` in the frame `f` above `below`.
  pub leave : Frame → List Frame → Vm W → Outcome W
  unfolding with_pop push
  leave f [] vm = failed top_return vm
  leave f (g ∷ below) vm =
      with_pop vm (λ v vm'. push v (record vm' { sp = f.vbase; frames = g ∷ below }))

-- The loop goes on with `k` after an instruction that does not end it.
pub go_on : {W : Type 0} → (Vm W → Outcome W) → Outcome W → Outcome W
go_on k (next vm) = k vm
go_on k (halted vm) = halted vm
go_on k (trap vm) = trap vm
go_on k (failed e vm) = failed e vm

module _ {W : Type 0} (platform : Platform W) (funcs : W → List Fn) where
  pub call_builtin : ℕ → ℕ → Vm W → Outcome W
  unfolding push
  call_builtin index count vm =
      let reply = platform.builtin index (words vm.stack (vm.sp - count) count) vm in
      let vm' = reply.1 in
      elim reply.0 [
        | none ↦ failed builtin_failed vm'
        | some ret ↦ push ret (record vm' { sp = sub64 vm'.sp count })
      ]

  pub call_named : List ℕ → ℕ → Vm W → Outcome W
  unfolding call_builtin enter
  call_named name count vm = elim (noc_lookup name (funcs vm.world)) [
    | none ↦ failed unknown_function vm
    | some callee ↦ if ltb vm.sp count then failed few_arguments vm else elim callee.builtin [
      | some index ↦ call_builtin index count vm
      | none ↦ enter callee count vm
    ]
  ]

  pub with_string : VmError → Frame → ℕ → (Str → Vm W → Outcome W) → Vm W → Outcome W
  with_string e f index k vm = elim (get_elem? f.fn.strings index) [
    | none ↦ failed e vm
    | some s ↦ k s vm
  ]

  -- The instruction in the active frame `f`, above `below`; `pc` is the address of its operand.
  pub execute : Op → Frame → List Frame → ℕ → Vm W → Outcome W
  unfolding push with_pop binary_result store leave call_named with_string
  execute op_push f below pc vm = push (read64 f.fn.code pc) (jump f below (pc + 8) vm)
  execute op_pushstr f below pc vm =
      with_string bad_string f (read32 f.fn.code pc) (λ s. push s.ptr) (jump f below (pc + 4) vm)
  execute op_dup f below pc vm =
      let vm' = jump f below pc vm in
      if vm.sp == 0 then failed stack_underflow vm' else push (vm.stack (vm.sp - 1)) vm'
  execute op_pop f below pc vm = with_pop (jump f below pc vm) (λ v. next)
  execute op_load f below pc vm =
      let slot = read32 f.fn.code pc in
      let vm' = jump f below (pc + 4) vm in
      if leb f.fn.nlocals slot then failed bad_slot vm' else push (vm.stack (f.vbase + slot)) vm'
  execute op_store f below pc vm =
      with_pop (jump f below (pc + 4) vm) (store f (read32 f.fn.code pc))
  execute op_call f below pc vm =
      with_string bad_function f (read32 f.fn.code pc)
        (λ s. call_named s.text (read32 f.fn.code (pc + 4))) (jump f below (pc + 8) vm)
  execute op_ret f below pc vm = leave f below (jump f below pc vm)
  execute op_jmp f below pc vm = next (jump f below (read32 f.fn.code pc) vm)
  execute op_jmpf f below pc vm =
      with_pop (jump f below (pc + 4) vm)
        (λ v vm'. if v == 0 then next (jump f below (read32 f.fn.code pc) vm') else next vm')
  execute op_jmpt f below pc vm =
      with_pop (jump f below (pc + 4) vm)
        (λ v vm'. if v == 0 then next vm' else next (jump f below (read32 f.fn.code pc) vm'))
  execute op_halt f below pc vm = halted (jump f below pc vm)
  execute (op_binary op) f below pc vm =
      with_pop (jump f below pc vm)
        (λ b vm'. with_pop vm' (λ a vm''. binary_result (binary op a b) vm''))
  execute (op_unary op) f below pc vm = with_pop (jump f below pc vm) (λ a. push (unary op a))

  -- One round of the loop, without the look at the keyboard, with the frames that the machine has.
  pub step_in : List Frame → Vm W → Outcome W
  unfolding execute decode
  step_in [] vm = failed no_frame vm
  step_in (f ∷ below) vm =
      if leb f.fn.code_len f.pc then failed code_end vm else elim (decode (f.fn.code f.pc)) [
        | none ↦ failed unknown_opcode (jump f below (f.pc + 1) vm)
        | some op ↦ execute op f below (f.pc + 1) vm
      ]

  pub step : Vm W → Outcome W
  unfolding step_in
  step vm = step_in vm.frames vm

  -- Esc or Ctrl+C.
  pub stops : Option ℕ → Bool
  stops none = false
  stops (some c) = (c == 0x1B) || (c == 0x03)

  -- Round number `iters`. The keyboard is looked at in every 256th.
  pub round : ℕ → Vm W → Outcome W
  unfolding stops step
  round iters vm =
      if length vm.frames == 0
      then failed no_frame vm
      else if (iters % 256 == 0) && stops (platform.kbd_peek vm.world)
      then failed interrupted (record vm { world = platform.kbd_poll vm.world })
      else step vm

  -- At most `fuel` rounds; `next` when the program still runs.
  pub run_loop : ℕ → ℕ → Vm W → Outcome W
  unfolding round go_on
  run_loop zero iters vm = next vm
  run_loop (suc fuel) iters vm = go_on (run_loop fuel ((iters + 1) % 2 ^ 64)) (round iters vm)

-- What `noc_vm_run` sets up: the locals of the program are zero.
pub start : {W : Type 0} → Fn → Vm W → Vm W
start f vm = record vm {
  stack = clear 0 f.nlocals vm.stack;
  sp = f.nlocals;
  frames = record { fn = f; pc = 0; vbase = 0 } ∷ [];
}

-- What follows the loop: the result that `noc_vm_take_result` hands out.
pub finish : {W : Type 0} → Fn → Outcome W → Outcome W × Option ℕ
finish f (halted vm) = (halted vm, if f.last_expr then some (vm.stack f.nlocals) else none)
finish f (next vm) = (next vm, none)
finish f (trap vm) = (trap vm, none)
finish f (failed e vm) = (failed e vm, none)

-- A function with a builtin has no code.
pub has_code : Fn → Bool
has_code f = elim f.builtin [ none ↦ true | some index ↦ false ]

-- `none` is the null pointer.
pub noc_vm_run :
    {W : Type 0} → Platform W → (W → List Fn) → ℕ → Option Fn → Vm W → Outcome W × Option ℕ
unfolding run_loop start finish has_code
noc_vm_run platform funcs fuel none vm =
    (failed empty_program (record vm { sp = 0; frames = [] }), none)
noc_vm_run platform funcs fuel (some f) vm =
    if not (has_code f)
    then (failed empty_program (record vm { sp = 0; frames = [] }), none)
    else if ltb noc_stack_size f.nlocals
    then (failed many_locals (record vm { sp = 0; frames = [] }), none)
    else finish f (run_loop platform funcs fuel 0 (start f vm))
