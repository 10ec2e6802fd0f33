-- ===== src/Noc/Vm/Bounds.antt =====
-- The bounds of the machine of vm.c: the stack, the frames and the locals, instruction by instruction.
use no_os.Base.{
  ℕ, ◌+◌, ◌-◌, ◌%◌, ◌≤◌, ◌≡◌, refl, ◌&&◌, List, [], ◌∷◌, arith, ltb, leb, ◌==◌, if◌then◌else◌,
  length, get_elem?, All, sub64, read32, read64, if-cases, elim-cases, subst,
}
use no_os.Noc.Registry.{Fn, Str, noc_lookup}
use no_os.Noc.Alu.{AluResult, value, zero_divisor, divide_exception, binary, unary}
use no_os.Noc.Vm.{
  step_in, call_overflow, bad_function, bad_frame, deep_nesting, stack_overflow, bad_string,
  stack_underflow, bad_slot, few_arguments, Frame, Vm, Outcome, next, halted, trap, failed, VmError,
  Platform, noc_stack_size, noc_max_frames, words, push, with_pop, jump, binary_result, store,
  enter, leave, call_builtin, call_named, with_string, execute, step, round, stops, decode, Op,
  op_push, op_pushstr, op_dup, op_pop, op_load, op_store, op_call, op_ret, op_jmp, op_jmpf, op_jmpt,
  op_halt, op_binary, op_unary,
}

abbrev pub FitsStack : Frame → Type 0
FitsStack f = f.vbase + f.fn.nlocals ≤ noc_stack_size

-- The stack pointer, the number of frames and every frame's locals are in bounds.
pub record IsBounded {W : Type 0} (vm : Vm W) : Type 0 where
  pub sp_le : vm.sp ≤ noc_stack_size
  pub depth : length vm.frames ≤ noc_max_frames
  pub locals : All FitsStack vm.frames

-- In bounds, and with no word of memory behind the stack changed since `memory`.
pub record IsSafe {W : Type 0} (memory : ℕ → ℕ) (vm : Vm W) : Type 0 where
  pub bounded : IsBounded vm
  pub behind : (j : ℕ) → noc_stack_size ≤ j → vm.stack j ≡ memory j

-- The state that an instruction leaves, however it ends.
unfoldable pub after : {W : Type 0} → Outcome W → Vm W
after (next vm) = vm
after (halted vm) = vm
after (trap vm) = vm
after (failed e vm) = vm

module _ {W : Type 0} (memory : ℕ → ℕ) where
  abbrev Sound : Outcome W → Type 0
  Sound o = IsSafe memory (after o)

  push-Sound : (v : ℕ) (vm : Vm W) → IsSafe memory vm → Sound (push v vm)
  unfolding push after
  push-Sound v vm h =
      if-cases Sound (leb noc_stack_size vm.sp) (failed stack_overflow vm) _ (λ full. h)
        (λ room. record {
          bounded = record {
            sp_le = ground arith;
            depth = h.bounded.depth;
            locals = h.bounded.locals;
          };
          behind = λ j le. let e = h.behind j le in ground arith;
        })

  with_pop-Sound :
      (vm : Vm W) (k : ℕ → Vm W → Outcome W)
      → IsSafe memory vm
      → ((v : ℕ) (vm' : Vm W) → vm'.frames ≡ vm.frames → IsSafe memory vm' → Sound (k v vm'))
      → Sound (with_pop vm k)
  unfolding with_pop after
  with_pop-Sound vm k h kh =
      if-cases Sound (vm.sp == 0) (failed stack_underflow vm) _ (λ empty. h)
        (λ some_value.
          kh (vm.stack (vm.sp - 1)) (record vm { sp = vm.sp - 1 }) refl
            (record {
              bounded = record {
                sp_le = let b = h.bounded.sp_le in omega arith;
                depth = h.bounded.depth;
                locals = h.bounded.locals;
              };
              behind = h.behind;
            }))

  jump-Safe :
      (f : Frame) (below : List Frame) (pc : ℕ) (vm : Vm W)
      → vm.frames ≡ f ∷ below
      → IsSafe memory vm
      → IsSafe memory (jump f below pc vm)
  jump-Safe f below pc vm e h =
      let depth' = subst (λ (fs : List Frame). length fs ≤ noc_max_frames) e h.bounded.depth in
      let locals' = subst (λ (fs : List Frame). All FitsStack fs) e h.bounded.locals in
      record {
        bounded = record { sp_le = h.bounded.sp_le; depth = depth'; locals = locals' };
        behind = h.behind;
      }

  binary_result-Sound : (r : AluResult) (vm : Vm W) → IsSafe memory vm → Sound (binary_result r vm)
  unfolding binary_result after
  binary_result-Sound (value r) vm h = push-Sound r vm h
  binary_result-Sound zero_divisor vm h = h
  binary_result-Sound divide_exception vm h = h

  store-Sound :
      (f : Frame) (slot v : ℕ) (vm : Vm W)
      → FitsStack f
      → IsSafe memory vm
      → Sound (store f slot v vm)
  unfolding store after
  store-Sound f slot v vm fits h =
      if-cases Sound (leb f.fn.nlocals slot) (failed bad_slot vm) _ (λ bad. h)
        (λ good. record {
          bounded = record {
            sp_le = h.bounded.sp_le;
            depth = h.bounded.depth;
            locals = h.bounded.locals;
          };
          behind = λ j le. let e = h.behind j le in ground arith;
        })

  enter-Sound :
      (callee : Fn) (count : ℕ) (vm : Vm W) → IsSafe memory vm → Sound (enter callee count vm)
  unfolding enter after
  enter-Sound callee count vm h =
      if-cases Sound (leb noc_max_frames (length vm.frames)) (failed deep_nesting vm) _ (λ deep. h)
        (λ free.
          if-cases Sound (ltb callee.nlocals count) (failed bad_frame vm) _ (λ bad. h)
            (λ good.
              if-cases Sound (ltb noc_stack_size (vm.sp - count + callee.nlocals))
                (failed call_overflow vm) _ (λ full. h)
                (λ room. record {
                  bounded = record {
                    sp_le = ground arith;
                    depth = ground arith;
                    locals = ((ground arith), h.bounded.locals);
                  };
                  behind = λ j le. let e = h.behind j le in ground arith;
                })))

  leave-Sound :
      (f : Frame) (below : List Frame) (vm : Vm W)
      → FitsStack f
      → vm.frames ≡ f ∷ below
      → IsSafe memory vm
      → Sound (leave f below vm)
  unfolding leave after
  leave-Sound f [] vm fits e h = h
  leave-Sound f (g ∷ below) vm fits e h =
      with_pop-Sound vm (λ v vm'. push v (record vm' { sp = f.vbase; frames = g ∷ below })) h
        (λ v vm' q h'.
          let depth' = subst (λ (fs : List Frame). length fs ≤ noc_max_frames) e h.bounded.depth in
          let locals' = subst (λ (fs : List Frame). All FitsStack fs) e h.bounded.locals in
          push-Sound v (record vm' { sp = f.vbase; frames = g ∷ below })
            (record {
              bounded = record { sp_le = omega arith; depth = omega arith; locals = locals'.1 };
              behind = h'.behind;
            }))

-- A builtin that is called in bounds leaves the machine in bounds and the stack pointer where it is, and changes
-- no word behind the stack.
abbrev pub IsTame : {W : Type 0} → Platform W → (ℕ → ℕ) → Type 0
IsTame {W = W} platform memory =
    (index : ℕ) (arguments : List ℕ) (vm : Vm W)
    → IsSafe memory vm
    → IsSafe memory (platform.builtin index arguments vm).1
      × ((platform.builtin index arguments vm).1.sp ≡ vm.sp)

module _ {W : Type 0} (platform : Platform W) (funcs : W → List Fn) (memory : ℕ → ℕ)
    (tame : IsTame platform memory) where
  abbrev Safe : Outcome W → Type 0
  Safe o = IsSafe memory (after o)

  call_builtin-Sound :
      (index count : ℕ) (vm : Vm W)
      → count ≤ vm.sp
      → IsSafe memory vm
      → IsSafe memory (after (call_builtin platform funcs index count vm))
  unfolding call_builtin after
  call_builtin-Sound index count vm enough h =
      let reply = platform.builtin index (words vm.stack (vm.sp - count) count) vm in
      let (h', same) = tame index (words vm.stack (vm.sp - count) count) vm h in
      let b = h'.bounded.sp_le in
      let le : sub64 reply.1.sp count ≤ noc_stack_size = omega (arith, same, enough, b) in
      elim-cases Safe reply.0 _ _ h' (λ ret eq.
        push-Sound memory ret (record reply.1 { sp = sub64 reply.1.sp count })
          (record {
            bounded = record { sp_le = le; depth = h'.bounded.depth; locals = h'.bounded.locals };
            behind = h'.behind;
          }))

  call_named-Sound :
      (name : List ℕ) (count : ℕ) (vm : Vm W)
      → IsSafe memory vm
      → Safe (call_named platform funcs name count vm)
  unfolding call_named after
  call_named-Sound name count vm h =
      elim-cases Safe (noc_lookup name (funcs vm.world)) _ _ h (λ callee eq.
        if-cases Safe (ltb vm.sp count) (failed few_arguments vm) _ (λ few. h)
          (λ enough.
            elim-cases Safe callee.builtin _ _ (enter-Sound memory callee count vm h)
              (λ index eq'. call_builtin-Sound index count vm (ground (arith, enough)) h)))

  with_string-Sound :
      (e : VmError) (f : Frame) (index : ℕ) (k : Str → Vm W → Outcome W) (vm : Vm W)
      → IsSafe memory vm
      → ((s : Str) → Safe (k s vm))
      → Safe (with_string platform funcs e f index k vm)
  unfolding with_string after
  with_string-Sound e f index k vm h kh =
      elim-cases Safe (get_elem? f.fn.strings index) _ _ h (λ s eq. kh s)

  execute-Sound :
      (op : Op) (f : Frame) (below : List Frame) (pc : ℕ) (vm : Vm W)
      → FitsStack f
      → vm.frames ≡ f ∷ below
      → IsSafe memory vm
      → IsSafe memory (after (execute platform funcs op f below pc vm))
  unfolding execute after
  execute-Sound op_push f below pc vm fits e h =
      push-Sound memory (read64 f.fn.code pc) _ (jump-Safe memory f below (pc + 8) vm e h)
  execute-Sound op_pushstr f below pc vm fits e h =
      let j = jump-Safe memory f below (pc + 4) vm e h in
      with_string-Sound bad_string f (read32 f.fn.code pc) (λ s. push s.ptr) _ j
        (λ s. push-Sound memory s.ptr _ j)
  execute-Sound op_dup f below pc vm fits e h =
      let j = jump-Safe memory f below pc vm e h in
      if-cases Safe (vm.sp == 0) _ _ (λ empty. j)
        (λ some_value. push-Sound memory (vm.stack (vm.sp - 1)) _ j)
  execute-Sound op_pop f below pc vm fits e h =
      with_pop-Sound memory _ (λ v. next) (jump-Safe memory f below pc vm e h) (λ v vm' q h'. h')
  execute-Sound op_load f below pc vm fits e h =
      let j = jump-Safe memory f below (pc + 4) vm e h in
      if-cases Safe (leb f.fn.nlocals (read32 f.fn.code pc)) _ _ (λ bad. j)
        (λ good. push-Sound memory (vm.stack (f.vbase + read32 f.fn.code pc)) _ j)
  execute-Sound op_store f below pc vm fits e h =
      with_pop-Sound memory _ (store f (read32 f.fn.code pc))
        (jump-Safe memory f below (pc + 4) vm e h)
        (λ v vm' q h'. store-Sound memory f (read32 f.fn.code pc) v vm' fits h')
  execute-Sound op_call f below pc vm fits e h =
      let j = jump-Safe memory f below (pc + 8) vm e h in
      with_string-Sound bad_function f (read32 f.fn.code pc)
        (λ s. call_named platform funcs s.text (read32 f.fn.code (pc + 4))) _ j
        (λ s. call_named-Sound s.text (read32 f.fn.code (pc + 4)) _ j)
  execute-Sound op_ret f below pc vm fits e h =
      leave-Sound memory (record f { pc = pc }) below _ fits refl
        (jump-Safe memory f below pc vm e h)
  execute-Sound op_jmp f below pc vm fits e h =
      jump-Safe memory f below (read32 f.fn.code pc) vm e h
  execute-Sound op_jmpf f below pc vm fits e h =
      with_pop-Sound memory (jump f below (pc + 4) vm)
        (λ v vm'. if v == 0 then next (jump f below (read32 f.fn.code pc) vm') else next vm')
        (jump-Safe memory f below (pc + 4) vm e h)
        (λ v vm' q h'.
          if-cases Safe (v == 0) (next (jump f below (read32 f.fn.code pc) vm')) (next vm')
            (λ z. jump-Safe memory (record f { pc = pc + 4 }) below (read32 f.fn.code pc) vm' q h')
            (λ nz. h'))
  execute-Sound op_jmpt f below pc vm fits e h =
      with_pop-Sound memory (jump f below (pc + 4) vm)
        (λ v vm'. if v == 0 then next vm' else next (jump f below (read32 f.fn.code pc) vm'))
        (jump-Safe memory f below (pc + 4) vm e h)
        (λ v vm' q h'.
          if-cases Safe (v == 0) (next vm') (next (jump f below (read32 f.fn.code pc) vm'))
            (λ z. h')
            (λ nz.
              jump-Safe memory (record f { pc = pc + 4 }) below (read32 f.fn.code pc) vm' q h'))
  execute-Sound op_halt f below pc vm fits e h = jump-Safe memory f below pc vm e h
  execute-Sound (op_binary op) f below pc vm fits e h =
      with_pop-Sound memory (jump f below pc vm)
        (λ b vm'. with_pop vm' (λ a. binary_result (binary op a b)))
        (jump-Safe memory f below pc vm e h)
        (λ b vm' q h'.
          with_pop-Sound memory vm' (λ a. binary_result (binary op a b)) h'
            (λ a vm'' q' h''. binary_result-Sound memory (binary op a b) vm'' h''))
  execute-Sound (op_unary op) f below pc vm fits e h =
      with_pop-Sound memory (jump f below pc vm) (λ a. push (unary op a))
        (jump-Safe memory f below pc vm e h) (λ a vm' q h'. push-Sound memory (unary op a) vm' h')

  step_in-Safe :
      (frames : List Frame) (vm : Vm W)
      → vm.frames ≡ frames
      → IsSafe memory vm
      → Safe (step_in platform funcs frames vm)
  unfolding step_in after
  step_in-Safe [] vm e h = h
  step_in-Safe (f ∷ below) vm e h =
      if-cases Safe (leb f.fn.code_len f.pc) _ _ (λ end. h)
        (λ more.
          elim-cases Safe (decode (f.fn.code f.pc)) _ _ (jump-Safe memory f below (f.pc + 1) vm e h)
            (λ op eq.
              execute-Sound op f below (f.pc + 1) vm
                (subst (λ (fs : List Frame). All FitsStack fs) e h.bounded.locals).0 e h))

  -- In a state in bounds one round of the loop, whatever the instruction, its operands and the keyboard,
  -- leaves a state in bounds, however it ends, and changes no memory behind the stack.
  pub round-IsSafe :
      (iters : ℕ) (vm : Vm W)
      → IsSafe memory vm
      → IsSafe memory (after (round platform funcs iters vm))
  unfolding round step after
  round-IsSafe iters vm h =
      if-cases Safe (length vm.frames == 0) _ _ (λ bare. h)
        (λ framed.
          if-cases Safe (iters % 256 == 0 && stops platform funcs (platform.kbd_peek vm.world)) _ _
            (λ stop. record {
              bounded = record {
                sp_le = h.bounded.sp_le;
                depth = h.bounded.depth;
                locals = h.bounded.locals;
              };
              behind = h.behind;
            })
            (λ go. step_in-Safe vm.frames vm refl h))
