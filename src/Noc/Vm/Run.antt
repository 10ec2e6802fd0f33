-- ===== src/Noc/Vm/Run.antt =====
-- Whole runs of the machine of vm.c: its bounds, and the key that ends a run.
use no_os.Base.{
  ℕ, zero, suc, ◌+◌, ◌-◌, ◌%◌, ◌^◌, ◌<◌, ◌≡◌, refl, sym, true, not, Option, none, some, List, [],
  arith, ltb, ℕ_discrete, if-cases, subst,
}
use no_os.Noc.Registry.{Fn}
use no_os.Noc.Vm.{
  has_code, go_on, finish, Vm, Outcome, next, halted, trap, failed, Platform, noc_stack_size, round,
  run_loop, stops, start, noc_vm_run,
}
use no_os.Noc.Vm.Bounds.{IsTame, IsSafe, after, round-IsSafe}

-- The program still runs.
abbrev pub Runs : {W : Type 0} → Outcome W → Type 0
Runs (next vm) = Unit
Runs _ = ⊥

module _ {W : Type 0} where
  go_on-IsSafe :
      (memory : ℕ → ℕ) (k : Vm W → Outcome W) (o : Outcome W)
      → ((vm : Vm W) → IsSafe memory vm → IsSafe memory (after (k vm)))
      → IsSafe memory (after o)
      → IsSafe memory (after (go_on k o))
  unfolding go_on after
  go_on-IsSafe memory k (next vm') kh h = kh vm' h
  go_on-IsSafe memory k (halted vm') kh h = h
  go_on-IsSafe memory k (trap vm') kh h = h
  go_on-IsSafe memory k (failed e vm') kh h = h

  finish-after : (f : Fn) (o : Outcome W) → (finish f o).0 ≡ o
  unfolding finish
  finish-after f (next vm') = refl
  finish-after f (halted vm') = refl
  finish-after f (trap vm') = refl
  finish-after f (failed e vm') = refl

  round_ends : (k : Vm W → Outcome W) (o : Outcome W) → ¬ Runs o → ¬ Runs (go_on k o)
  unfolding go_on
  round_ends k (next vm') h = absurd (h tt)
  round_ends k (halted vm') h = λ r. r
  round_ends k (trap vm') h = λ r. r
  round_ends k (failed e vm') h = λ r. r

  not_Runs-go_on :
      (k : Vm W → Outcome W) (o : Outcome W) → ((vm : Vm W) → ¬ Runs (k vm)) → ¬ Runs (go_on k o)
  unfolding go_on
  not_Runs-go_on k (next vm') kh = kh vm'
  not_Runs-go_on k (halted vm') kh = λ r. r
  not_Runs-go_on k (trap vm') kh = λ r. r
  not_Runs-go_on k (failed e vm') kh = λ r. r

module _ {W : Type 0} (platform : Platform W) (funcs : W → List Fn) where
  run_loop-IsSafe :
      (memory : ℕ → ℕ)
      → IsTame platform memory
      → (fuel iters : ℕ) (vm : Vm W) → IsSafe memory vm
      → IsSafe memory (after (run_loop platform funcs fuel iters vm))
  unfolding run_loop after
  run_loop-IsSafe memory tame zero iters vm h = h
  run_loop-IsSafe memory tame (suc fuel) iters vm h =
      go_on-IsSafe memory _ (round platform funcs iters vm)
        (run_loop-IsSafe memory tame fuel ((iters + 1) % 2 ^ 64))
        (round-IsSafe platform funcs memory tame iters vm h)

  -- A run from any state of the machine, with as much fuel as one likes, leaves a state in bounds and changes no
  -- memory behind the stack, however it ends, if each builtin that it calls in bounds leaves the machine in
  -- bounds and the stack pointer where it is, and writes nothing behind the stack: no instruction of the
  -- machine itself breaks the bounds.
  pub noc_vm_run-IsSafe :
      (fuel : ℕ) (f : Option Fn) (vm : Vm W)
      → IsTame platform vm.stack
      → IsSafe vm.stack (after (noc_vm_run platform funcs fuel f vm).0)
  unfolding noc_vm_run start after
  noc_vm_run-IsSafe fuel none vm tame = record {
    bounded = record { sp_le = omega arith; depth = omega arith; locals = tt };
    behind = λ j le. refl;
  }
  noc_vm_run-IsSafe fuel (some f) vm tame =
      let emptied : IsSafe vm.stack (record vm { sp = 0; frames = [] }) = record {
        bounded = record { sp_le = omega arith; depth = omega arith; locals = tt };
        behind = λ j le. refl;
      } in
      let Ends : (Outcome W × Option ℕ → Type 0) = λ o. IsSafe vm.stack (after o.0) in
      if-cases Ends (not (has_code f)) _ _ (λ bare. emptied)
        (λ code.
          if-cases Ends (ltb noc_stack_size f.nlocals) _ _ (λ many. emptied)
            (λ few.
              subst (λ (o : Outcome W). IsSafe vm.stack (after o))
                (sym (finish-after f (run_loop platform funcs fuel 0 (start f vm))))
                (run_loop-IsSafe vm.stack tame fuel 0 (start f vm) (record {
                  bounded = record {
                    sp_le = ground arith;
                    depth = omega arith;
                    locals = ((ground arith), tt);
                  };
                  behind = λ j le. ground arith;
                }))))

  round_stopped :
      (iters : ℕ) (vm : Vm W)
      → iters % 256 ≡ 0
      → stops platform funcs (platform.kbd_peek vm.world) ≡ true
      → ¬ Runs (round platform funcs iters vm)
  unfolding round
  round_stopped iters vm look esc = ground arith

  -- While Esc or Ctrl+C waits, a run ends at the next round that looks at the keyboard: with fuel for that
  -- many rounds, at most 256, it is not running at the end.
  pub run_loop_stopped :
      ((w : W) → stops platform funcs (platform.kbd_peek w) ≡ true)
      → (fuel iters : ℕ) (vm : Vm W) → (256 - iters % 256) % 256 < fuel
      → ¬ Runs (run_loop platform funcs fuel iters vm)
  unfolding run_loop
  run_loop_stopped esc zero iters vm h = absurd (omega arith)
  run_loop_stopped esc (suc fuel) iters vm h = elim (ℕ_discrete (iters % 256) 0) [
    | yes look ↦ round_ends _ _ (round_stopped iters vm look (esc vm.world))
    | no late ↦
        not_Runs-go_on _ (round platform funcs iters vm)
          (λ vm'. run_loop_stopped esc fuel ((iters + 1) % 2 ^ 64) vm' (omega arith))
  ]
