-- ===== src/Noc/Vm/Tests.antt =====
-- Runs of small programs on the machine of vm.c.
use no_os.Base.{
  ℕ, ◌-◌, ◌^◌, ◌≡◌, refl, true, false, if◌then◌else◌, ◌==◌, Option, none, some, List, [], ◌∷◌,
  arith, get_or,
}
use no_os.Noc.Registry.{to_lower, noc_name_eq, noc_lookup, Fn}
use no_os.Noc.Alu.{binary}
use no_os.Noc.Alu.Signed.{DivMod, binary-div-mod}
use no_os.Noc.Vm.{
  has_code, with_string, call_builtin, call_named, enter, leave, binary_result, with_pop, push,
  decode, step, round, go_on, finish, Vm, Platform, run_loop, start, noc_vm_run, step, step_in,
  round, execute, stops,
}
use no_os.Noc.Vm.Bounds.{IsSafe, after}
use no_os.Noc.Vm.Run.{noc_vm_run-IsSafe}

-- A system whose builtins return 7, with a key that waits or none.
abbrev sevens : Option ℕ → Platform Unit
sevens key = record {
  kbd_peek = λ w. key;
  kbd_poll = λ w. w;
  builtin = λ index arguments vm. (some 7, vm);
}

abbrev code_of : List ℕ → ℕ → ℕ
code_of bytes i = get_or bytes i 0

-- `double(x)` is `x + x`: LOAD 0, DUP, ADD, RET.
abbrev double : Fn
double = record {
  name = b'd' ∷ [];
  code = code_of (4 ∷ 0 ∷ 0 ∷ 0 ∷ 0 ∷ 2 ∷ 11 ∷ 7 ∷ []);
  code_len = 8;
  strings = [];
  nlocals = 1;
  builtin = none;
  last_expr = false;
}

-- PUSH 21, CALL double with one argument, HALT.
abbrev main : Fn
main = record {
  name = [];
  code = code_of (0 ∷ 21 ∷ 0 ∷ 0 ∷ 0 ∷ 0 ∷ 0 ∷ 0 ∷ 0 ∷ 6 ∷ 0 ∷ 0 ∷ 0 ∷ 0 ∷ 1 ∷ 0 ∷ 0 ∷ 0 ∷ 30 ∷ []);
  code_len = 19;
  strings = record { ptr = 4096; text = b'D' ∷ [] } ∷ [];
  nlocals = 0;
  builtin = none;
  last_expr = true;
}

abbrev blank : Vm Unit
blank = record { stack = λ i. 0; sp = 0; frames = []; world = tt }

-- A call without regard to case, and the result of the program.
doubles : (noc_vm_run (sevens none) (λ w. double ∷ []) 10 (some main) blank).1 ≡ some 42
unfolding noc_vm_run has_code finish run_loop go_on round stops step step_in execute decode push
    with_pop binary_result leave enter call_named with_string start binary noc_lookup noc_name_eq
    to_lower
doubles = refl

-- A system whose builtins write 9 to the lowest word of the stack, and a registry with such a builtin.
abbrev poking : Platform Unit
poking = record {
  kbd_peek = λ w. none;
  kbd_poll = λ w. w;
  builtin =
      λ index arguments vm. (some 7, record vm { stack = λ j. if j == 0 then 9 else vm.stack j });
}

abbrev poke : Fn
poke = record {
  name = b'd' ∷ [];
  code = code_of [];
  code_len = 0;
  strings = [];
  nlocals = 0;
  builtin = some 0;
  last_expr = false;
}

pokes : (noc_vm_run poking (λ w. poke ∷ []) 10 (some main) blank).1 ≡ some 7
unfolding noc_vm_run has_code finish run_loop go_on round stops step step_in execute decode push
    with_pop binary_result leave enter call_named with_string start binary noc_lookup noc_name_eq
    to_lower call_builtin
pokes = refl

noc_vm_run-IsSafe_example :
    IsSafe blank.stack (after (noc_vm_run poking (λ w. poke ∷ []) 10 (some main) blank).0)
noc_vm_run-IsSafe_example =
    noc_vm_run-IsSafe poking (λ w. poke ∷ []) 10 (some main) blank
      (λ index arguments vm safe. (
        record {
          bounded = record {
            sp_le = safe.bounded.sp_le;
            depth = safe.bounded.depth;
            locals = safe.bounded.locals;
          };
          behind = λ j le. let e = safe.behind j le in ground arith;
        },
        refl,
      ))

abbrev minus_seven : ℕ
minus_seven = 2 ^ 64 - 7

binary-div-mod_example : DivMod minus_seven 2
binary-div-mod_example = binary-div-mod minus_seven 2 (omega arith) (omega arith)
