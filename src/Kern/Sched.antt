-- ===== src/Kern/Sched.antt =====
-- kernel/kern/sched.c: the task table, round robin over user tasks, and the switches between them.
-- The assembly routines that save and restore the shell's coroutine and enter user mode are the two
-- ways in which a switch can end. What other subsystems return to `sched_spawn` is its argument.
pub mod Pick
pub mod Switch
pub mod Wake
pub mod Spawn
mod Tests
use no_os.Base.{
  ℕ, zero, suc, ◌+◌, ◌*◌, ◌%◌, Bool, true, false, not, ◌&&◌, ◌||◌, Option, none, some, List, [],
  ◌∷◌, map, leb, ◌==◌, if◌then◌else◌, get_or, set, replicate, add64, add32,
}

abbrev pub task_max : ℕ
task_max = 16

abbrev pub task_kstack_size : ℕ
task_kstack_size = 16 * 1024

pub data TaskState : Type 0 where
  runnable running blocked zombie : TaskState

-- `struct regs`; `general` holds the registers from r15 to error, in the order of the structure.
pub record Regs : Type 0 where
  pub general : List ℕ
  pub rip : ℕ
  pub cs : ℕ
  pub rflags : ℕ
  pub rsp : ℕ
  pub ss : ℕ

-- `task_t`, without the name, the swap map and the model's fields, which this file only clears.
pub record Task : Type 0 where
  pub pid : ℕ
  pub state : TaskState
  pub kstack : ℕ
  pub kstack_size : ℕ
  pub ctx : Regs
  pub cr3 : ℕ
  pub wake_ticks : ℕ
  pub user : Bool
  pub started : Bool
  pub on_key : Bool
  pub heap_used : ℕ
  pub heap_pages : ℕ
  pub model_budget_kb : ℕ
  pub exit_code : ℕ

-- The static variables, with `current` as an index, and the two processor registers that a switch loads.
pub record Sched : Type 0 where
  pub tasks : List Task
  pub current : ℕ
  pub next_pid : ℕ
  pub sched_last : ℕ
  pub rsp0 : ℕ
  pub cr3 : ℕ

-- What `memset(…, 0, …)` leaves.
abbrev pub zero_regs : Regs
zero_regs = record { general = replicate 17 0; rip = 0; cs = 0; rflags = 0; rsp = 0; ss = 0 }

abbrev pub zero_task : Task
zero_task = record {
  pid = 0;
  state = runnable;
  kstack = 0;
  kstack_size = 0;
  ctx = zero_regs;
  cr3 = 0;
  wake_ticks = 0;
  user = false;
  started = false;
  on_key = false;
  heap_used = 0;
  heap_pages = 0;
  model_budget_kb = 0;
  exit_code = 0;
}

abbrev pub task_at : List Task → ℕ → Task
task_at tasks i = get_or tasks i zero_task

abbrev pub is_runnable : TaskState → Bool
is_runnable runnable = true
is_runnable _ = false

abbrev pub is_blocked : TaskState → Bool
is_blocked blocked = true
is_blocked _ = false

abbrev pub is_zombie : TaskState → Bool
is_zombie zombie = true
is_zombie _ = false

-- Task 0, the shell, is never picked.
unfoldable pub eligible : List Task → ℕ → Bool
eligible tasks idx =
    not (idx == 0) && (task_at tasks idx).user && is_runnable (task_at tasks idx).state

-- The rounds of `sched_pick_user` from `i` on.
pub pick_from : List Task → ℕ → ℕ → ℕ → Option ℕ
pick_from tasks last i zero = none
pick_from tasks last i (suc n) =
    let rest = pick_from tasks last (i + 1) n in
    if eligible tasks ((last + 1 + i) % task_max) then some ((last + 1 + i) % task_max) else rest

-- The pick is where the next search begins.
pub sched_pick_user : Sched → Option ℕ × Sched
unfolding pick_from
sched_pick_user s = elim (pick_from s.tasks s.sched_last 0 task_max) [
  | none ↦ (none, s)
  | some i ↦ (some i, record s { sched_last = i })
]

abbrev pub user_image_base : ℕ
user_image_base = 0x0000010000000000

abbrev pub user_stack_top : ℕ
user_stack_top = 0x00000100F0010000

-- Code and data selectors with privilege 3, and interrupts on.
pub sched_entry_frame : Regs
sched_entry_frame = record zero_regs {
  rip = user_image_base;
  cs = 0x1B;
  rflags = 0x202;
  rsp = user_stack_top;
  ss = 0x23;
}

abbrev pub put_task : ℕ → Task → Sched → Sched
put_task i t s = record s { tasks = set s.tasks i t }

-- A task that is about to run, with its entry frame the first time.
pub dispatched : Task → Task
dispatched t =
    if t.started
    then record t { state = running }
    else record t { state = running; ctx = sched_entry_frame; started = true }

-- `current = next` and what follows it: the task runs, on its kernel stack and in its address space.
pub run_task : ℕ → Sched → Sched
run_task i s =
    let t = task_at s.tasks i in
    record s {
      tasks = set s.tasks i (dispatched t);
      current = i;
      rsp0 = add64 t.kstack t.kstack_size;
      cr3 = t.cr3;
    }

-- How a switch ends: in a user task's frame, in the shell's coroutine, or where it was called.
pub data Resume : Type 0 where
  to_user : Regs → Resume
  to_shell stay : Resume

-- What a switch does with the pick; `kernel_cr3` is the boot page table.
pub switch_to : ℕ → Option ℕ × Sched → Resume × Sched
switch_to kernel_cr3 (none, s) =
    let t = task_at s.tasks 0 in
    (
      to_shell,
      record s {
        tasks = set s.tasks 0 (record t { state = runnable });
        current = 0;
        rsp0 = add64 t.kstack t.kstack_size;
        cr3 = kernel_cr3;
      },
    )
switch_to kernel_cr3 (some i, s) = (to_user (dispatched (task_at s.tasks i)).ctx, run_task i s)

pub sched_switch_to_next : ℕ → Sched → Resume × Sched
unfolding switch_to
sched_switch_to_next kernel_cr3 s = switch_to kernel_cr3 (sched_pick_user s)

-- From the shell: the coroutine is saved, and a user task runs if there is one.
pub yield_to : Option ℕ × Sched → Resume × Sched
yield_to (none, s) = (stay, s)
yield_to (some i, s) = (to_user (dispatched (task_at s.tasks i)).ctx, run_task i s)

pub sched_yield_to_user : Sched → Resume × Sched
unfolding yield_to
sched_yield_to_user s = yield_to (sched_pick_user s)

abbrev pub current_task : Sched → Task
current_task s = task_at s.tasks s.current

-- The current task as each of the three calls leaves it before the switch.
abbrev pub preempted : Regs → Sched → Sched
preempted r s = put_task s.current (record (current_task s) { ctx = r; state = runnable }) s

abbrev pub blocking : Regs → ℕ → Bool → Sched → Sched
blocking r wake_ticks on_key s =
    put_task s.current
      (record (current_task s) {
        ctx = r;
        state = blocked;
        wake_ticks = wake_ticks;
        on_key = on_key;
      })
      s

abbrev pub exited : ℕ → Sched → Sched
exited code s =
    put_task s.current (record (current_task s) { exit_code = code; state = zombie; cr3 = 0 }) s

pub sched_preempt : ℕ → Regs → Sched → Resume × Sched
sched_preempt kernel_cr3 r s = sched_switch_to_next kernel_cr3 (preempted r s)

unfoldable pub sched_block_user : ℕ → Regs → ℕ → Bool → Sched → Resume × Sched
sched_block_user kernel_cr3 r wake_ticks on_key s =
    sched_switch_to_next kernel_cr3 (blocking r wake_ticks on_key s)

-- The log, the model's and the swap's cleanup and the freeing of the address space belong to other files.
pub sched_exit_user : ℕ → ℕ → Sched → Resume × Sched
sched_exit_user kernel_cr3 code s = sched_switch_to_next kernel_cr3 (exited code s)

-- A sleeper whose time has come.
pub tick_task : ℕ → Task → Task
tick_task now t =
    if is_blocked t.state && not (t.wake_ticks == 0) && leb t.wake_ticks now
    then record t { state = runnable; wake_ticks = 0 }
    else t

abbrev over_users : (Task → Task) → List Task → List Task
over_users f [] = []
over_users f (shell ∷ users) = shell ∷ map f users

pub sched_on_tick : ℕ → ℕ → Regs → Sched → Resume × Sched
sched_on_tick kernel_cr3 now r s =
    let s' = record s { tasks = over_users (tick_task now) s.tasks } in
    if (current_task s').user then sched_preempt kernel_cr3 r s' else (stay, s')

pub key_task : Task → Task
key_task t =
    if is_blocked t.state && t.on_key then record t { state = runnable; on_key = false } else t

pub sched_on_key : Sched → Sched
sched_on_key s = record s { tasks = over_users key_task s.tasks }

-- `kstack` is what `kmalloc` returned for the shell's stack.
pub sched_init : ℕ → Sched → Sched
sched_init kstack s = record s {
  tasks =
      record zero_task { kstack = kstack; kstack_size = task_kstack_size; model_budget_kb = 8192 }
      ∷ replicate 15 zero_task;
  current = 0;
  rsp0 = add64 kstack task_kstack_size;
}

-- The first slot from `i` on that no live task has.
pub free_slot : List Task → ℕ → ℕ → Option ℕ
free_slot tasks i zero = none
free_slot tasks i (suc n) =
    let rest = free_slot tasks (i + 1) n in
    if is_zombie (task_at tasks i).state || (task_at tasks i).pid == 0 then some i else rest

-- What `sched_spawn` is given by the memory managers: the new page table and kernel stack, 0 for none,
-- and whether there were frames for the image, the script and the stack.
pub record Memory : Type 0 where
  pub new_cr3 : ℕ
  pub new_kstack : ℕ
  pub mapped : Bool

abbrev pub cleared_slot : Task
cleared_slot = record zero_task { model_budget_kb = 8192 }

-- `none` is the result -1.
pub sched_spawn : Memory → Sched → Option ℕ × Sched
unfolding free_slot
sched_spawn m s = elim (free_slot s.tasks 1 15) [
  | none ↦ (none, s)
  | some i ↦
      if m.new_cr3 == 0 || m.new_kstack == 0 || not m.mapped
      then (none, put_task i cleared_slot s)
      else (
        some s.next_pid,
        record s {
          tasks = set s.tasks i (record cleared_slot {
            pid = s.next_pid;
            kstack = m.new_kstack;
            kstack_size = task_kstack_size;
            cr3 = m.new_cr3;
            user = true;
          });
          next_pid = add32 s.next_pid 1;
        },
      )
]
