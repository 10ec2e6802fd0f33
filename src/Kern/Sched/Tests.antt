-- ===== src/Kern/Sched/Tests.antt =====
-- Runs of sched.c and of the key-wait call on a table with the shell and two user tasks.
use no_os.Base.{
  ℕ, zero, suc, ◌*◌, ◌≤◌, ◌<◌, ◌≡◌, refl, ◌≢◌, true, false, none, some, [], ◌∷◌, arith, length,
  replicate,
}
use no_os.Kern.Sched.{
  Task, TaskState, runnable, running, Sched, Memory, task_max, task_at, zero_task, zero_regs,
  eligible, pick_from, sched_pick_user, sched_switch_to_next, preempted, sched_spawn, sched_init,
}
use no_os.Drivers.Kbd.{Kbd}
use no_os.Kern.KeyWait.{kbd_wait, kbd_wait_stalls}
use no_os.Kern.Sched.Pick.{passes-le, PassedOver}
use no_os.Kern.Sched.Switch.{IsStopped, IsValid, Switched, switch-Switched}
use no_os.Kern.Sched.Wake.{
  ticks, preempts, handle, Reach, start, after, Reach-IsValid, put-IsStopped,
}
use no_os.Kern.Sched.Spawn.{Numbered, Spawned, sched_spawn-Spawned, sched_init-IsValid}

abbrev user_task : ℕ → TaskState → Task
user_task pid state = record zero_task {
  pid = pid;
  state = state;
  kstack = 4096 * pid;
  kstack_size = 16384;
  cr3 = 8192 * pid;
  user = true;
}

-- Task 1 runs, task 2 waits for its turn, and the other slots are empty.
abbrev busy : Sched
busy = record {
  tasks =
      record zero_task { kstack = 1024 }
      ∷ user_task 1 running
      ∷ user_task 2 runnable
      ∷ replicate 13 zero_task;
  current = 1;
  next_pid = 3;
  sched_last = 1;
  rsp0 = 0;
  cr3 = 0;
}

next_is_two : sched_pick_user busy ≡ (some 2, record busy { sched_last = 2 })
unfolding sched_pick_user pick_from eligible
next_is_two = refl

empty_slot : (n i : ℕ) → (task_at (replicate n zero_task) i).state ≡ runnable
empty_slot zero i = refl
empty_slot (suc n) zero = refl
empty_slot (suc n) (suc i) = empty_slot n i

busy-IsValid : IsValid busy
busy-IsValid = record {
  table = record { size = refl; last_in = omega arith; shell = refl };
  current_in = omega arith;
  runs = λ nz. (refl, refl);
  alone = alone;
}
  where
    alone : (i : ℕ) → (task_at busy.tasks i).state ≡ running → (i ≡ busy.current) × (i ≢ 0)
    alone zero e = cc
    alone (suc zero) e = (refl, λ z. absurd (omega arith))
    alone (suc (suc zero)) e = cc
    alone (suc (suc (suc i))) e = cc (empty_slot 13 i, e)

abbrev parked : Sched
parked = preempted zero_regs busy

parked-IsStopped : IsStopped parked
parked-IsStopped = put-IsStopped busy _ busy-IsValid (λ z. absurd (omega arith)) (λ e. cc)

abbrev after_two : Sched
after_two = record busy { sched_last = 2 }

-- Task 2 waits while task 1 is picked.
two_waits : PassedOver 2 after_two (parked.tasks ∷ [])
unfolding sched_pick_user pick_from eligible
two_waits = (1, refl, (λ z. absurd (omega arith)), refl, tt)

passes-le_example : length (parked.tasks ∷ []) ≤ 15
passes-le_example = passes-le 2 after_two (parked.tasks ∷ []) (omega arith) (omega arith) two_waits

switch-Switched_example : Switched 0x1000 parked (sched_switch_to_next 0x1000 parked)
switch-Switched_example = switch-Switched 0x1000 parked parked-IsStopped

history :
    Reach 0x1000 busy
      (handle 0x1000 (ticks 9 zero_regs) (handle 0x1000 (preempts zero_regs) busy).1).1
history =
    after (ticks 9 zero_regs) (after (preempts zero_regs) start (λ z. absurd (omega arith))) tt

Reach-IsValid_example :
    IsValid (handle 0x1000 (ticks 9 zero_regs) (handle 0x1000 (preempts zero_regs) busy).1).1
Reach-IsValid_example = Reach-IsValid 0x1000 busy-IsValid history

abbrev booted : Sched
booted = record {
  tasks =
      record zero_task { kstack = 1024; kstack_size = 16384; model_budget_kb = 8192 }
      ∷ replicate 15 zero_task;
  current = 0;
  next_pid = 1;
  sched_last = 0;
  rsp0 = 17408;
  cr3 = 0;
}

booted-IsValid : IsValid booted
unfolding sched_init
booted-IsValid = (sched_init-IsValid 1024 (record booted { tasks = [] }) (omega arith)).0

no_pid : (n i : ℕ) → (task_at (replicate n zero_task) i).pid ≡ 0
no_pid zero i = refl
no_pid (suc n) zero = refl
no_pid (suc n) (suc i) = no_pid n i

booted_pids : (i : ℕ) → (task_at booted.tasks i).pid ≡ 0
booted_pids zero = refl
booted_pids (suc i) = no_pid 15 i

booted-Numbered : Numbered booted
booted-Numbered = record {
  below = λ i. omega (arith, booted_pids i);
  distinct = λ i j nz e. absurd (nz (booted_pids i));
}

abbrev memory : Memory
memory = record { new_cr3 = 0x5000; new_kstack = 0x9000; mapped = true }

sched_spawn-Spawned_example : Spawned memory booted (sched_spawn memory booted)
sched_spawn-Spawned_example =
    sched_spawn-Spawned memory booted booted-IsValid booted-Numbered refl (omega arith)

abbrev no_key : Kbd
no_key = record {
  buf = replicate 256 0;
  head = 7;
  tail = 7;
  shift = false;
  caps = false;
  ext = false;
  ctrl = false;
}

kbd_wait_stalls_example :
    (s' : Sched) × (kbd_wait 17 0x1000 no_key zero_regs busy ≡ some (none, no_key, s'))
    × (s'.current ≡ 0)
    × ((t : ℕ) → t < task_max → eligible s'.tasks t ≡ false)
kbd_wait_stalls_example =
    kbd_wait_stalls 0x1000 no_key zero_regs busy refl busy-IsValid (λ z. absurd (omega arith))
