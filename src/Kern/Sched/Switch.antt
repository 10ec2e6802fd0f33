-- ===== src/Kern/Sched/Switch.antt =====
-- The switches of sched.c: which task runs, on which stack and in which address space.
use no_os.Base.{
  ℕ, ◌≤◌, ◌<◌, ◌≡◌, refl, sym, ap, ◌∙◌, ◌≢◌, inl, inr, true, false, some, List, arith,
  if◌then◌else◌, length, set, length-set, get_or-set_self, get_or-set_ne, ℕ_discrete, add64, subst,
}
use no_os.Kern.Sched.{
  switch_to, pick_from, Task, runnable, running, Sched, Resume, to_user, to_shell, stay, task_max,
  task_at, zero_task, eligible, dispatched, run_task, sched_entry_frame, sched_switch_to_next,
}
use no_os.Kern.Sched.Pick.{pick_cases, dist, sched_pick_user_lem, pick-none_iff}

-- The table has its size, the indices are in it, and task 0 is the shell.
pub record IsTable (s : Sched) : Type 0 where
  pub size : length s.tasks ≡ task_max
  pub last_in : s.sched_last < task_max
  pub shell : (task_at s.tasks 0).user ≡ false

-- No task runs: the state inside a switch.
pub record IsStopped (s : Sched) : Type 0 where
  pub table : IsTable s
  pub idle : (i : ℕ) → (task_at s.tasks i).state ≢ running

-- The task `current`, if it is not the shell, runs, and no other does.
pub record IsValid (s : Sched) : Type 0 where
  pub table : IsTable s
  pub current_in : s.current < task_max
  pub runs :
      s.current ≢ 0
      → ((task_at s.tasks s.current).user ≡ true) × ((task_at s.tasks s.current).state ≡ running)
  pub alone : (i : ℕ) → ((task_at s.tasks i).state ≡ running) → (i ≡ s.current) × (i ≢ 0)

-- How a switch from a stopped table ends.
abbrev pub Switched : ℕ → Sched → Resume × Sched → Type 0
Switched kernel_cr3 s (stay, s') = ⊥
Switched kernel_cr3 s (to_shell, s') =
    IsValid s'
    × (s'.current ≡ 0)
    × (s'.cr3 ≡ kernel_cr3)
    × (s'.rsp0 ≡ add64 (task_at s.tasks 0).kstack (task_at s.tasks 0).kstack_size)
    × ((t : ℕ) → t < task_max → eligible s.tasks t ≡ false)
    × ((j : ℕ) → j ≢ 0 → task_at s'.tasks j ≡ task_at s.tasks j)
    × (s'.sched_last ≡ s.sched_last)
Switched kernel_cr3 s (to_user frame, s') =
    let t = task_at s.tasks s'.current in
    IsValid s'
    × (s'.current ≢ 0)
    × (eligible s.tasks s'.current ≡ true)
    × (frame ≡ (if t.started then t.ctx else sched_entry_frame))
    × (s'.cr3 ≡ t.cr3)
    × (s'.rsp0 ≡ add64 t.kstack t.kstack_size)
    × ((j : ℕ) → j ≢ s'.current → task_at s'.tasks j ≡ task_at s.tasks j)
    × (s'.sched_last ≡ s'.current)
    × ((t : ℕ)
        → t < task_max
        → eligible s.tasks t ≡ true
        → dist s.sched_last s'.current ≤ dist s.sched_last t)

eligible_facts :
    (tasks : List Task) (i : ℕ)
    → eligible tasks i ≡ true
    → (i ≢ 0) × ((task_at tasks i).user ≡ true) × ((task_at tasks i).state ≡ runnable)
unfolding eligible
eligible_facts tasks i e = ground arith

dispatched_lem :
    (t : Task)
    → ((dispatched t).state ≡ running)
      × ((dispatched t).user ≡ t.user)
      × ((dispatched t).ctx ≡ (if t.started then t.ctx else sched_entry_frame))
unfolding dispatched
dispatched_lem t = ground arith

module _ (s : Sched) (v : IsStopped s) (i : ℕ) (h : i < task_max)
    (el : eligible s.tasks i ≡ true) where
  here : task_at (run_task i s).tasks i ≡ dispatched (task_at s.tasks i)
  unfolding run_task
  here =
      get_or-set_self s.tasks i (dispatched (task_at s.tasks i)) zero_task
        (omega (arith, v.table.size))

  there : (j : ℕ) → j ≢ i → task_at (run_task i s).tasks j ≡ task_at s.tasks j
  unfolding run_task
  there j ne =
      get_or-set_ne s.tasks i j (dispatched (task_at s.tasks i)) zero_task (λ e. ne (sym e))

  run_task-IsTable : IsTable (run_task i s)
  run_task-IsTable = record {
    size = unfold run_task in length-set s.tasks i (dispatched (task_at s.tasks i)) ∙ v.table.size;
    last_in = unfold run_task in v.table.last_in;
    shell =
        ap (λ (t : Task). t.user) (there 0 (λ z. (eligible_facts s.tasks i el).0 (sym z)))
        ∙ v.table.shell;
  }

  pub run_task-IsValid : IsValid (run_task i s)
  unfolding run_task
  run_task-IsValid = record {
    table = run_task-IsTable;
    current_in = h;
    runs = λ nz. (
      ap (λ (t : Task). t.user) here
          ∙ (dispatched_lem (task_at s.tasks i)).1
          ∙ (eligible_facts s.tasks i el).1,
      ap (λ (t : Task). t.state) here ∙ (dispatched_lem (task_at s.tasks i)).0,
    );
    alone = λ j r. elim (ℕ_discrete j i) [
      | yes e ↦ (e, λ z. (eligible_facts s.tasks i el).0 (sym e ∙ z))
      | no ne ↦ absurd (v.idle j (sym (ap (λ (t : Task). t.state) (there j ne)) ∙ r))
    ];
  }

-- The state after the pick of `i` is stopped as the one before.
pub picked-IsStopped :
    (s : Sched) (i : ℕ) → IsStopped s → i < task_max → IsStopped (record s { sched_last = i })
picked-IsStopped s i v h = record {
  table = record { size = v.table.size; last_in = h; shell = v.table.shell };
  idle = v.idle;
}

run_task-Switched :
    (kernel_cr3 : ℕ) (s : Sched) (v : IsStopped s) (i : ℕ)
    → pick_from s.tasks s.sched_last 0 task_max ≡ some i
    → Switched kernel_cr3 s
        (to_user (dispatched (task_at s.tasks i)).ctx, run_task i (record s { sched_last = i }))
unfolding run_task
run_task-Switched kernel_cr3 s v i e =
    let w = sched_pick_user_lem s i e v.table.last_in in
    let s1 : Sched = record s { sched_last = i } in
    let v1 = picked-IsStopped s i v w.0 in
    (
      run_task-IsValid s1 v1 i w.0 w.1,
      (eligible_facts s.tasks i w.1).0,
      w.1,
      (dispatched_lem (task_at s.tasks i)).2,
      refl,
      refl,
      there s1 v1 i w.0 w.1,
      refl,
      w.2,
    )

module _ (kernel_cr3 : ℕ) (s : Sched) (v : IsStopped s) where
  back_to_shell : Sched
  back_to_shell = record s {
    tasks = set s.tasks 0 (record (task_at s.tasks 0) { state = runnable });
    current = 0;
    rsp0 = add64 (task_at s.tasks 0).kstack (task_at s.tasks 0).kstack_size;
    cr3 = kernel_cr3;
  }

  shell_task :
      task_at (set s.tasks 0 (record (task_at s.tasks 0) { state = runnable })) 0
      ≡ record (task_at s.tasks 0) { state = runnable }
  shell_task =
      get_or-set_self s.tasks 0 (record (task_at s.tasks 0) { state = runnable }) zero_task
        (omega (arith, v.table.size))

  not_running :
      (j : ℕ)
      → (task_at (set s.tasks 0 (record (task_at s.tasks 0) { state = runnable })) j).state
        ≢ running
  not_running j r = elim (ℕ_discrete 0 j) [
    | yes e ↦ cc (rw (← e) at r, shell_task)
    | no ne ↦ v.idle j (
        sym (
          ap (λ (t : Task). t.state)
            (get_or-set_ne s.tasks 0 j (record (task_at s.tasks 0) { state = runnable }) zero_task
              ne))
        ∙ r)
  ]

  back_to_shell-IsValid : IsValid back_to_shell
  unfolding back_to_shell
  back_to_shell-IsValid = record {
    table = record {
      size = length-set s.tasks 0 (record (task_at s.tasks 0) { state = runnable }) ∙ v.table.size;
      last_in = v.table.last_in;
      shell = ap (λ (t : Task). t.user) shell_task ∙ v.table.shell;
    };
    current_in = omega arith;
    runs = λ nz. absurd (nz refl);
    alone = λ j r. absurd (not_running j r);
  }

  -- From a table in which no task runs, a switch enters the eligible task that comes first after the last
  -- one picked, going round, and makes it the last one picked, with the frame saved for it or, the first
  -- time, the entry frame, on its kernel stack and in its address space; with no eligible task it goes
  -- back to the shell, in the kernel's address space. It touches no other task. Afterwards the current
  -- task is the only one that runs.
  pub switch-Switched : Switched kernel_cr3 s (sched_switch_to_next kernel_cr3 s)
  unfolding sched_switch_to_next switch_to back_to_shell
  switch-Switched = elim (pick_cases s) [
    | inl (e, q) ↦
        subst (λ o. Switched kernel_cr3 s (switch_to kernel_cr3 o)) (sym q)
          (
            back_to_shell-IsValid,
            refl,
            refl,
            refl,
            (pick-none_iff s v.table.last_in).0 e,
            λ j ne.
                get_or-set_ne s.tasks 0 j (record (task_at s.tasks 0) { state = runnable })
                  zero_task (λ z. ne (sym z)),
            refl,
          )
    | inr (i, e, q) ↦
        subst (λ o. Switched kernel_cr3 s (switch_to kernel_cr3 o)) (sym q)
          (run_task-Switched kernel_cr3 s v i e)
  ]
