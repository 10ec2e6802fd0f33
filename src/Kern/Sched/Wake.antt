-- ===== src/Kern/Sched/Wake.antt =====
-- Timer ticks and keys: who is woken, and the histories of events.
use no_os.Base.{
  ℕ, zero, suc, ◌≤◌, ◌<◌, ◌≡◌, refl, sym, ap, ◌∙◌, ◌≢◌, ◌⊎◌, inl, inr, Bool, true, List, [], ◌∷◌,
  map, arith, Bool-cases, length, length-set, get_or-set_self, get_or-set_ne, ℕ_discrete, subst,
}
use no_os.Kern.Sched.{
  yield_to, current_task, preempted, blocking, exited, Task, runnable, running, blocked, zombie,
  Sched, Regs, Resume, to_user, to_shell, stay, task_at, zero_task, put_task, over_users, tick_task,
  key_task, sched_switch_to_next, sched_yield_to_user, sched_preempt, sched_block_user,
  sched_exit_user, sched_on_tick, sched_on_key, sched_spawn, Memory,
}
use no_os.Kern.Sched.Pick.{sched_pick_user_lem, pick_cases}
use no_os.Kern.Sched.Spawn.{sched_spawn-IsValid}
use no_os.Kern.Sched.Switch.{
  IsStopped, IsValid, Switched, switch-Switched, run_task-IsValid, picked-IsStopped,
}

get_or-map :
    (f : Task → Task) (ts : List Task) (i : ℕ)
    → f zero_task ≡ zero_task
    → task_at (map f ts) i ≡ f (task_at ts i)
get_or-map f [] i e = sym e
get_or-map f (t ∷ ts) zero e = refl
get_or-map f (t ∷ ts) (suc i) e = get_or-map f ts i e

length-map : (f : Task → Task) (ts : List Task) → length (map f ts) ≡ length ts
length-map f [] = refl
length-map f (t ∷ ts) = ap suc (length-map f ts)

length-over_users : (f : Task → Task) (ts : List Task) → length (over_users f ts) ≡ length ts
length-over_users f [] = refl
length-over_users f (t ∷ ts) = ap suc (length-map f ts)

-- The shell's slot is left alone, and every other one is mapped.
user_at :
    (f : Task → Task) (ts : List Task) (i : ℕ)
    → f zero_task ≡ zero_task
    → i ≢ 0
    → task_at (over_users f ts) i ≡ f (task_at ts i)
user_at f [] i e ne = sym e
user_at f (t ∷ ts) zero e ne = absurd (ne refl)
user_at f (t ∷ ts) (suc i) e ne = get_or-map f ts i e

shell_at : (f : Task → Task) (ts : List Task) → task_at (over_users f ts) 0 ≡ task_at ts 0
shell_at f [] = refl
shell_at f (t ∷ ts) = refl

-- A change of tasks that starts and stops none.
record Harmless (f : Task → Task) : Type 0 where
  zero_lem : f zero_task ≡ zero_task
  user_lem : (t : Task) → (f t).user ≡ t.user
  runs : (t : Task) → (f t).state ≡ running → t.state ≡ running
  keeps : (t : Task) → t.state ≡ running → f t ≡ t

tick-Harmless : (now : ℕ) → Harmless (tick_task now)
unfolding tick_task
tick-Harmless now = record {
  zero_lem = refl;
  user_lem = λ t. ground arith;
  runs = λ t e. ground arith;
  keeps = λ t e. ground arith;
}

key-Harmless : Harmless key_task
unfolding key_task
key-Harmless = record {
  zero_lem = refl;
  user_lem = λ t. ground arith;
  runs = λ t e. ground arith;
  keeps = λ t e. ground arith;
}

module _ (f : Task → Task) (w : Harmless f) (s : Sched) (v : IsValid s) where
  alone_after :
      (i : ℕ) → (task_at (over_users f s.tasks) i).state ≡ running → (i ≡ s.current) × (i ≢ 0)
  alone_after i r = elim (ℕ_discrete i 0) [
    | yes e ↦
        absurd
          ((v.alone 0 (ap (λ (t : Task). t.state) (sym (shell_at f s.tasks)) ∙ rw e at r)).1 refl)
    | no ne ↦ v.alone i (
        w.runs (task_at s.tasks i)
          (ap (λ (t : Task). t.state) (sym (user_at f s.tasks i w.zero_lem ne)) ∙ r))
  ]

  current_kept :
      s.current ≢ 0 → task_at (over_users f s.tasks) s.current ≡ task_at s.tasks s.current
  current_kept nz = user_at f s.tasks s.current w.zero_lem nz ∙ w.keeps _ (v.runs nz).1

  woken-IsValid : IsValid (record s { tasks = over_users f s.tasks })
  woken-IsValid = record {
    table = record {
      size = length-over_users f s.tasks ∙ v.table.size;
      last_in = v.table.last_in;
      shell = ap (λ (t : Task). t.user) (shell_at f s.tasks) ∙ v.table.shell;
    };
    current_in = v.current_in;
    runs = λ nz. (
      ap (λ (t : Task). t.user) (current_kept nz) ∙ (v.runs nz).0,
      ap (λ (t : Task). t.state) (current_kept nz) ∙ (v.runs nz).1,
    );
    alone = alone_after;
  }

tick_cases :
    (now : ℕ) (t : Task)
    → (t.state ≡ blocked
        → t.wake_ticks ≢ 0
        → t.wake_ticks ≤ now
        → tick_task now t ≡ record t { state = runnable; wake_ticks = 0 })
      × (((t.state ≢ blocked) ⊎ (t.wake_ticks ≡ 0) ⊎ (now < t.wake_ticks)) → tick_task now t ≡ t)
unfolding tick_task
tick_cases now t = ((λ b nz le. ground arith), λ out. ground arith)

-- A timer interrupt wakes a user task exactly if it is blocked with a wake time that is set and not after
-- now, and clears that time; it leaves every other task alone, also one that waits for a key only.
pub tick_wakes :
    (now : ℕ) (s : Sched) (i : ℕ)
    → i ≢ 0
    → let t = task_at s.tasks i in
      let t' = task_at (over_users (tick_task now) s.tasks) i in
      (t.state ≡ blocked
        → t.wake_ticks ≢ 0
        → t.wake_ticks ≤ now
        → t' ≡ record t { state = runnable; wake_ticks = 0 })
      × (((t.state ≢ blocked) ⊎ (t.wake_ticks ≡ 0) ⊎ (now < t.wake_ticks)) → t' ≡ t)
tick_wakes now s i ne =
    let at = user_at (tick_task now) s.tasks i (tick-Harmless now).zero_lem ne in
    let w = tick_cases now (task_at s.tasks i) in
    ((λ b nz le. at ∙ w.0 b nz le), λ out. at ∙ w.1 out)

-- The current task stops.
pub put-IsStopped :
    (s : Sched) (t : Task)
    → IsValid s
    → s.current ≢ 0
    → t.state ≢ running
    → IsStopped (put_task s.current t s)
put-IsStopped s t v nz ne = record {
  table = record {
    size = length-set s.tasks s.current t ∙ v.table.size;
    last_in = v.table.last_in;
    shell =
        ap (λ (u : Task). u.user) (get_or-set_ne s.tasks s.current 0 t zero_task nz)
        ∙ v.table.shell;
  };
  idle = λ i r. elim (ℕ_discrete s.current i) [
    | yes e ↦ ne (
        ap (λ (u : Task). u.state)
          (sym (
            get_or-set_self s.tasks s.current t zero_task
              (omega (arith, v.table.size, v.current_in))))
        ∙ rw (← e) at r)
    | no out ↦ out (
        sym
          (v.alone i (
            ap (λ (u : Task). u.state) (sym (get_or-set_ne s.tasks s.current i t zero_task out))
            ∙ r)).0)
  ];
}

Switched-IsValid : (k : ℕ) (s : Sched) (out : Resume × Sched) → Switched k s out → IsValid out.1
Switched-IsValid k s (to_user f, s') w = w.0
Switched-IsValid k s (to_shell, s') w = w.0
Switched-IsValid k s (stay, s') w = absurd w

-- What can happen to the scheduler: the shell spawns a process or waits, a timer tick, a key, or a user task
-- that is preempted, blocks or exits.
pub data Event : Type 0 where
  spawns : Memory → Event
  yields : Event
  ticks : ℕ → Regs → Event
  keys : Event
  preempts : Regs → Event
  blocks : Regs → ℕ → Bool → Event
  exits : ℕ → Event

pub handle : ℕ → Event → Sched → Resume × Sched
handle k (spawns m) s = (stay, (sched_spawn m s).1)
handle k yields s = sched_yield_to_user s
handle k (ticks now r) s = sched_on_tick k now r s
handle k keys s = (stay, sched_on_key s)
handle k (preempts r) s = sched_preempt k r s
handle k (blocks r wake on_key) s = sched_block_user k r wake on_key s
handle k (exits code) s = sched_exit_user k code s

-- The shell spawns and yields while it is current; the last three are calls of a user task.
abbrev pub Allowed : Event → Sched → Type 0
Allowed (spawns m) s = s.current ≡ 0
Allowed yields s = s.current ≡ 0
Allowed (ticks now r) s = Unit {0}
Allowed keys s = Unit {0}
Allowed _ s = s.current ≢ 0

yield-IsValid : (s : Sched) → IsValid s → s.current ≡ 0 → IsValid (sched_yield_to_user s).1
unfolding sched_yield_to_user yield_to
yield-IsValid s v z = elim (pick_cases s) [
  | inl (e, q) ↦ subst (λ o. IsValid (yield_to o).1) (sym q) v
  | inr (i, e, q) ↦
      let w = sched_pick_user_lem s i e v.table.last_in in
      subst (λ o. IsValid (yield_to o).1) (sym q)
        (run_task-IsValid (record s { sched_last = i }) (picked-IsStopped s i stopped w.0) i w.0
          w.1)
]
  where
    stopped : IsStopped s
    stopped = record { table = v.table; idle = λ i r. (v.alone i r).1 ((v.alone i r).0 ∙ z) }

preempt-IsValid :
    (k : ℕ) (r : Regs) (s : Sched) → IsValid s → s.current ≢ 0 → IsValid (sched_preempt k r s).1
unfolding sched_preempt
preempt-IsValid k r s v nz =
    Switched-IsValid k (preempted r s) (sched_switch_to_next k (preempted r s)) (
      switch-Switched k (preempted r s)
        (put-IsStopped s (record (current_task s) { ctx = r; state = runnable }) v nz (λ e. cc)))

block-IsValid :
    (k : ℕ) (r : Regs) (wake : ℕ) (on_key : Bool) (s : Sched)
    → IsValid s
    → s.current ≢ 0
    → IsValid (sched_block_user k r wake on_key s).1
unfolding sched_block_user
block-IsValid k r wake on_key s v nz =
    Switched-IsValid k (blocking r wake on_key s)
      (sched_switch_to_next k (blocking r wake on_key s))
      (switch-Switched k (blocking r wake on_key s) (
        put-IsStopped s
          (record (current_task s) { ctx = r; state = blocked; wake_ticks = wake; on_key = on_key })
          v nz (λ e. cc)))

exit-IsValid :
    (k code : ℕ) (s : Sched) → IsValid s → s.current ≢ 0 → IsValid (sched_exit_user k code s).1
unfolding sched_exit_user
exit-IsValid k code s v nz =
    Switched-IsValid k (exited code s) (sched_switch_to_next k (exited code s)) (
      switch-Switched k (exited code s) (
        put-IsStopped s (record (current_task s) { exit_code = code; state = zombie; cr3 = 0 }) v nz
          (λ e. cc)))

user_current : (s : Sched) → IsValid s → (task_at s.tasks s.current).user ≡ true → s.current ≢ 0
user_current s v u z = cc (v.table.shell, u, ap (λ n. (task_at s.tasks n).user) z)

tick-IsValid : (k now : ℕ) (r : Regs) (s : Sched) → IsValid s → IsValid (sched_on_tick k now r s).1
unfolding sched_on_tick
tick-IsValid k now r s v =
    let s' : Sched = record s { tasks = over_users (tick_task now) s.tasks } in
    let v' : IsValid s' = woken-IsValid (tick_task now) (tick-Harmless now) s v in
    elim (Bool-cases (task_at s'.tasks s'.current).user) [
      | inl e ↦ rw e (preempt-IsValid k r s' v' (user_current s' v' e))
      | inr e ↦ rw e v'
    ]

pub handle-IsValid :
    (k : ℕ) (e : Event) (s : Sched) → IsValid s → Allowed e s → IsValid (handle k e s).1
unfolding handle
handle-IsValid k (spawns m) s v a = sched_spawn-IsValid m s v a
handle-IsValid k yields s v a = yield-IsValid s v a
handle-IsValid k (ticks now r) s v a = tick-IsValid k now r s v
handle-IsValid k keys s v a = unfold sched_on_key in woken-IsValid key_task key-Harmless s v
handle-IsValid k (preempts r) s v a = preempt-IsValid k r s v a
handle-IsValid k (blocks r wake on_key) s v a = block-IsValid k r wake on_key s v a
handle-IsValid k (exits code) s v a = exit-IsValid k code s v a

-- The states that a history of allowed events leads to.
pub data Reach (k : ℕ) (s : Sched) : Sched → Type 0 where
  start : Reach k s s
  after : {t : Sched} (e : Event) → Reach k s t → Allowed e t → Reach k s (handle k e t).1

-- From a valid state every history of these events leads to a valid one, the shell spawning or waiting while
-- it is current and the calls of a user task while one is: the current task is the only one that
-- runs, it is a user task unless it is the shell, the shell's slot is never a user task, and no index
-- leaves the table.
pub Reach-IsValid : (k : ℕ) {s t : Sched} → IsValid s → Reach k s t → IsValid t
Reach-IsValid k v start = v
Reach-IsValid k v (after {t = t} e r a) = handle-IsValid k e t (Reach-IsValid k v r) a
