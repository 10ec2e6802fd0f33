-- ===== src/Kern/Sched/Spawn.antt =====
-- `sched_init` and `sched_spawn`: which slot and number a new process takes.
use no_os.Base.{
  ℕ, zero, suc, ◌+◌, ◌^◌, ◌≤◌, ◌<◌, ◌≡◌, refl, sym, ap, ◌∙◌, ◌≢◌, ◌⊎◌, inl, inr, true, false, not,
  ◌||◌, Option, none, some, List, ◌∷◌, arith, ◌==◌, Bool-cases, Option-cases, set, replicate,
  length-set, get_or-set_self, get_or-set_ne, ℕ_discrete, add32, if-cases,
}
use no_os.Kern.Sched.{
  Task, runnable, running, zombie, Sched, Memory, task_max, task_at, zero_task, is_zombie,
  free_slot, cleared_slot, sched_init, sched_spawn, task_kstack_size,
}
use no_os.Kern.Sched.Switch.{IsValid}

-- What the rounds `i .. i + n - 1` of the search have found.
abbrev Slot : List Task → ℕ → ℕ → Option ℕ → Type 0
Slot tasks i n none =
    (k : ℕ) → i ≤ k → k < i + n → ((task_at tasks k).state ≢ zombie) × ((task_at tasks k).pid ≢ 0)
Slot tasks i n (some j) =
    (i ≤ j) × (j < i + n) × (((task_at tasks j).state ≡ zombie) ⊎ ((task_at tasks j).pid ≡ 0))

free_cases :
    (t : Task) → (is_zombie t.state || t.pid == 0) ≡ true → (t.state ≡ zombie) ⊎ (t.pid ≡ 0)
free_cases t e = ground arith

busy_cases :
    (t : Task) → (is_zombie t.state || t.pid == 0) ≡ false → (t.state ≢ zombie) × (t.pid ≢ 0)
busy_cases t e = ground arith

Slot-step :
    (tasks : List Task) (i n : ℕ) (r : Option ℕ)
    → ((task_at tasks i).state ≢ zombie) × ((task_at tasks i).pid ≢ 0)
    → Slot tasks (i + 1) n r
    → Slot tasks i (suc n) r
Slot-step tasks i n none b f = λ k lo hi. elim (ℕ_discrete i k) [
  | yes e ↦ rw (← e) b
  | no ne ↦ f k (omega arith) (omega arith)
]
Slot-step tasks i n (some j) b f = (omega (arith, f.0), omega (arith, f.1), f.2)

free_slot-Slot : (tasks : List Task) (i n : ℕ) → Slot tasks i n (free_slot tasks i n)
unfolding free_slot
free_slot-Slot tasks i zero = λ k lo hi. absurd (omega arith)
free_slot-Slot tasks i (suc n) =
    elim (Bool-cases (is_zombie (task_at tasks i).state || (task_at tasks i).pid == 0)) [
      | inl e ↦ rw e (omega arith, omega arith, free_cases (task_at tasks i) e)
      | inr e ↦
          rw e (
            Slot-step tasks i n _ (busy_cases (task_at tasks i) e) (free_slot-Slot tasks (i + 1) n))
    ]

-- Live processes have different numbers, all of them below the next one.
pub record Numbered (s : Sched) : Type 0 where
  pub below : (i : ℕ) → (task_at s.tasks i).pid < s.next_pid
  pub distinct :
      (i j : ℕ)
      → (task_at s.tasks i).pid ≢ 0
      → (task_at s.tasks i).pid ≡ (task_at s.tasks j).pid
      → i ≡ j

-- The new process, in slot `i`.
abbrev pub newborn : Memory → Sched → Task
newborn m s = record cleared_slot {
  pid = s.next_pid;
  kstack = m.new_kstack;
  kstack_size = task_kstack_size;
  cr3 = m.new_cr3;
  user = true;
}

-- A task that does not run in a slot of the table, while the shell is current.
slot-IsValid :
    (s : Sched) (i next : ℕ) (t : Task)
    → IsValid s
    → s.current ≡ 0
    → 0 < i
    → i < task_max
    → t.state ≢ running
    → IsValid (record s { tasks = set s.tasks i t; next_pid = next })
slot-IsValid s i next t v shell_runs pos h calm =
    let at_slot : task_at (set s.tasks i t) i ≡ t =
      get_or-set_self s.tasks i t zero_task (omega (arith, v.table.size, h)) in
    let elsewhere = λ (j : ℕ) (ne : i ≢ j). get_or-set_ne s.tasks i j t zero_task ne in
    record {
      table = record {
        size = length-set s.tasks i t ∙ v.table.size;
        last_in = v.table.last_in;
        shell =
            ap (λ (u : Task). u.user) (elsewhere 0 (λ e. absurd (omega (arith, e, pos))))
            ∙ v.table.shell;
      };
      current_in = v.current_in;
      runs = λ nz. absurd (nz shell_runs);
      alone = λ j r. elim (ℕ_discrete i j) [
        | yes e ↦ absurd (calm (ap (λ (u : Task). u.state) (sym at_slot) ∙ rw (← e) at r))
        | no ne ↦ v.alone j (ap (λ (u : Task). u.state) (sym (elsewhere j ne)) ∙ r)
      ];
    }

-- A spawn keeps the invariant, also where the numbers of the processes wrap.
pub sched_spawn-IsValid :
    (m : Memory) (s : Sched) → IsValid s → s.current ≡ 0 → IsValid (sched_spawn m s).1
unfolding sched_spawn
sched_spawn-IsValid m s v z =
    let P = λ (r : Option ℕ × Sched). IsValid r.1 in
    elim (Option-cases (free_slot s.tasks 1 15)) [
      | inl e ↦ rw (e, sched_spawn) v
      | inr (i, e) ↦
          let f = rw e at (free_slot-Slot s.tasks 1 15) in
          let pos : 0 < i = omega (arith, f.0) in
          let lt : i < task_max = omega (arith, f.1) in
          rw (e, sched_spawn)
            (if-cases P (m.new_cr3 == 0 || m.new_kstack == 0 || not m.mapped) _ _
              (λ h. slot-IsValid s i s.next_pid cleared_slot v z pos lt (λ q. cc))
              (λ h. slot-IsValid s i (add32 s.next_pid 1) (newborn m s) v z pos lt (λ q. cc)))
    ]

module _ (s : Sched) (v : IsValid s) (n : Numbered s) (shell_runs : s.current ≡ 0)
    (small : s.next_pid + 1 < 2 ^ 32) (i : ℕ) (pos : 0 < i) (h : i < task_max) (t : Task)
    (calm : t.state ≢ running) where
  at_slot : task_at (set s.tasks i t) i ≡ t
  at_slot = get_or-set_self s.tasks i t zero_task (omega (arith, v.table.size))

  elsewhere : (j : ℕ) → i ≢ j → task_at (set s.tasks i t) j ≡ task_at s.tasks j
  elsewhere j ne = get_or-set_ne s.tasks i j t zero_task ne

  put-IsValid : (next : ℕ) → IsValid (record s { tasks = set s.tasks i t; next_pid = next })
  put-IsValid next = record {
    table = record {
      size = length-set s.tasks i t ∙ v.table.size;
      last_in = v.table.last_in;
      shell = ap (λ (u : Task). u.user) (elsewhere 0 (λ e. absurd (omega arith))) ∙ v.table.shell;
    };
    current_in = v.current_in;
    runs = λ nz. absurd (nz shell_runs);
    alone = λ j r. elim (ℕ_discrete i j) [
      | yes e ↦ absurd (calm (ap (λ (u : Task). u.state) (sym at_slot) ∙ rw (← e) at r))
      | no ne ↦ v.alone j (ap (λ (u : Task). u.state) (sym (elsewhere j ne)) ∙ r)
    ];
  }

  put-Numbered :
      (next : ℕ)
      → s.next_pid ≤ next
      → t.pid < next
      → ((t.pid ≡ 0) ⊎ (t.pid ≡ s.next_pid))
      → Numbered (record s { tasks = set s.tasks i t; next_pid = next })
  put-Numbered next le lt new = record {
    below = λ j. elim (ℕ_discrete i j) [
      | yes e ↦ rw (← e, at_slot) lt
      | no ne ↦ rw (elsewhere j ne) (omega (arith, n.below j))
    ];
    distinct = λ j k nz same. elim (ℕ_discrete i j) [
      | yes e ↦ elim (ℕ_discrete i k) [
        | yes f ↦ sym e ∙ f
        | no ne ↦ absurd (
            ground (
              arith,
              n.below k,
              ap (λ (u : Task). u.pid) (elsewhere k ne),
              ap (λ (u : Task). u.pid) at_slot,
              e,
              same,
              nz,
              new,
            ))
      ]
      | no ne ↦ elim (ℕ_discrete i k) [
        | yes f ↦ absurd (
            ground (
              arith,
              n.below j,
              ap (λ (u : Task). u.pid) (elsewhere j ne),
              ap (λ (u : Task). u.pid) at_slot,
              f,
              same,
              nz,
              new,
            ))
        | no nf ↦
            n.distinct j k (rw (elsewhere j ne) at nz) (rw (elsewhere j ne, elsewhere k nf) at same)
      ]
    ];
  }

abbrev pub Spawned : Memory → Sched → Option ℕ × Sched → Type 0
Spawned m s (none, s') =
    IsValid s'
    × Numbered s'
    × (((s' ≡ s)
          × ((k : ℕ)
              → 1 ≤ k
              → k < task_max
              → ((task_at s.tasks k).state ≢ zombie) × ((task_at s.tasks k).pid ≢ 0)))
        ⊎ ((m.new_cr3 ≡ 0) ⊎ (m.new_kstack ≡ 0) ⊎ (m.mapped ≡ false)))
Spawned m s (some pid, s') =
    IsValid s'
    × Numbered s'
    × (pid ≡ s.next_pid)
    × ((i : ℕ) × (0 < i)
        × (i < task_max)
        × (((task_at s.tasks i).state ≡ zombie) ⊎ ((task_at s.tasks i).pid ≡ 0))
        × (task_at s'.tasks i ≡ newborn m s)
        × ((j : ℕ) → j ≢ i → task_at s'.tasks j ≡ task_at s.tasks j))

no_memory :
    (m : Memory)
    → (m.new_cr3 == 0 || m.new_kstack == 0 || not m.mapped) ≡ true
    → (m.new_cr3 ≡ 0) ⊎ (m.new_kstack ≡ 0) ⊎ (m.mapped ≡ false)
no_memory m e = ground arith

spawn_at :
    (m : Memory) (s : Sched) (v : IsValid s) (n : Numbered s) (shell_runs : s.current ≡ 0)
    (small : s.next_pid + 1 < 2 ^ 32) (i : ℕ)
    → free_slot s.tasks 1 15 ≡ some i
    → Slot s.tasks 1 15 (some i)
    → Spawned m s (sched_spawn m s)
unfolding sched_spawn
spawn_at m s v n shell_runs small i e f =
    elim (Bool-cases (m.new_cr3 == 0 || m.new_kstack == 0 || not m.mapped)) [
      | inl lack ↦
          rw (e, sched_spawn)
            (rw lack (
              put-IsValid s v n shell_runs small i (omega (arith, f.0)) (omega (arith, f.1))
                  cleared_slot (λ q. cc) s.next_pid,
              put-Numbered s v n shell_runs small i (omega (arith, f.0)) (omega (arith, f.1))
                  cleared_slot (λ q. cc) s.next_pid (omega arith) (omega (arith, n.below 0))
                  (inl refl),
              inr (no_memory m lack),
            ))
      | inr full ↦
          let next : add32 s.next_pid 1 ≡ s.next_pid + 1 = omega arith in
          rw (e, sched_spawn)
            (rw (full, next)
              (
                put-IsValid s v n shell_runs small i (omega (arith, f.0)) (omega (arith, f.1))
                    (newborn m s) (λ q. cc) (s.next_pid + 1),
                put-Numbered s v n shell_runs small i (omega (arith, f.0)) (omega (arith, f.1))
                    (newborn m s) (λ q. cc) (s.next_pid + 1) (omega arith) (omega arith) (inr refl),
                refl,
                (
                  i,
                  omega (arith, f.0),
                  omega (arith, f.1),
                  f.2,
                  at_slot s v n shell_runs small i (omega (arith, f.0)) (omega (arith, f.1))
                      (newborn m s) (λ q. cc),
                  λ j ne.
                      elsewhere s v n shell_runs small i (omega (arith, f.0)) (omega (arith, f.1))
                        (newborn m s) (λ q. cc) j (λ z. ne (sym z)),
                ),
              ))
    ]

-- The shell spawns a process, before the numbers of processes are used up at 2 ^ 32 - 1: it takes a slot
-- whose task has exited or never was, under a number that no live process has, ready to run, and leaves
-- every other task alone. It fails only with no such slot, and then changes nothing, or for lack of memory.
-- Either way the invariant and the uniqueness of the numbers are kept.
pub sched_spawn-Spawned :
    (m : Memory) (s : Sched)
    → IsValid s
    → Numbered s
    → s.current ≡ 0
    → s.next_pid + 1 < 2 ^ 32
    → Spawned m s (sched_spawn m s)
unfolding sched_spawn
sched_spawn-Spawned m s v n z small = elim (Option-cases (free_slot s.tasks 1 15)) [
  | inr (i, e) ↦ spawn_at m s v n z small i e (rw e at (free_slot-Slot s.tasks 1 15))
  | inl e ↦
      let busy = rw e at (free_slot-Slot s.tasks 1 15) in
      rw (e, sched_spawn) (v, n, inl (refl, λ k lo hi. busy k lo (omega arith)))
]

init_idle :
    (kstack : ℕ) (i : ℕ)
    → (task_at
        (record zero_task {
          kstack = kstack;
          kstack_size = task_kstack_size;
          model_budget_kb = 8192;
        }
          ∷ replicate 15 zero_task)
        i).state
      ≡ runnable
init_idle kstack zero = refl
init_idle kstack (suc i) = idle 15 i
  where
    idle : (n i : ℕ) → (task_at (replicate n zero_task) i).state ≡ runnable
    idle zero i = refl
    idle (suc n) zero = refl
    idle (suc n) (suc i) = idle n i

-- The table that `sched_init` builds is valid, with the shell as the current task.
pub sched_init-IsValid :
    (kstack : ℕ) (s : Sched)
    → s.sched_last < task_max
    → IsValid (sched_init kstack s) × ((sched_init kstack s).current ≡ 0)
unfolding sched_init
sched_init-IsValid kstack s h = (
  record {
    table = record { size = refl; last_in = h; shell = refl };
    current_in = omega arith;
    runs = λ nz. absurd (nz refl);
    alone = λ i r. cc (init_idle kstack i, r);
  },
  refl,
)
