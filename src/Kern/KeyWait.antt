-- ===== src/Kern/KeyWait.antt =====
-- The SYS_KBD_WAIT case of kernel/arch/x86_64/syscall.c. The gate has interrupts off, so no key arrives while
-- the handler loops.
use no_os.Base.{
  ℕ, zero, suc, ◌+◌, ◌≤◌, ◌<◌, ◌≡◌, refl, sym, ap, ◌∙◌, ◌≢◌, true, false, Option, none, some, List,
  arith, ◌==◌, if◌then◌else◌, set, get_or-set_self, get_or-set_ne, ℕ_discrete, if-true,
}
use no_os.Drivers.Kbd.{Kbd, kbd_getc}
use no_os.Kern.Sched.{
  Task, runnable, blocked, Sched, Regs, Resume, to_user, to_shell, stay, task_max, task_at,
  zero_task, eligible, current_task, blocking, sched_block_user,
}
use no_os.Kern.Sched.Switch.{IsValid, IsStopped, Switched, switch-Switched}
use no_os.Kern.Sched.Wake.{put-IsStopped}

-- What is done with the key that was taken, in the state `s`.
pub when_empty :
    Option ℕ × Kbd
    → Sched
    → (Kbd → Option (Option ℕ × Kbd × Sched))
    → Option (Option ℕ × Kbd × Sched)
when_empty (some c, kbd) s wait = some (some c, kbd, s)
when_empty (none, kbd) s wait = wait kbd

-- `for (;;) { if (kbd_getc() >= 0) …; sched_block_user(r, 0, 1); }`: a key that is there is the result,
-- without a switch; a switch to another user task overwrites the frame `*r` and returns into the loop; a
-- switch to the shell does not return. `none` means that the fuel ran out.
pub kbd_wait : ℕ → ℕ → Kbd → Regs → Sched → Option (Option ℕ × Kbd × Sched)
unfolding when_empty
kbd_wait zero kernel_cr3 kbd r s = none
kbd_wait (suc fuel) kernel_cr3 kbd r s = when_empty (kbd_getc kbd) s (λ kbd'.
    let (how, s') = sched_block_user kernel_cr3 r 0 true s in
    elim how [
      | to_user r' ↦ kbd_wait fuel kernel_cr3 kbd' r' s'
      | to_shell ↦ some (none, kbd', s')
      | stay ↦ some (none, kbd', s')
    ])

-- How many of the first `n` slots hold a task that could be picked.
count : List Task → ℕ → ℕ
count tasks zero = 0
count tasks (suc n) = if eligible tasks n then count tasks n + 1 else count tasks n

count_ext :
    (a b : List Task) (n : ℕ)
    → ((k : ℕ) → k < n → eligible a k ≡ eligible b k)
    → count a n ≡ count b n
unfolding count
count_ext a b zero h = refl
count_ext a b (suc n) h = rw (h n (omega arith), count_ext a b n (λ k q. h k (omega arith))) refl

count_drop :
    (a b : List Task) (i n : ℕ)
    → i < n
    → eligible a i ≡ true
    → eligible b i ≡ false
    → ((k : ℕ) → k ≢ i → eligible b k ≡ eligible a k)
    → count b n + 1 ≡ count a n
unfolding count
count_drop a b i zero q ea eb h = absurd (omega arith)
count_drop a b i (suc n) q ea eb h = elim (ℕ_discrete n i) [
  | yes e ↦
      rw (e, ea, eb) (omega (arith, count_ext b a i (λ k lt. h k (λ z. absurd (omega arith)))))
  | no ne ↦ ground (arith, h n ne, count_drop a b i n)
]

eligible_eq : (a b : List Task) (k : ℕ) → task_at a k ≡ task_at b k → eligible a k ≡ eligible b k
unfolding eligible
eligible_eq a b k e = rw e refl

not_eligible : (a : List Task) (k : ℕ) → (task_at a k).state ≢ runnable → eligible a k ≡ false
unfolding eligible
not_eligible a k ne = ground arith

shell_not_eligible : (a : List Task) → eligible a 0 ≡ false
unfolding eligible
shell_not_eligible a = refl

module _ (k : ℕ) (r : Regs) (s : Sched) (v : IsValid s) (nz : s.current ≢ 0) where
  now_blocked : Task
  now_blocked = record (current_task s) { ctx = r; state = blocked; wake_ticks = 0; on_key = true }

  stopped : IsStopped (blocking r 0 true s)
  unfolding now_blocked
  stopped = put-IsStopped s now_blocked v nz (λ e. cc)

  how_it_ends : Switched k (blocking r 0 true s) (sched_block_user k r 0 true s)
  unfolding sched_block_user
  how_it_ends = switch-Switched k (blocking r 0 true s) stopped

  -- The caller was running, so blocking it changes nothing in who can be picked.
  same_eligible : (j : ℕ) → eligible (blocking r 0 true s).tasks j ≡ eligible s.tasks j
  unfolding now_blocked
  same_eligible j = elim (ℕ_discrete s.current j) [
    | no ne ↦ eligible_eq _ s.tasks j (get_or-set_ne s.tasks s.current j now_blocked zero_task ne)
    | yes e ↦
        let at : task_at (set s.tasks s.current now_blocked) s.current ≡ now_blocked =
          get_or-set_self s.tasks s.current now_blocked zero_task
            (omega (arith, v.table.size, v.current_in)) in
        rw (← e) (
          not_eligible (set s.tasks s.current now_blocked) s.current (λ q. cc (at, q))
          ∙ sym (not_eligible s.tasks s.current (λ q. cc ((v.runs nz).1, q))))
  ]

abbrev EndsAsleep : ℕ → ℕ → Kbd → Regs → Sched → Type 0
EndsAsleep fuel k kbd r s =
    (s' : Sched) × (kbd_wait fuel k kbd r s ≡ some (none, kbd, s'))
    × (s'.current ≡ 0)
    × ((t : ℕ) → t < task_max → eligible s'.tasks t ≡ false)

abbrev next_round : ℕ → ℕ → Kbd → Resume × Sched → Option (Option ℕ × Kbd × Sched)
next_round fuel k kbd (to_user r', s') = kbd_wait fuel k kbd r' s'
next_round fuel k kbd (to_shell, s') = some (none, kbd, s')
next_round fuel k kbd (stay, s') = some (none, kbd, s')

round_lem :
    (fuel k : ℕ) (kbd : Kbd) (r : Regs) (s : Sched)
    → kbd.head ≡ kbd.tail
    → kbd_wait (suc fuel) k kbd r s ≡ next_round fuel k kbd (sched_block_user k r 0 true s)
unfolding kbd_wait when_empty
round_lem fuel k kbd r s empty =
    let nothing : kbd_getc kbd ≡ (none, kbd) =
      unfold kbd_getc in
      if-true (λ o. o ≡ (none, kbd)) (kbd.head == kbd.tail) _ _ (ground arith) refl in
    ap
      (λ o. when_empty o s (λ kbd'. elim (sched_block_user k r 0 true s).0 [
        | to_user r' ↦ kbd_wait fuel k kbd' r' (sched_block_user k r 0 true s).1
        | to_shell ↦ some (none, kbd', (sched_block_user k r 0 true s).1)
        | stay ↦ some (none, kbd', (sched_block_user k r 0 true s).1)
      ]))
      nothing
    ∙ go (sched_block_user k r 0 true s)
  where
    go :
        (o : Resume × Sched)
        → (elim o.0 [
          | to_user r' ↦ kbd_wait fuel k kbd r' o.1
          | to_shell ↦ some (none, kbd, o.1)
          | stay ↦ some (none, kbd, o.1)
        ])
          ≡ next_round fuel k kbd o
    go (to_user r', s') = refl
    go (to_shell, s') = refl
    go (stay, s') = refl

module _ (fuel k : ℕ) (kbd : Kbd) (r : Regs) (s : Sched) (v : IsValid s) (nz : s.current ≢ 0)
    (enough : count s.tasks task_max < suc fuel) where
  asleep_after :
      (o : Resume × Sched)
      → Switched k (blocking r 0 true s) o
      → ((r' : Regs) (s' : Sched)
          → IsValid s'
          → s'.current ≢ 0
          → count s'.tasks task_max < fuel
          → EndsAsleep fuel k kbd r' s')
      → (s' : Sched) × (next_round fuel k kbd o ≡ some (none, kbd, s'))
        × (s'.current ≡ 0)
        × ((t : ℕ) → t < task_max → eligible s'.tasks t ≡ false)
  asleep_after (stay, s') w rest = absurd w
  asleep_after (to_shell, s') (v', z, _, _, all, same, _) rest = (s', refl, z, none_left)
    where
      none_left : (t : ℕ) → t < task_max → eligible s'.tasks t ≡ false
      none_left t h = elim (ℕ_discrete t 0) [
        | yes e ↦ rw e (shell_not_eligible s'.tasks)
        | no ne ↦ eligible_eq s'.tasks (blocking r 0 true s).tasks t (same t ne) ∙ all t h
      ]
  asleep_after (to_user r', s') (v', nz', el, _, _, _, same, _, _) rest = rest r' s' v' nz' fewer
    where
      fewer : count s'.tasks task_max < fuel
      fewer = omega (
        arith,
        count_drop (blocking r 0 true s).tasks s'.tasks s'.current task_max v'.current_in el
            (not_eligible s'.tasks s'.current (λ q. cc ((v'.runs nz').1, q)))
            (λ j ne. eligible_eq s'.tasks (blocking r 0 true s).tasks j (same j ne)),
        count_ext (blocking r 0 true s).tasks s.tasks task_max (λ j h. same_eligible k r s v nz j),
        enough,
      )

asleep :
    (fuel k : ℕ) (kbd : Kbd) (r : Regs) (s : Sched)
    → kbd.head ≡ kbd.tail
    → IsValid s
    → s.current ≢ 0
    → count s.tasks task_max < fuel
    → EndsAsleep fuel k kbd r s
asleep zero k kbd r s empty v nz h = absurd (omega arith)
asleep (suc fuel) k kbd r s empty v nz h = rw (round_lem fuel k kbd r s empty) (
    asleep_after fuel k kbd r s v nz h (sched_block_user k r 0 true s) (how_it_ends k r s v nz)
      (λ r' s' v' nz' h'. asleep fuel k kbd r' s' empty v' nz' h'))

count-le : (tasks : List Task) (n : ℕ) → count tasks n ≤ n
unfolding count
count-le tasks zero = omega arith
count-le tasks (suc n) = ground (arith, count-le tasks n)

-- When one user task waits for a key and none is there, the handler's loop goes on with the frame of
-- each task that it switches to and blocks that one too: after at most 17 rounds control is back in
-- the shell, and no user task at all can be picked, whatever could run before.
pub kbd_wait_stalls :
    (k : ℕ) (kbd : Kbd) (r : Regs) (s : Sched)
    → kbd.head ≡ kbd.tail
    → IsValid s
    → s.current ≢ 0
    → (s' : Sched) × (kbd_wait 17 k kbd r s ≡ some (none, kbd, s'))
      × (s'.current ≡ 0)
      × ((t : ℕ) → t < task_max → eligible s'.tasks t ≡ false)
kbd_wait_stalls k kbd r s empty v nz =
    asleep 17 k kbd r s empty v nz (omega (arith, count-le s.tasks task_max))
