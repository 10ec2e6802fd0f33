-- ===== src/Kern/Sched/Pick.antt =====
-- `sched_pick_user`: whom it picks, and how long a runnable task can be passed over.
use no_os.Base.{
  ℕ, zero, suc, ◌+◌, ◌-◌, ◌%◌, ◌≤◌, ◌<◌, ◌≡◌, refl, sym, ap, ◌∙◌, ◌≢◌, ◌↔◌, ◌⊎◌, inl, inr, true,
  false, Option, none, some, List, [], ◌∷◌, arith, Bool-cases, Option-cases, length, dec_lt,
  ℕ_discrete,
}
use no_os.Kern.Sched.{Task, Sched, task_max, eligible, pick_from, sched_pick_user}

-- How many slots lie between the last pick and `t`, going round.
abbrev pub dist : ℕ → ℕ → ℕ
dist last t = (t + task_max - last - 1) % task_max

abbrev pub slot : ℕ → ℕ → ℕ
slot last i = (last + 1 + i) % task_max

-- What the rounds `i .. i + n - 1` have found.
abbrev pub Picked : List Task → ℕ → ℕ → ℕ → Option ℕ → Type 0
Picked tasks last i n none = (k : ℕ) → i ≤ k → k < i + n → eligible tasks (slot last k) ≡ false
Picked tasks last i n (some idx) =
    (k : ℕ) × (i ≤ k)
    × (k < i + n)
    × (idx ≡ slot last k)
    × (eligible tasks idx ≡ true)
    × ((j : ℕ) → i ≤ j → j < k → eligible tasks (slot last j) ≡ false)

Picked-step :
    (tasks : List Task) (last i n : ℕ) (r : Option ℕ)
    → eligible tasks (slot last i) ≡ false
    → Picked tasks last (i + 1) n r
    → Picked tasks last i (suc n) r
Picked-step tasks last i n none e f = λ k lo hi. elim (ℕ_discrete i k) [
  | yes q ↦ rw (← q) e
  | no ne ↦ f k (omega arith) (omega arith)
]
Picked-step tasks last i n (some idx) e (k, lo, hi, at, ok, before) =
    (k, omega arith, omega arith, at, ok, skip)
  where
    skip : (j : ℕ) → i ≤ j → j < k → eligible tasks (slot last j) ≡ false
    skip j p q = elim (ℕ_discrete i j) [ yes z ↦ rw (← z) e | no ne ↦ before j (omega arith) q ]

pub pick_from-Picked :
    (tasks : List Task) (last i n : ℕ) → Picked tasks last i n (pick_from tasks last i n)
unfolding pick_from
pick_from-Picked tasks last i zero = λ k lo hi. absurd (omega arith)
pick_from-Picked tasks last i (suc n) = elim (Bool-cases (eligible tasks (slot last i))) [
  | inl e ↦ rw e (i, omega arith, omega arith, refl, e, λ j p q. absurd (omega arith))
  | inr e ↦ rw e (Picked-step tasks last i n _ e (pick_from-Picked tasks last (i + 1) n))
]

slot-dist : (last t : ℕ) → last < task_max → t < task_max → slot last (dist last t) ≡ t
slot-dist last t h k = omega arith

-- The scheduler picks the eligible task that comes first after the last pick, going round, and no task
-- only if none is eligible.
pub sched_pick_user_lem :
    (s : Sched) (idx : ℕ)
    → pick_from s.tasks s.sched_last 0 task_max ≡ some idx
    → s.sched_last < task_max
    → (idx < task_max)
      × (eligible s.tasks idx ≡ true)
      × ((t : ℕ)
          → t < task_max
          → eligible s.tasks t ≡ true
          → dist s.sched_last idx ≤ dist s.sched_last t)
sched_pick_user_lem s idx e h =
    let (k, lo, hi, at, ok, before) = rw e at (pick_from-Picked s.tasks s.sched_last 0 task_max) in
    (omega (arith, at), ok, λ t q el. first k at hi before t q el)
  where
    first :
        (k : ℕ)
        → idx ≡ slot s.sched_last k
        → k < 0 + task_max
        → ((j : ℕ) → 0 ≤ j → j < k → eligible s.tasks (slot s.sched_last j) ≡ false)
        → (t : ℕ) → t < task_max
        → eligible s.tasks t ≡ true
        → dist s.sched_last idx ≤ dist s.sched_last t
    first k at hi before t q el = elim (dec_lt (dist s.sched_last t) k) [
      | no ge ↦ omega (arith, at)
      | yes lt ↦ absurd (
          cc (
            before (dist s.sched_last t) (omega arith) lt,
            ap (eligible s.tasks) (slot-dist s.sched_last t h q),
            el,
          ))
    ]

pub pick-none_iff :
    (s : Sched)
    → s.sched_last < task_max
    → (pick_from s.tasks s.sched_last 0 task_max ≡ none)
      ↔ ((t : ℕ) → t < task_max → eligible s.tasks t ≡ false)
pick-none_iff s h = (
  (λ e t q.
      ap (eligible s.tasks) (sym (slot-dist s.sched_last t h q))
      ∙ (rw e at (pick_from-Picked s.tasks s.sched_last 0 task_max)) (dist s.sched_last t)
          (omega arith) (omega arith)),
  λ all. elim (Option-cases (pick_from s.tasks s.sched_last 0 task_max)) [
    | inl e ↦ e
    | inr (idx, e) ↦
        absurd (clash all idx (rw e at (pick_from-Picked s.tasks s.sched_last 0 task_max)))
  ],
)
  where
    clash :
        ((t : ℕ) → t < task_max → eligible s.tasks t ≡ false)
        → (idx : ℕ) → Picked s.tasks s.sched_last 0 task_max (some idx)
        → ⊥
    clash all idx (k, lo, hi, at, ok, before) = cc (all idx (omega (arith, at)), ok)

-- What a pick returns, and where it leaves the search.
pub pick_cases :
    (s : Sched)
    → ((pick_from s.tasks s.sched_last 0 task_max ≡ none) × (sched_pick_user s ≡ (none, s)))
      ⊎ ((i : ℕ) × (pick_from s.tasks s.sched_last 0 task_max ≡ some i)
          × (sched_pick_user s ≡ (some i, record s { sched_last = i })))
unfolding sched_pick_user
pick_cases s = elim (Option-cases (pick_from s.tasks s.sched_last 0 task_max)) [
  | inl e ↦ inl (e, rw (e, sched_pick_user) refl)
  | inr (i, e) ↦ inr (i, e, rw (e, sched_pick_user) refl)
]

-- Successive picks from the state `s`, each with the task table that there is by then, at each of which `t`
-- could run and another task was picked.
abbrev pub PassedOver : ℕ → Sched → List (List Task) → Type 0
PassedOver t s [] = Unit {0}
PassedOver t s (tasks ∷ later) =
    let r = sched_pick_user (record s { tasks = tasks }) in
    (idx : ℕ) × (r.0 ≡ some idx) × (idx ≢ t) × (eligible tasks t ≡ true) × PassedOver t r.1 later

closer :
    (last idx t : ℕ)
    → last < task_max
    → idx < task_max
    → t < task_max
    → idx ≢ t
    → dist last idx ≤ dist last t
    → dist idx t < dist last t
closer last idx t h k q ne le = omega arith

passes-le-dist :
    (t : ℕ) (s : Sched) (tables : List (List Task))
    → t < task_max
    → s.sched_last < task_max
    → PassedOver t s tables
    → length tables ≤ dist s.sched_last t
passes-le-dist t s [] q h p = omega arith
passes-le-dist t s (tasks ∷ later) q h (idx, e, ne, el, rest) =
    elim (pick_cases (record s { tasks = tasks })) [
      | inl (none_found, r) ↦ absurd (cc (ap (λ (x : Option ℕ × Sched). x.0) r, e))
      | inr (i, found, r) ↦
          let same : i ≡ idx = cc (ap (λ (x : Option ℕ × Sched). x.0) r, e) in
          let w = sched_pick_user_lem (record s { tasks = tasks }) i found in
          let ne' : i ≢ t = λ z. ne (sym same ∙ z) in
          let last = ap (λ (x : Option ℕ × Sched). x.1.sched_last) r in
          let ih =
            passes-le-dist t (sched_pick_user (record s { tasks = tasks })).1 later q
              (omega (arith, last, (w h).0)) rest in
          let c = closer s.sched_last i t h (w h).0 q ne' ((w h).2 t q el) in
          let d : dist (sched_pick_user (record s { tasks = tasks })).1.sched_last t ≡ dist i t =
            ap (λ l. dist l t) last in
          omega (arith, ih, c, d)
    ]

-- No starvation: however the task table changes between the picks, a task that can run at each of them
-- is passed over at most fifteen times in a row.
pub passes-le :
    (t : ℕ) (s : Sched) (tables : List (List Task))
    → t < task_max
    → s.sched_last < task_max
    → PassedOver t s tables
    → length tables ≤ 15
passes-le t s tables q h p = omega (arith, passes-le-dist t s tables q h p)
