-- ===== src/Mm/Swap/Moves.antt =====
-- The moves of a page between memory and disk, and the accounting of the slots.
use no_os.Base.{
  ℕ, suc, ◌+◌, ◌/◌, ◌^◌, ◌≤◌, ◌<◌, ◌≡◌, refl, sym, ◌≢◌, ◌⊎◌, inl, inr, Bool, true, false, not, ◌&&◌,
  ◌||◌, Option, none, some, List, [], ◌∷◌, ◌++◌, arith, leb, ◌==◌, if◌then◌else◌, ==_iff, length,
  get_or, All, length-append, if-cases, elim-cases, subst, Bool-clash,
}
use no_os.Mm.Bitmap.{bitmap_test, first_clear, bitmap_set, Found, first_clear-Found}
use no_os.Mm.Swap.{
  Ent, no_ent, Process, Swap, Machine, State, swap_max_per_task, slot_lba, slot_alloc, slot_free,
  ent_find, swap_has, remove_at, write_page, swap_out, read_page, swap_in, free_slots,
  swap_exit_task,
}
use no_os.Mm.Swap.Slots.{
  weigh, weigh-remove_at, Accounted, uses, take-Accounted, give-Accounted, uses-append,
  uses-remove_at, free_slots-Accounted,
}

-- The first entry of the page, or that there is none.
abbrev pub Located : List Ent → ℕ → Option ℕ → Type 0
Located ents vaddr none = All (λ (e : Ent). e.vkey ≢ vaddr / 2 ^ 12) ents
Located ents vaddr (some i) = (i < length ents) × ((get_or ents i no_ent).vkey ≡ vaddr / 2 ^ 12)

Located-cons :
    (e : Ent) (ents : List Ent) (vaddr : ℕ) (o : Option ℕ)
    → e.vkey ≢ vaddr / 2 ^ 12
    → Located ents vaddr o
    → Located (e ∷ ents) vaddr (elim o [ none ↦ none | some i ↦ some (suc i) ])
Located-cons e ents vaddr none ne h = (ne, h)
Located-cons e ents vaddr (some i) ne h = ((let l = h.0 in omega arith), h.1)

ent_find-Located : (ents : List Ent) (vaddr : ℕ) → Located ents vaddr (ent_find ents vaddr)
unfolding ent_find
ent_find-Located [] vaddr = tt
ent_find-Located (e ∷ ents) vaddr =
    if-cases (Located (e ∷ ents) vaddr) (e.vkey == vaddr / 2 ^ 12) _ _
      (λ hit. ((omega arith), (==_iff _ _).0 hit))
      (λ miss.
        Located-cons e ents vaddr (ent_find ents vaddr) (λ q. Bool-clash _ ((==_iff _ _).1 q) miss)
          (ent_find-Located ents vaddr))

-- The accounting reads the number of slots and their bits alone.
recount :
    (ents others : List Ent) (s s' : Swap)
    → s'.pages ≡ s.pages
    → s'.slots ≡ s.slots
    → Accounted ents others s
    → Accounted ents others s'
recount ents others s s' p q h = record {
  bits = rw (p, q) h.bits;
  used = λ k. rw (p, q) (h.used k);
  above = λ k. rw p (h.above k);
}

slot_alloc-Taken :
    (s : Swap)
    → s.active ≡ true
    → (slot_alloc s ≡ (none, s))
      ⊎ ((i : ℕ) × (i < s.pages)
          × (bitmap_test s.slots i ≡ false)
          × (slot_alloc s ≡ (some i, record s { slots = bitmap_set s.slots i })))
unfolding slot_alloc
slot_alloc-Taken s on = go (first_clear s.slots 0 s.pages) (first_clear-Found s.slots 0 s.pages)
  where
    Alloc : Option ℕ → Option ℕ × Swap
    Alloc o =
        if s.active
        then elim o [
          | none ↦ (none, s)
          | some i ↦ (some i, record s { slots = bitmap_set s.slots i })
        ]
        else (none, s)

    go :
        (o : Option ℕ)
        → Found s.slots 0 s.pages o
        → (Alloc o ≡ (none, s))
          ⊎ ((i : ℕ) × (i < s.pages)
              × (bitmap_test s.slots i ≡ false)
              × (Alloc o ≡ (some i, record s { slots = bitmap_set s.slots i })))
    go none f = inl (rw on refl)
    go (some i) f = inr (i, (omega (arith, f.1)), f.2, rw on refl)

module _ {W : Type 0} (machine : Machine W) (others : List Ent) where
  abbrev pub Kept : State W → Type 0
  Kept s = Accounted s.task.swap_map others s.swap

  -- How a move to the disk ends: with the page's entry behind the others, on a slot that no task had, or
  -- with the task as it was.
  abbrev pub MovedOut : ℕ → State W → Bool × State W → Type 0
  MovedOut vaddr s (true, s') =
      Kept s'
      × (length s'.task.swap_map ≤ swap_max_per_task)
      × ((slot : ℕ) × (s'.task.swap_map
            ≡ s.task.swap_map ++ record { vkey = vaddr / 2 ^ 12; slot = slot } ∷ [])
          × (slot < s.swap.pages)
          × (uses slot s.task.swap_map + uses slot others ≡ 0))
  MovedOut vaddr s (false, s') = Kept s' × (s'.task ≡ s.task)

  write_page-MovedOut :
      (vaddr frame slot : ℕ) (s : State W)
      → Kept s
      → length s.task.swap_map < swap_max_per_task
      → slot < s.swap.pages
      → bitmap_test s.swap.slots slot ≡ false
      → MovedOut vaddr s (
          write_page machine vaddr frame slot
            (record s { swap = record s.swap { slots = bitmap_set s.swap.slots slot } }))
  unfolding write_page
  write_page-MovedOut vaddr frame slot s h room lt free =
      let e : Ent = record { vkey = vaddr / 2 ^ 12; slot = slot } in
      let s' : Swap = record s.swap { slots = bitmap_set s.swap.slots slot } in
      let taken = take-Accounted s.task.swap_map others s.swap (vaddr / 2 ^ 12) slot h lt free in
      let u = h.used slot lt in
      let w = machine.ide_write_sectors (slot_lba s' slot) frame s.world in
      if-cases (MovedOut vaddr s) w.0
        (
          true,
          record {
            task = record s.task { swap_map = s.task.swap_map ++ e ∷ [] };
            swap = record s' { swaps_out = s.swap.swaps_out + 1 };
            world = machine.pmm_free_frame frame (machine.vmm_unmap s.task.cr3 vaddr w.1);
          },
        )
        (false, record s { swap = slot_free slot s'; world = w.1 })
        (λ sent. (
          recount (s.task.swap_map ++ e ∷ []) others s'
              (record s' { swaps_out = s.swap.swaps_out + 1 }) refl refl taken,
          (let l = length-append s.task.swap_map (e ∷ []) in omega arith),
          (slot, refl, lt, ground arith),
        ))
        (λ failed. (
          give-Accounted (s.task.swap_map ++ e ∷ []) s.task.swap_map others s' slot taken
              (λ k. let a = uses-append k s.task.swap_map e in omega arith),
          refl,
        ))

  -- A move of a page to the disk, in any state of the machine, keeps the accounting of the slots; if it
  -- succeeds the page has an entry, on a slot that no task had and that lies in the region, and the task's
  -- map has not outgrown its array; if it fails the task is as it was.
  pub swap_out-MovedOut :
      (vaddr : ℕ) (s : State W) → Kept s → MovedOut vaddr s (swap_out machine vaddr s)
  unfolding swap_out slot_alloc
  swap_out-MovedOut vaddr s h =
      let P : (Option ℕ × Swap → Type 0) = λ taken. MovedOut vaddr s (elim taken.0 [
        | none ↦ (false, s)
        | some slot ↦
            write_page machine vaddr (machine.vmm_translate s.task.cr3 vaddr s.world) slot
              (record s { swap = taken.1 })
      ]) in
      if-cases (MovedOut vaddr s) (not s.swap.active || not s.task.user || s.task.cr3 == 0) _ _
        (λ off. (h, refl))
        (λ on.
          if-cases (MovedOut vaddr s)
            (swap_has s.task vaddr || leb swap_max_per_task (length s.task.swap_map)) _ _
            (λ full. (h, refl))
            (λ room.
              if-cases (MovedOut vaddr s) (machine.vmm_translate s.task.cr3 vaddr s.world == 0) _ _
                (λ absent. (h, refl))
                (λ present.
                  let active : s.swap.active ≡ true = ground arith in
                  elim (slot_alloc-Taken s.swap active) [
                    | inl full ↦ subst P (sym full) (h, refl)
                    | inr (slot, lt, free, got) ↦ subst P (sym got) (
                        write_page-MovedOut vaddr (machine.vmm_translate s.task.cr3 vaddr s.world)
                          slot s h (ground arith) lt free)
                  ])))

  -- 1 for an entry of the page `v` in the slot `k`.
  abbrev pub copies : ℕ → ℕ → Ent → ℕ
  copies v k e = if e.vkey == v && e.slot == k then 1 else 0

  -- How a move from the disk ends: with the entry of the page gone and its slot free, or with the task as
  -- it was.
  abbrev pub MovedIn : ℕ → State W → Bool × State W → Type 0
  MovedIn vaddr s (true, s') =
      Kept s'
      × ((i : ℕ) × (i < length s.task.swap_map)
          × ((get_or s.task.swap_map i no_ent).vkey ≡ vaddr / 2 ^ 12)
          × ((v k : ℕ)
              → weigh (copies v k) s'.task.swap_map + copies v k (get_or s.task.swap_map i no_ent)
                ≡ weigh (copies v k) s.task.swap_map))
  MovedIn vaddr s (false, s') = Kept s' × (s'.task ≡ s.task)

  read_page-MovedIn :
      (vaddr frame i : ℕ) (s : State W)
      → Kept s
      → i < length s.task.swap_map
      → (get_or s.task.swap_map i no_ent).vkey ≡ vaddr / 2 ^ 12
      → MovedIn vaddr s (read_page machine vaddr frame i s)
  unfolding read_page
  read_page-MovedIn vaddr frame i s h lt key =
      let slot = (get_or s.task.swap_map i no_ent).slot in
      let gone = λ (k : ℕ). uses-remove_at k i s.task.swap_map lt in
      let freed = slot_free slot s.swap in
      let w = machine.ide_read_sectors (slot_lba s.swap slot) frame s.world in
      if-cases (MovedIn vaddr s) w.0
        (
          true,
          record {
            task = record s.task { swap_map = remove_at i s.task.swap_map };
            swap = record freed { swaps_in = freed.swaps_in + 1 };
            world = machine.vmm_map s.task.cr3 vaddr frame w.1;
          },
        )
        (false, record s { world = machine.pmm_free_frame frame w.1 })
        (λ got. (
          recount (remove_at i s.task.swap_map) others freed
              (record freed { swaps_in = freed.swaps_in + 1 }) refl refl
              (give-Accounted s.task.swap_map (remove_at i s.task.swap_map) others s.swap slot h
                gone),
          (i, lt, key, λ v k. weigh-remove_at (copies v k) i s.task.swap_map lt),
        ))
        (λ failed. (h, refl))

  -- A move of a page from the disk, in any state of the machine, keeps the accounting of the slots; if it
  -- succeeds one entry of the page is gone from the task's map, which has every other entry, a page with
  -- its slot, as often as before; if it fails the task is as it was.
  pub swap_in-MovedIn :
      (vaddr : ℕ) (s : State W) → Kept s → MovedIn vaddr s (swap_in machine vaddr s)
  unfolding swap_in
  swap_in-MovedIn vaddr s h =
      let given = machine.pmm_alloc_frame s.world in
      if-cases (MovedIn vaddr s) (not s.swap.active || not s.task.user || s.task.cr3 == 0) _ _
        (λ off. (h, refl))
        (λ on.
          elim-cases (MovedIn vaddr s) (ent_find s.task.swap_map vaddr) (false, s) _ (h, refl)
            (λ i found.
              let l =
                subst (Located s.task.swap_map vaddr) found
                  (ent_find-Located s.task.swap_map vaddr) in
              if-cases (MovedIn vaddr s) (given.0 == 0) (false, record s { world = given.1 })
                (read_page machine vaddr given.0 i (record s { world = given.1 }))
                (λ empty. (h, refl))
                (λ frame.
                  read_page-MovedIn vaddr given.0 i (record s { world = given.1 }) h l.0 l.1)))

-- The end of a task gives all its slots back: the accounting holds without it.
pub swap_exit_task-Accounted :
    (t : Process) (s : Swap) (others : List Ent)
    → Accounted t.swap_map others s
    → s.active ≡ true
    → Accounted (swap_exit_task t s).0.swap_map others (swap_exit_task t s).1
      × ((swap_exit_task t s).0.swap_map ≡ [])
unfolding swap_exit_task
swap_exit_task-Accounted t s others h on =
    if-cases (λ (r : Process × Swap). Accounted r.0.swap_map others r.1 × (r.0.swap_map ≡ []))
      s.active (record t { swap_map = [] }, free_slots t.swap_map s) (t, s)
      (λ active. (free_slots-Accounted t.swap_map others s h, refl))
      (λ inactive. absurd (Bool-clash _ on inactive))
