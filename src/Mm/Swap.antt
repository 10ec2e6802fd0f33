-- ===== src/Mm/Swap.antt =====
-- kernel/mm/swap.c: user pages in the tail of the disk. The page tables, the frames and the disk are a
-- parameter. A task's map of swapped pages is a list of `swap_count` entries.
pub mod Slots
pub mod Moves
mod Tests
use no_os.Base.{
  ℕ, zero, suc, ◌+◌, ◌-◌, ◌*◌, ◌/◌, ◌%◌, ◌^◌, max, Bool, true, false, not, ◌&&◌, ◌||◌, Option, none,
  some, List, [], ◌∷◌, ◌++◌, ltb, leb, ◌==◌, if◌then◌else◌, length, get_or, set, take, add64, sub64,
}
use no_os.Kern.Sched.{user_image_base}
use no_os.Mm.Bitmap.{
  cleared, bitmap_set, bitmap_clear, bitmap_test, first_clear, count_clear, IsBitmap,
}

abbrev pub swap_max_per_task : ℕ
swap_max_per_task = 128

abbrev pub user_region_end : ℕ
user_region_end = 0x0000010100000000

abbrev pub user_script_base : ℕ
user_script_base = 0x00000100C0000000

abbrev pub user_heap_base : ℕ
user_heap_base = 0x00000100D0000000

abbrev pub user_stack_base : ℕ
user_stack_base = 0x00000100F0000000

-- `swap_ent_t`
pub record Ent : Type 0 where
  pub vkey : ℕ
  pub slot : ℕ

abbrev pub no_ent : Ent
no_ent = record { vkey = 0; slot = 0 }

-- The fields of a task that swapping uses.
pub record Process : Type 0 where
  pub user : Bool
  pub cr3 : ℕ
  pub swap_map : List Ent
  pub heap_pages : ℕ

pub record Swap : Type 0 where
  pub start : ℕ
  pub blocks : ℕ
  pub pages : ℕ
  pub slots : List ℕ
  pub active : Bool
  pub swaps_out : ℕ
  pub swaps_in : ℕ
  pub reclaims : ℕ

-- What swapping calls: the page tables, the frame allocator, with the address 0 for no frame, and the disk,
-- whose transfers succeed or not.
pub record Machine (W : Type 0) : Type 0 where
  pub vmm_translate : ℕ → ℕ → W → ℕ
  pub vmm_map : ℕ → ℕ → ℕ → W → W
  pub vmm_unmap : ℕ → ℕ → W → W
  pub pmm_alloc_frame : W → ℕ × W
  pub pmm_free_frame : ℕ → W → W
  pub pmm_avail_frames : W → ℕ
  pub pmm_total_frames : W → ℕ
  pub ide_write_sectors : ℕ → ℕ → W → Bool × W
  pub ide_read_sectors : ℕ → ℕ → W → Bool × W

-- A quarter of the disk, and at least a page.
unfoldable pub swap_geometry : ℕ → ℕ × ℕ × ℕ
swap_geometry disk_blocks =
    let blocks = max (disk_blocks / 4) 8 in (sub64 disk_blocks blocks, blocks, blocks / 8)

-- `disk` is the size of the disk, 0 if unknown, and `room` whether there is memory for the bits.
pub swap_init : ℕ → Bool → Swap → Bool × Swap
unfolding swap_geometry
swap_init disk room s =
    let (start, blocks, pages) = swap_geometry (if disk == 0 then 65536 else disk) in
    let s' = record s { start = start; blocks = blocks; pages = pages } in
    if room
    then (true, record s' { slots = cleared ((pages + 7) / 8); active = true })
    else (false, s')

-- The sector of a slot, as the disk driver takes it.
pub slot_lba : Swap → ℕ → ℕ
slot_lba s slot = add64 s.start (slot * 8) % 2 ^ 32

pub slot_alloc : Swap → Option ℕ × Swap
slot_alloc s =
    if s.active
    then elim (first_clear s.slots 0 s.pages) [
      | none ↦ (none, s)
      | some i ↦ (some i, record s { slots = bitmap_set s.slots i })
    ]
    else (none, s)

pub slot_free : ℕ → Swap → Swap
slot_free slot s = record s { slots = bitmap_clear s.slots slot }

-- The index of the entry, in place of its address.
pub ent_find : List Ent → ℕ → Option ℕ
ent_find [] vaddr = none
ent_find (e ∷ ents) vaddr =
    if e.vkey == vaddr / 2 ^ 12
    then some 0
    else elim (ent_find ents vaddr) [ none ↦ none | some i ↦ some (suc i) ]

pub swap_has : Process → ℕ → Bool
unfolding ent_find
swap_has t vaddr = elim (ent_find t.swap_map vaddr) [ none ↦ false | some i ↦ true ]

-- `map[i] = map[--count]`
pub remove_at : ℕ → List Ent → List Ent
remove_at i ents = let last = length ents - 1 in take last (set ents i (get_or ents last no_ent))

-- What the operations change.
pub record State (W : Type 0) : Type 0 where
  pub task : Process
  pub swap : Swap
  pub world : W

module _ {W : Type 0} (machine : Machine W) where
  -- The page at `frame` goes to the slot that was taken in `s`.
  pub write_page : ℕ → ℕ → ℕ → State W → Bool × State W
  unfolding slot_lba slot_free
  write_page vaddr frame slot s =
      let sent = machine.ide_write_sectors (slot_lba s.swap slot) frame s.world in
      if sent.0
      then (
        true,
        record s {
          task = record s.task {
            swap_map = s.task.swap_map ++ record { vkey = vaddr / 2 ^ 12; slot = slot } ∷ [];
          };
          swap = record s.swap { swaps_out = s.swap.swaps_out + 1 };
          world = machine.pmm_free_frame frame (machine.vmm_unmap s.task.cr3 vaddr sent.1);
        },
      )
      else (false, record s { swap = slot_free slot s.swap; world = sent.1 })

  -- `true` is the result 0.
  pub swap_out : ℕ → State W → Bool × State W
  unfolding swap_has slot_alloc write_page
  swap_out vaddr s =
      if not s.swap.active || not s.task.user || s.task.cr3 == 0
      then (false, s)
      else (if swap_has s.task vaddr || leb swap_max_per_task (length s.task.swap_map)
          then (false, s)
          else (let frame = machine.vmm_translate s.task.cr3 vaddr s.world in
              if frame == 0
              then (false, s)
              else (let taken = slot_alloc s.swap in
                  elim taken.0 [
                    | none ↦ (false, s)
                    | some slot ↦ write_page vaddr frame slot (record s { swap = taken.1 })
                  ])))

  -- The entry number `i` comes back to `frame`.
  pub read_page : ℕ → ℕ → ℕ → State W → Bool × State W
  unfolding slot_lba slot_free remove_at
  read_page vaddr frame i s =
      let slot = (get_or s.task.swap_map i no_ent).slot in
      let got = machine.ide_read_sectors (slot_lba s.swap slot) frame s.world in
      if got.0
      then (
        true,
        record s {
          task = record s.task { swap_map = remove_at i s.task.swap_map };
          swap =
              let freed = slot_free slot s.swap in record freed { swaps_in = freed.swaps_in + 1 };
          world = machine.vmm_map s.task.cr3 vaddr frame got.1;
        },
      )
      else (false, record s { world = machine.pmm_free_frame frame got.1 })

  pub swap_in : ℕ → State W → Bool × State W
  unfolding ent_find read_page
  swap_in vaddr s =
      if not s.swap.active || not s.task.user || s.task.cr3 == 0
      then (false, s)
      else elim (ent_find s.task.swap_map vaddr) [
        | none ↦ (false, s)
        | some i ↦
            let given = machine.pmm_alloc_frame s.world in
            if given.0 == 0
            then (false, record s { world = given.1 })
            else read_page vaddr given.0 i (record s { world = given.1 })
      ]

  -- `page` is the predictor's guess, 0 for none.
  pub swap_prefetch : ℕ → State W → State W
  unfolding swap_has swap_in
  swap_prefetch page s =
      let vaddr = page * 2 ^ 12 % 2 ^ 64 in
      if not s.swap.active || not s.task.user || s.task.cr3 == 0 || page == 0
      then s
      else (if ltb vaddr user_image_base || leb user_region_end vaddr || not (swap_has s.task vaddr)
          then s
          else (swap_in vaddr s).1)

  -- The pages number `i` on of a region, until enough frames are free; `true` when they are.
  pub reclaim_pages : ℕ → ℕ → ℕ → ℕ → State W → Bool × State W
  unfolding swap_out
  reclaim_pages low base i zero s = (false, s)
  reclaim_pages low base i (suc n) s =
      let out = swap_out (base + i * 4096) s in
      let s' =
        if out.0
        then record out.1 { swap = record out.1.swap { reclaims = out.1.swap.reclaims + 1 } }
        else out.1 in
      let rest = reclaim_pages low base (i + 1) n s' in
      if out.0 && ltb low (machine.pmm_avail_frames s'.world) then (true, s') else rest

  -- The scratch pages, the stack and the heap of a task.
  pub reclaim_task : State W → State W
  unfolding reclaim_pages
  reclaim_task s =
      let low = machine.pmm_total_frames s.world / 25 in
      let (done1, s1) = reclaim_pages low user_script_base 0 8 s in
      let (done2, s2) = reclaim_pages low user_stack_base 0 16 s1 in
      let (done3, s3) = reclaim_pages low user_heap_base 0 s.task.heap_pages s2 in
      if ltb low (machine.pmm_avail_frames s.world) || not s.task.user || s.task.cr3 == 0
      then s
      else (if done1 then s1 else (if done2 then s2 else s3))

  -- The user tasks, one after the other.
  pub reclaim_tasks : List Process → Swap → W → List Process × Swap × W
  unfolding reclaim_task
  reclaim_tasks [] swap world = ([], swap, world)
  reclaim_tasks (t ∷ tasks) swap world =
      let s = reclaim_task (record { task = t; swap = swap; world = world }) in
      let (rest, swap1, world1) = reclaim_tasks tasks s.swap s.world in
      (s.task ∷ rest, swap1, world1)

  pub swap_reclaim : List Process → Swap → W → List Process × Swap × W
  unfolding reclaim_tasks
  swap_reclaim tasks swap world =
      if not swap.active
        || ltb (machine.pmm_total_frames world / 25) (machine.pmm_avail_frames world)
      then (tasks, swap, world)
      else reclaim_tasks tasks swap world

-- The slots of a task that ends.
pub free_slots : List Ent → Swap → Swap
unfolding slot_free
free_slots [] s = s
free_slots (e ∷ ents) s = free_slots ents (slot_free e.slot s)

pub swap_exit_task : Process → Swap → Process × Swap
unfolding free_slots
swap_exit_task t s =
    if s.active then (record t { swap_map = [] }, free_slots t.swap_map s) else (t, s)

pub count_used : List ℕ → ℕ → ℕ
count_used slots zero = 0
count_used slots (suc n) = (if bitmap_test slots n then 1 else 0) + count_used slots n

pub swap_slots_used : Swap → ℕ
unfolding count_used
swap_slots_used s = if s.active then count_used s.slots s.pages else 0
