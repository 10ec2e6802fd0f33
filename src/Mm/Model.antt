-- ===== src/Mm/Model.antt =====
-- kernel/mm/model.c: the window of model weights in a user task, whose pages come on demand and count against a budget.
-- The weights lie at an address of memory, which is that of Mm/Vmm; the printed lines and `invlpg` are left out.
pub mod Budget
mod Tests
use no_os.Base.{
  ℕ, zero, suc, ◌+◌, ◌-◌, ◌*◌, ◌/◌, ◌%◌, ◌^◌, bit_and, Bool, true, false, not, ◌&&◌, ◌||◌, Option,
  none, some, List, [], ◌∷◌, ltb, leb, ◌==◌, if◌then◌else◌, get_or, set, take, replicate, add32,
  sub32,
}
use no_os.Mm.Pmm.{pmm_alloc_frame, pmm_free_frame}
use no_os.Mm.Vmm.{Paging, vmm_map, vmm_unmap, vmm_user}

abbrev pub user_model_base : ℕ
user_model_base = 0x00000100F1000000

abbrev pub user_model_max : ℕ
user_model_max = 2 ^ 30

abbrev pub model_pg : ℕ
model_pg = 4096

-- The fields of a task that the window uses.
pub record Client : Type 0 where
  pub cr3 : ℕ
  pub model_budget_kb : ℕ
  pub model_weights_kb : ℕ
  pub model_faults : ℕ
  pub model_frames_n : ℕ
  pub model_frames : Option (List ℕ)
  pub model_map : Option (List ℕ)

pub record Window : Type 0 where
  pub task : Client
  pub paging : Paging
  pub win_pages : ℕ

pub model_window_setup : ℕ → Window → Window
model_window_setup weight_pages s =
    let p = if ltb weight_pages 1 then 1 else weight_pages in
    record s {
      win_pages = if ltb (user_model_max / model_pg) p then user_model_max / model_pg else p;
    }

pub model_in_range : ℕ → ℕ → Bool
model_in_range win_pages addr =
    leb user_model_base addr && ltb (addr - user_model_base) (win_pages * model_pg)

abbrev pub bitmap_words : ℕ → ℕ
bitmap_words n = (n + 31) / 32

-- The ones of a word: each round clears the lowest, so 32 rounds are enough.
pub count_ones : ℕ → ℕ → ℕ
count_ones zero b = 0
count_ones (suc n) b = let rest = count_ones n (bit_and b (b - 1)) in if b == 0 then 0 else rest + 1

pub count_words : List ℕ → ℕ
unfolding count_ones
count_words [] = 0
count_words (w ∷ words) = count_ones 32 w + count_words words

pub model_resident_pages : Client → ℕ
unfolding count_words
model_resident_pages t = elim t.model_map [
  | none ↦ 0
  | some words ↦ count_words (take (bitmap_words t.model_frames_n) words)
]

pub is_allocated : Option (List ℕ) → Bool
is_allocated none = false
is_allocated (some xs) = true

-- `room` is whether the heap has room for both arrays; the old arrays are freed.
pub model_ensure_task : Bool → ℕ → Client → Bool × Client
unfolding is_allocated
model_ensure_task room pages t =
    if leb pages t.model_frames_n && is_allocated t.model_frames && is_allocated t.model_map
    then (true, t)
    else (if room
        then (
          true,
          record t {
            model_frames = some (replicate pages 0);
            model_map = some (replicate (bitmap_words pages) 0);
            model_frames_n = pages;
          },
        )
        else (false, t))

pub model_exit_task : Client → Client
model_exit_task t = record t { model_frames = none; model_map = none; model_frames_n = 0 }

-- `(w >> k) & 1`, `w | 1 << k` and `w & ~(1 << k)`
pub word_bit : ℕ → ℕ → Bool
word_bit w k = w / 2 ^ k % 2 == 1

pub word_set : ℕ → ℕ → ℕ
unfolding word_bit
word_set w k = if word_bit w k then w else w + 2 ^ k

pub word_clear : ℕ → ℕ → ℕ
unfolding word_bit
word_clear w k = if word_bit w k then w - 2 ^ k else w

pub model_page_resident : Client → ℕ → Bool
unfolding word_bit
model_page_resident t pg = elim t.model_map [
  | none ↦ false
  | some words ↦ word_bit (get_or words (pg / 32) 0) (pg % 32)
]

pub model_page_set : ℕ → Bool → Client → Client
unfolding word_set word_clear
model_page_set pg resident t = record t {
  model_map = elim t.model_map [
    | none ↦ none
    | some words ↦
        let w = get_or words (pg / 32) 0 in
        some
          (set words (pg / 32) (if resident then word_set w (pg % 32) else word_clear w (pg % 32)))
  ];
}

pub set_frame : ℕ → ℕ → Client → Client
set_frame pg frame t = record t {
  model_frames = elim t.model_frames [ none ↦ none | some frames ↦ some (set frames pg frame) ];
}

-- A page of words is copied.
pub copy_page : ℕ → ℕ → Paging → Paging
copy_page dst src s = record s {
  mem = λ x. if leb dst x && ltb x (dst + model_pg) then s.mem (src + (x - dst)) else s.mem x;
}

-- The task whose page `pg` has come in.
pub charged : ℕ → ℕ → Client → Client
unfolding set_frame model_page_set
charged pg frame t =
    let u = model_page_set pg true (set_frame pg frame t) in
    record u { model_weights_kb = add32 u.model_weights_kb 4 }

pub model_fault_in_page : ℕ → ℕ → Window → Bool × Window
unfolding copy_page charged
model_fault_in_page weights pg s =
    let (frame, pmm) = pmm_alloc_frame s.paging.pmm in
    let taken = record s.paging { pmm = pmm } in
    if frame == 0 then (false, record s { paging = taken }) else (
      true,
      record s {
        paging =
            vmm_map s.task.cr3 (user_model_base + pg * model_pg) frame vmm_user
              (copy_page frame (weights + pg * model_pg) taken);
        task = charged pg frame s.task;
      },
    )

-- The page `pg` of the window comes in where the budget and the frames allow it; the numbers are of faults.
pub bring_in : ℕ → ℕ → ℕ → Window → Bool × Window
unfolding model_page_resident model_fault_in_page
bring_in faults weights pg s =
    let (done, u) = model_fault_in_page weights pg s in
    if model_page_resident s.task pg
    then (true, s)
    else (if ltb s.task.model_budget_kb (s.task.model_weights_kb + 4)
        then (false, s)
        else (if done
            then (
              true,
              record u { task = record u.task { model_faults = add32 u.task.model_faults faults } },
            )
            else (false, u)))

pub model_demand_fault : Bool → ℕ → ℕ → ℕ → Window → Bool × Window
unfolding model_in_range model_ensure_task bring_in
model_demand_fault room weights cr2 err s =
    let pg = (cr2 - user_model_base) / model_pg in
    let (ready, t) = model_ensure_task room s.win_pages s.task in
    if not (model_in_range s.win_pages cr2) || err % 2 == 1 || leb s.win_pages pg
    then (false, s)
    else (if ready then bring_in 1 weights pg (record s { task = t }) else (false, s))

-- `p` is the predictor's page, 0 for none.
pub model_prefetch : Bool → ℕ → ℕ → Window → Window
unfolding model_in_range model_ensure_task bring_in
model_prefetch room weights p s =
    let vaddr = p * 2 ^ 12 % 2 ^ 64 in
    let pg = (vaddr - user_model_base) / model_pg in
    let (ready, t) = model_ensure_task room s.win_pages s.task in
    if p == 0 || not (model_in_range s.win_pages vaddr) || leb s.win_pages pg
    then s
    else (if ready then (bring_in 0 weights pg (record s { task = t })).1 else s)

-- A page that is resident goes.
pub drop_page : ℕ → Client × Paging → Client × Paging
unfolding model_page_set set_frame
drop_page pg (t, m) =
    let frame : ℕ = elim t.model_frames [ none ↦ 0 | some frames ↦ get_or frames pg 0 ] in
    let m1 = vmm_unmap t.cr3 (user_model_base + pg * model_pg) m in
    let u = model_page_set pg false (set_frame pg 0 t) in
    (
      record u { model_weights_kb = sub32 u.model_weights_kb 4 },
      record m1 { pmm = pmm_free_frame frame m1.pmm },
    )

pub model_evict_page : ℕ → Window → Bool × Window
unfolding model_page_resident drop_page
model_evict_page pg s =
    let (t, m) = drop_page pg (s.task, s.paging) in
    if leb s.win_pages pg || not (model_page_resident s.task pg)
    then (false, s)
    else (true, record s { task = t; paging = m })

-- The pages from `pg` on.
pub drop_pages : ℕ → ℕ → Client × Paging → Client × Paging
unfolding model_page_resident drop_page
drop_pages pg zero s = s
drop_pages pg (suc n) s =
    drop_pages (pg + 1) n (if model_page_resident s.0 pg then drop_page pg s else s)

pub model_invalidate_task : Client × Paging → Client × Paging
unfolding drop_pages is_allocated
model_invalidate_task (t, m) =
    if is_allocated t.model_frames && is_allocated t.model_map
    then drop_pages 0 t.model_frames_n (t, m)
    else (t, m)

-- The user tasks, one after the other.
pub model_invalidate_all : List Client → Paging → List Client × Paging
unfolding model_invalidate_task
model_invalidate_all [] m = ([], m)
model_invalidate_all (t ∷ tasks) m =
    let (t1, m1) = model_invalidate_task (t, m) in
    let (rest, m2) = model_invalidate_all tasks m1 in (t1 ∷ rest, m2)
