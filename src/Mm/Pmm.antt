-- ===== src/Mm/Pmm.antt =====
-- kernel/mm/pmm.c: the physical frame allocator, a bitmap of 4 KiB frames with a count of the free
-- ones. A function that changes the static variables returns their new values.
pub mod Reserve
pub mod Alloc
pub mod Runs
pub mod Init
mod Tests
use no_os.Base.{
  ℕ, zero, suc, ◌+◌, ◌-◌, ◌*◌, ◌/◌, ◌^◌, ◌≤◌, bit_and, ◌≡◌, ◌&&◌, Option, none, some, List, ltb,
  leb, ◌==◌, if◌then◌else◌, add64, sub64, mul64, add32, read32, read64,
}
use no_os.Mm.Bitmap.{
  cleared, bitmap_set, bitmap_clear, bitmap_test, first_clear, count_clear, IsBitmap,
}

abbrev pub frame_size : ℕ
frame_size = 4096

-- `bitmap`, `total_frames`, `free_frames`
pub record Pmm : Type 0 where
  pub bitmap : List ℕ
  pub total_frames : ℕ
  pub free_frames : ℕ

-- `bitmap_set(i); free_frames--`
pub take_frame : ℕ → Pmm → Pmm
take_frame i p = record p { bitmap = bitmap_set p.bitmap i; free_frames = sub64 p.free_frames 1 }

-- The loop of `pmm_reserve`, `n` rounds from frame `i` on.
pub reserve_from : ℕ → ℕ → Pmm → Pmm
unfolding take_frame
reserve_from i zero p = p
reserve_from i (suc n) p =
    reserve_from (i + 1) n (if bitmap_test p.bitmap i then p else take_frame i p)

abbrev pub reserve_last : ℕ → ℕ → Pmm → ℕ
reserve_last addr len p =
    let last = add64 (add64 addr len) (frame_size - 1) / frame_size in
    if ltb p.total_frames last then p.total_frames else last

pub pmm_reserve : ℕ → ℕ → Pmm → Pmm
unfolding reserve_from
pmm_reserve addr len p =
    reserve_from (addr / frame_size) (reserve_last addr len p - addr / frame_size) p

unfoldable pub pmm_alloc_frame : Pmm → ℕ × Pmm
unfolding take_frame
pmm_alloc_frame p = elim (first_clear p.bitmap 0 p.total_frames) [
  | none ↦ (0, p)
  | some i ↦ (i * frame_size, take_frame i p)
]

-- The scan of `pmm_alloc_frames`: `n` rounds from frame `i` on, with `need` clear frames just before
-- `i`. The result is `base / FRAME_SIZE`.
pub find_run : List ℕ → ℕ → ℕ → ℕ → ℕ → Option ℕ
find_run bitmap count i need zero = none
find_run bitmap count i need (suc n) =
    let busy = find_run bitmap count (i + 1) 0 n in
    let more = find_run bitmap count (i + 1) (need + 1) n in
    if bitmap_test bitmap i
    then busy
    else if need + 1 == count
    then some (i + 1 - (need + 1))
    else more

-- The inner loop of `pmm_alloc_frames`: frames `i .. i + n - 1` are taken.
pub take_run : ℕ → ℕ → Pmm → Pmm
unfolding take_frame
take_run i zero p = p
take_run i (suc n) p = take_run (i + 1) n (take_frame i p)

unfoldable pub pmm_alloc_frames : ℕ → Pmm → ℕ × Pmm
unfolding find_run take_run
pmm_alloc_frames count p = elim (find_run p.bitmap count 0 0 p.total_frames) [
  | none ↦ (0, p)
  | some i ↦ (i * frame_size, take_run i count p)
]

unfoldable pub pmm_free_frame : ℕ → Pmm → Pmm
pmm_free_frame addr p =
    let idx = addr / frame_size in
    if ltb idx p.total_frames && bitmap_test p.bitmap idx
    then record p { bitmap = bitmap_clear p.bitmap idx; free_frames = add64 p.free_frames 1 }
    else p

-- The rounds of `pmm_free_frames` from `j` on.
pub free_from : ℕ → ℕ → ℕ → Pmm → Pmm
free_from addr j zero p = p
free_from addr j (suc n) p =
    free_from addr (j + 1) n (pmm_free_frame (add64 addr (j * frame_size)) p)

unfoldable pub pmm_free_frames : ℕ → ℕ → Pmm → Pmm
unfolding free_from
pmm_free_frames addr count p = free_from addr 0 count p

unfoldable pub pmm_total_frames : Pmm → ℕ
pmm_total_frames p = p.total_frames

unfoldable pub pmm_avail_frames : Pmm → ℕ
pmm_avail_frames p = p.free_frames

unfoldable pub pmm_used_bytes : Pmm → ℕ
pmm_used_bytes p = mul64 (sub64 p.total_frames p.free_frames) frame_size

unfoldable pub pmm_total_bytes : Pmm → ℕ
pmm_total_bytes p = mul64 (pmm_total_frames p) frame_size

unfoldable pub pmm_free_bytes : Pmm → ℕ
pmm_free_bytes p = mul64 (pmm_avail_frames p) frame_size

-- The memory-map loop of `pmm_init`, whose step `sz + 4` wraps at 32 bits; `none` when the fuel runs out.
pub mmap_loop : ℕ → (ℕ → ℕ) → ℕ → ℕ → Pmm → Option Pmm
mmap_loop zero mem a end p = none
mmap_loop (suc fuel) mem a end p =
    let sz = read32 mem a in
    let p' =
      if read32 mem (a + 20) == 1
      then p
      else pmm_reserve (read64 mem (a + 4)) (read64 mem (a + 12)) p in
    let rest = mmap_loop fuel mem (a + add32 sz 4) end p' in
    if leb (a + 20) end then (if ltb sz 20 then some p else rest) else some p

-- The bitmap is cleared, and all frames below the end of memory counted free.
pub fresh : ℕ → Pmm
fresh mem_upper =
    let bytes = 0x100000 + mem_upper * 1024 in
    let mem_bytes = if ltb 0x40000000 bytes then 0x40000000 else bytes in
    record {
      bitmap = cleared 32768;
      total_frames = mem_bytes / frame_size;
      free_frames = mem_bytes / frame_size;
    }

-- `mem` is the memory that the boot loader left, `kernel_start` and `kernel_end` the linker's symbols.
pub pmm_init : (ℕ → ℕ) → ℕ → ℕ → ℕ → Option Pmm
unfolding fresh mmap_loop
pmm_init mem kernel_start kernel_end mb_info =
    let flags = read32 mem mb_info in
    let p0 = fresh (read32 mem (mb_info + 8)) in
    let p1 = pmm_reserve 0 0x100000 p0 in
    let p2 = pmm_reserve kernel_start (sub64 kernel_end kernel_start) p1 in
    let p3 = pmm_reserve mb_info 4096 p2 in
    let a = read32 mem (mb_info + 48) in
    let end = a + read32 mem (mb_info + 44) in
    if bit_and flags 0x40 == 0 then some p3 else mmap_loop (end + 1) mem a end p3

-- What every operation keeps.
pub record IsValid (p : Pmm) : Type 0 where
  pub bits : IsBitmap p.total_frames p.bitmap
  pub window : p.total_frames ≤ 2 ^ 18
  pub counted : p.free_frames ≡ count_clear p.bitmap p.total_frames
