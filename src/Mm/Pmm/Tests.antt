-- ===== src/Mm/Pmm/Tests.antt =====
-- Runs of pmm.c on a machine of twelve frames, three of them in use.
use no_os.Base.{ℕ, ◌*◌, ◌<◌, ◌≡◌, refl, ap, ◌≢◌, true, some, [], ◌∷◌, arith}
use no_os.Mm.Bitmap.{bitmap_test, bitmap_set, count_clear, first_clear}
use no_os.Mm.Pmm.{
  Pmm, IsValid, frame_size, pmm_alloc_frame, pmm_alloc_frames, pmm_free_frames, pmm_used_bytes,
  pmm_init,
}
use no_os.Mm.Pmm.Alloc.{Allocated, pmm_alloc_frame-Allocated}
use no_os.Mm.Pmm.Runs.{AllocatedRun, pmm_alloc_frames-AllocatedRun, free_frames-alloc_frames}
use no_os.Mm.Pmm.Init.{Overlaps, pmm_init_lem}

abbrev small : Pmm
small = record { bitmap = 0b10011 ∷ 0 ∷ []; total_frames = 12; free_frames = 9 }

small-IsValid : IsValid small
unfolding count_clear bitmap_test
small-IsValid = record { bits = omega arith; window = omega arith; counted = refl }

alloc_lowest : (pmm_alloc_frame small).0 ≡ 2 * frame_size
unfolding pmm_alloc_frame first_clear bitmap_test
alloc_lowest = refl

-- The two free frames 2 and 3 are too few for three, which are found from frame 5 on.
alloc_run : (pmm_alloc_frames 3 small).0 ≡ 5 * frame_size
unfolding pmm_alloc_frames bitmap_test
alloc_run = refl

used : pmm_used_bytes small ≡ 3 * frame_size
unfolding pmm_used_bytes
used = refl

pmm_alloc_frame-Allocated_example : Allocated small (pmm_alloc_frame small)
pmm_alloc_frame-Allocated_example = pmm_alloc_frame-Allocated small small-IsValid

pmm_alloc_frames-AllocatedRun_example : AllocatedRun 3 small (pmm_alloc_frames 3 small)
pmm_alloc_frames-AllocatedRun_example =
    pmm_alloc_frames-AllocatedRun 3 small small-IsValid (omega arith)

abbrev taken : Pmm
taken = record { bitmap = 0b11110011 ∷ 0 ∷ []; total_frames = 12; free_frames = 6 }

taken_run : pmm_alloc_frames 3 small ≡ (5 * frame_size, taken)
unfolding pmm_alloc_frames bitmap_test bitmap_set
taken_run = refl

taken_moved : taken ≢ small
taken_moved e = absurd (omega (arith, ap (λ (p : Pmm). p.free_frames) e))

free_frames-alloc_frames_example : IsValid (pmm_free_frames (5 * frame_size) 3 taken)
free_frames-alloc_frames_example =
    (free_frames-alloc_frames 3 5 small taken small-IsValid (omega arith) taken_run taken_moved).0

-- A boot loader that reports nothing but zeros: one megabyte of memory.
abbrev no_memory : ℕ → ℕ
no_memory a = 0

pmm_init_lem_example :
    (q : Pmm) × (pmm_init no_memory 0x100000 0x200000 0x9000 ≡ some q)
    × IsValid q
    × ((j : ℕ) → j < q.total_frames → j < 256 → bitmap_test q.bitmap j ≡ true)
    × ((j : ℕ)
        → j < q.total_frames
        → Overlaps no_memory 0x100000 0x200000 0x9000 0x100000 0x100000 j
        → bitmap_test q.bitmap j ≡ true)
    × ((j : ℕ)
        → j < q.total_frames
        → Overlaps no_memory 0x100000 0x200000 0x9000 0x9000 4096 j
        → bitmap_test q.bitmap j ≡ true)
pmm_init_lem_example =
    pmm_init_lem no_memory 0x100000 0x200000 0x9000 (omega arith) (omega arith) (omega arith)
      (λ a at within. omega arith)
