-- ===== src/Mm/Heap/Tests.antt =====
-- Runs of heap.c on one region with a live block of 64 bytes in front.
use no_os.Base.{ℕ, ◌-◌, ◌^◌, ◌≤◌, ◌≡◌, refl, true, false, some, [], ◌∷◌, arith}
use no_os.Mm.Bitmap.{bitmap_test, count_clear}
use no_os.Mm.Pmm.{Pmm}
use no_os.Mm.Pmm
use no_os.Mm.Heap.{
  Block, Heap, find_block, kmalloc, kfree, kmalloc_fuel, first_fit, fit_at, skip, requested,
  align16, release, merge_next, merge_prev, mark_free, adjacent,
}
use no_os.Mm.Heap.Invariant.{IsValid, InUse}
use no_os.Mm.Heap.Malloc.{Outcome, kmalloc-Outcome}
use no_os.Mm.Heap.Free.{Released, kfree-Released}

abbrev frames : Pmm
frames = record { bitmap = 3 ∷ []; total_frames = 8; free_frames = 6 }

abbrev front : Block
front = record { addr = 4096; size = 64; free = false }

abbrev heap : Heap
heap = record {
  chain = front ∷ record { addr = 4192; size = 3968; free = true } ∷ [];
  used_bytes = 64;
  block_count = 2;
  pmm = frames;
}

frames-IsValid : Pmm.IsValid frames
unfolding count_clear bitmap_test
frames-IsValid = record { bits = omega arith; window = omega arith; counted = refl }

page_one : (x z : ℕ) → 4096 ≤ x → z ≤ 8192 → InUse frames.bitmap x z
unfolding bitmap_test
page_one x z lo hi j p q = let e : j ≡ 1 = omega arith in rw e refl

heap-IsValid : IsValid heap
heap-IsValid = record {
  frames = frames-IsValid;
  zero_used = unfold bitmap_test in refl;
  inside = omega arith;
  aligned = omega arith;
  owned = (
    page_one 4096 4192 (omega arith) (omega arith),
    (page_one 4192 8192 (omega arith) (omega arith), tt),
  );
  disjoint = omega arith;
  counted = refl;
  fits = omega arith;
  used = refl;
}

front_found : find_block 4096 heap.chain ≡ some front
unfolding find_block
front_found = refl

-- The free block is split.
kmalloc_splits :
    kmalloc 100 heap
    ≡ some (
      4224,
      record heap {
        chain =
            front
            ∷ record { addr = 4192; size = 112; free = false }
            ∷ record { addr = 4336; size = 3824; free = true }
            ∷ [];
        used_bytes = 176;
        block_count = 3;
      },
    )
unfolding kmalloc kmalloc_fuel first_fit fit_at skip requested align16
kmalloc_splits = refl

-- The freed block and the free one after it become one.
kfree_merges : (kfree 4128 heap).chain ≡ record { addr = 4096; size = 4064; free = true } ∷ []
unfolding kfree find_block release merge_next merge_prev mark_free adjacent
kfree_merges = refl

-- A size near the top of the word wraps to nothing, and the call succeeds with an empty block.
kmalloc_wraps : requested (2 ^ 64 - 1) ≡ 0
unfolding requested align16
kmalloc_wraps = refl

kmalloc-Outcome_example : Outcome 100 heap (kmalloc 100 heap)
kmalloc-Outcome_example = kmalloc-Outcome 100 heap heap-IsValid (omega arith)

kfree-Released_example : Released 4096 64 heap (kfree 4128 heap)
kfree-Released_example = kfree-Released heap front heap-IsValid front_found refl
