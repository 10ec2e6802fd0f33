-- ===== src/Mm/Swap/Tests.antt =====
-- Swapping on a machine with one page, whose disk always answers.
use no_os.Base.{refl, true, List, [], ◌∷◌, arith}
use no_os.Mm.Bitmap.{cleared, bitmap_set, test-cleared, bytes-cleared, length-cleared}
use no_os.Mm.Swap.{Ent, Process, Swap, Machine, State, swap_out, swap_in}
use no_os.Mm.Swap.Slots.{Accounted, uses, take-Accounted}
use no_os.Mm.Swap.Moves.{MovedOut, MovedIn, swap_out-MovedOut, swap_in-MovedIn}

abbrev one_page : Machine Unit
one_page = record {
  vmm_translate = λ cr3 vaddr w. 4096;
  vmm_map = λ cr3 vaddr frame w. w;
  vmm_unmap = λ cr3 vaddr w. w;
  pmm_alloc_frame = λ w. (4096, w);
  pmm_free_frame = λ frame w. w;
  pmm_avail_frames = λ w. 1;
  pmm_total_frames = λ w. 1;
  ide_write_sectors = λ lba frame w. (true, w);
  ide_read_sectors = λ lba frame w. (true, w);
}

abbrev eight_slots : Swap
eight_slots = record {
  start = 192;
  blocks = 64;
  pages = 8;
  slots = cleared 1;
  active = true;
  swaps_out = 0;
  swaps_in = 0;
  reclaims = 0;
}

abbrev process : List Ent → Process
process ents = record { user = true; cr3 = 8192; swap_map = ents; heap_pages = 0 }

all_free : Accounted [] [] eight_slots
all_free = record {
  bits = (bytes-cleared 1, (let l = length-cleared 1 in omega arith));
  used = λ k below. rw (test-cleared 1 k) (unfold uses in refl);
  above = λ k le. unfold uses in refl;
}

abbrev one_out : List Ent
one_out = record { vkey = 1; slot = 3 } ∷ []

abbrev slot_three : Swap
slot_three = record eight_slots { slots = bitmap_set (cleared 1) 3 }

one_taken : Accounted one_out [] slot_three
one_taken = take-Accounted [] [] eight_slots 1 3 all_free (omega arith) (test-cleared 1 3)

abbrev before_out : State Unit
before_out = record { task = process []; swap = eight_slots; world = tt }

swap_out-MovedOut_example : MovedOut one_page [] 4096 before_out (swap_out one_page 4096 before_out)
swap_out-MovedOut_example = swap_out-MovedOut one_page [] 4096 before_out all_free

abbrev before_in : State Unit
before_in = record { task = process one_out; swap = slot_three; world = tt }

swap_in-MovedIn_example : MovedIn one_page [] 4096 before_in (swap_in one_page 4096 before_in)
swap_in-MovedIn_example = swap_in-MovedIn one_page [] 4096 before_in one_taken
