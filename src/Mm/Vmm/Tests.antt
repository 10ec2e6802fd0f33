-- ===== src/Mm/Vmm/Tests.antt =====
-- Runs of vmm.c on the machine of twelve frames, with a kernel's table in entry 0 of the top table.
use no_os.Base.{ℕ, ◌*◌, ◌≡◌, refl, sym, ap, ◌∙◌, ◌≢◌, some, [], ◌∷◌, arith}
use no_os.Mm.Bitmap.{bitmap_test, bitmap_set, count_clear, first_clear}
use no_os.Mm.Pmm.{IsValid, pmm_alloc_frame}
use no_os.Mm.Vmm.{
  vmm_new_address_space, Paging, write_word, clear_frame, pt_new, descend, and_then, walk_to,
  table_flags, vmm_map, vmm_unmap, vmm_translate,
}
use no_os.Mm.Vmm.Tables.{IsTree}
use no_os.Mm.Vmm.Maps.{vmm_map-IsTree, vmm_translate-vmm_map, vmm_translate-vmm_unmap}
use no_os.Mm.Vmm.Spaces.{vmm_new_address_space-IsTree}

-- Twelve frames, of which 0, 1 and 4 are in use. The boot table's first word is an entry for a table of the kernel's.
abbrev machine : Paging
machine = record {
  mem = λ a. 0x200083;
  pmm = record { bitmap = 0b10011 ∷ 0 ∷ []; total_frames = 12; free_frames = 9 };
}

machine-IsValid : IsValid machine.pmm
unfolding bitmap_test count_clear
machine-IsValid = record { bits = omega arith; window = omega arith; counted = refl }

abbrev boot_word : ℕ
boot_word = 0x109003

-- The new space, with its top table in frame 2.
abbrev cr3 : ℕ
cr3 = 2 * 4096

abbrev space : Paging
space = (vmm_new_address_space boot_word machine).1

made_two : (vmm_new_address_space boot_word machine).0 ≡ cr3
unfolding vmm_new_address_space pmm_alloc_frame first_clear bitmap_test
made_two = refl

made_some : (vmm_new_address_space boot_word machine).0 ≢ 0
made_some z = let q = sym made_two ∙ z in absurd (omega (arith, q))

space-IsTree : (level : ℕ → ℕ) × (level cr3 ≡ 4) × IsTree level space
space-IsTree =
    let (level, top, tree) =
      vmm_new_address_space-IsTree boot_word machine machine-IsValid made_some in
    (level, ap level (sym made_two) ∙ top, tree)

abbrev image : ℕ
image = 0x10000000000

-- The tables go to the frames 3, 5 and 6.
walk_found : (walk_to cr3 image (table_flags 6) space).0 ≡ some (6 * 4096)
unfolding vmm_new_address_space walk_to and_then descend pt_new write_word clear_frame table_flags
    pmm_alloc_frame first_clear bitmap_test bitmap_set
walk_found = refl

vmm_translate-vmm_map_example : vmm_translate cr3 image (vmm_map cr3 image 0x7123 6 space) ≡ 0x7000
vmm_translate-vmm_map_example =
    vmm_translate-vmm_map space-IsTree.0 space space-IsTree.2 cr3 image 0x7123 6 (6 * 4096)
      space-IsTree.1 (omega arith) walk_found

-- The space in which the image is mapped.
abbrev image_space : Paging
image_space = vmm_map cr3 image 0x7123 6 space

image_space-IsTree : (level : ℕ → ℕ) × (level cr3 ≡ 4) × IsTree level image_space
image_space-IsTree =
    vmm_map-IsTree space-IsTree.0 space space-IsTree.2 cr3 image 0x7123 6 (6 * 4096) space-IsTree.1
      (omega arith) walk_found

vmm_translate-vmm_unmap_example : vmm_translate cr3 image (vmm_unmap cr3 image image_space) ≡ 0
vmm_translate-vmm_unmap_example =
    vmm_translate-vmm_unmap image_space-IsTree.0 image_space image_space-IsTree.2 cr3 image
      image_space-IsTree.1 (omega arith)
