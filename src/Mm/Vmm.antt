-- ===== src/Mm/Vmm.antt =====
-- kernel/mm/vmm.c: the four levels of page tables, over memory as the 64-bit word at each address and the frame allocator
-- of Mm/Pmm. The load of the register CR3 is left out.
pub mod Tables
pub mod Walks
pub mod Maps
pub mod Spaces
mod Tests
use no_os.Base.{
  ℕ, zero, suc, ◌+◌, ◌*◌, ◌/◌, ◌%◌, ◌^◌, bit_and, bit_or, Bool, true, false, ◌&&◌, Option, none,
  some, ltb, leb, ◌==◌, if◌then◌else◌, add64,
}
use no_os.Mm.Pmm.{Pmm, pmm_alloc_frame, pmm_free_frame}

abbrev pub vmm_write : ℕ
vmm_write = 2

abbrev pub vmm_user : ℕ
vmm_user = 4

pub record Paging : Type 0 where
  pub mem : ℕ → ℕ
  pub pmm : Pmm

pub write_word : ℕ → ℕ → Paging → Paging
write_word a v s = record s { mem = λ x. if x == a then v else s.mem x }

-- `&table[idx]`
abbrev pub entry_at : ℕ → ℕ → ℕ
entry_at table idx = table + 8 * idx

-- `e & ~0xFFFUL`, and `e & 1`
abbrev pub page_of : ℕ → ℕ
page_of e = e / 4096 * 4096

abbrev pub is_present : ℕ → Bool
is_present e = e % 2 == 1

-- The words of a frame are cleared.
pub clear_frame : ℕ → Paging → Paging
clear_frame frame s = record s {
  mem = λ x. if leb frame x && ltb x (frame + 4096) then 0 else s.mem x;
}

-- A frame's address has no bit in common with the flags, so `|` is `+`.
pub pt_new : ℕ → ℕ → ℕ → Paging → ℕ × Paging
unfolding write_word clear_frame
pt_new table idx flags s =
    let (frame, pmm) = pmm_alloc_frame s.pmm in
    let s1 = record s { pmm = pmm } in
    if frame == 0
    then (0, s1)
    else (frame, write_word (entry_at table idx) (frame + flags) (clear_frame frame s1))

-- `boot` is the first word of the boot loader's table.
pub vmm_new_address_space : ℕ → Paging → ℕ × Paging
unfolding write_word clear_frame
vmm_new_address_space boot s =
    let (frame, pmm) = pmm_alloc_frame s.pmm in
    let s1 = record s { pmm = pmm } in
    if frame == 0 then (0, s1) else (frame, write_word frame boot (clear_frame frame s1))

-- The flags of the last entry, and those of the entries above it.
pub entry_flags : ℕ → ℕ
entry_flags flags = bit_or 1 (bit_and (flags % 256) 6)

pub table_flags : ℕ → ℕ
table_flags flags = bit_or 3 (if bit_and (flags % 256) vmm_user == 0 then 0 else vmm_user)

-- The table that an entry points to, made where it is missing.
pub descend : ℕ → ℕ → ℕ → Paging → Option ℕ × Paging
unfolding pt_new
descend table idx flags s =
    let (frame, s1) = pt_new table idx flags s in
    if is_present (s.mem (entry_at table idx))
    then (some (page_of (s.mem (entry_at table idx))), s)
    else (if frame == 0 then (none, s1) else (some (page_of (s1.mem (entry_at table idx))), s1))

abbrev pub pml4i : ℕ → ℕ
pml4i vaddr = vaddr / 2 ^ 39 % 512

abbrev pub pdpti : ℕ → ℕ
pdpti vaddr = vaddr / 2 ^ 30 % 512

abbrev pub pdi : ℕ → ℕ
pdi vaddr = vaddr / 2 ^ 21 % 512

abbrev pub pti : ℕ → ℕ
pti vaddr = vaddr / 2 ^ 12 % 512

-- A step that goes on with the table that was found.
pub and_then : Option ℕ × Paging → (ℕ → Paging → Option ℕ × Paging) → Option ℕ × Paging
and_then (none, s) next = (none, s)
and_then (some table, s) next = next table s

-- The last table for an address, with the tables above it.
pub walk_to : ℕ → ℕ → ℕ → Paging → Option ℕ × Paging
unfolding descend and_then
walk_to cr3 vaddr flags s = and_then (descend cr3 (pml4i vaddr) flags s) (λ pdpt s1.
    and_then (descend pdpt (pdpti vaddr) flags s1) (λ pd s2. descend pd (pdi vaddr) flags s2))

pub set_last : ℕ → ℕ → Option ℕ × Paging → Paging
unfolding write_word
set_last idx e (none, s) = s
set_last idx e (some pt, s) = write_word (entry_at pt idx) e s

pub vmm_map : ℕ → ℕ → ℕ → ℕ → Paging → Paging
unfolding walk_to set_last table_flags entry_flags
vmm_map cr3 vaddr paddr flags s =
    set_last (pti vaddr) (page_of paddr + entry_flags flags)
      (walk_to cr3 vaddr (table_flags flags) s)

-- The last table for an address where the tables above it are there.
pub find_pt : ℕ → ℕ → Paging → Option ℕ
find_pt cr3 vaddr s =
    let e4 = s.mem (entry_at cr3 (pml4i vaddr)) in
    let e3 = s.mem (entry_at (page_of e4) (pdpti vaddr)) in
    let e2 = s.mem (entry_at (page_of e3) (pdi vaddr)) in
    if is_present e4
    then (if is_present e3 then (if is_present e2 then some (page_of e2) else none) else none)
    else none

pub vmm_unmap : ℕ → ℕ → Paging → Paging
unfolding find_pt set_last
vmm_unmap cr3 vaddr s = set_last (pti vaddr) 0 (find_pt cr3 vaddr s, s)

pub vmm_translate : ℕ → ℕ → Paging → ℕ
unfolding find_pt
vmm_translate cr3 vaddr s = elim (find_pt cr3 vaddr s) [
  | none ↦ 0
  | some pt ↦ let e = s.mem (entry_at pt (pti vaddr)) in if is_present e then page_of e else 0
]

-- The pages from `i` on of a region at `vaddr`.
pub alloc_pages : ℕ → ℕ → ℕ → ℕ → Paging → Bool × Paging
unfolding vmm_map
alloc_pages cr3 zero vaddr i s = (true, s)
alloc_pages cr3 (suc n) vaddr i s =
    let (frame, pmm) = pmm_alloc_frame s.pmm in
    let s1 = record s { pmm = pmm } in
    if frame == 0
    then (false, s1)
    else alloc_pages cr3 n vaddr (i + 1)
        (vmm_map cr3 (add64 vaddr (i * 4096)) frame (vmm_user + vmm_write) s1)

pub vmm_alloc_user_pages : ℕ → ℕ → ℕ → Paging → ℕ × Paging
unfolding alloc_pages
vmm_alloc_user_pages cr3 pages vaddr s =
    let (done, s1) = alloc_pages cr3 pages vaddr 0 s in (if done then vaddr else 0, s1)

-- The entries of a table from `i` on: `free` is done with each page that is present.
pub free_entries : (ℕ → Paging → Paging) → ℕ → ℕ → ℕ → Paging → Paging
free_entries free table i zero s = s
free_entries free table i (suc n) s =
    let e = s.mem (entry_at table i) in
    free_entries free table (i + 1) n (if is_present e then free (page_of e) s else s)

pub free_page : ℕ → Paging → Paging
free_page page s = record s { pmm = pmm_free_frame page s.pmm }

pub free_pt : ℕ → Paging → Paging
unfolding free_entries free_page
free_pt pt s = free_page pt (free_entries free_page pt 0 512 s)

pub free_pd : ℕ → Paging → Paging
unfolding free_entries free_page free_pt
free_pd pd s = free_page pd (free_entries free_pt pd 0 512 s)

pub vmm_free_address_space : ℕ → Paging → Paging
unfolding free_entries free_page free_pd
vmm_free_address_space cr3 s =
    let e = s.mem (entry_at cr3 2) in
    if is_present e
    then free_page cr3 (free_page (page_of e) (free_entries free_pd (page_of e) 0 512 s))
    else s
