-- ===== src/Mm/Vmm/Maps.antt =====
-- What a mapping and its removal in kernel/mm/vmm.c do to the translation of the address.
use no_os.Base.{
  ℕ, ◌+◌, ◌%◌, ◌<◌, bit_and, bit_or, ◌≡◌, refl, sym, ap, ◌∙◌, ◌≢◌, inl, inr, Bool, true, ◌&&◌, some,
  arith, ltb, ◌==◌, if◌then◌else◌, Option-cases, all_below, all_below_sound, subst, if-true,
  elim-none,
}
use no_os.Mm.Vmm.{
  Paging, entry_at, page_of, is_present, walk_to, set_last, entry_flags, table_flags, find_pt,
  vmm_map, vmm_unmap, vmm_translate, pml4i, pti,
}
use no_os.Mm.Vmm.Tables.{IsTree}
use no_os.Mm.Vmm.Walks.{
  Path3-find_pt, write_word-IsTree, translate-store, set_last-some, walk-Path3,
}

-- The flags are below 8 and have the bit of a present entry.
flags_row : ℕ → Bool
flags_row f =
    ltb (entry_flags f) 8
    && entry_flags f % 2 == 1
    && ltb (table_flags f) 8
    && table_flags f % 2 == 1

flags_table : all_below 256 flags_row ≡ true
unfolding all_below flags_row entry_flags table_flags
flags_table = refl

flags_mod : (f : ℕ) → flags_row (f % 256) ≡ true
flags_mod f = all_below_sound 256 flags_row (f % 256) flags_table (omega arith)

entry_flags-mod : (f : ℕ) → entry_flags (f % 256) ≡ entry_flags f
unfolding entry_flags
entry_flags-mod f = let e : f % 256 % 256 ≡ f % 256 = omega arith in λ p. bit_or 1 (bit_and (e p) 6)

table_flags-mod : (f : ℕ) → table_flags (f % 256) ≡ table_flags f
unfolding table_flags
table_flags-mod f =
    let e : f % 256 % 256 ≡ f % 256 = omega arith in
    λ p. bit_or 3 (if bit_and (e p) 4 == 0 then 0 else 4)

entry_flags_lem : (f : ℕ) → (entry_flags f < 8) × (entry_flags f % 2 ≡ 1)
unfolding flags_row
entry_flags_lem f =
    subst (λ x. (x < 8) × (x % 2 ≡ 1)) (entry_flags-mod f)
      (ground (arith, flags_mod f), ground (arith, flags_mod f))

table_flags_lem : (f : ℕ) → (table_flags f < 8) × (table_flags f % 2 ≡ 1)
unfolding flags_row
table_flags_lem f =
    subst (λ x. (x < 8) × (x % 2 ≡ 1)) (table_flags-mod f)
      (ground (arith, flags_mod f), ground (arith, flags_mod f))

-- With a valid frame allocator, in an address space whose tables, but for the kernel's behind entry 0 of the
-- top table, are frames in use in a tree of four levels, an address that does not go through entry 0
-- translates, after a mapping that has found or made its tables, to the page that was mapped.
pub vmm_translate-vmm_map :
    (level : ℕ → ℕ) (s : Paging) (v : IsTree level s) (cr3 vaddr paddr flags pt : ℕ)
    → level cr3 ≡ 4
    → pml4i vaddr ≢ 0
    → (walk_to cr3 vaddr (table_flags flags) s).0 ≡ some pt
    → vmm_translate cr3 vaddr (vmm_map cr3 vaddr paddr flags s) ≡ page_of paddr
unfolding vmm_map
vmm_translate-vmm_map level s v cr3 vaddr paddr flags pt top user e =
    let tf = table_flags_lem flags in
    let ef = entry_flags_lem flags in
    let small : table_flags flags < 4096 = omega (arith, tf.0) in
    let (level', tree, path) =
      walk-Path3 level s v cr3 vaddr (table_flags flags) pt top user small tf.1 e in
    let r = walk_to cr3 vaddr (table_flags flags) s in
    let w = page_of paddr + entry_flags flags in
    let odd : w % 2 ≡ 1 = omega (arith, ef.1) in
    let pres : is_present w ≡ true = ground (arith, odd) in
    let page : page_of w ≡ page_of paddr = omega (arith, ef.0) in
    ap (vmm_translate cr3 vaddr) (set_last-some r (pti vaddr) w pt e)
    ∙ translate-store level' r.1 tree cr3 vaddr pt w path
    ∙ if-true (λ x. x ≡ page_of paddr) (is_present w) _ _ pres page

-- Such a mapping leaves a tree with the same top.
pub vmm_map-IsTree :
    (level : ℕ → ℕ) (s : Paging) (v : IsTree level s) (cr3 vaddr paddr flags pt : ℕ)
    → level cr3 ≡ 4
    → pml4i vaddr ≢ 0
    → (walk_to cr3 vaddr (table_flags flags) s).0 ≡ some pt
    → (level' : ℕ → ℕ) × (level' cr3 ≡ 4) × IsTree level' (vmm_map cr3 vaddr paddr flags s)
unfolding vmm_map
vmm_map-IsTree level s v cr3 vaddr paddr flags pt top user e =
    let tf = table_flags_lem flags in
    let small : table_flags flags < 4096 = omega (arith, tf.0) in
    let (level', tree, path) =
      walk-Path3 level s v cr3 vaddr (table_flags flags) pt top user small tf.1 e in
    let r = walk_to cr3 vaddr (table_flags flags) s in
    let w = page_of paddr + entry_flags flags in
    let whole = write_word-IsTree level' r.1 pt (pti vaddr) w tree path.level1 (omega arith) in
    (level', path.level4, subst (IsTree level') (sym (set_last-some r (pti vaddr) w pt e)) whole)

-- With a valid frame allocator, in an address space whose tables, but for the kernel's behind entry 0 of the
-- top table, are frames in use in a tree of four levels, an address that does not go through entry 0 has no
-- translation once it is unmapped.
pub vmm_translate-vmm_unmap :
    (level : ℕ → ℕ) (s : Paging) (v : IsTree level s) (cr3 vaddr : ℕ)
    → level cr3 ≡ 4
    → pml4i vaddr ≢ 0
    → vmm_translate cr3 vaddr (vmm_unmap cr3 vaddr s) ≡ 0
unfolding vmm_unmap set_last vmm_translate
vmm_translate-vmm_unmap level s v cr3 vaddr top user = elim (Option-cases (find_pt cr3 vaddr s)) [
  | inl none_found ↦
      ap (λ o. vmm_translate cr3 vaddr (set_last (pti vaddr) 0 (o, s))) none_found
      ∙ elim-none (λ x. x ≡ 0) (find_pt cr3 vaddr s) 0
          (λ t. let e = s.mem (entry_at t (pti vaddr)) in if is_present e then page_of e else 0)
          none_found refl
  | inr (pt, found) ↦
      ap (λ o. vmm_translate cr3 vaddr (set_last (pti vaddr) 0 (o, s))) found
      ∙ translate-store level s v cr3 vaddr pt 0
          (Path3-find_pt level s v cr3 vaddr pt top user found)
]
