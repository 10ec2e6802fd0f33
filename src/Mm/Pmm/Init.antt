-- ===== src/Mm/Pmm/Init.antt =====
-- `pmm_init`: the memory-map loop, and what is reserved after it.
use no_os.Base.{
  ℕ, zero, suc, ◌+◌, ◌-◌, ◌*◌, ◌^◌, ◌≤◌, ◌<◌, bit_and, ◌≡◌, refl, sym, ◌∙◌, inl, inr, true, some,
  arith, ltb, leb, ◌==◌, if◌then◌else◌, Bool-cases, sub64, add32, read32, read64,
}
use no_os.Mm.Bitmap.{
  bytes-cleared, length-cleared, count-cleared, bitmap_test, count_clear, IsBitmap,
}
use no_os.Mm.Pmm.{frame_size, Pmm, IsValid, fresh, pmm_reserve, mmap_loop, pmm_init}
use no_os.Mm.Pmm.Reserve.{pmm_reserve_overlap, pmm_reserve-IsValid}

fresh_window : (m : ℕ) → (fresh m).total_frames ≤ 2 ^ 18
unfolding fresh
fresh_window m = ground arith

fresh-IsValid : (m : ℕ) → IsValid (fresh m)
unfolding fresh
fresh-IsValid m = record { bits = bits m; window = fresh_window m; counted = counted m }
  where
    bits : (m : ℕ) → IsBitmap (fresh m).total_frames (fresh m).bitmap
    bits m = (bytes-cleared 32768, omega (arith, fresh_window m, length-cleared 32768))

    counted : (m : ℕ) → (fresh m).free_frames ≡ count_clear (fresh m).bitmap (fresh m).total_frames
    counted m = sym (count-cleared 32768 (fresh m).total_frames)

-- Nothing has been freed, and the invariant holds.
record Kept (p q : Pmm) : Type 0 where
  valid : IsValid q
  total : q.total_frames ≡ p.total_frames
  used : (j : ℕ) → bitmap_test p.bitmap j ≡ true → bitmap_test q.bitmap j ≡ true

Kept-refl : (p : Pmm) → IsValid p → Kept p p
Kept-refl p v = record { valid = v; total = refl; used = λ j e. e }

Kept-trans : (p q r : Pmm) → Kept p q → Kept q r → Kept p r
Kept-trans p q r k l = record {
  valid = l.valid;
  total = l.total ∙ k.total;
  used = λ j e. l.used j (k.used j e);
}

reserve-Kept : (addr len : ℕ) (p : Pmm) → IsValid p → Kept p (pmm_reserve addr len p)
reserve-Kept addr len p v =
    let r = pmm_reserve-IsValid addr len p v in record { valid = r.0; total = r.1; used = r.2 }

entry : (ℕ → ℕ) → ℕ → Pmm → Pmm
entry mem a p =
    if read32 mem (a + 20) == 1 then p else pmm_reserve (read64 mem (a + 4)) (read64 mem (a + 12)) p

entry-Kept : (mem : ℕ → ℕ) (a : ℕ) (p : Pmm) → IsValid p → Kept p (entry mem a p)
unfolding entry
entry-Kept mem a p v = elim (Bool-cases (read32 mem (a + 20) == 1)) [
  | inl e ↦ rw e (Kept-refl p v)
  | inr e ↦ rw e (reserve-Kept _ _ p v)
]

-- The addresses at which the loop over the memory map from `start` on reads an entry.
pub data Entry (mem : ℕ → ℕ) (start : ℕ) : ℕ → Type 0 where
  first : Entry mem start start
  later : {a : ℕ} → Entry mem start a → Entry mem start (a + add32 (read32 mem a) 4)

-- No entry of the map up to `end` has a size that wraps with the four bytes of the field.
abbrev pub Unwrapped : (ℕ → ℕ) → ℕ → ℕ → Type 0
Unwrapped mem start end = (a : ℕ) → Entry mem start a → a + 20 ≤ end → read32 mem a + 4 < 2 ^ 32

-- A round moves at least 24 bytes on, so one unit of fuel for each byte is enough.
mmap_loop-Kept :
    (fuel : ℕ) (mem : ℕ → ℕ) (start a end : ℕ) (p : Pmm)
    → Unwrapped mem start end
    → Entry mem start a
    → IsValid p
    → 0 < fuel
    → end < a + fuel
    → (q : Pmm) × (mmap_loop fuel mem a end p ≡ some q) × Kept p q
unfolding mmap_loop entry
mmap_loop-Kept zero mem start a end p sane at v pos h = absurd (omega arith)
mmap_loop-Kept (suc fuel) mem start a end p sane at v pos h = elim (Bool-cases (leb (a + 20) end)) [
  | inr e ↦ (p, rw e refl, Kept-refl p v)
  | inl e ↦ elim (Bool-cases (ltb (read32 mem a) 20)) [
    | inl short ↦ (p, rw (e, short) refl, Kept-refl p v)
    | inr long ↦
        let k = entry-Kept mem a p v in
        let small : read32 mem a + 4 < 2 ^ 32 = sane a at (ground (arith, e)) in
        let (q, eq, l) =
          mmap_loop-Kept fuel mem start (a + add32 (read32 mem a) 4) end (entry mem a p) sane
            (later at) k.valid (ground arith) (ground arith) in
        (q, rw (e, long) eq, Kept-trans p (entry mem a p) q k l)
  ]
]

module _ (mem : ℕ → ℕ) (kernel_start kernel_end mb_info : ℕ) where
  after_low : Pmm
  after_low = pmm_reserve 0 0x100000 (fresh (read32 mem (mb_info + 8)))

  after_kernel : Pmm
  after_kernel = pmm_reserve kernel_start (sub64 kernel_end kernel_start) after_low

  after_info : Pmm
  after_info = pmm_reserve mb_info 4096 after_kernel

  after_low-IsValid : IsValid after_low
  unfolding after_low
  after_low-IsValid =
      (pmm_reserve-IsValid 0 0x100000 _ (fresh-IsValid (read32 mem (mb_info + 8)))).0

  kernel-Kept : Kept after_low after_kernel
  unfolding after_kernel
  kernel-Kept = reserve-Kept kernel_start _ after_low after_low-IsValid

  info-Kept : Kept after_kernel after_info
  unfolding after_info
  info-Kept = reserve-Kept mb_info 4096 after_kernel kernel-Kept.valid

  -- The last step: the memory map, where the boot loader gave one.
  mmap-Kept :
      Unwrapped mem
        (read32 mem (mb_info + 48))
        (read32 mem (mb_info + 48) + read32 mem (mb_info + 44))
      → (q : Pmm) × (pmm_init mem kernel_start kernel_end mb_info ≡ some q) × Kept after_info q
  unfolding pmm_init after_info after_kernel after_low
  mmap-Kept sane = elim (Bool-cases (bit_and (read32 mem mb_info) 0x40 == 0)) [
    | inl e ↦ (after_info, rw e refl, Kept-refl after_info info-Kept.valid)
    | inr e ↦
        let a = read32 mem (mb_info + 48) in
        let end = a + read32 mem (mb_info + 44) in
        let (q, eq, k) =
          mmap_loop-Kept (end + 1) mem a a end after_info sane first info-Kept.valid (omega arith)
            (omega arith) in
        (q, rw e eq, k)
  ]

  -- The frame lies in the range `addr .. addr + len - 1`, in part or whole.
  abbrev pub Overlaps : ℕ → ℕ → ℕ → Type 0
  Overlaps addr len j = (addr < (j + 1) * frame_size) × (j * frame_size < addr + len)

  reserved :
      (addr len : ℕ) (p : Pmm)
      → IsValid p
      → 0 < len
      → addr + len + 4095 < 2 ^ 64
      → (j : ℕ) → j < p.total_frames
      → Overlaps addr len j
      → bitmap_test (pmm_reserve addr len p).bitmap j ≡ true
  reserved addr len p v pos fits j h o =
      ground (arith, (pmm_reserve_overlap addr len p v pos fits).1 j h)

  low_total : after_low.total_frames ≡ (fresh (read32 mem (mb_info + 8))).total_frames
  unfolding after_low
  low_total = (pmm_reserve-IsValid 0 0x100000 _ (fresh-IsValid (read32 mem (mb_info + 8)))).1

  low_used : (j : ℕ) → j < after_low.total_frames → j < 256 → bitmap_test after_low.bitmap j ≡ true
  unfolding after_low
  low_used j h q =
      reserved 0 0x100000 (fresh (read32 mem (mb_info + 8)))
        (fresh-IsValid (read32 mem (mb_info + 8))) (omega arith) (omega arith) j
        (omega (arith, low_total)) (omega arith, omega arith)

  kernel_used :
      kernel_start < kernel_end
      → kernel_end + 4095 < 2 ^ 64
      → (j : ℕ) → j < after_low.total_frames
      → Overlaps kernel_start (kernel_end - kernel_start) j
      → bitmap_test after_kernel.bitmap j ≡ true
  unfolding after_kernel
  kernel_used lt fits j h o =
      let e : sub64 kernel_end kernel_start ≡ kernel_end - kernel_start = omega arith in
      rw e (
        reserved kernel_start (kernel_end - kernel_start) after_low after_low-IsValid (omega arith)
          (omega arith) j h o)

  info_used :
      mb_info + 8191 < 2 ^ 64
      → (j : ℕ) → j < after_kernel.total_frames
      → Overlaps mb_info 4096 j
      → bitmap_test after_info.bitmap j ≡ true
  unfolding after_info
  info_used fits j h o =
      reserved mb_info 4096 after_kernel kernel-Kept.valid (omega arith) (omega arith) j h o

  -- For a kernel image and a boot information page that end below the top of the address space, and a
  -- memory map none of whose entries, as the loop comes to them, has a size of 2 ^ 32 - 4 or more,
  -- `pmm_init` ends; it leaves a valid allocator in which every frame of the low megabyte, of the kernel
  -- image and of the boot information page is in use.
  pub pmm_init_lem :
      kernel_start < kernel_end
      → kernel_end + 4095 < 2 ^ 64
      → mb_info + 8191 < 2 ^ 64
      → Unwrapped mem
          (read32 mem (mb_info + 48))
          (read32 mem (mb_info + 48) + read32 mem (mb_info + 44))
      → (q : Pmm) × (pmm_init mem kernel_start kernel_end mb_info ≡ some q)
        × IsValid q
        × ((j : ℕ) → j < q.total_frames → j < 256 → bitmap_test q.bitmap j ≡ true)
        × ((j : ℕ)
            → j < q.total_frames
            → Overlaps kernel_start (kernel_end - kernel_start) j
            → bitmap_test q.bitmap j ≡ true)
        × ((j : ℕ) → j < q.total_frames → Overlaps mb_info 4096 j → bitmap_test q.bitmap j ≡ true)
  pmm_init_lem lt fits info sane =
      let (q, e, k) = mmap-Kept sane in
      let ki = Kept-trans after_kernel after_info q info-Kept k in
      let kl = Kept-trans after_low after_kernel q kernel-Kept ki in
      (
        q,
        e,
        k.valid,
        λ j h low. kl.used j (low_used j (omega (arith, kl.total)) low),
        λ j h o. ki.used j (kernel_used lt fits j (omega (arith, kl.total)) o),
        λ j h o. k.used j (info_used info j (omega (arith, ki.total)) o),
      )
