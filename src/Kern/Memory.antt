-- ===== src/Kern/Memory.antt =====
-- kernel/kern/string.c, lines 3 to 34: the copies of memory. Memory is the byte at each address, and the
-- ranges do not reach the end of the address space.
mod Tests
use no_os.Base.{
  ℕ, zero, suc, ◌+◌, ◌-◌, ◌%◌, ◌≤◌, ◌≡◌, ap, ◌⊎◌, inl, inr, ◌&&◌, arith, ltb, leb, ◌==◌,
  if◌then◌else◌, dec_lt, ℕ_discrete, if-cases,
}

-- The memory after a write of one byte.
abbrev pub write : ℕ → ℕ → (ℕ → ℕ) → ℕ → ℕ
write a v mem j = if a == j then v else mem j

pub memset : ℕ → ℕ → ℕ → (ℕ → ℕ) → ℕ → ℕ
memset dst c zero mem = mem
memset dst c (suc n) mem = memset (dst + 1) c n (write dst (c % 256) mem)

-- The loop of `memcpy`, and of `memmove` when it goes up.
pub copy_up : ℕ → ℕ → ℕ → (ℕ → ℕ) → ℕ → ℕ
copy_up d s zero mem = mem
copy_up d s (suc n) mem = copy_up (d + 1) (s + 1) n (write d (mem s) mem)

-- The loop of `memmove` when it goes down.
pub copy_down : ℕ → ℕ → ℕ → (ℕ → ℕ) → ℕ → ℕ
copy_down d s zero mem = mem
copy_down d s (suc n) mem = copy_down d s n (write (d + n) (mem (s + n)) mem)

pub memcpy : ℕ → ℕ → ℕ → (ℕ → ℕ) → ℕ → ℕ
unfolding copy_up
memcpy dst src n mem = copy_up dst src n mem

pub memmove : ℕ → ℕ → ℕ → (ℕ → ℕ) → ℕ → ℕ
unfolding copy_up copy_down
memmove dst src n mem = if ltb dst src then copy_up dst src n mem else copy_down dst src n mem

-- The memory with `n` bytes at `d` as they are at `s` in `mem`.
abbrev pub moved : ℕ → ℕ → ℕ → (ℕ → ℕ) → ℕ → ℕ
moved d s n mem j = if leb d j && ltb j (d + n) then mem (s + (j - d)) else mem j

copy_up_lem :
    (d s n : ℕ) (mem : ℕ → ℕ) (j : ℕ) → d ≤ s ⊎ s + n ≤ d → copy_up d s n mem j ≡ moved d s n mem j
unfolding copy_up
copy_up_lem d s zero mem j h = ground arith
copy_up_lem d s (suc n) mem j h =
    let ih = copy_up_lem (d + 1) (s + 1) n (write d (mem s) mem) j (ends h) in
    elim (ℕ_discrete j d) [
      | yes q ↦ let here : mem (s + (j - d)) ≡ mem s = ap mem (omega arith) in ground arith
      | no ne ↦ elim (dec_lt d j) [
        | yes lt ↦
            let there : mem (s + 1 + (j - (d + 1))) ≡ mem (s + (j - d)) = ap mem (omega arith) in
            ground arith
        | no le ↦ ground arith
      ]
    ]
  where
    ends : d ≤ s ⊎ s + suc n ≤ d → d + 1 ≤ s + 1 ⊎ s + 1 + n ≤ d + 1
    ends (inl below) = inl (omega arith)
    ends (inr apart) = inr (omega arith)

copy_down_lem :
    (d s n : ℕ) (mem : ℕ → ℕ) (j : ℕ) → s ≤ d → copy_down d s n mem j ≡ moved d s n mem j
unfolding copy_down
copy_down_lem d s zero mem j h = ground arith
copy_down_lem d s (suc n) mem j h =
    let ih = copy_down_lem d s n (write (d + n) (mem (s + n)) mem) j h in
    elim (ℕ_discrete j (d + n)) [
      | yes q ↦ let last : mem (s + (j - d)) ≡ mem (s + n) = ap mem (omega arith) in ground arith
      | no ne ↦ ground arith
    ]

-- A copy gives the destination the bytes of the source as they were before it, and changes no other byte:
-- memmove for all ranges, which may overlap, and memcpy for ranges that are apart or go down.
pub memmove_lem :
    (d s n : ℕ) (mem : ℕ → ℕ) (j : ℕ)
    → (memmove d s n mem j ≡ moved d s n mem j)
      × (d ≤ s ⊎ s + n ≤ d → memcpy d s n mem j ≡ moved d s n mem j)
unfolding memmove memcpy
memmove_lem d s n mem j = (
  if-cases (λ (mem' : ℕ → ℕ). mem' j ≡ moved d s n mem j) (ltb d s) (copy_up d s n mem)
      (copy_down d s n mem) (λ up. copy_up_lem d s n mem j (inl (ground arith)))
      (λ down. copy_down_lem d s n mem j (ground arith)),
  copy_up_lem d s n mem j,
)

-- memset gives its range the low byte of its argument, and changes no other byte.
pub memset_lem :
    (d c n : ℕ) (mem : ℕ → ℕ) (j : ℕ)
    → memset d c n mem j ≡ (if leb d j && ltb j (d + n) then c % 256 else mem j)
unfolding memset
memset_lem d c zero mem j = ground arith
memset_lem d c (suc n) mem j =
    let ih = memset_lem (d + 1) c n (write d (c % 256) mem) j in ground arith
