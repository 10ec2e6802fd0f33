-- ===== src/Mm/Pmm/Alloc.antt =====
-- `pmm_alloc_frame` and `pmm_free_frame`: first fit, and what a free undoes.
use no_os.Base.{
  ℕ, ◌+◌, ◌*◌, ◌/◌, ◌≤◌, ◌<◌, ◌≡◌, refl, sym, ap, ◌∙◌, ◌↔◌, ◌⊎◌, inl, inr, true, false, Option,
  none, some, arith, ◌==◌, if◌then◌else◌, Bool-cases, dec_lt, add64,
}
use no_os.Mm.Bitmap.{
  bitmap_clear, bitmap_test, first_clear, Found, first_clear-Found, count_zero, clear-IsBitmap,
  test-clear, count-clear, count-le,
}
use no_os.Mm.Pmm.{Pmm, IsValid, frame_size, take_frame, pmm_alloc_frame, pmm_free_frame}
use no_os.Mm.Pmm.Reserve.{test-take_frame, take_frame-IsValid, total-take_frame}

-- Frame `i` was the first free one, and is the only one whose bit has changed.
pub record Took (i : ℕ) (p q : Pmm) : Type 0 where
  pub below : i < p.total_frames
  pub was_free : bitmap_test p.bitmap i ≡ false
  pub first : (k : ℕ) → k < i → bitmap_test p.bitmap k ≡ true
  pub valid : IsValid q
  pub total : q.total_frames ≡ p.total_frames
  pub free : q.free_frames + 1 ≡ p.free_frames
  pub bit : (j : ℕ) → bitmap_test q.bitmap j ≡ (if i == j then true else bitmap_test p.bitmap j)

abbrev pub Allocated : Pmm → ℕ × Pmm → Type 0
Allocated p r =
    ((p.free_frames ≡ 0) × (r ≡ (0, p))) ⊎ ((i : ℕ) × (r.0 ≡ i * frame_size) × Took i p r.1)

take_frame-Took :
    (p : Pmm) (v : IsValid p) (i : ℕ)
    → Found p.bitmap 0 p.total_frames (some i)
    → Took i p (take_frame i p)
take_frame-Took p v i f = record {
  below = omega (arith, f.1);
  was_free = f.2;
  first = λ k h. f.3 k (omega arith) h;
  valid = (take_frame-IsValid p v i (omega (arith, f.1)) f.2).0;
  total = total-take_frame i p;
  free = (take_frame-IsValid p v i (omega (arith, f.1)) f.2).1;
  bit = test-take_frame p v i (omega (arith, f.1));
}

alloc_cases :
    (p : Pmm)
    → IsValid p
    → (o : Option ℕ) → first_clear p.bitmap 0 p.total_frames ≡ o
    → Found p.bitmap 0 p.total_frames o
    → Allocated p (pmm_alloc_frame p)
unfolding pmm_alloc_frame
alloc_cases p v none e f = inl (
  v.counted ∙ count_zero p.bitmap p.total_frames (λ k h. f k (omega arith) (omega arith)),
  rw (e, pmm_alloc_frame) refl,
)
alloc_cases p v (some i) e f = rw (e, pmm_alloc_frame) (inr (i, refl, take_frame-Took p v i f))

-- On a valid allocator an allocation either finds no frame free, returns 0 and changes nothing, or
-- returns the address of the lowest free frame, marks that frame and no other, and counts it.
pub pmm_alloc_frame-Allocated : (p : Pmm) → IsValid p → Allocated p (pmm_alloc_frame p)
pmm_alloc_frame-Allocated p v =
    alloc_cases p v (first_clear p.bitmap 0 p.total_frames) refl
      (first_clear-Found p.bitmap 0 p.total_frames)

free_frame_bits :
    (p : Pmm) (v : IsValid p) (idx : ℕ)
    → idx < p.total_frames
    → bitmap_test p.bitmap idx ≡ true
    → IsValid (record p { bitmap = bitmap_clear p.bitmap idx; free_frames = add64 p.free_frames 1 })
      × (add64 p.free_frames 1 ≡ p.free_frames + 1)
free_frame_bits p v idx h e = ground (
  arith,
  clear-IsBitmap p.bitmap v.bits idx h,
  count-clear p.bitmap v.bits idx h p.total_frames h e,
  count-le p.bitmap p.total_frames,
)

-- Freeing any address keeps the invariant; the frame of the address, if there is one, is free
-- afterwards, no other bit changes, and a free of a free frame or outside memory changes nothing.
pub pmm_free_frame_lem :
    (addr : ℕ) (p : Pmm)
    → IsValid p
    → IsValid (pmm_free_frame addr p)
      × ((pmm_free_frame addr p).total_frames ≡ p.total_frames)
      × ((j : ℕ)
          → j < p.total_frames
          → bitmap_test (pmm_free_frame addr p).bitmap j
            ≡ (if addr / frame_size == j then false else bitmap_test p.bitmap j))
      × (((p.total_frames ≤ addr / frame_size) ⊎ (bitmap_test p.bitmap (addr / frame_size) ≡ false))
          → pmm_free_frame addr p ≡ p)
unfolding pmm_free_frame
pmm_free_frame_lem addr p v = elim (dec_lt (addr / frame_size) p.total_frames) [
  | no out ↦ (ground arith, ground arith, λ j h. ground arith, λ w. ground arith)
  | yes h ↦ elim (Bool-cases (bitmap_test p.bitmap (addr / frame_size))) [
    | inr e ↦
        rw (e, pmm_free_frame) (ground arith, ground arith, λ j h. ground arith, λ w. ground arith)
    | inl e ↦ (
      ground (arith, free_frame_bits p v (addr / frame_size) h e),
      ground arith,
      λ j q. ground (arith, test-clear p.bitmap v.bits (addr / frame_size) h j),
      λ w. ground arith,
    )
  ]
]

zero_address : (i : ℕ) → i * frame_size ≡ 0 → i ≡ 0
zero_address i h = omega arith

-- While frame 0 is in use, the address 0 means that memory is exhausted, and nothing else.
pub alloc-zero_iff :
    (p : Pmm)
    → IsValid p
    → bitmap_test p.bitmap 0 ≡ true
    → ((pmm_alloc_frame p).0 ≡ 0) ↔ (p.free_frames ≡ 0)
alloc-zero_iff p v busy = elim (pmm_alloc_frame-Allocated p v) [
  | inl (empty, e) ↦ ((λ _. empty), λ _. ap (λ (r : ℕ × Pmm). r.0) e)
  | inr (i, e, t) ↦ (
    (λ z. absurd (nonzero i t (zero_address i (sym e ∙ z)))),
    λ z. absurd (omega (arith, t.free)),
  )
]
  where
    nonzero : {q : Pmm} (i : ℕ) → Took i p q → ¬ (i ≡ 0)
    nonzero i t z = cc (t.was_free, busy, z)
