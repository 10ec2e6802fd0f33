-- ===== src/Mm/Pmm/Reserve.antt =====
-- `take_frame` and `pmm_reserve`: which frames they mark.
use no_os.Base.{
  ℕ, zero, suc, ◌+◌, ◌-◌, ◌*◌, ◌/◌, ◌^◌, ◌≤◌, ◌<◌, ◌≡◌, refl, ◌∙◌, inl, inr, true, false, ◌&&◌,
  arith, ltb, leb, ◌==◌, if◌then◌else◌, Bool-cases, dec_lt, ℕ_discrete,
}
use no_os.Mm.Bitmap.{bitmap_test, set-IsBitmap, test-set, count-set, count-le, count_pos}
use no_os.Mm.Pmm.{Pmm, IsValid, frame_size, take_frame, reserve_from, reserve_last, pmm_reserve}

module _ (p : Pmm) (v : IsValid p) (i : ℕ) (h : i < p.total_frames) where
  pub test-take_frame :
      (j : ℕ)
      → bitmap_test (take_frame i p).bitmap j ≡ (if i == j then true else bitmap_test p.bitmap j)
  unfolding take_frame
  test-take_frame j = test-set p.bitmap v.bits i h j

  pub take_frame-IsValid :
      bitmap_test p.bitmap i ≡ false
      → IsValid (take_frame i p) × ((take_frame i p).free_frames + 1 ≡ p.free_frames)
  unfolding take_frame
  take_frame-IsValid e = ground (
    arith,
    set-IsBitmap p.bitmap v.bits i h,
    count-set p.bitmap v.bits i h p.total_frames h e,
    count-le p.bitmap p.total_frames,
    count_pos p.bitmap i p.total_frames h e,
  )

pub total-take_frame : (i : ℕ) (p : Pmm) → (take_frame i p).total_frames ≡ p.total_frames
unfolding take_frame
total-take_frame i p = refl

-- The frames `lo .. hi - 1` are marked and no other bit changes.
pub record Marked (lo hi : ℕ) (p q : Pmm) : Type 0 where
  pub valid : IsValid q
  pub total : q.total_frames ≡ p.total_frames
  pub bit :
      (j : ℕ)
      → bitmap_test q.bitmap j ≡ (if leb lo j && ltb j hi then true else bitmap_test p.bitmap j)

Marked-start : (i : ℕ) (p : Pmm) → IsValid p → Marked i i p p
Marked-start i p v = record { valid = v; total = refl; bit = λ j. ground arith }

step : ℕ → Pmm → Pmm
step i p = if bitmap_test p.bitmap i then p else take_frame i p

step-IsValid :
    (i : ℕ) (p : Pmm)
    → IsValid p
    → i < p.total_frames
    → IsValid (step i p) × ((step i p).total_frames ≡ p.total_frames)
unfolding step
step-IsValid i p v h = elim (Bool-cases (bitmap_test p.bitmap i)) [
  | inl e ↦ rw e (v, refl)
  | inr e ↦ rw e ((take_frame-IsValid p v i h e).0, total-take_frame i p)
]

step-bit :
    (i : ℕ) (p : Pmm)
    → IsValid p
    → i < p.total_frames
    → (j : ℕ) → bitmap_test (step i p).bitmap j ≡ (if i == j then true else bitmap_test p.bitmap j)
unfolding step
step-bit i p v h j = elim (Bool-cases (bitmap_test p.bitmap i)) [
  | inl e ↦ elim (ℕ_discrete i j) [
    | yes q ↦ rw (e, ← q) (rw e (ground arith))
    | no ne ↦ rw e (ground arith)
  ]
  | inr e ↦ rw e (test-take_frame p v i h j)
]

Marked-step :
    (i hi : ℕ) (p q : Pmm)
    → IsValid p
    → i < p.total_frames
    → i < hi
    → Marked (i + 1) hi (step i p) q
    → Marked i hi p q
Marked-step i hi p q v h lt m = record {
  valid = m.valid;
  total = m.total ∙ (step-IsValid i p v h).1;
  bit = λ j. ground (arith, m.bit j, step-bit i p v h j);
}

pub reserve_from-Marked :
    (i n hi : ℕ) (p : Pmm)
    → IsValid p
    → i + n ≡ hi
    → hi ≤ p.total_frames
    → Marked i hi p (reserve_from i n p)
unfolding reserve_from step
reserve_from-Marked i zero hi p v e h =
    let e' : i ≡ hi = omega arith in rw (← e') (Marked-start i p v)
reserve_from-Marked i (suc n) hi p v e h = Marked-step i hi p _ v (omega arith) (omega arith) (
    reserve_from-Marked (i + 1) n hi (step i p) (step-IsValid i p v (omega arith)).0 (omega arith)
      (omega (arith, (step-IsValid i p v (omega arith)).1)))

-- In terms of the loop's bounds.
pub pmm_reserve-Marked :
    (addr len : ℕ) (p : Pmm)
    → IsValid p
    → addr / frame_size ≤ reserve_last addr len p
    → Marked (addr / frame_size) (reserve_last addr len p) p (pmm_reserve addr len p)
unfolding pmm_reserve
pmm_reserve-Marked addr len p v h =
    reserve_from-Marked (addr / frame_size) (reserve_last addr len p - addr / frame_size) _ p v
      (omega arith) (ground arith)

reserve_nothing :
    (addr len : ℕ) (p : Pmm)
    → reserve_last addr len p < addr / frame_size
    → pmm_reserve addr len p ≡ p
unfolding pmm_reserve reserve_from
reserve_nothing addr len p h =
    let e : reserve_last addr len p - addr / frame_size ≡ 0 = omega arith in rw e refl

-- Whatever the range is, a reservation keeps the invariant and frees nothing.
pub pmm_reserve-IsValid :
    (addr len : ℕ) (p : Pmm)
    → IsValid p
    → IsValid (pmm_reserve addr len p)
      × ((pmm_reserve addr len p).total_frames ≡ p.total_frames)
      × ((j : ℕ)
          → bitmap_test p.bitmap j ≡ true
          → bitmap_test (pmm_reserve addr len p).bitmap j ≡ true)
pmm_reserve-IsValid addr len p v = elim (dec_lt (reserve_last addr len p) (addr / frame_size)) [
  | yes lt ↦ rw (reserve_nothing addr len p lt) (v, refl, λ j e. e)
  | no ge ↦
      let m = pmm_reserve-Marked addr len p v (omega arith) in
      (m.valid, m.total, λ j e. ground (arith, m.bit j))
]

-- Reserving a non-empty range whose end does not wrap keeps the invariant (also that the free count
-- is the number of clear bits), and leaves exactly these frames in use: those that were, and those
-- that the range overlaps.
pub pmm_reserve_overlap :
    (addr len : ℕ) (p : Pmm)
    → IsValid p
    → 0 < len
    → addr + len + 4095 < 2 ^ 64
    → IsValid (pmm_reserve addr len p)
      × ((j : ℕ)
          → j < p.total_frames
          → bitmap_test (pmm_reserve addr len p).bitmap j ≡ (
              if ltb addr ((j + 1) * frame_size) && ltb (j * frame_size) (addr + len)
              then true
              else bitmap_test p.bitmap j))
pmm_reserve_overlap addr len p v pos fits =
    elim (dec_lt (reserve_last addr len p) (addr / frame_size)) [
      | yes lt ↦ (
        (pmm_reserve-IsValid addr len p v).0,
        λ j h. rw (reserve_nothing addr len p lt) (outside j h lt),
      )
      | no ge ↦ (
        (pmm_reserve-IsValid addr len p v).0,
        λ j h. ground (arith, (pmm_reserve-Marked addr len p v (omega arith)).bit j),
      )
    ]
  where
    outside :
        (j : ℕ)
        → j < p.total_frames
        → reserve_last addr len p < addr / frame_size
        → bitmap_test p.bitmap j ≡ (
            if ltb addr ((j + 1) * frame_size) && ltb (j * frame_size) (addr + len)
            then true
            else bitmap_test p.bitmap j)
    outside j h lt = ground arith
