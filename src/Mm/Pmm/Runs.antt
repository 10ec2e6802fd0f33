-- ===== src/Mm/Pmm/Runs.antt =====
-- `pmm_alloc_frames` and `pmm_free_frames`: runs of frames.
use no_os.Base.{
  ℕ, zero, suc, ◌+◌, ◌-◌, ◌*◌, ◌/◌, ◌^◌, ◌≤◌, ◌<◌, ◌≡◌, refl, sym, ap, ◌∙◌, ◌≢◌, ◌⊎◌, inl, inr,
  true, false, ◌&&◌, Option, none, some, List, arith, ltb, leb, ◌==◌, if◌then◌else◌, ==_iff,
  Bool-cases, dec_lt, ℕ_discrete, add64,
}
use no_os.Mm.Pmm.Alloc.{pmm_free_frame_lem}
use no_os.Mm.Bitmap.{count_ext, count_clear, bitmap_test}
use no_os.Mm.Pmm.{
  pmm_free_frames, free_from, pmm_free_frame, Pmm, IsValid, frame_size, take_frame, find_run,
  take_run, pmm_alloc_frames,
}
use no_os.Mm.Pmm.Reserve.{test-take_frame, take_frame-IsValid, total-take_frame}

-- The frames `b .. b + n - 1` are all free.
abbrev pub Clear : List ℕ → ℕ → ℕ → Type 0
Clear bitmap b n = (k : ℕ) → b ≤ k → k < b + n → bitmap_test bitmap k ≡ false

-- What a search for `count` free frames between `lo` and `hi` has found: the lowest run, or none.
abbrev pub RunFound : List ℕ → ℕ → ℕ → ℕ → Option ℕ → Type 0
RunFound bitmap count lo hi none = (b : ℕ) → lo ≤ b → b + count ≤ hi → ¬ Clear bitmap b count
RunFound bitmap count lo hi (some b) =
    (lo ≤ b)
    × (b + count ≤ hi)
    × Clear bitmap b count
    × ((c : ℕ) → lo ≤ c → c < b → ¬ Clear bitmap c count)

module _ (bitmap : List ℕ) (count : ℕ) where
  widen :
      (lo mid hi : ℕ) (r : Option ℕ)
      → lo ≤ mid
      → ((c : ℕ) → lo ≤ c → c < mid → ¬ Clear bitmap c count)
      → RunFound bitmap count mid hi r
      → RunFound bitmap count lo hi r
  widen lo mid hi none h skip f =
      λ b q w c. elim (dec_lt b mid) [ yes lt ↦ skip b q lt c | no ge ↦ f b (omega arith) w c ]
  widen lo mid hi (some b) h skip f = (omega (arith, f.0), f.1, f.2, earlier)
    where
      earlier : (c : ℕ) → lo ≤ c → c < b → ¬ Clear bitmap c count
      earlier c q w x = elim (dec_lt c mid) [
        | yes lt ↦ skip c q lt x
        | no ge ↦ f.3 c (omega arith) w x
      ]

  blocked :
      (lo i need c : ℕ)
      → lo + need ≡ i
      → need < count
      → bitmap_test bitmap i ≡ true
      → lo ≤ c
      → c < i + 1
      → ¬ Clear bitmap c count
  blocked lo i need c e q busy h w x = cc (busy, x i (omega arith) (omega arith))

  extend :
      (lo i need : ℕ)
      → lo + need ≡ i
      → bitmap_test bitmap i ≡ false
      → Clear bitmap lo need
      → Clear bitmap lo (need + 1)
  extend lo i need e free x k h w = elim (dec_lt k i) [
    | yes lt ↦ x k h (omega arith)
    | no ge ↦ let q : k ≡ i = omega arith in rw q free
  ]

  full_run : (lo i need : ℕ) → lo + need ≡ i → need + 1 ≡ count → i + 1 - (need + 1) ≡ lo
  full_run lo i need e q = omega arith

  pub find_run-RunFound :
      (lo i need n hi : ℕ)
      → lo + need ≡ i
      → i + n ≡ hi
      → need < count
      → Clear bitmap lo need
      → RunFound bitmap count lo hi (find_run bitmap count i need n)
  unfolding find_run
  find_run-RunFound lo i need zero hi e end q x = λ b h w. absurd (omega arith)
  find_run-RunFound lo i need (suc n) hi e end q x = elim (Bool-cases (bitmap_test bitmap i)) [
    | inl busy ↦ rw busy (
        widen lo (i + 1) hi _ (omega arith) (λ c h w. blocked lo i need c e q busy h w)
          (find_run-RunFound (i + 1) (i + 1) 0 n hi (omega arith) (omega arith) (omega arith)
            (λ k h w. absurd (omega arith))))
    | inr free ↦ elim (ℕ_discrete (need + 1) count) [
      | yes last ↦
          rw (free, (==_iff (need + 1) count).1 last, full_run lo i need e last)
            (
              omega arith,
              omega arith,
              rw (← last) (extend lo i need e free x),
              λ c h w. absurd (omega arith),
            )
      | no ne ↦
          rw (free, not_last (need + 1) ne)
            (find_run-RunFound lo (i + 1) (need + 1) n hi (omega arith) (omega arith) (omega arith)
              (extend lo i need e free x))
    ]
  ]
    where
      not_last : (m : ℕ) → m ≢ count → (m == count) ≡ false
      not_last m ne = ground arith

-- The frames `i .. i + n - 1` have been taken, and no other.
pub record TookRun (i n : ℕ) (p q : Pmm) : Type 0 where
  pub valid : IsValid q
  pub total : q.total_frames ≡ p.total_frames
  pub free : q.free_frames + n ≡ p.free_frames
  pub bit :
      (j : ℕ)
      → bitmap_test q.bitmap j ≡ (if leb i j && ltb j (i + n) then true else bitmap_test p.bitmap j)

TookRun-step :
    (i n : ℕ) (p q : Pmm)
    → IsValid p
    → i < p.total_frames
    → bitmap_test p.bitmap i ≡ false
    → TookRun (i + 1) n (take_frame i p) q
    → TookRun i (suc n) p q
TookRun-step i n p q v h e t = record {
  valid = t.valid;
  total = t.total ∙ total-take_frame i p;
  free = omega (arith, t.free, (take_frame-IsValid p v i h e).1);
  bit = λ j. ground (arith, t.bit j, test-take_frame p v i h j);
}

pub take_run-TookRun :
    (i n : ℕ) (p : Pmm)
    → IsValid p
    → i + n ≤ p.total_frames
    → Clear p.bitmap i n
    → TookRun i n p (take_run i n p)
unfolding take_run
take_run-TookRun i zero p v h x = record {
  valid = v;
  total = refl;
  free = omega arith;
  bit = λ j. ground arith;
}
take_run-TookRun i (suc n) p v h x =
    TookRun-step i n p _ v (omega arith) (x i (omega arith) (omega arith)) (
      take_run-TookRun (i + 1) n (take_frame i p)
        (take_frame-IsValid p v i (omega arith) (x i (omega arith) (omega arith))).0
        (omega (arith, total-take_frame i p)) rest)
  where
    rest : Clear (take_frame i p).bitmap (i + 1) n
    rest k lo hi =
        ground (arith, test-take_frame p v i (omega arith) k, x k (omega arith) (omega arith))

abbrev pub AllocatedRun : ℕ → Pmm → ℕ × Pmm → Type 0
AllocatedRun count p r =
    ((r ≡ (0, p)) × ((b : ℕ) → b + count ≤ p.total_frames → ¬ Clear p.bitmap b count))
    ⊎ ((b : ℕ) × (r.0 ≡ b * frame_size)
        × (b + count ≤ p.total_frames)
        × Clear p.bitmap b count
        × ((c : ℕ) → c < b → ¬ Clear p.bitmap c count)
        × TookRun b count p r.1)

alloc_run_cases :
    (count : ℕ) (p : Pmm)
    → IsValid p
    → (o : Option ℕ) → find_run p.bitmap count 0 0 p.total_frames ≡ o
    → RunFound p.bitmap count 0 p.total_frames o
    → AllocatedRun count p (pmm_alloc_frames count p)
unfolding pmm_alloc_frames
alloc_run_cases count p v none e f =
    rw (e, pmm_alloc_frames) (inl (refl, λ b h. f b (omega arith) h))
alloc_run_cases count p v (some b) e f =
    rw (e, pmm_alloc_frames)
      (inr (b, refl, f.1, f.2, λ c h. f.3 c (omega arith) h, take_run-TookRun b count p v f.1 f.2))

-- For a positive count, `pmm_alloc_frames` returns 0 and changes nothing exactly when no run of that
-- many free frames exists; otherwise it returns the address of the lowest such run, marks the run and
-- nothing else, keeps the invariant and lowers the free count by `count`.
pub pmm_alloc_frames-AllocatedRun :
    (count : ℕ) (p : Pmm) → IsValid p → 0 < count → AllocatedRun count p (pmm_alloc_frames count p)
pmm_alloc_frames-AllocatedRun count p v h =
    alloc_run_cases count p v (find_run p.bitmap count 0 0 p.total_frames) refl (
      find_run-RunFound p.bitmap count 0 0 0 p.total_frames p.total_frames (omega arith)
        (omega arith) h (λ k lo hi. absurd (omega arith)))

-- The frames `b .. b + n - 1` have been given back, and no other.
record Gave (b n : ℕ) (p q : Pmm) : Type 0 where
  valid : IsValid q
  total : q.total_frames ≡ p.total_frames
  bit :
      (j : ℕ)
      → j < p.total_frames
      → bitmap_test q.bitmap j
        ≡ (if leb b j && ltb j (b + n) then false else bitmap_test p.bitmap j)

Gave-step :
    (b n addr : ℕ) (p q : Pmm)
    → IsValid p
    → b < p.total_frames
    → addr / frame_size ≡ b
    → Gave (b + 1) n (pmm_free_frame addr p) q
    → Gave b (suc n) p q
Gave-step b n addr p q v h e g = record {
  valid = g.valid;
  total = g.total ∙ (pmm_free_frame_lem addr p v).1;
  bit = λ j w.
      ground (arith, g.bit j, (pmm_free_frame_lem addr p v).2 j w, (pmm_free_frame_lem addr p v).1);
}

frame_at : (b j : ℕ) → b + j < 2 ^ 18 → add64 (b * frame_size) (j * frame_size) / frame_size ≡ b + j
frame_at b j h = omega arith

free_from-Gave :
    (b j n : ℕ) (p : Pmm)
    → IsValid p
    → b + j + n ≤ p.total_frames
    → Gave (b + j) n p (free_from (b * frame_size) j n p)
unfolding free_from
free_from-Gave b j zero p v h = record { valid = v; total = refl; bit = λ k w. ground arith }
free_from-Gave b j (suc n) p v h =
    let w = pmm_free_frame_lem (add64 (b * frame_size) (j * frame_size)) p v in
    let e : b + (j + 1) ≡ b + j + 1 = omega arith in
    Gave-step (b + j) n _ p _ v (omega arith) (frame_at b j (omega (arith, v.window))) (
      rw e at (
        free_from-Gave b (j + 1) n (pmm_free_frame (add64 (b * frame_size) (j * frame_size)) p) w.0
          (omega (arith, w.1))))

module _ (count b : ℕ) (p q : Pmm) (v : IsValid p) (t : TookRun b count p q) where
  freed : Pmm
  freed = free_from (b * frame_size) 0 count q

  freed-Gave : b + count ≤ p.total_frames → Gave (b + 0) count q freed
  unfolding freed
  freed-Gave fits = free_from-Gave b 0 count q t.valid (omega (arith, t.total))

  freed-bit :
      b + count ≤ p.total_frames
      → Clear p.bitmap b count
      → (j : ℕ) → j < p.total_frames
      → bitmap_test freed.bitmap j ≡ bitmap_test p.bitmap j
  freed-bit fits clear j h = ground (arith, (freed-Gave fits).bit j, t.bit j, t.total, clear j)

  Restored : Type 0
  Restored =
      IsValid freed
      × ((j : ℕ) → j < p.total_frames → bitmap_test freed.bitmap j ≡ bitmap_test p.bitmap j)
      × (freed.free_frames ≡ p.free_frames)

  freed-Restored : b + count ≤ p.total_frames → Clear p.bitmap b count → Restored
  unfolding Restored
  freed-Restored fits clear = (
    (freed-Gave fits).valid,
    freed-bit fits clear,
    (freed-Gave fits).valid.counted
        ∙ ap (count_clear freed.bitmap) ((freed-Gave fits).total ∙ t.total)
        ∙ count_ext freed.bitmap p.bitmap p.total_frames (freed-bit fits clear)
        ∙ sym v.counted,
  )

-- A run that was allocated and is then freed leaves the allocator as it was: valid, every frame as
-- before, and as many free.
pub free_frames-alloc_frames :
    (count b : ℕ) (p q : Pmm)
    → IsValid p
    → 0 < count
    → pmm_alloc_frames count p ≡ (b * frame_size, q)
    → q ≢ p
    → let r = pmm_free_frames (b * frame_size) count q in
      IsValid r
      × ((j : ℕ) → j < p.total_frames → bitmap_test r.bitmap j ≡ bitmap_test p.bitmap j)
      × (r.free_frames ≡ p.free_frames)
unfolding pmm_free_frames freed Restored
free_frames-alloc_frames count b p q v pos e moved =
    elim (pmm_alloc_frames-AllocatedRun count p v pos) [
      | inl (same, _) ↦ absurd (moved (ap (λ (r : ℕ × Pmm). r.1) (sym e ∙ same)))
      | inr (c, at, fits, clear, _, took) ↦
          let here : c ≡ b = omega (arith, at, ap (λ (r : ℕ × Pmm). r.0) e) in
          let t : TookRun b count p q = rw (here, e) at took in
          freed-Restored count b p q v t (rw here at fits) (rw here at clear)
    ]
