-- ===== src/Mm/Heap/Malloc.antt =====
-- `kmalloc`: the calls of itself, the invariant, and the bytes handed out.
use no_os.Base.{
  ℕ, suc, ◌+◌, ◌-◌, ◌*◌, ◌/◌, ◌%◌, ◌^◌, ◌≤◌, ◌<◌, ◌≡◌, refl, ap, ◌∙◌, ◌⊎◌, inl, inr, true, false,
  Option, none, some, arith, Option-cases, add64,
}
use no_os.Mm.Pmm.{Pmm, frame_size, pmm_alloc_frames}
use no_os.Mm.Pmm.Runs.{AllocatedRun, Clear, pmm_alloc_frames-AllocatedRun}
use no_os.Mm.Heap.{
  when_grown, Block, Heap, header, Fit, first_fit, find_block, align16, requested, region_alloc,
  kmalloc_fuel, kmalloc,
}
use no_os.Mm.Heap.Regions.{first_fit-Holds}
use no_os.Mm.Heap.Invariant.{
  InUse, Aligned, Inside, IsValid, InUse-IsRegion, Aligned-IsRegion, Inside-IsRegion,
  payload-le-spans,
}
use no_os.Mm.Heap.FirstFit.{
  first_fit-Sums, first_fit-Disjoint, first_fit-Taken, first_fit-keeps, WasFree, first_fit-WasFree,
}
use no_os.Mm.Heap.Grow.{
  first_pos, new_block, grown, grown-IsValid, find_block-append, first_fit-append,
}

-- `ptr` is the payload of a new live block of at least `size` bytes; the blocks that were live still
-- are, unchanged, and the new one is none of them.
pub record Given (size : ℕ) (h : Heap) (ptr : ℕ) (h' : Heap) : Type 0 where
  pub valid : IsValid h'
  pub block : Block
  pub found : find_block block.addr h'.chain ≡ some block
  pub at : ptr ≡ block.addr + header
  pub live : block.free ≡ false
  pub enough : size ≤ block.size
  pub used : h'.used_bytes ≡ h.used_bytes + block.size
  pub was_free : WasFree block.addr h.chain
  pub keeps :
      (addr : ℕ) (c : Block)
      → find_block addr h.chain ≡ some c
      → c.free ≡ false
      → find_block addr h'.chain ≡ some c

record Sized (size n : ℕ) : Type 0 where
  enough : size ≤ n
  small : n ≤ 2 ^ 62 + 16
  aligned : n % 16 ≡ 0
  stable : requested n ≡ n

requested-Sized : (size : ℕ) → size ≤ 2 ^ 62 → Sized size (requested size)
unfolding requested align16
requested-Sized size h = ground arith

abbrev fitted : Heap → Fit → Heap
fitted h f = record h {
  chain = f.chain;
  used_bytes = add64 h.used_bytes f.taken;
  block_count = h.block_count + f.created;
}

module _ (n : ℕ) (h : Heap) (f : Fit) (v : IsValid h) (a : n % 16 ≡ 0)
    (e : first_fit n h.chain ≡ some f) where
  no_wrap : add64 h.used_bytes f.taken ≡ h.used_bytes + f.taken
  no_wrap = omega (
    arith,
    first_fit-Sums n h.chain f e,
    payload-le-spans f.chain,
    v.fits,
    v.used,
    v.frames.window,
  )

  fitted-IsValid : IsValid (fitted h f)
  fitted-IsValid = record {
    frames = v.frames;
    zero_used = v.zero_used;
    inside = first_fit-Holds Inside Inside-IsRegion n h.chain f a v.inside e;
    aligned = first_fit-Holds Aligned Aligned-IsRegion n h.chain f a v.aligned e;
    owned =
        first_fit-Holds (InUse h.pmm.bitmap) (InUse-IsRegion h.pmm.bitmap) n h.chain f a v.owned e;
    disjoint = first_fit-Disjoint n h.chain f a v.disjoint e;
    counted = omega (arith, first_fit-Sums n h.chain f e, v.counted);
    fits = omega (arith, first_fit-Sums n h.chain f e, v.fits);
    used = omega (arith, first_fit-Sums n h.chain f e, v.used, no_wrap);
  }

  fitted-Given : (size : ℕ) → size ≤ n → Given size h f.ptr (fitted h f)
  fitted-Given size le =
      let (c, found, at, live, enough, taken) = first_fit-Taken n h.chain f a v.disjoint e in
      record {
        valid = fitted-IsValid;
        block = c;
        found = found;
        at = at;
        live = live;
        enough = omega (arith, enough);
        used = omega (arith, no_wrap, taken);
        was_free = first_fit-WasFree n h.chain f c.addr a v.disjoint e at;
        keeps = λ addr d q l. first_fit-keeps n h.chain f addr d v.disjoint e q l;
      }

-- A heap that has grown, and what is handed out from it.
grown-Given :
    (size b k ptr : ℕ) (h : Heap) (q : Pmm) (h' : Heap)
    → Given size (grown h b k q) ptr h'
    → Given size h ptr h'
grown-Given size b k ptr h q h' g = record {
  valid = g.valid;
  block = g.block;
  found = g.found;
  at = g.at;
  live = g.live;
  enough = g.enough;
  used = g.used;
  was_free = λ c e. g.was_free c (find_block-append h.chain (new_block b k) g.block.addr c e);
  keeps = λ addr c e l. g.keeps addr c (find_block-append h.chain (new_block b k) addr c e) l;
}

-- A call that returns null: no block fits, no run of frames is free, and nothing has changed.
pub record Refused (size : ℕ) (h h' : Heap) : Type 0 where
  pub unchanged : h' ≡ h
  pub no_block : first_fit (requested size) h.chain ≡ none
  pub no_run :
      (b : ℕ)
      → b + (requested size + header + 4095) / frame_size ≤ h.pmm.total_frames
      → ¬ Clear h.pmm.bitmap b ((requested size + header + 4095) / frame_size)

abbrev pub Outcome : ℕ → Heap → Option (ℕ × Heap) → Type 0
Outcome size h r =
    (ptr : ℕ) × (h' : Heap) × (r ≡ some (ptr, h'))
    × (((ptr ≡ 0) × Refused size h h') ⊎ Given size h ptr h')

fit_outcome :
    (size fuel : ℕ) (h : Heap) (f : Fit)
    → IsValid h
    → Sized size (requested size)
    → first_fit (requested size) h.chain ≡ some f
    → (h' : Heap) × (kmalloc_fuel (suc fuel) size h ≡ some (f.ptr, h')) × Given size h f.ptr h'
unfolding kmalloc_fuel
fit_outcome size fuel h f v s e = (
  fitted h f,
  rw (e, kmalloc_fuel) refl,
  fitted-Given (requested size) h f v s.aligned e size s.enough,
)

-- The call after the heap has grown succeeds.
grow_outcome :
    (size b k : ℕ) (h : Heap) (q : Pmm)
    → IsValid (grown h b k q)
    → size ≤ 2 ^ 62
    → requested size ≤ k * frame_size - header
    → (ptr : ℕ) × (h' : Heap) × (kmalloc_fuel 1 (requested size) (grown h b k q) ≡ some (ptr, h'))
      × Given size h ptr h'
grow_outcome size b k h q v small room =
    let s = requested-Sized size small in
    let (f, e) = first_fit-append (requested size) h.chain (new_block b k) refl room in
    let s' : Sized (requested size) (requested (requested size)) =
      rw s.stable (record {
        enough = omega arith;
        small = s.small;
        aligned = s.aligned;
        stable = s.stable;
      }) in
    let (h', eq, g) = fit_outcome (requested size) 0 (grown h b k q) f v s' (rw s.stable e) in
    (f.ptr, h', eq, grown-Given size b k f.ptr h q h' (weaken s.enough g))
  where
    weaken :
        {ptr : ℕ} {g h' : Heap}
        → size ≤ requested size
        → Given (requested size) g ptr h'
        → Given size g ptr h'
    weaken le g = record {
      valid = g.valid;
      block = g.block;
      found = g.found;
      at = g.at;
      live = g.live;
      enough = omega (arith, g.enough);
      used = g.used;
      was_free = g.was_free;
      keeps = g.keeps;
    }

module _ (size : ℕ) (h : Heap) (v : IsValid h) (small : size ≤ 2 ^ 62)
    (none_fits : first_fit (requested size) h.chain ≡ none) where
  frames : ℕ
  frames = (requested size + header + 4095) / frame_size

  frames_lem :
      (add64 (header + requested size) (frame_size - 1) / frame_size ≡ frames)
      × (0 < frames)
      × (requested size ≤ frames * frame_size - header)
  unfolding frames
  frames_lem =
      let s = requested-Sized size small in (omega (arith, s.small), omega arith, omega arith)

  region_none :
      pmm_alloc_frames frames h.pmm ≡ (0, h.pmm) → region_alloc (requested size) h ≡ (false, h)
  unfolding region_alloc
  region_none e = rw (frames_lem.0, e) refl

  region_some :
      (b : ℕ) (r : ℕ × Pmm)
      → pmm_alloc_frames frames h.pmm ≡ r
      → r.0 ≡ b * frame_size
      → 0 < b
      → region_alloc (requested size) h ≡ (true, grown h b frames r.1)
  unfolding region_alloc
  region_some b r e at pos = rw (frames_lem.0, e) (ground arith)

  refused : pmm_alloc_frames frames h.pmm ≡ (0, h.pmm) → kmalloc size h ≡ some (0, h)
  unfolding kmalloc kmalloc_fuel when_grown
  refused e =
      rw (none_fits, kmalloc_fuel)
        (ap (λ r. when_grown r (kmalloc_fuel 1 (requested size))) (region_none e))

  retried :
      (b : ℕ) (q : Pmm)
      → region_alloc (requested size) h ≡ (true, grown h b frames q)
      → kmalloc size h ≡ kmalloc_fuel 1 (requested size) (grown h b frames q)
  unfolding kmalloc kmalloc_fuel when_grown
  retried b q e =
      rw (none_fits, kmalloc_fuel) (ap (λ r. when_grown r (kmalloc_fuel 1 (requested size))) e)

  grow_cases :
      AllocatedRun frames h.pmm (pmm_alloc_frames frames h.pmm) → Outcome size h (kmalloc size h)
  grow_cases (inl (same, no_run)) = (
    0,
    h,
    refused same,
    inl (refl, record { unchanged = refl; no_block = none_fits; no_run = unfold frames in no_run }),
  )
  grow_cases (inr (b, at, fits, clear, _, took)) =
      let q = (pmm_alloc_frames frames h.pmm).1 in
      let pos : 0 < b = first_pos h v b frames q frames_lem.1 fits clear took in
      let valid = grown-IsValid h v b frames q frames_lem.1 fits clear took in
      let (ptr, h', eq, g) = grow_outcome size b frames h q valid small frames_lem.2 in
      (ptr, h', retried b q (region_some b (pmm_alloc_frames frames h.pmm) refl at pos) ∙ eq, inr g)

-- `kmalloc` of at most 2 ^ 62 bytes on a valid heap ends, with one call of itself at most. It returns
-- null only if no block of the chain fits and no run of frames is free, and then nothing changes.
-- Otherwise the pointer is the payload of a block of at least `size` bytes which was not live before;
-- every live block stays as it was; and the invariant holds, so that the new block shares no byte with
-- another, and `used_bytes` has grown by its size.
pub kmalloc-Outcome :
    (size : ℕ) (h : Heap) → IsValid h → size ≤ 2 ^ 62 → Outcome size h (kmalloc size h)
kmalloc-Outcome size h v small = elim (Option-cases (first_fit (requested size) h.chain)) [
  | inl e ↦ grow_cases size h v small e (
      pmm_alloc_frames-AllocatedRun (frames size h v small e) h.pmm v.frames
        (frames_lem size h v small e).1)
  | inr (f, e) ↦
      let (h', eq, g) = fit_outcome size 1 h f v (requested-Sized size small) e in
      (f.ptr, h', unfold kmalloc in eq, inr g)
]
