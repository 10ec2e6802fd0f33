-- ===== src/Mm/Heap/Grow.antt =====
-- `region_alloc`: the frames of the block that it appends.
use no_os.Base.{
  ℕ, ◌+◌, ◌-◌, ◌*◌, ◌/◌, ◌≤◌, ◌<◌, ◌≡◌, refl, sym, ap, ◌∙◌, inl, inr, true, false, not, ◌||◌, some,
  List, [], ◌∷◌, ◌++◌, arith, ltb, if◌then◌else◌, Bool-cases, length, All, length-append,
  All-append, dec_lt, ℕ_discrete, All-map,
}
use no_os.Mm.Bitmap.{bitmap_test}
use no_os.Mm.Pmm.{Pmm, frame_size}
use no_os.Mm.Pmm.Runs.{TookRun, Clear}
use no_os.Mm.Heap.{Block, Heap, header, Fit, fit_at, skip, first_fit, find_block}
use no_os.Mm.Heap.Regions.{Holds, end_of}
use no_os.Mm.Heap.Invariant.{ApartFrom, Disjoint, InUse, Aligned, Inside, payload, spans, IsValid}

-- A block that lies in used frames has no byte of a run of free ones.
run_beside :
    (bitmap : List ℕ) (b n : ℕ) (c : Block)
    → 0 < n
    → Clear bitmap b n
    → Holds (InUse bitmap) c
    → Holds
        (ApartFrom c)
        (record { addr = b * frame_size; size = n * frame_size - header; free = true })
run_beside bitmap b n c pos clear used = elim (dec_lt (b * frame_size) (end_of c)) [
  | no ge ↦ inl (omega arith)
  | yes lt ↦ elim (dec_lt c.addr (b * frame_size + n * frame_size)) [
    | no ge ↦ inr (ground arith)
    | yes lt' ↦ elim (dec_lt (c.addr / frame_size) b) [
      | yes below ↦
          absurd
            (clash b (clear b (omega arith) (omega arith)) (used b (omega arith) (omega arith)))
      | no above ↦ absurd (
          clash (c.addr / frame_size) (clear (c.addr / frame_size) (omega arith) (omega arith))
            (used (c.addr / frame_size) (omega arith) (omega arith)))
    ]
  ]
]
  where
    clash : (j : ℕ) → bitmap_test bitmap j ≡ false → bitmap_test bitmap j ≡ true → ⊥
    clash j e q = cc (e, q)

Disjoint-append :
    (bs : List Block) (b : Block)
    → Disjoint bs
    → All (λ c. Holds (ApartFrom c) b) bs
    → Disjoint (bs ++ b ∷ [])
Disjoint-append [] b d h = (tt, tt)
Disjoint-append (c ∷ rest) b d h =
    (All-append (Holds (ApartFrom c)) rest (b ∷ []) d.0 (h.0, tt), Disjoint-append rest b d.1 h.1)

payload-append : (bs : List Block) (b : Block) → b.free ≡ true → payload (bs ++ b ∷ []) ≡ payload bs
payload-append [] b e = ground arith
payload-append (c ∷ rest) b e =
    ap (λ n. (if c.free then 0 else c.size) + n) (payload-append rest b e)

spans-append : (bs : List Block) (b : Block) → spans (bs ++ b ∷ []) ≡ spans bs + header + b.size
spans-append [] b = omega arith
spans-append (c ∷ rest) b = omega (arith, spans-append rest b)

pub find_block-append :
    (bs : List Block) (b : Block) (addr : ℕ) (c : Block)
    → find_block addr bs ≡ some c
    → find_block addr (bs ++ b ∷ []) ≡ some c
unfolding find_block
find_block-append [] b addr c e = cc
find_block-append (d ∷ rest) b addr c e = ground (arith, find_block-append rest b addr c)

-- A scan for at most the size of a free last block succeeds.
pub first_fit-append :
    (size : ℕ) (bs : List Block) (b : Block)
    → b.free ≡ true
    → size ≤ b.size
    → (f : Fit) × (first_fit size (bs ++ b ∷ []) ≡ some f)
unfolding first_fit skip
first_fit-append size [] b e h = (fit_at size b [], ground arith)
first_fit-append size (c ∷ rest) b e h = elim (Bool-cases (not c.free || ltb c.size size)) [
  | inr fits ↦ (fit_at size c (rest ++ b ∷ []), rw fits refl)
  | inl no_fit ↦
      let (g, eg) = first_fit-append size rest b e h in
      (record g { chain = c ∷ g.chain }, rw (no_fit, eg, skip) refl)
]

abbrev pub new_block : ℕ → ℕ → Block
new_block b n = record { addr = b * frame_size; size = n * frame_size - header; free = true }

-- The heap after a run of `n` frames from frame `b` on was appended.
abbrev pub grown : Heap → ℕ → ℕ → Pmm → Heap
grown h b n q = record {
  chain = h.chain ++ new_block b n ∷ [];
  used_bytes = h.used_bytes;
  block_count = h.block_count + 1;
  pmm = q;
}

length_snoc : (bs : List Block) (b : Block) → length (bs ++ b ∷ []) ≡ length bs + 1
length_snoc bs b = omega (arith, length-append bs (b ∷ []))

module _ (h : Heap) (v : IsValid h) (b n : ℕ) (q : Pmm) (pos : 0 < n)
    (fits : b + n ≤ h.pmm.total_frames) (clear : Clear h.pmm.bitmap b n)
    (t : TookRun b n h.pmm q) where
  pub first_pos : 0 < b
  first_pos = elim (ℕ_discrete b 0) [
    | yes e ↦ absurd (cc (v.zero_used, clear 0 (omega arith) (omega arith)))
    | no ne ↦ omega arith
  ]

  still_used : (x z : ℕ) → InUse h.pmm.bitmap x z → InUse q.bitmap x z
  still_used x z u j lo hi = ground (arith, t.bit j, u j lo hi)

  pub grown-IsValid : IsValid (grown h b n q)
  grown-IsValid = record {
    frames = t.valid;
    zero_used = ground (arith, t.bit 0, v.zero_used);
    inside =
        All-append (Holds Inside) h.chain _ v.inside
          ((omega (arith, first_pos), omega (arith, v.frames.window)), tt);
    aligned = All-append (Holds Aligned) h.chain _ v.aligned ((omega arith, omega arith), tt);
    owned =
        All-append (Holds (InUse q.bitmap)) h.chain _
          (All-map (λ c. still_used c.addr (end_of c)) h.chain v.owned)
          ((λ j lo hi. ground (arith, t.bit j)), tt);
    disjoint =
        Disjoint-append h.chain (new_block b n) v.disjoint
          (All-map (λ c. run_beside h.pmm.bitmap b n c pos clear) h.chain v.owned);
    counted = omega (arith, v.counted, length_snoc h.chain (new_block b n));
    fits = omega (arith, v.fits, spans-append h.chain (new_block b n), t.free, t.total);
    used = v.used ∙ sym (payload-append h.chain (new_block b n) refl);
  }
