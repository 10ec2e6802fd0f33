-- ===== src/Mm/Heap/Invariant.antt =====
-- The invariant of the heap.
use no_os.Base.{
  ℕ, ◌+◌, ◌*◌, ◌%◌, ◌^◌, ◌≤◌, ◌<◌, ◌≡◌, ◌⊎◌, inl, inr, true, some, List, [], ◌∷◌, arith, ◌==◌,
  if◌then◌else◌, Bool-cases, length, All, dec_lt, All-map,
}
use no_os.Mm.Bitmap.{bitmap_test}
use no_os.Mm.Pmm.{frame_size}
use no_os.Mm.Pmm
use no_os.Mm.Heap.{header, find_block, Block, Heap}
use no_os.Mm.Heap.Regions.{Low, IsRegion, Holds, end_of}

-- The range `x .. z - 1` has no byte of the block.
abbrev pub ApartFrom : Block → ℕ → ℕ → Type 0
ApartFrom b x z = (end_of b ≤ x) ⊎ (z ≤ b.addr)

-- No two blocks of the chain share a byte.
abbrev pub Disjoint : List Block → Type 0
Disjoint [] = Unit {0}
Disjoint (b ∷ rest) = All (Holds (ApartFrom b)) rest × Disjoint rest

-- Every frame that the range touches is in use.
abbrev pub InUse : List ℕ → ℕ → ℕ → Type 0
InUse bitmap x z =
    (j : ℕ) → x < (j + 1) * frame_size → j * frame_size < z → bitmap_test bitmap j ≡ true

abbrev pub Aligned : ℕ → ℕ → Type 0
Aligned x z = (x % 16 ≡ 0) × (z % 16 ≡ 0)

-- Inside the gigabyte that the frame allocator covers.
abbrev pub Inside : ℕ → ℕ → Type 0
Inside x z = (0 < x) × (z ≤ 2 ^ 30)

abbrev pub payload : List Block → ℕ
payload [] = 0
payload (b ∷ rest) = (if b.free then 0 else b.size) + payload rest

pub ApartFrom-IsRegion : (b : Block) → IsRegion (ApartFrom b)
ApartFrom-IsRegion b = record {
  split = λ x y z p q a h. ground arith;
  join = λ x y z p q h k. ground arith;
}

pub InUse-IsRegion : (bitmap : List ℕ) → IsRegion (InUse bitmap)
InUse-IsRegion bitmap = record {
  split = λ x y z p q a h. (λ j lo hi. h j lo (omega arith), λ j lo hi. h j (omega arith) hi);
  join = λ x y z p q h k j lo hi. elim (dec_lt (j * frame_size) y) [
    | yes lt ↦ h j lo lt
    | no ge ↦ k j (omega arith) hi
  ];
}

pub Aligned-IsRegion : IsRegion Aligned
Aligned-IsRegion = record {
  split = λ x y z p q a h. omega arith;
  join = λ x y z p q h k. omega arith;
}

pub Inside-IsRegion : IsRegion Inside
Inside-IsRegion = record {
  split = λ x y z p q a h. omega arith;
  join = λ x y z p q h k. omega arith;
}

-- The bytes of the chain, headers included.
abbrev pub spans : List Block → ℕ
spans [] = 0
spans (b ∷ rest) = header + b.size + spans rest

pub record IsValid (h : Heap) : Type 0 where
  pub frames : Pmm.IsValid h.pmm
  pub zero_used : bitmap_test h.pmm.bitmap 0 ≡ true
  pub inside : All (Holds Inside) h.chain
  pub aligned : All (Holds Aligned) h.chain
  pub owned : All (Holds (InUse h.pmm.bitmap)) h.chain
  pub disjoint : Disjoint h.chain
  pub counted : h.block_count ≡ length h.chain
  pub fits : spans h.chain + h.pmm.free_frames * frame_size ≤ h.pmm.total_frames * frame_size
  pub used : h.used_bytes ≡ payload h.chain

pub All-Low : (bs : List Block) → All (Holds Inside) bs → All Low bs
All-Low bs h = All-map (λ b w. omega arith) bs h

pub payload-le-spans : (bs : List Block) → payload bs ≤ spans bs
payload-le-spans [] = omega arith
payload-le-spans (b ∷ rest) = ground (arith, payload-le-spans rest)

-- A block found at an address has it, and has what all blocks have.
pub find_block-All {κ} :
    (P : Block → Type κ) (addr : ℕ) (bs : List Block) (c : Block)
    → find_block addr bs ≡ some c
    → All P bs
    → P c × (c.addr ≡ addr)
unfolding find_block
find_block-All P addr [] c e h = cc
find_block-All P addr (b ∷ rest) c e h = elim (Bool-cases (b.addr == addr)) [
  | inl q ↦ let same : b ≡ c = ground arith in rw (← same) (h.0, ground arith)
  | inr q ↦ find_block-All P addr rest c (ground arith) h.1
]
