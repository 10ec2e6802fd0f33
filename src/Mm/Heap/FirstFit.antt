-- ===== src/Mm/Heap/FirstFit.antt =====
-- The first-fit scan of `kmalloc`: sums, disjointness, and the block that it takes.
use no_os.Base.{
  ℕ, ◌+◌, ◌-◌, ◌%◌, ◌≤◌, ◌≡◌, refl, ap, inl, inr, true, false, not, ◌||◌, some, List, [], ◌∷◌,
  arith, ltb, leb, ◌==◌, Bool-cases, Option-cases, length, All-map,
}
use no_os.Mm.Heap.{find_block, Block, header, Fit, fit_at, skip, first_fit}
use no_os.Mm.Heap.Regions.{Holds, first_fit-Holds}
use no_os.Mm.Heap.Invariant.{
  find_block-All, ApartFrom, Disjoint, payload, spans, ApartFrom-IsRegion,
}

-- The numbers that a fit changes.
pub record Sums (bs : List Block) (f : Fit) : Type 0 where
  pub span : spans f.chain ≡ spans bs
  pub len : length f.chain ≡ length bs + f.created
  pub pay : payload f.chain ≡ payload bs + f.taken

fit_at-Sums :
    (size : ℕ) (b : Block) (rest : List Block)
    → b.free ≡ true
    → size ≤ b.size
    → Sums (b ∷ rest) (fit_at size b rest)
unfolding fit_at
fit_at-Sums size b rest e h = ground arith

skip-Sums :
    (b : Block) (rest : List Block) (g : Fit)
    → Sums rest g
    → Sums (b ∷ rest) (record g { chain = b ∷ g.chain })
skip-Sums b rest g s = ground (arith, s.span, s.len, s.pay)

-- The ways in which a scan of `b ∷ rest` succeeds.
pub data FitView (size : ℕ) (b : Block) (rest : List Block) (f : Fit) : Type 0 where
  here : b.free ≡ true → size ≤ b.size → fit_at size b rest ≡ f → FitView size b rest f
  later :
      (g : Fit)
      → first_fit size rest ≡ some g
      → record g { chain = b ∷ g.chain } ≡ f
      → FitView size b rest f

fit_view :
    (size : ℕ) (b : Block) (rest : List Block) (f : Fit)
    → first_fit size (b ∷ rest) ≡ some f
    → FitView size b rest f
unfolding first_fit skip
fit_view size b rest f e = elim (Bool-cases (not b.free || ltb b.size size)) [
  | inr fits ↦ here (ground arith) (ground arith) (ground arith)
  | inl no_fit ↦ elim (Option-cases (first_fit size rest)) [
    | inl none_left ↦ absurd (ground arith)
    | inr (g, eg) ↦ later g eg (ground arith)
  ]
]

pub first_fit-Sums : (size : ℕ) (bs : List Block) (f : Fit) → first_fit size bs ≡ some f → Sums bs f
first_fit-Sums size [] f e = unfold first_fit in cc
first_fit-Sums size (b ∷ rest) f e = elim (fit_view size b rest f e) [
  | here free h eq ↦ rw (← eq) (fit_at-Sums size b rest free h)
  | later g eg eq ↦ rw (← eq) (skip-Sums b rest g (first_fit-Sums size rest g eg))
]

fit_at-Disjoint :
    (size : ℕ) (b : Block) (rest : List Block)
    → size ≤ b.size
    → Disjoint (b ∷ rest)
    → Disjoint (fit_at size b rest).chain
unfolding fit_at
fit_at-Disjoint size b rest h d = elim (Bool-cases (leb (header + 16) (b.size - size))) [
  | inr e ↦ rw e d
  | inl e ↦ rw e (
    (inl (omega arith), All-map (λ c w. ground arith) rest d.0),
    (All-map (λ c w. ground arith) rest d.0, d.1),
  )
]

pub first_fit-Disjoint :
    (size : ℕ) (bs : List Block) (f : Fit)
    → size % 16 ≡ 0
    → Disjoint bs
    → first_fit size bs ≡ some f
    → Disjoint f.chain
first_fit-Disjoint size [] f a d e = unfold first_fit in cc
first_fit-Disjoint size (b ∷ rest) f a d e = elim (fit_view size b rest f e) [
  | here free h eq ↦ rw (← eq) (fit_at-Disjoint size b rest h d)
  | later g eg eq ↦ rw (← eq) (
    first_fit-Holds (ApartFrom b) (ApartFrom-IsRegion b) size rest g a d.0 eg,
    first_fit-Disjoint size rest g a d.1 eg,
  )
]

-- The block behind the pointer of a fit.
abbrev pub Taken : ℕ → Fit → Type 0
Taken size f =
    (c : Block) × (find_block c.addr f.chain ≡ some c)
    × (f.ptr ≡ c.addr + header)
    × (c.free ≡ false)
    × (size ≤ c.size)
    × (f.taken ≡ c.size)

pub apart_addr : (b c : Block) → Holds (ApartFrom b) c → (b.addr == c.addr) ≡ false
apart_addr b c h = ground arith

fit_at-Taken :
    (size : ℕ) (b : Block) (rest : List Block) → size ≤ b.size → Taken size (fit_at size b rest)
unfolding fit_at find_block
fit_at-Taken size b rest h = elim (Bool-cases (leb (header + 16) (b.size - size))) [
  | inl e ↦ rw e (
    record { addr = b.addr; size = size; free = false },
    ground arith,
    refl,
    refl,
    omega arith,
    refl,
  )
  | inr e ↦ rw e (record b { free = false }, ground arith, refl, refl, h, refl)
]

pub first_fit-Taken :
    (size : ℕ) (bs : List Block) (f : Fit)
    → size % 16 ≡ 0
    → Disjoint bs
    → first_fit size bs ≡ some f
    → Taken size f
unfolding find_block
first_fit-Taken size [] f a d e = unfold first_fit in cc
first_fit-Taken size (b ∷ rest) f a d e = elim (fit_view size b rest f e) [
  | here free h eq ↦ rw (← eq) (fit_at-Taken size b rest h)
  | later g eg eq ↦
      let (c, found, at, live, enough, taken) = first_fit-Taken size rest g a d.1 eg in
      let all = first_fit-Holds (ApartFrom b) (ApartFrom-IsRegion b) size rest g a d.0 eg in
      let apart = (find_block-All (Holds (ApartFrom b)) c.addr g.chain c found all).0 in
      rw (← eq) (c, rw (apart_addr b c apart, find_block) found, at, live, enough, taken)
]

-- A block that is in use stays where it is.
fit_at-keeps :
    (size : ℕ) (b : Block) (rest : List Block) (addr : ℕ) (c : Block)
    → b.free ≡ true
    → size ≤ b.size
    → Disjoint (b ∷ rest)
    → find_block addr (b ∷ rest) ≡ some c
    → c.free ≡ false
    → find_block addr (fit_at size b rest).chain ≡ some c
unfolding fit_at find_block
fit_at-keeps size b rest addr c free h d e live = elim (Bool-cases (b.addr == addr)) [
  | inl q ↦ absurd (ground arith)
  | inr q ↦
      let found : find_block addr rest ≡ some c = ground arith in
      let apart = find_block-All (Holds (ApartFrom b)) addr rest c found d.0 in
      ground (arith, apart)
]

pub first_fit-keeps :
    (size : ℕ) (bs : List Block) (f : Fit) (addr : ℕ) (c : Block)
    → Disjoint bs
    → first_fit size bs ≡ some f
    → find_block addr bs ≡ some c
    → c.free ≡ false
    → find_block addr f.chain ≡ some c
unfolding find_block
first_fit-keeps size [] f addr c d e found live = unfold first_fit in cc
first_fit-keeps size (b ∷ rest) f addr c d e found live = elim (fit_view size b rest f e) [
  | here free h eq ↦ rw (← eq) (fit_at-keeps size b rest addr c free h d found live)
  | later g eg eq ↦ elim (Bool-cases (b.addr == addr)) [
    | inl q ↦ rw (← eq) (ground arith)
    | inr q ↦
        rw (← eq, q, find_block) (first_fit-keeps size rest g addr c d.1 eg (ground arith) live)
  ]
]

-- The block was free before, if it was there.
abbrev pub WasFree : ℕ → List Block → Type 0
WasFree addr bs = (c : Block) → find_block addr bs ≡ some c → c.free ≡ true

fit_at-WasFree :
    (size : ℕ) (b : Block) (rest : List Block) (addr : ℕ)
    → b.free ≡ true
    → (fit_at size b rest).ptr ≡ addr + header
    → WasFree addr (b ∷ rest)
unfolding fit_at find_block
fit_at-WasFree size b rest addr free at c found = ground arith

pub first_fit-WasFree :
    (size : ℕ) (bs : List Block) (f : Fit) (addr : ℕ)
    → size % 16 ≡ 0
    → Disjoint bs
    → first_fit size bs ≡ some f
    → f.ptr ≡ addr + header
    → WasFree addr bs
unfolding find_block
first_fit-WasFree size [] f addr a d e at = unfold first_fit in cc
first_fit-WasFree size (b ∷ rest) f addr a d e at = elim (fit_view size b rest f e) [
  | here free h eq ↦ λ c found. fit_at-WasFree size b rest addr free (rw eq at) c found
  | later g eg eq ↦ λ c found.
      let at' : g.ptr ≡ addr + header = ground (arith, ap (λ (x : Fit). x.ptr) eq) in
      let (k, kf, kat, _, _, _) = first_fit-Taken size rest g a d.1 eg in
      let all = first_fit-Holds (ApartFrom b) (ApartFrom-IsRegion b) size rest g a d.0 eg in
      let apart = (find_block-All (Holds (ApartFrom b)) k.addr g.chain k kf all).0 in
      let same : k.addr ≡ addr = omega (arith, kat, at') in
      first_fit-WasFree size rest g addr a d.1 eg at' c
        (rw (rw same at (apart_addr b k apart), find_block) at found)
]
