-- ===== src/Mm/Heap/Merge.antt =====
-- The list operations of `kfree`: what a mark and the two merges keep.
use no_os.Base.{
  ℕ, ◌+◌, ◌≡◌, refl, ap, ◌≢◌, inl, inr, Bool, true, false, ◌&&◌, ◌||◌, some, List, [], ◌∷◌, arith,
  ltb, ◌==◌, if◌then◌else◌, Bool-cases, length, All, All-zip,
}
use no_os.Mm.Heap.{Block, header, adjacent, find_block, mark_free, merge_next, merge_prev}
use no_os.Mm.Heap.Regions.{
  adjacent_end, Holds, end_of, Low, mark_free-Holds, merge_next-Holds, merge_prev-Holds,
}
use no_os.Mm.Heap.Invariant.{
  ApartFrom, Disjoint, payload, spans, ApartFrom-IsRegion, find_block-All,
}
use no_os.Mm.Heap.FirstFit.{WasFree}

abbrev pub one : Bool → ℕ
one b = if b then 1 else 0

pub record Marks (addr : ℕ) (bs cs : List Block) : Type 0 where
  pub span : spans cs ≡ spans bs
  pub len : length cs ≡ length bs
  pub freed : WasFree addr cs

pub mark_free-Marks : (addr : ℕ) (bs : List Block) → Marks addr bs (mark_free addr bs)
unfolding mark_free find_block
mark_free-Marks addr [] = record { span = refl; len = refl; freed = λ c e. cc }
mark_free-Marks addr (b ∷ rest) =
    let m = mark_free-Marks addr rest in
    record {
      span = ground (arith, m.span);
      len = ground (arith, m.len);
      freed = λ c e. ground (arith, m.freed c);
    }

pub payload-mark_free :
    (addr : ℕ) (bs : List Block) (c : Block)
    → find_block addr bs ≡ some c
    → c.free ≡ false
    → payload (mark_free addr bs) + c.size ≡ payload bs
unfolding mark_free find_block
payload-mark_free addr [] c e l = cc
payload-mark_free addr (b ∷ rest) c e l = ground (arith, payload-mark_free addr rest c)

pub mark_free-Disjoint : (addr : ℕ) (bs : List Block) → Disjoint bs → Disjoint (mark_free addr bs)
unfolding mark_free
mark_free-Disjoint addr [] d = tt
mark_free-Disjoint addr (b ∷ rest) d = elim (Bool-cases (b.addr == addr)) [
  | inl e ↦ rw e d
  | inr e ↦ rw e (
    mark_free-Holds (ApartFrom b) (ApartFrom-IsRegion b) addr rest d.0,
    mark_free-Disjoint addr rest d.1,
  )
]

pub mark_free-keeps :
    (addr : ℕ) (bs : List Block) (a : ℕ) (d : Block)
    → a ≢ addr
    → find_block a bs ≡ some d
    → find_block a (mark_free addr bs) ≡ some d
unfolding mark_free find_block
mark_free-keeps addr [] a d ne e = e
mark_free-keeps addr (b ∷ rest) a d ne e = ground (arith, mark_free-keeps addr rest a d)

-- What a merge of free blocks leaves alone.
pub record Merged (addr : ℕ) (bs : List Block) (r : List Block × Bool) : Type 0 where
  pub span : spans r.0 ≡ spans bs
  pub len : length r.0 + one r.1 ≡ length bs
  pub pay : payload r.0 ≡ payload bs
  pub freed : WasFree addr r.0

unmerged : (addr : ℕ) (bs : List Block) → WasFree addr bs → Merged addr bs (bs, false)
unmerged addr bs w = record { span = refl; len = omega arith; pay = refl; freed = w }

cons-WasFree :
    (addr : ℕ) (b : Block) (bs cs : List Block)
    → (b.addr == addr) ≡ false
    → WasFree addr cs
    → WasFree addr (b ∷ cs)
unfolding find_block
cons-WasFree addr b bs cs ne w c e = w c (ground arith)

tail-WasFree :
    (addr : ℕ) (b : Block) (bs : List Block)
    → (b.addr == addr) ≡ false
    → WasFree addr (b ∷ bs)
    → WasFree addr bs
unfolding find_block
tail-WasFree addr b bs ne w c e = w c (ground arith)

cons-Merged :
    (addr : ℕ) (b : Block) (bs : List Block) (r : List Block × Bool)
    → (b.addr == addr) ≡ false
    → Merged addr bs r
    → Merged addr (b ∷ bs) (b ∷ r.0, r.1)
cons-Merged addr b bs r ne m = record {
  span = omega (arith, m.span);
  len = omega (arith, m.len);
  pay = ap (λ n. (if b.free then 0 else b.size) + n) m.pay;
  freed = cons-WasFree addr b bs r.0 ne m.freed;
}

head_free :
    (addr : ℕ) (b : Block) (bs : List Block)
    → (b.addr == addr) ≡ true
    → WasFree addr (b ∷ bs)
    → b.free ≡ true
unfolding find_block
head_free addr b bs e w = w b (ground arith)

abbrev joined : Block → Block → Block
joined b c = record b { size = b.size + (header + c.size) }

join-Merged :
    (addr : ℕ) (b c : Block) (rest : List Block)
    → b.free ≡ true
    → c.free ≡ true
    → WasFree addr (joined b c ∷ rest)
    → Merged addr (b ∷ c ∷ rest) (joined b c ∷ rest, true)
join-Merged addr b c rest bf cf w = record {
  span = omega arith;
  len = omega arith;
  pay = ground arith;
  freed = w;
}

joined_freed :
    (addr : ℕ) (b c : Block) (rest : List Block)
    → b.free ≡ true
    → (b.addr == addr) ≡ true
    → WasFree addr (joined b c ∷ rest)
unfolding find_block
joined_freed addr b c rest bf e d found = ground arith

pub merge_next-Merged :
    (addr : ℕ) (bs : List Block) → WasFree addr bs → Merged addr bs (merge_next addr bs)
unfolding merge_next
merge_next-Merged addr [] w = unmerged addr [] w
merge_next-Merged addr (b ∷ []) w = unmerged addr (b ∷ []) w
merge_next-Merged addr (b ∷ c ∷ rest) w = elim (Bool-cases (b.addr == addr)) [
  | inr e ↦ rw e (
      cons-Merged addr b (c ∷ rest) (merge_next addr (c ∷ rest)) e
        (merge_next-Merged addr (c ∷ rest) (tail-WasFree addr b (c ∷ rest) e w)))
  | inl e ↦ elim (Bool-cases (c.free && adjacent b c)) [
    | inr n ↦ rw (e, n) (unmerged addr (b ∷ c ∷ rest) w)
    | inl m ↦
        rw (e, m)
          (join-Merged addr b c rest (head_free addr b (c ∷ rest) e w) (ground arith)
            (joined_freed addr b c rest (head_free addr b (c ∷ rest) e w) e))
  ]
]

-- No block after one at `addr` is at `addr`.
gone :
    (addr : ℕ) (c : Block) (rest : List Block)
    → (c.addr == addr) ≡ true
    → All (Holds (ApartFrom c)) rest
    → WasFree addr rest
gone addr c rest e d k found =
    let (apart, at) = find_block-All (Holds (ApartFrom c)) addr rest k found d in
    absurd (ground arith)

pub merge_prev-Merged :
    (addr guard : ℕ) (bs : List Block)
    → Disjoint bs
    → WasFree addr bs
    → Merged addr bs (merge_prev addr guard bs)
unfolding merge_prev
merge_prev-Merged addr guard [] d w = unmerged addr [] w
merge_prev-Merged addr guard (p ∷ []) d w = unmerged addr (p ∷ []) w
merge_prev-Merged addr guard (p ∷ b ∷ rest) d w =
    elim (Bool-cases (p.addr == addr || ltb 100000 (guard + 1))) [
      | inl e ↦ rw e (unmerged addr (p ∷ b ∷ rest) w)
      | inr e ↦
          let ne : (p.addr == addr) ≡ false = ground arith in
          let w' = tail-WasFree addr p (b ∷ rest) ne w in
          elim (Bool-cases (b.addr == addr && p.free && adjacent p b)) [
            | inr n ↦
                rw (e, n)
                  (cons-Merged addr p (b ∷ rest) (merge_prev addr (guard + 1) (b ∷ rest)) ne
                    (merge_prev-Merged addr (guard + 1) (b ∷ rest) d.1 w'))
            | inl m ↦
                let at : (b.addr == addr) ≡ true = ground arith in
                rw (e, m)
                  (join-Merged addr p b rest (ground arith) (head_free addr b rest at w')
                    (cons-WasFree addr (joined p b) rest rest ne (gone addr b rest at d.1.0)))
          ]
    ]

join_apart :
    (x b c : Block)
    → ApartFrom b x.addr (end_of x)
    → ApartFrom c x.addr (end_of x)
    → c.addr ≡ end_of b
    → Holds (ApartFrom (joined b c)) x
join_apart x b c h k e = ground arith

join-Disjoint :
    (b c : Block) (rest : List Block)
    → c.addr ≡ end_of b
    → Disjoint (b ∷ c ∷ rest)
    → Disjoint (joined b c ∷ rest)
join-Disjoint b c rest e d = (All-zip (λ x h k. join_apart x b c h k e) rest d.0.1 d.1.0, d.1.1)

pub merge_next-Disjoint :
    (addr : ℕ) (bs : List Block) → All Low bs → Disjoint bs → Disjoint (merge_next addr bs).0
unfolding merge_next
merge_next-Disjoint addr [] low d = tt
merge_next-Disjoint addr (b ∷ []) low d = d
merge_next-Disjoint addr (b ∷ c ∷ rest) low d = elim (Bool-cases (b.addr == addr)) [
  | inr e ↦ rw e (
    merge_next-Holds (ApartFrom b) (ApartFrom-IsRegion b) addr (c ∷ rest) low.1 d.0,
    merge_next-Disjoint addr (c ∷ rest) low.1 d.1,
  )
  | inl e ↦ elim (Bool-cases (c.free && adjacent b c)) [
    | inr n ↦ rw (e, n) d
    | inl m ↦ rw (e, m) (join-Disjoint b c rest (adjacent_end b c low.0 (ground arith)) d)
  ]
]

pub merge_prev-Disjoint :
    (addr guard : ℕ) (bs : List Block)
    → All Low bs
    → Disjoint bs
    → Disjoint (merge_prev addr guard bs).0
unfolding merge_prev
merge_prev-Disjoint addr guard [] low d = tt
merge_prev-Disjoint addr guard (b ∷ []) low d = d
merge_prev-Disjoint addr guard (b ∷ c ∷ rest) low d =
    elim (Bool-cases (b.addr == addr || ltb 100000 (guard + 1))) [
      | inl e ↦ rw e d
      | inr e ↦ elim (Bool-cases (c.addr == addr && b.free && adjacent b c)) [
        | inr n ↦
            rw (e, n)
              (
                merge_prev-Holds (ApartFrom b) (ApartFrom-IsRegion b) addr (guard + 1) (c ∷ rest)
                    low.1 d.0,
                merge_prev-Disjoint addr (guard + 1) (c ∷ rest) low.1 d.1,
              )
        | inl m ↦ rw (e, m) (join-Disjoint b c rest (adjacent_end b c low.0 (ground arith)) d)
      ]
    ]

-- A block that is in use stays where it is.
pub merge_next-keeps :
    (addr : ℕ) (bs : List Block) (a : ℕ) (d : Block)
    → WasFree addr bs
    → d.free ≡ false
    → find_block a bs ≡ some d
    → find_block a (merge_next addr bs).0 ≡ some d
unfolding merge_next find_block
merge_next-keeps addr [] a d w l e = e
merge_next-keeps addr (b ∷ []) a d w l e = e
merge_next-keeps addr (b ∷ c ∷ rest) a d w l e = elim (Bool-cases (b.addr == addr)) [
  | inr q ↦
      ground (arith, merge_next-keeps addr (c ∷ rest) a d (tail-WasFree addr b (c ∷ rest) q w) l)
  | inl q ↦ ground (arith, head_free addr b (c ∷ rest) q w)
]

pub merge_prev-keeps :
    (addr guard : ℕ) (bs : List Block) (a : ℕ) (d : Block)
    → WasFree addr bs
    → d.free ≡ false
    → find_block a bs ≡ some d
    → find_block a (merge_prev addr guard bs).0 ≡ some d
unfolding merge_prev find_block
merge_prev-keeps addr guard [] a d w l e = e
merge_prev-keeps addr guard (b ∷ []) a d w l e = e
merge_prev-keeps addr guard (b ∷ c ∷ rest) a d w l e = elim (Bool-cases (b.addr == addr)) [
  | inl q ↦ rw q e
  | inr q ↦
      let w' = tail-WasFree addr b (c ∷ rest) q w in
      elim (Bool-cases (c.addr == addr)) [
        | inl at ↦ ground (
          arith,
          head_free addr c rest at w',
          merge_prev-keeps addr (guard + 1) (c ∷ rest) a d w' l,
        )
        | inr out ↦ ground (arith, merge_prev-keeps addr (guard + 1) (c ∷ rest) a d w' l)
      ]
]
