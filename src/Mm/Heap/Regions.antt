-- ===== src/Mm/Heap/Regions.antt =====
-- Predicates on address ranges that survive splits and joins, and so every operation on the chain.
use no_os.Base.{
  ℕ, ◌+◌, ◌-◌, ◌%◌, ◌^◌, ◌≤◌, ◌≡◌, inl, inr, true, not, ◌&&◌, ◌||◌, some, List, [], ◌∷◌, arith, ltb,
  leb, ◌==◌, Bool-cases, Option-cases, All,
}
use no_os.Mm.Heap.{
  Block, header, adjacent, Fit, fit_at, skip, first_fit, mark_free, merge_next, merge_prev,
}

abbrev pub end_of : Block → ℕ
end_of b = b.addr + header + b.size

-- `Q x z` says something of the bytes from `x` up to `z`.
pub record IsRegion (Q : ℕ → ℕ → Type 0) : Type 0 where
  pub split :
      (x y z : ℕ) → x + header ≤ y → y + header ≤ z → x % 16 ≡ y % 16 → Q x z → Q x y × Q y z
  pub join : (x y z : ℕ) → x + header ≤ y → y + header ≤ z → Q x y → Q y z → Q x z

abbrev pub Holds : (ℕ → ℕ → Type 0) → Block → Type 0
Holds Q b = Q b.addr (end_of b)

-- Ends below 2 ^ 63, so that no address computed by the code wraps.
abbrev pub Low : Block → Type 0
Low b = end_of b ≤ 2 ^ 63

pub adjacent_end : (a b : Block) → Low a → adjacent a b ≡ true → b.addr ≡ end_of a
unfolding adjacent
adjacent_end a b h e = ground arith

module _ (Q : ℕ → ℕ → Type 0) (r : IsRegion Q) where
  pub fit_at-Holds :
      (size : ℕ) (b : Block) (rest : List Block)
      → size % 16 ≡ 0
      → Holds Q b
      → All (Holds Q) rest
      → All (Holds Q) (fit_at size b rest).chain
  unfolding fit_at
  fit_at-Holds size b rest a h hs = elim (Bool-cases (leb (header + 16) (b.size - size))) [
    | inr e ↦ rw e (h, hs)
    | inl e ↦
        let q : Q b.addr (b.addr + header + size)
            × Q (b.addr + header + size) (b.addr + header + b.size) =
          r.split b.addr (b.addr + header + size) (b.addr + header + b.size) (omega arith)
            (ground arith) (omega arith) h in
        let same : b.addr + header + size + header + (b.size - size - header)
            ≡ b.addr + header + b.size =
          ground arith in
        rw e (q.0, (rw same q.1, hs))
  ]

  pub first_fit-Holds :
      (size : ℕ) (bs : List Block) (f : Fit)
      → size % 16 ≡ 0
      → All (Holds Q) bs
      → first_fit size bs ≡ some f
      → All (Holds Q) f.chain
  unfolding first_fit skip
  first_fit-Holds size [] f a h e = cc
  first_fit-Holds size (b ∷ rest) f a h e = elim (Bool-cases (not b.free || ltb b.size size)) [
    | inr fits ↦
        let e' : fit_at size b rest ≡ f = ground arith in
        rw (← e') (fit_at-Holds size b rest a h.0 h.1)
    | inl no_fit ↦ elim (Option-cases (first_fit size rest)) [
      | inl none_left ↦ absurd (ground arith)
      | inr (g, eg) ↦
          let e' : record g { chain = b ∷ g.chain } ≡ f = ground arith in
          rw (← e') (h.0, first_fit-Holds size rest g a h.1 eg)
    ]
  ]

  pub mark_free-Holds :
      (addr : ℕ) (bs : List Block) → All (Holds Q) bs → All (Holds Q) (mark_free addr bs)
  unfolding mark_free
  mark_free-Holds addr [] h = tt
  mark_free-Holds addr (b ∷ rest) h = elim (Bool-cases (b.addr == addr)) [
    | inl e ↦ rw e h
    | inr e ↦ rw e (h.0, mark_free-Holds addr rest h.1)
  ]

  join_next :
      (b c : Block)
      → Low b
      → adjacent b c ≡ true
      → Holds Q b
      → Holds Q c
      → Holds Q (record b { size = b.size + (header + c.size) })
  join_next b c low e hb hc =
      let at = adjacent_end b c low e in
      let same : b.addr + header + (b.size + (header + c.size)) ≡ c.addr + header + c.size =
        omega arith in
      rw same (r.join b.addr c.addr (end_of c) (omega arith) (omega arith) (rw at hb) hc)

  pub merge_next-Holds :
      (addr : ℕ) (bs : List Block)
      → All Low bs
      → All (Holds Q) bs
      → All (Holds Q) (merge_next addr bs).0
  unfolding merge_next
  merge_next-Holds addr [] low h = tt
  merge_next-Holds addr (b ∷ []) low h = h
  merge_next-Holds addr (b ∷ c ∷ rest) low h = elim (Bool-cases (b.addr == addr)) [
    | inr e ↦ rw e (h.0, merge_next-Holds addr (c ∷ rest) low.1 h.1)
    | inl e ↦ elim (Bool-cases (c.free && adjacent b c)) [
      | inr n ↦ rw (e, n) h
      | inl m ↦ rw (e, m) (join_next b c low.0 (ground arith) h.0 h.1.0, h.1.1)
    ]
  ]

  pub merge_prev-Holds :
      (addr guard : ℕ) (bs : List Block)
      → All Low bs
      → All (Holds Q) bs
      → All (Holds Q) (merge_prev addr guard bs).0
  unfolding merge_prev
  merge_prev-Holds addr guard [] low h = tt
  merge_prev-Holds addr guard (b ∷ []) low h = h
  merge_prev-Holds addr guard (b ∷ c ∷ rest) low h =
      elim (Bool-cases (b.addr == addr || ltb 100000 (guard + 1))) [
        | inl e ↦ rw e h
        | inr e ↦ elim (Bool-cases (c.addr == addr && b.free && adjacent b c)) [
          | inr n ↦ rw (e, n) (h.0, merge_prev-Holds addr (guard + 1) (c ∷ rest) low.1 h.1)
          | inl m ↦ rw (e, m) (join_next b c low.0 (ground arith) h.0 h.1.0, h.1.1)
        ]
      ]
