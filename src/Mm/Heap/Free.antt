-- ===== src/Mm/Heap/Free.antt =====
-- `kfree`: the block given back, the merges with its neighbours, and a second call.
use no_os.Base.{
  ℕ, ◌+◌, ◌^◌, ◌≤◌, ◌<◌, ◌≡◌, refl, ◌∙◌, ◌≢◌, inl, inr, Bool, false, some, List, [], ◌∷◌, arith,
  ◌==◌, Option-cases, length, All, sub64,
}
use no_os.Mm.Heap.{
  Block, Heap, header, find_block, mark_free, merge_next, merge_prev, less, release, kfree,
}
use no_os.Mm.Heap.Regions.{
  IsRegion, Holds, Low, mark_free-Holds, merge_next-Holds, merge_prev-Holds,
}
use no_os.Mm.Heap.Invariant.{
  Disjoint, InUse, Aligned, Inside, payload, spans, IsValid, InUse-IsRegion, Aligned-IsRegion,
  Inside-IsRegion, All-Low, payload-le-spans, find_block-All,
}
use no_os.Mm.Heap.FirstFit.{WasFree}
use no_os.Mm.Heap.Merge.{
  one, mark_free-Marks, payload-mark_free, mark_free-Disjoint, mark_free-keeps, Merged,
  merge_next-Merged, merge_prev-Merged, merge_next-Disjoint, merge_prev-Disjoint, merge_next-keeps,
  merge_prev-keeps,
}

-- The block at `addr` of `size` bytes was given back, and no other.
pub record Released (addr size : ℕ) (h h' : Heap) : Type 0 where
  pub valid : IsValid h'
  pub span : spans h'.chain ≡ spans h.chain
  pub used : h'.used_bytes + size ≡ h.used_bytes
  pub gone : WasFree addr h'.chain
  pub keeps :
      (a : ℕ) (d : Block)
      → a ≢ addr
      → d.free ≡ false
      → find_block a h.chain ≡ some d
      → find_block a h'.chain ≡ some d

length-le-spans : (bs : List Block) → length bs ≤ spans bs
length-le-spans [] = omega arith
length-le-spans (b ∷ rest) = omega (arith, length-le-spans rest)

less_lem : (m : Bool) (n k : ℕ) → k + one m ≡ n → n < 2 ^ 64 → less m n ≡ k
less_lem m n k e h = ground arith

module _ (h : Heap) (v : IsValid h) (c : Block) (found : find_block c.addr h.chain ≡ some c)
    (live : c.free ≡ false) where
  marked : List Block
  marked = mark_free c.addr h.chain

  next_merged : List Block × Bool
  next_merged = merge_next c.addr marked

  prev_merged : List Block × Bool
  prev_merged = merge_prev c.addr 0 next_merged.0

  -- What every block of the chain has, every block of the result has.
  carried : (Q : ℕ → ℕ → Type 0) → IsRegion Q → All (Holds Q) h.chain → All (Holds Q) prev_merged.0
  unfolding prev_merged next_merged marked
  carried Q r a =
      let low0 = All-Low marked (mark_free-Holds Inside Inside-IsRegion c.addr h.chain v.inside) in
      let in1 =
        merge_next-Holds Inside Inside-IsRegion c.addr marked low0
          (mark_free-Holds Inside Inside-IsRegion c.addr h.chain v.inside) in
      merge_prev-Holds Q r c.addr 0 next_merged.0 (All-Low next_merged.0 in1)
        (merge_next-Holds Q r c.addr marked low0 (mark_free-Holds Q r c.addr h.chain a))

  first-Low : All Low marked
  unfolding marked
  first-Low = All-Low marked (mark_free-Holds Inside Inside-IsRegion c.addr h.chain v.inside)

  second-Low : All Low next_merged.0
  unfolding next_merged marked
  second-Low = All-Low next_merged.0 (
      merge_next-Holds Inside Inside-IsRegion c.addr marked first-Low
        (mark_free-Holds Inside Inside-IsRegion c.addr h.chain v.inside))

  marked-Disjoint : Disjoint marked
  unfolding marked
  marked-Disjoint = mark_free-Disjoint c.addr h.chain v.disjoint

  next-Disjoint : Disjoint next_merged.0
  unfolding next_merged
  next-Disjoint = merge_next-Disjoint c.addr marked first-Low marked-Disjoint

  next-Merged : Merged c.addr marked next_merged
  unfolding next_merged marked
  next-Merged = merge_next-Merged c.addr marked (mark_free-Marks c.addr h.chain).freed

  prev-Merged : Merged c.addr next_merged.0 prev_merged
  unfolding prev_merged
  prev-Merged = merge_prev-Merged c.addr 0 next_merged.0 next-Disjoint next-Merged.freed

  released : Heap
  released = record h {
    chain = prev_merged.0;
    used_bytes = sub64 h.used_bytes c.size;
    block_count = less prev_merged.1 (less next_merged.1 h.block_count);
  }

  used_lem : sub64 h.used_bytes c.size + c.size ≡ h.used_bytes
  used_lem = omega (
    arith,
    v.used,
    payload-mark_free c.addr h.chain c found live,
    payload-le-spans h.chain,
    v.fits,
    v.frames.window,
  )

  pay_lem : payload prev_merged.0 + c.size ≡ h.used_bytes
  unfolding marked
  pay_lem = omega (
    arith,
    prev-Merged.pay,
    next-Merged.pay,
    payload-mark_free c.addr h.chain c found live,
    v.used,
  )

  span_lem : spans prev_merged.0 ≡ spans h.chain
  unfolding marked
  span_lem = prev-Merged.span ∙ next-Merged.span ∙ (mark_free-Marks c.addr h.chain).span

  count_small : h.block_count < 2 ^ 64
  count_small = omega (arith, v.counted, length-le-spans h.chain, v.fits, v.frames.window)

  count_lem : less prev_merged.1 (less next_merged.1 h.block_count) ≡ length prev_merged.0
  unfolding marked
  count_lem =
      let e : less next_merged.1 h.block_count ≡ length next_merged.0 =
        less_lem next_merged.1 h.block_count (length next_merged.0)
          (omega (arith, next-Merged.len, (mark_free-Marks c.addr h.chain).len, v.counted))
          count_small in
      rw e (
        less_lem prev_merged.1 (length next_merged.0) (length prev_merged.0) prev-Merged.len (
          omega
            (arith, count_small, next-Merged.len, (mark_free-Marks c.addr h.chain).len, v.counted)))

  released-IsValid : IsValid released
  unfolding released
  released-IsValid = record {
    frames = v.frames;
    zero_used = v.zero_used;
    inside = carried Inside Inside-IsRegion v.inside;
    aligned = carried Aligned Aligned-IsRegion v.aligned;
    owned = carried (InUse h.pmm.bitmap) (InUse-IsRegion h.pmm.bitmap) v.owned;
    disjoint =
        unfold prev_merged in merge_prev-Disjoint c.addr 0 next_merged.0 second-Low next-Disjoint;
    counted = count_lem;
    fits = omega (arith, v.fits, span_lem);
    used = omega (arith, used_lem, pay_lem);
  }

  released-keeps :
      (a : ℕ) (d : Block)
      → a ≢ c.addr
      → d.free ≡ false
      → find_block a h.chain ≡ some d
      → find_block a prev_merged.0 ≡ some d
  unfolding prev_merged next_merged marked
  released-keeps a d ne l e = merge_prev-keeps c.addr 0 next_merged.0 a d next-Merged.freed l (
      merge_next-keeps c.addr marked a d (mark_free-Marks c.addr h.chain).freed l
        (mark_free-keeps c.addr h.chain a d ne e))

  released_lem : Released c.addr c.size h (release c.addr c.size h)
  unfolding release released prev_merged next_merged marked
  released_lem = record {
    valid = released-IsValid;
    span = span_lem;
    used = used_lem;
    gone = prev-Merged.freed;
    keeps = released-keeps;
  }

payload_ptr : (b : Block) → Holds Inside b → sub64 (b.addr + header) header ≡ b.addr
payload_ptr b h = omega arith

kfree_live :
    (h : Heap) (v : IsValid h) (c : Block)
    → find_block c.addr h.chain ≡ some c
    → c.free ≡ false
    → kfree (c.addr + header) h ≡ release c.addr c.size h
unfolding kfree
kfree_live h v c found live =
    let e = payload_ptr c (find_block-All (Holds Inside) c.addr h.chain c found v.inside).0 in
    let nz : (c.addr + header == 0) ≡ false = ground arith in
    rw (nz, e, kfree) (rw (found, kfree) (rw live refl))

-- Freeing the payload of a live block of a valid heap keeps the invariant, with or without a merge:
-- `used_bytes` falls by the size of the block, the bytes of the chain stay the same in number, no live
-- block is left at that address, and every other live block stays as it was.
pub kfree-Released :
    (h : Heap) (c : Block)
    → IsValid h
    → find_block c.addr h.chain ≡ some c
    → c.free ≡ false
    → Released c.addr c.size h (kfree (c.addr + header) h)
kfree-Released h c v found live = rw (kfree_live h v c found live) (released_lem h v c found live)

kfree_dead :
    (h : Heap) (addr : ℕ)
    → sub64 (addr + header) header ≡ addr
    → WasFree addr h.chain
    → kfree (addr + header) h ≡ h
unfolding kfree
kfree_dead h addr e w =
    let nz : (addr + header == 0) ≡ false = ground arith in
    elim (Option-cases (find_block addr h.chain)) [
      | inl q ↦ rw (nz, e, kfree) (rw (q, kfree) refl)
      | inr (b, q) ↦ rw (nz, e, kfree) (rw (q, kfree) (rw (w b q) refl))
    ]

-- Freeing a block twice does what freeing it once does.
pub kfree_twice :
    (h : Heap) (c : Block)
    → IsValid h
    → find_block c.addr h.chain ≡ some c
    → c.free ≡ false
    → kfree (c.addr + header) (kfree (c.addr + header) h) ≡ kfree (c.addr + header) h
kfree_twice h c v found live =
    kfree_dead (kfree (c.addr + header) h) c.addr
      (payload_ptr c (find_block-All (Holds Inside) c.addr h.chain c found v.inside).0)
      (kfree-Released h c v found live).gone
