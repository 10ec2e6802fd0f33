-- ===== src/Mm/Heap.antt =====
-- kernel/mm/heap.c: the kernel heap, a chain of blocks with a 32-byte header before each payload.
-- The chain from `head` along `next` is a list. Every header in it carries HDR_MAGIC; a pointer that
-- is the payload of no block of the chain is taken for one whose header fails the magic test.
-- `heap_validate` and the log lines only print.
pub mod Regions
pub mod Invariant
pub mod FirstFit
pub mod Grow
pub mod Malloc
pub mod Merge
pub mod Free
mod Tests
use no_os.Base.{
  ℕ, zero, suc, ◌+◌, ◌-◌, ◌*◌, ◌/◌, Bool, true, false, not, ◌&&◌, ◌||◌, Option, none, some, List,
  [], ◌∷◌, ◌++◌, ltb, leb, ◌==◌, if◌then◌else◌, add64, sub64,
}
use no_os.Mm.Pmm.{Pmm, frame_size, pmm_alloc_frames}

-- sizeof(block)
abbrev pub header : ℕ
header = 32

pub record Block : Type 0 where
  pub addr : ℕ
  pub size : ℕ
  pub free : Bool

-- The chain, `used_bytes`, `block_count`, and the frame allocator under the heap.
pub record Heap : Type 0 where
  pub chain : List Block
  pub used_bytes : ℕ
  pub block_count : ℕ
  pub pmm : Pmm

-- (n + 15) & ~(usize)15
pub align16 : ℕ → ℕ
align16 n = add64 n 15 / 16 * 16

pub adjacent : Block → Block → Bool
adjacent a b = b.addr == add64 (a.addr + header) a.size

-- What the first-fit loop of `kmalloc` does at the block that it takes.
pub record Fit : Type 0 where
  pub ptr : ℕ
  pub chain : List Block
  pub taken : ℕ
  pub created : ℕ

pub fit_at : ℕ → Block → List Block → Fit
fit_at size b rest =
    if leb (header + 16) (b.size - size)
    then record {
      ptr = b.addr + header;
      chain =
          record b { size = size; free = false }
          ∷ record { addr = b.addr + header + size; size = b.size - size - header; free = true }
          ∷ rest;
      taken = size;
      created = 1;
    }
    else record {
      ptr = b.addr + header;
      chain = record b { free = false } ∷ rest;
      taken = b.size;
      created = 0;
    }

pub skip : Block → Option Fit → Option Fit
skip b none = none
skip b (some f) = some (record f { chain = b ∷ f.chain })

-- The loop of `kmalloc` over the chain.
pub first_fit : ℕ → List Block → Option Fit
first_fit size [] = none
first_fit size (b ∷ rest) =
    let later = skip b (first_fit size rest) in
    if not b.free || ltb b.size size then later else some (fit_at size b rest)

-- Whether a block was appended, and the heap.
pub region_alloc : ℕ → Heap → Bool × Heap
region_alloc payload h =
    let frames = add64 (header + payload) (frame_size - 1) / frame_size in
    let (addr, pmm') = pmm_alloc_frames frames h.pmm in
    if addr == 0 then (false, record h { pmm = pmm' }) else (
      true,
      record {
        chain =
            h.chain
            ++ record { addr = addr; size = frames * frame_size - header; free = true } ∷ [];
        used_bytes = h.used_bytes;
        block_count = h.block_count + 1;
        pmm = pmm';
      },
    )

pub requested : ℕ → ℕ
requested size = align16 (if size == 0 then 1 else size)

-- What follows `region_alloc`: null, or the call of `kmalloc` by itself.
pub when_grown : Bool × Heap → (Heap → Option (ℕ × Heap)) → Option (ℕ × Heap)
when_grown (false, h) again = some (0, h)
when_grown (true, h) again = again h

-- `kmalloc`, which calls itself once the heap has grown: the fuel bounds the depth of the calls, and
-- `none` means that it ran out. A null result is the pointer 0.
pub kmalloc_fuel : ℕ → ℕ → Heap → Option (ℕ × Heap)
unfolding when_grown
kmalloc_fuel zero size h = none
kmalloc_fuel (suc fuel) size h = elim (first_fit (requested size) h.chain) [
  | some f ↦ some (
    f.ptr,
    record h {
      chain = f.chain;
      used_bytes = add64 h.used_bytes f.taken;
      block_count = h.block_count + f.created;
    },
  )
  | none ↦ when_grown (region_alloc (requested size) h) (kmalloc_fuel fuel (requested size))
]

pub kmalloc : ℕ → Heap → Option (ℕ × Heap)
kmalloc = kmalloc_fuel 2

pub find_block : ℕ → List Block → Option Block
find_block addr [] = none
find_block addr (b ∷ rest) = if b.addr == addr then some b else find_block addr rest

-- b->free = true
pub mark_free : ℕ → List Block → List Block
mark_free addr [] = []
mark_free addr (b ∷ rest) =
    if b.addr == addr then record b { free = true } ∷ rest else b ∷ mark_free addr rest

-- The merge of the block at `addr` with the next one. The flag says whether a block went away.
pub merge_next : ℕ → List Block → List Block × Bool
merge_next addr [] = ([], false)
merge_next addr (b ∷ []) = (b ∷ [], false)
merge_next addr (b ∷ c ∷ rest) =
    let (rest', merged) = merge_next addr (c ∷ rest) in
    if b.addr == addr
    then (if c.free && adjacent b c
        then (record b { size = b.size + (header + c.size) } ∷ rest, true)
        else (b ∷ c ∷ rest, false))
    else (b ∷ rest', merged)

-- The scan for the block before the one at `addr`; `guard` counts its rounds.
pub merge_prev : ℕ → ℕ → List Block → List Block × Bool
merge_prev addr guard [] = ([], false)
merge_prev addr guard (p ∷ []) = (p ∷ [], false)
merge_prev addr guard (p ∷ b ∷ rest) =
    let (rest', merged) = merge_prev addr (guard + 1) (b ∷ rest) in
    if p.addr == addr || ltb 100000 (guard + 1)
    then (p ∷ b ∷ rest, false)
    else if b.addr == addr && p.free && adjacent p b
    then (record p { size = p.size + (header + b.size) } ∷ rest, true)
    else (p ∷ rest', merged)

abbrev less : Bool → ℕ → ℕ
less merged n = if merged then sub64 n 1 else n

-- `kfree` past its guards, for the block at `addr`, which holds `size` bytes.
pub release : ℕ → ℕ → Heap → Heap
release addr size h =
    let (chain1, merged1) = merge_next addr (mark_free addr h.chain) in
    let (chain2, merged2) = merge_prev addr 0 chain1 in
    record h {
      chain = chain2;
      used_bytes = sub64 h.used_bytes size;
      block_count = less merged2 (less merged1 h.block_count);
    }

pub kfree : ℕ → Heap → Heap
kfree ptr h = if ptr == 0 then h else elim (find_block (sub64 ptr header) h.chain) [
  | none ↦ h
  | some b ↦ if b.free then h else release b.addr b.size h
]

unfoldable pub heap_used_bytes : Heap → ℕ
heap_used_bytes h = h.used_bytes

unfoldable pub heap_blocks : Heap → ℕ
heap_blocks h = h.block_count
