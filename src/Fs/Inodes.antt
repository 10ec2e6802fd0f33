-- ===== src/Fs/Inodes.antt =====
-- What the disk driver promises to noosfs.c, where the areas of the disk lie, and the inode table over them.
use no_os.Base.{
  ℕ, ◌+◌, ◌*◌, ◌/◌, ◌%◌, ◌^◌, ◌≤◌, ◌<◌, ◌≡◌, refl, ap, ◌∙◌, ◌≢◌, ◌⊎◌, inl, inr, Bool, true, false,
  Option, none, some, List, arith, ◌==◌, if◌then◌else◌, length, dec_lt, ℕ_discrete,
}
use no_os.Fs.{
  disk_write_block, Sb, Inode, Ide, Fs, slice, overwrite, inode_of, inode_image, inode_lba,
  disk_read_block, put_block, read_inode, write_inode,
}
use no_os.Fs.Bytes.{
  slice-overwrite_of, FitsInode, inode_of-inode_image, length-inode_image, slice-overwrite_apart,
  length-overwrite,
}

-- Sectors have 512 bytes, and a sector that was written is read back, as far as its number fits into the
-- 28 bits that the driver sends.
pub record IsDisk {W : Type 0} (ide : Ide W) : Type 0 where
  pub sector : (a : ℕ) (w : W) (b : List ℕ) → ide.read_sector a w ≡ some b → length b ≡ 512
  pub read-write :
      (a j : ℕ) (b : List ℕ) (w : W)
      → a < 2 ^ 28
      → j < 2 ^ 28
      → length b ≡ 512
      → (ide.write_sector a b w).0 ≡ true
      → ide.read_sector j (ide.write_sector a b w).1
        ≡ (if a == j then some b else ide.read_sector j w)

-- The areas follow each other and end within the 28 bits, and the bitmap has a bit for each cluster. The table
-- has 36 blocks, and the inodes from 252 on lie in the block behind it, which is cluster 0.
pub record IsLaidOut (sb : Sb) : Type 0 where
  pub front : 2 ≤ sb.bitmap_start
  pub bitmap : sb.bitmap_start + sb.bitmap_blocks ≤ sb.inode_start
  pub inodes : sb.inode_start + 36 ≤ sb.data_start
  pub top : sb.data_start + sb.block_count < 2 ^ 28
  pub bits : sb.block_count ≤ 4096 * sb.bitmap_blocks
  pub inode_count : sb.inode_count ≡ 256

module _ {W : Type 0} (ide : Ide W) where
  read_block_at :
      (lba : ℕ) (w : W) → lba < 2 ^ 28 → disk_read_block ide lba w ≡ ide.read_sector lba w
  unfolding disk_read_block
  read_block_at lba w h = let e : lba % 2 ^ 32 ≡ lba = omega arith in λ k. ide.read_sector (e k) w

  put_block_at :
      (lba : ℕ) (buf : List ℕ) (s : Fs W)
      → lba < 2 ^ 28
      → put_block ide lba buf s ≡ (
        (ide.write_sector lba buf s.disk).0,
        record s { disk = (ide.write_sector lba buf s.disk).1 },
      )
  unfolding put_block disk_write_block
  put_block_at lba buf s h =
      let e : lba % 2 ^ 32 ≡ lba = omega arith in
      λ k. (
        (ide.write_sector (e k) buf s.disk).0,
        record s { disk = (ide.write_sector (e k) buf s.disk).1 },
      )

  module _ (d : IsDisk ide) where
    pub length-read :
        (lba : ℕ) (w : W) (b : List ℕ) → disk_read_block ide lba w ≡ some b → length b ≡ 512
    unfolding disk_read_block
    length-read lba w b e = d.sector (lba % 2 ^ 32) w b e

    pub read-put :
        (a j : ℕ) (buf : List ℕ) (s : Fs W)
        → a < 2 ^ 28
        → j < 2 ^ 28
        → length buf ≡ 512
        → (put_block ide a buf s).0 ≡ true
        → disk_read_block ide j (put_block ide a buf s).1.disk
          ≡ (if a == j then some buf else disk_read_block ide j s.disk)
    read-put a j buf s ha hj e done =
        rw (put_block_at a buf s ha, read_block_at j s.disk hj)
          (rw (read_block_at j (ide.write_sector a buf s.disk).1 hj)
            (d.read-write a j buf s.disk ha hj e (rw (put_block_at a buf s ha) at done)))

-- Places of two inodes in one block are apart.
places_apart :
    (i j : ℕ)
    → i / 7 ≡ j / 7
    → i ≢ j
    → (j % 7 * 72 + 72 ≤ i % 7 * 72) ⊎ (i % 7 * 72 + 72 ≤ j % 7 * 72)
places_apart i j e ne = elim (dec_lt (i % 7) (j % 7)) [
  | yes p ↦ inr (omega arith)
  | no p ↦ inl (omega arith)
]

-- What `read_inode` makes of the block that it has read.
abbrev pub inode_in : ℕ → Option (List ℕ) → Option Inode
inode_in ino o = elim o [
  | none ↦ none
  | some block ↦ some (inode_of (slice block (ino % 7 * 72) 72))
]

pub read_inode_at :
    {W : Type 0} (ide : Ide W) (j : ℕ) (s : Fs W)
    → read_inode ide j s ≡ inode_in j (disk_read_block ide (s.sb.inode_start + j / 7) s.disk)
unfolding read_inode inode_lba
read_inode_at ide j s = refl

own_place :
    (block : List ℕ) (i : ℕ) (inode : Inode)
    → length block ≡ 512
    → FitsInode inode
    → inode_of (slice (overwrite block (i % 7 * 72) (inode_image inode)) (i % 7 * 72) 72) ≡ inode
own_place block i inode e f =
    ap inode_of (
      slice-overwrite_of block (i % 7 * 72) (inode_image inode) 72
        (length-inode_image inode f.count) (omega (arith, e)))
    ∙ inode_of-inode_image inode f

-- A write beside it leaves an inode alone.
other_place :
    (block : List ℕ) (i j : ℕ) (inode : Inode)
    → i / 7 ≡ j / 7
    → i ≢ j
    → FitsInode inode
    → inode_of (slice (overwrite block (i % 7 * 72) (inode_image inode)) (j % 7 * 72) 72)
      ≡ inode_of (slice block (j % 7 * 72) 72)
other_place block i j inode e ne f =
    let n : length (inode_image inode) ≡ 72 = length-inode_image inode f.count in
    ap inode_of (
      slice-overwrite_apart block (i % 7 * 72) (inode_image inode) (j % 7 * 72) 72
        (elim (places_apart i j e ne) [ inl h ↦ inl h | inr h ↦ inr (omega (arith, n)) ]))

-- What `write_inode` does with the block that it has read.
abbrev pub put_in : {W : Type 0} → Ide W → ℕ → Inode → Fs W → Option (List ℕ) → Bool × Fs W
put_in ide i inode s o = elim o [
  | none ↦ (false, s)
  | some block ↦
      put_block ide (s.sb.inode_start + i / 7) (overwrite block (i % 7 * 72) (inode_image inode)) s
]

pub write_inode_at :
    {W : Type 0} (ide : Ide W) (i : ℕ) (inode : Inode) (s : Fs W)
    → write_inode ide i inode s
      ≡ put_in ide i inode s (disk_read_block ide (s.sb.inode_start + i / 7) s.disk)
unfolding write_inode inode_lba
write_inode_at ide i inode s = refl

put_block-sb :
    {W : Type 0} (ide : Ide W) (a : ℕ) (b : List ℕ) (s : Fs W) → (put_block ide a b s).1.sb ≡ s.sb
unfolding put_block
put_block-sb ide a b s = refl

settle :
    (start i j : ℕ) (inode : Inode) (block : List ℕ) (o : Option (List ℕ))
    → length block ≡ 512
    → FitsInode inode
    → (i / 7 ≡ j / 7 → o ≡ some block)
    → inode_in j (
        if start + i / 7 == start + j / 7
        then some (overwrite block (i % 7 * 72) (inode_image inode))
        else o)
      ≡ (if i == j then some inode else inode_in j o)
settle start i j inode block o long f e = elim (ℕ_discrete i j) [
  | yes q ↦
      let same : (start + i / 7 == start + i / 7) ≡ true = ground arith in
      let self : (i == i) ≡ true = ground arith in
      rw (← q, same, self) (ap some (own_place block i inode long f))
  | no ne ↦
      let differ : (i == j) ≡ false = ground arith in
      elim (ℕ_discrete (i / 7) (j / 7)) [
        | yes q ↦
            let same : (start + i / 7 == start + j / 7) ≡ true = ground arith in
            rw (same, differ, e q) (ap some (other_place block i j inode q ne f))
        | no apart ↦
            let other : (start + i / 7 == start + j / 7) ≡ false = ground arith in
            rw (other, differ) refl
      ]
]

module _ {W : Type 0} (ide : Ide W) (d : IsDisk ide) (s : Fs W) (g : IsLaidOut s.sb) where
  -- The read after the write, by what the write's own read has found.
  read_after :
      (i j : ℕ) (inode : Inode) (o : Option (List ℕ))
      → i < 256
      → j < 256
      → FitsInode inode
      → disk_read_block ide (s.sb.inode_start + i / 7) s.disk ≡ o
      → (put_in ide i inode s o).0 ≡ true
      → read_inode ide j (put_in ide i inode s o).1
        ≡ (if i == j then some inode else read_inode ide j s)
  unfolding read_inode inode_lba put_block
  read_after i j inode none hi hj f e done = cc
  read_after i j inode (some block) hi hj f e done =
      let long : length block ≡ 512 = length-read ide d _ s.disk block e in
      let image = overwrite block (i % 7 * 72) (inode_image inode) in
      let full : length image ≡ 512 =
        length-overwrite block (i % 7 * 72) (inode_image inode) ∙ long in
      let found =
        read-put ide d (s.sb.inode_start + i / 7) (s.sb.inode_start + j / 7) image s
          (omega (arith, g.inodes, g.top)) (omega (arith, g.inodes, g.top)) full done in
      ap (inode_in j) found
      ∙ settle s.sb.inode_start i j inode block
          (disk_read_block ide (s.sb.inode_start + j / 7) s.disk) long f (λ q. rw (← q) e)

  -- After a write of an inode that the disk has taken, that inode is read back, and every other inode is what it
  -- was.
  pub read-write_inode :
      (i j : ℕ) (inode : Inode)
      → i < 256
      → j < 256
      → FitsInode inode
      → (write_inode ide i inode s).0 ≡ true
      → read_inode ide j (write_inode ide i inode s).1
        ≡ (if i == j then some inode else read_inode ide j s)
  unfolding write_inode inode_lba
  read-write_inode i j inode hi hj f done = read_after i j inode _ hi hj f refl done
