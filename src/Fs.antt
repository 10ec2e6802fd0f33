-- ===== src/Fs.antt =====
-- kernel/fs/noosfs.c and kernel/include/fs.h: the file system's structures on the disk and in memory, the
-- transfer of blocks, the inode table and the two bitmaps. The disk driver is a parameter; a failed call
-- is `none` or `false`, and each call returns the state that it leaves.
pub mod Super
pub mod Dir
pub mod Files
pub mod Bytes
pub mod Inodes
pub mod Space
pub mod Clusters
mod Samples
mod Tests
use no_os.Base.{
  [], ℕ, zero, suc, ◌+◌, ◌-◌, ◌*◌, ◌/◌, ◌%◌, ◌^◌, Bool, false, Option, none, some, List, ◌∷◌, ◌++◌,
  ltb, leb, if◌then◌else◌, take, drop, replicate,
}
use no_os.Mm.Bitmap.{bitmap_set, bitmap_clear, first_clear, count_clear}

abbrev pub fs_block_size : ℕ
fs_block_size = 512

abbrev pub fs_inode_count : ℕ
fs_inode_count = 256

abbrev pub fs_name_max : ℕ
fs_name_max = 24

abbrev pub fs_max_blocks : ℕ
fs_max_blocks = 10

abbrev pub fs_inode_dir : ℕ
fs_inode_dir = 0x4000

abbrev pub fs_inode_reg : ℕ
fs_inode_reg = 0x8000

-- The bytes of `struct fs_inode` with its padding, and how many of them a block has room for.
abbrev pub inode_bytes : ℕ
inode_bytes = 72

abbrev pub inodes_per_block : ℕ
inodes_per_block = 7

-- `struct fs_sb`, of which a transfer moves the first 512 bytes.
pub record Sb : Type 0 where
  pub sig : List ℕ
  pub version : ℕ
  pub block_size : ℕ
  pub block_count : ℕ
  pub bitmap_start : ℕ
  pub bitmap_blocks : ℕ
  pub inode_start : ℕ
  pub inode_count : ℕ
  pub data_start : ℕ
  pub root_inode : ℕ
  pub seq : ℕ
  pub flags : ℕ
  pub reserved : List ℕ

-- `struct fs_inode`
pub record Inode : Type 0 where
  pub mode : ℕ
  pub nlinks : ℕ
  pub size : ℕ
  pub mtime : ℕ
  pub flags : ℕ
  pub blocks : List ℕ
  pub reserved : ℕ

-- What the file system calls of the disk driver, over an unknown state of the disk.
pub record Ide (W : Type 0) : Type 0 where
  pub read_sector : ℕ → W → Option (List ℕ)
  pub write_sector : ℕ → List ℕ → W → Bool × W
  pub drive_sectors : W → ℕ
  pub present : W → Bool

-- `sb`, `inode_bitmap`, `cluster_bitmap`, `mounted`, `root_cache` and the disk.
pub record Fs (W : Type 0) : Type 0 where
  pub sb : Sb
  pub inode_bitmap : List ℕ
  pub cluster_bitmap : List ℕ
  pub mounted : Bool
  pub root_cache : Inode
  pub disk : W

-- The little-endian bytes of a number, and back.
pub to_le : ℕ → ℕ → List ℕ
to_le zero n = []
to_le (suc k) n = n % 256 ∷ to_le k (n / 256)

pub from_le : List ℕ → ℕ
from_le [] = 0
from_le (b ∷ rest) = b + 256 * from_le rest

-- The bytes that a structure has at an offset, and `memcpy` into a buffer, which keeps its length.
pub slice {ℓ} : {A : Type ℓ} → List A → ℕ → ℕ → List A
slice xs off n = take n (drop off xs)

pub cover {ℓ} : {A : Type ℓ} → List A → List A → List A
cover [] ys = []
cover (x ∷ xs) [] = x ∷ xs
cover (x ∷ xs) (y ∷ ys) = y ∷ cover xs ys

pub overwrite {ℓ} : {A : Type ℓ} → List A → ℕ → List A → List A
unfolding cover
overwrite xs zero ys = cover xs ys
overwrite [] (suc off) ys = []
overwrite (x ∷ xs) (suc off) ys = x ∷ overwrite xs off ys

-- The read_words of an array, and its bytes.
pub read_words : ℕ → List ℕ → List ℕ
unfolding from_le
read_words zero bytes = []
read_words (suc n) bytes = from_le (take 4 bytes) ∷ read_words n (drop 4 bytes)

pub word_bytes : List ℕ → List ℕ
unfolding to_le
word_bytes [] = []
word_bytes (v ∷ rest) = to_le 4 v ++ word_bytes rest

pub inode_of : List ℕ → Inode
unfolding from_le slice read_words
inode_of bytes = record {
  mode = from_le (slice bytes 0 2);
  nlinks = from_le (slice bytes 2 2);
  size = from_le (slice bytes 8 8);
  mtime = from_le (slice bytes 16 4);
  flags = from_le (slice bytes 20 4);
  blocks = read_words 10 (drop 24 bytes);
  reserved = from_le (slice bytes 64 4);
}

pub inode_image : Inode → List ℕ
unfolding to_le word_bytes
inode_image inode =
    to_le 2 inode.mode
    ++ (to_le 2 inode.nlinks
        ++ (replicate 4 0
            ++ (to_le 8 inode.size
                ++ (to_le 4 inode.mtime
                    ++ (to_le 4 inode.flags
                        ++ (word_bytes inode.blocks
                            ++ (to_le 4 inode.reserved ++ replicate 4 0)))))))

-- `memset(&in, 0, sizeof(in))`
abbrev pub zero_inode : Inode
zero_inode = record {
  mode = 0;
  nlinks = 0;
  size = 0;
  mtime = 0;
  flags = 0;
  blocks = replicate 10 0;
  reserved = 0;
}

abbrev pub zero_block : List ℕ
zero_block = replicate 512 0

module _ {W : Type 0} (ide : Ide W) where
  pub disk_read_block : ℕ → W → Option (List ℕ)
  disk_read_block lba w = ide.read_sector (lba % 2 ^ 32) w

  pub disk_write_block : ℕ → List ℕ → W → Bool × W
  disk_write_block lba buf w = ide.write_sector (lba % 2 ^ 32) buf w

pub inode_lba : Sb → ℕ → ℕ
inode_lba sb ino = sb.inode_start + ino / inodes_per_block

module _ {W : Type 0} (ide : Ide W) where
  pub read_inode : ℕ → Fs W → Option Inode
  unfolding disk_read_block inode_lba inode_of slice
  read_inode ino s = elim (disk_read_block ide (inode_lba s.sb ino) s.disk) [
    | none ↦ none
    | some block ↦ some (inode_of (slice block (ino % inodes_per_block * inode_bytes) inode_bytes))
  ]

  -- A write of a block, with the state that it leaves.
  pub put_block : ℕ → List ℕ → Fs W → Bool × Fs W
  unfolding disk_write_block
  put_block lba buf s =
      let (done, disk) = disk_write_block ide lba buf s.disk in (done, record s { disk = disk })

  pub write_inode : ℕ → Inode → Fs W → Bool × Fs W
  unfolding disk_read_block put_block inode_lba inode_image overwrite
  write_inode ino inode s = elim (disk_read_block ide (inode_lba s.sb ino) s.disk) [
    | none ↦ (false, s)
    | some block ↦
        put_block (inode_lba s.sb ino)
          (overwrite block (ino % inodes_per_block * inode_bytes) (inode_image inode)) s
  ]

  -- Cluster 0 is never handed out.
  pub fs_alloc_cluster : Fs W → Option ℕ × Fs W
  unfolding first_clear bitmap_set
  fs_alloc_cluster s =
      if s.mounted
      then elim (first_clear s.cluster_bitmap 1 (s.sb.block_count - 1)) [
        | none ↦ (none, s)
        | some c ↦ (some c, record s { cluster_bitmap = bitmap_set s.cluster_bitmap c })
      ]
      else (none, s)

  pub fs_free_cluster : ℕ → Fs W → Fs W
  unfolding bitmap_clear
  fs_free_cluster cluster s =
      if ltb cluster s.sb.block_count
      then record s { cluster_bitmap = bitmap_clear s.cluster_bitmap cluster }
      else s

  pub fs_free_bytes : Fs W → ℕ
  unfolding count_clear
  fs_free_bytes s =
      if s.mounted then count_clear s.cluster_bitmap s.sb.block_count * fs_block_size else 0

  pub fs_alloc_inode : Fs W → Option ℕ × Fs W
  unfolding first_clear bitmap_set
  fs_alloc_inode s = elim (first_clear s.inode_bitmap 1 (s.sb.inode_count - 1)) [
    | none ↦ (none, s)
    | some i ↦ (some i, record s { inode_bitmap = bitmap_set s.inode_bitmap i })
  ]

  pub fs_cluster_write : ℕ → List ℕ → Fs W → Bool × Fs W
  unfolding put_block
  fs_cluster_write cluster buf s =
      if leb s.sb.block_count cluster
      then (false, s)
      else put_block (s.sb.data_start + cluster) buf s

  pub fs_cluster_read : ℕ → Fs W → Option (List ℕ)
  unfolding disk_read_block
  fs_cluster_read cluster s =
      if leb s.sb.block_count cluster
      then none
      else disk_read_block ide (s.sb.data_start + cluster) s.disk
