-- ===== src/Fs/Super.antt =====
-- The superblock and its two copies, formatting, mounting and the start of the file system in noosfs.c.
pub mod Layout
pub mod Copies
mod Tests
use no_os.Base.{
  [], ℕ, zero, suc, ◌+◌, ◌-◌, ◌*◌, ◌/◌, ◌%◌, ◌^◌, Bool, true, false, not, ◌&&◌, ◌||◌, Option, none,
  some, List, ◌∷◌, ◌++◌, ltb, leb, ◌==◌, if◌then◌else◌, take, drop, replicate, add64, sub64, add32,
}
use no_os.Mm.Bitmap.{cleared, bitmap_set}
use no_os.Mm.Swap.{swap_geometry}
use no_os.Fs.{
  Sb, Ide, Fs, fs_block_size, fs_inode_count, fs_inode_dir, zero_inode, zero_block, to_le, from_le,
  slice, inode_bytes, disk_read_block, put_block, write_inode,
}

-- "NO_OSFS" with its end.
abbrev pub noosfs_sig : List ℕ
noosfs_sig = 78 ∷ 79 ∷ 95 ∷ 79 ∷ 83 ∷ 70 ∷ 83 ∷ 0 ∷ []

abbrev pub noosfs_version : ℕ
noosfs_version = 2

-- `memcmp(a, b, n) == 0`
unfoldable pub same_bytes : ℕ → List ℕ → List ℕ → Bool
same_bytes zero xs ys = true
same_bytes (suc n) (x ∷ xs) (y ∷ ys) = x == y && same_bytes n xs ys
same_bytes (suc n) xs ys = false

pub sb_of : List ℕ → Sb
unfolding from_le slice
sb_of b = record {
  sig = take 8 b;
  version = from_le (slice b 8 4);
  block_size = from_le (slice b 12 4);
  block_count = from_le (slice b 16 8);
  bitmap_start = from_le (slice b 24 8);
  bitmap_blocks = from_le (slice b 32 8);
  inode_start = from_le (slice b 40 8);
  inode_count = from_le (slice b 48 8);
  data_start = from_le (slice b 56 8);
  root_inode = from_le (slice b 64 4);
  seq = from_le (slice b 68 4);
  flags = from_le (slice b 72 4);
  reserved = drop 76 b;
}

pub sb_image : Sb → List ℕ
unfolding to_le
sb_image sb =
    sb.sig
    ++ (to_le 4 sb.version
        ++ (to_le 4 sb.block_size
            ++ (to_le 8 sb.block_count
                ++ (to_le 8 sb.bitmap_start
                    ++ (to_le 8 sb.bitmap_blocks
                        ++ (to_le 8 sb.inode_start
                            ++ (to_le 8 sb.inode_count
                                ++ (to_le 8 sb.data_start
                                    ++ (to_le 4 sb.root_inode
                                        ++ (to_le 4 sb.seq
                                            ++ (to_le 4 sb.flags ++ sb.reserved)))))))))))

pub sb_valid : Sb → Bool
unfolding same_bytes
sb_valid sb =
    same_bytes 8 sb.sig noosfs_sig && sb.block_size == fs_block_size && sb.version == noosfs_version

-- The copy that `read_any_sb` takes of the two.
pub choose_sb : Sb → Sb → Option Sb
unfolding sb_valid
choose_sb sb0 sb1 =
    if sb_valid sb0
    then (if sb_valid sb1 then (if leb sb1.seq sb0.seq then some sb0 else some sb1) else some sb0)
    else (if sb_valid sb1 then some sb1 else none)

-- The areas that `fs_format` lays out in `total` blocks: the blocks of the bitmap, the first data block and
-- the number of clusters.
pub layout : ℕ → ℕ × ℕ × ℕ
layout total =
    let inode_blocks = (fs_inode_count * inode_bytes + fs_block_size - 1) / fs_block_size in
    let estimate = (total + 8 * 512 - 1) / (8 * 512) in
    let nblocks = sub64 total (2 + estimate + inode_blocks) in
    let bitmap_blocks = (nblocks + 8 * 512 - 1) % 2 ^ 64 / (8 * 512) in
    let data_start = 2 + bitmap_blocks + inode_blocks in
    (bitmap_blocks, data_start, sub64 total data_start)

pub new_sb : ℕ → Sb
unfolding layout
new_sb total =
    let (bitmap_blocks, data_start, nblocks) = layout total in
    record {
      sig = noosfs_sig;
      version = noosfs_version;
      block_size = fs_block_size;
      block_count = nblocks;
      bitmap_start = 2;
      bitmap_blocks = bitmap_blocks;
      inode_start = 2 + bitmap_blocks;
      inode_count = fs_inode_count;
      data_start = data_start;
      root_inode = 0;
      seq = 1;
      flags = 0;
      reserved = replicate 436 0;
    }

module _ {W : Type 0} (ide : Ide W) where
  -- `put_block` with its status dropped.
  pub send_block : ℕ → List ℕ → Fs W → Fs W
  unfolding put_block
  send_block lba buf s = (put_block ide lba buf s).1

  pub sb_write_all : Fs W → Fs W
  unfolding send_block sb_image
  sb_write_all s =
      let s1 = record s { sb = record s.sb { seq = add32 s.sb.seq 1 } } in
      send_block 0 (sb_image s1.sb) (send_block 1 (sb_image s1.sb) s1)

  pub read_any_sb : Fs W → Bool × Fs W
  unfolding disk_read_block sb_of choose_sb
  read_any_sb s = elim (disk_read_block ide 0 s.disk) [
    | none ↦ (false, s)
    | some b0 ↦ elim (disk_read_block ide 1 s.disk) [
      | none ↦ (false, s)
      | some b1 ↦ elim (choose_sb (sb_of b0) (sb_of b1)) [
        | none ↦ (false, s)
        | some sb ↦ (true, record s { sb = sb })
      ]
    ]
  ]

  pub disk_total_blocks : Fs W → ℕ
  disk_total_blocks s =
      let sectors = ide.drive_sectors s.disk in
      if sectors == 0 then 32 * 1024 * 1024 / 512 else sectors

  pub fs_usable_blocks : Fs W → ℕ
  unfolding disk_total_blocks swap_geometry
  fs_usable_blocks s = (swap_geometry (disk_total_blocks s)).0

  pub zero_blocks : ℕ → ℕ → Fs W → Fs W
  unfolding send_block
  zero_blocks lba zero s = s
  zero_blocks lba (suc n) s = zero_blocks (lba + 1) n (send_block lba zero_block s)

  -- `room` is whether there is memory for a buffer of a size.
  pub fs_format : (ℕ → Bool) → Fs W → Bool × Fs W
  unfolding fs_usable_blocks new_sb zero_blocks write_inode sb_write_all
  fs_format room s =
      let inode_blocks = (fs_inode_count * inode_bytes + fs_block_size - 1) / fs_block_size in
      let s1 = record s { sb = new_sb (fs_usable_blocks s) } in
      if room (s1.sb.bitmap_blocks * fs_block_size)
      then (let s2 = zero_blocks s1.sb.bitmap_start s1.sb.bitmap_blocks s1 in
          if room (inode_blocks * fs_block_size)
          then (let s3 = zero_blocks s1.sb.inode_start inode_blocks s2 in
              let root = record zero_inode { mode = fs_inode_dir; nlinks = 2 } in
              (true, sb_write_all (write_inode ide 0 root s3).1))
          else (false, s2))
      else (false, s1)

  -- A block that cannot be read leaves the buffer as it is.
  pub load_bitmap : ℕ → ℕ → List ℕ → W → List ℕ
  unfolding disk_read_block
  load_bitmap lba zero buf w = []
  load_bitmap lba (suc n) buf w =
      elim (disk_read_block ide lba w) [ none ↦ take 512 buf | some block ↦ block ]
      ++ load_bitmap (lba + 1) n (drop 512 buf) w

  -- `room` gives the memory of a new buffer, with the bytes that it holds.
  pub fs_mount : (ℕ → Option (List ℕ)) → Fs W → Bool × Fs W
  unfolding read_any_sb load_bitmap cleared bitmap_set
  fs_mount room s =
      let (found, s1) = read_any_sb s in
      if found
      then elim (room (s1.sb.bitmap_blocks * fs_block_size)) [
        | none ↦ (false, record s1 { cluster_bitmap = []; inode_bitmap = [] })
        | some buf ↦ elim (room ((fs_inode_count + 7) / 8)) [
          | none ↦ (false, record s1 { cluster_bitmap = []; inode_bitmap = [] })
          | some _ ↦ (
            true,
            record s1 {
              cluster_bitmap = load_bitmap s1.sb.bitmap_start s1.sb.bitmap_blocks buf s1.disk;
              inode_bitmap = bitmap_set (cleared ((fs_inode_count + 7) / 8)) s1.sb.root_inode;
              mounted = true;
            },
          )
        ]
      ]
      else (false, s1)

  pub send_blocks : ℕ → ℕ → List ℕ → Fs W → Fs W
  unfolding send_block
  send_blocks lba zero buf s = s
  send_blocks lba (suc n) buf s =
      send_blocks (lba + 1) n (drop 512 buf) (send_block lba (take 512 buf) s)

  pub fs_sync_bitmap : Fs W → Fs W
  unfolding send_blocks
  fs_sync_bitmap s =
      if s.mounted then send_blocks s.sb.bitmap_start s.sb.bitmap_blocks s.cluster_bitmap s else s

  -- Whether `fs_init` has to format.
  pub needs_format : Fs W → Bool
  unfolding read_any_sb fs_usable_blocks
  needs_format s =
      let (found, s1) = read_any_sb s in
      not found || ltb (fs_usable_blocks s1) (add64 s1.sb.data_start s1.sb.block_count)

  pub fs_init : (ℕ → Option (List ℕ)) → Fs W → Bool × Fs W
  unfolding read_any_sb needs_format fs_format fs_mount
  fs_init room s =
      if ide.present s.disk
      then (let s1 = (read_any_sb s).1 in
          if needs_format s
          then (let (done, s2) =
                fs_format (λ n. elim (room n) [ none ↦ false | some _ ↦ true ]) s1 in
              if done then fs_mount room s2 else (false, s2))
          else fs_mount room s1)
      else (false, s)
