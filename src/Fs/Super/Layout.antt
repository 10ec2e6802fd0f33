-- ===== src/Fs/Super/Layout.antt =====
-- Where `fs_format` of noosfs.c puts the areas of the disk.
use no_os.Base.{ℕ, ◌+◌, ◌*◌, ◌^◌, ◌≤◌, ◌<◌, ◌≡◌, arith}
use no_os.Fs.Super.{layout, new_sb}

-- From 64 blocks on the superblocks, the bitmap, the inode table and the clusters follow each other without a gap
-- and end with the blocks that are given.
pub new_sb_areas :
    (total : ℕ)
    → 64 ≤ total
    → total < 2 ^ 28
    → ((new_sb total).bitmap_start ≡ 2)
      × ((new_sb total).bitmap_start + (new_sb total).bitmap_blocks ≡ (new_sb total).inode_start)
      × ((new_sb total).inode_start + 36 ≡ (new_sb total).data_start)
      × ((new_sb total).data_start + (new_sb total).block_count ≡ total)
unfolding new_sb layout
new_sb_areas total lo hi = omega arith

-- For each m from 1 to 4000 the layout of 4097 m + 39 blocks has one cluster more than its bitmap has bits.
pub layout_lacks_bit :
    (m : ℕ)
    → 0 < m
    → m ≤ 4000
    → (new_sb (4097 * m + 39)).block_count ≡ 8 * ((new_sb (4097 * m + 39)).bitmap_blocks * 512) + 1
unfolding new_sb layout
layout_lacks_bit m lo hi = omega arith
