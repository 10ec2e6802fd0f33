-- ===== src/Fs/Super/Tests.antt =====
-- Superblocks of noosfs.c on the small disk.
use no_os.Base.{◌+◌, ◌*◌, ◌≡◌, refl, true, false, [], arith, add32, Bool-clash}
use no_os.Fs.{slice, from_le, disk_read_block, put_block}
use no_os.Fs.Super.{
  sb_image, send_block, sb_write_all, same_bytes, sb_of, sb_valid, new_sb, read_any_sb,
}
use no_os.Fs.Super.Copies.{FitsSb, second_written, read_any_sb-interrupted}
use no_os.Fs.Super.Layout.{layout_lacks_bit}
use no_os.Fs.Samples.{fit, ram, ram-IsDisk, small, small_sb}

small_sb-FitsSb : FitsSb small_sb
small_sb-FitsSb = record {
  sig = refl;
  version = refl;
  block_size = refl;
  block_count = omega arith;
  bitmap_start = omega arith;
  bitmap_blocks = omega arith;
  inode_start = omega arith;
  inode_count = omega arith;
  data_start = omega arith;
  root_inode = omega arith;
  seq = omega arith;
  flags = omega arith;
  reserved = refl;
}

-- The first block of the small disk is empty.
first_invalid : sb_valid (sb_of (fit [])) ≡ false
unfolding sb_valid sb_of same_bytes from_le slice
first_invalid = refl

read_any_sb-interrupted_example :
    (sb_write_all ram small
      ≡ send_block ram 0
          (sb_image (second_written ram ram-IsDisk small).sb)
          (second_written ram ram-IsDisk small))
    × ((second_written ram ram-IsDisk small).sb ≡ record small.sb { seq = add32 small.sb.seq 1 })
    × (read_any_sb ram (second_written ram ram-IsDisk small)
        ≡ (true, second_written ram ram-IsDisk small))
read_any_sb-interrupted_example =
    read_any_sb-interrupted ram ram-IsDisk small small_sb-FitsSb (unfold put_block in refl) (fit [])
      (unfold disk_read_block in refl) (λ v. absurd (Bool-clash _ v first_invalid))

layout_lacks_bit_example :
    (new_sb (4097 * 12 + 39)).block_count ≡ 8 * ((new_sb (4097 * 12 + 39)).bitmap_blocks * 512) + 1
layout_lacks_bit_example = layout_lacks_bit 12 (omega arith) (omega arith)
