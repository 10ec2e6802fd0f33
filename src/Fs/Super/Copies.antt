-- ===== src/Fs/Super/Copies.antt =====
-- The two copies of the superblock of noosfs.c: how they are written and which one is read.
use no_os.Base.{
  ℕ, ◌^◌, ◌<◌, ◌≡◌, refl, sym, ◌∙◌, true, false, ◌&&◌, Option, none, some, List, arith, leb, ◌==◌,
  if◌then◌else◌, length, add32, if-cases, subst,
}
use no_os.Fs.{Sb, Ide, Fs, to_le, slice, disk_read_block, put_block}
use no_os.Fs.Bytes.{from_le-to_le}
use no_os.Fs.Inodes.{IsDisk, read-put}
use no_os.Fs.Super.{
  noosfs_sig, same_bytes, sb_of, sb_image, sb_valid, choose_sb, send_block, sb_write_all,
  read_any_sb,
}

-- A superblock of this version, with fields of the widths of `struct fs_sb`.
pub record FitsSb (sb : Sb) : Type 0 where
  pub sig : sb.sig ≡ noosfs_sig
  pub version : sb.version ≡ 2
  pub block_size : sb.block_size ≡ 512
  pub block_count : sb.block_count < 2 ^ 64
  pub bitmap_start : sb.bitmap_start < 2 ^ 64
  pub bitmap_blocks : sb.bitmap_blocks < 2 ^ 64
  pub inode_start : sb.inode_start < 2 ^ 64
  pub inode_count : sb.inode_count < 2 ^ 64
  pub data_start : sb.data_start < 2 ^ 64
  pub root_inode : sb.root_inode < 2 ^ 32
  pub seq : sb.seq < 2 ^ 32
  pub flags : sb.flags < 2 ^ 32
  pub reserved : length sb.reserved ≡ 436

abbrev signed : Sb → Sb
signed sb = record sb { sig = noosfs_sig }

signed_eq : (sb : Sb) → FitsSb sb → signed sb ≡ sb
signed_eq sb f = λ p. record sb { sig = sym f.sig p }

signed_back : (sb : Sb) → FitsSb sb → sb_of (sb_image (signed sb)) ≡ signed sb
unfolding sb_of sb_image slice to_le
signed_back sb f = λ k. record {
  sig = noosfs_sig;
  version = from_le-to_le 4 sb.version (omega (arith, f.version)) k;
  block_size = from_le-to_le 4 sb.block_size (omega (arith, f.block_size)) k;
  block_count = from_le-to_le 8 sb.block_count f.block_count k;
  bitmap_start = from_le-to_le 8 sb.bitmap_start f.bitmap_start k;
  bitmap_blocks = from_le-to_le 8 sb.bitmap_blocks f.bitmap_blocks k;
  inode_start = from_le-to_le 8 sb.inode_start f.inode_start k;
  inode_count = from_le-to_le 8 sb.inode_count f.inode_count k;
  data_start = from_le-to_le 8 sb.data_start f.data_start k;
  root_inode = from_le-to_le 4 sb.root_inode f.root_inode k;
  seq = from_le-to_le 4 sb.seq f.seq k;
  flags = from_le-to_le 4 sb.flags f.flags k;
  reserved = sb.reserved;
}

pub sb_of-sb_image : (sb : Sb) → FitsSb sb → sb_of (sb_image sb) ≡ sb
sb_of-sb_image sb f = subst (λ x. sb_of (sb_image x) ≡ x) (signed_eq sb f) (signed_back sb f)

length-signed : (sb : Sb) → FitsSb sb → length (sb_image (signed sb)) ≡ 512
unfolding sb_image to_le
length-signed sb f = omega (arith, f.reserved)

length-sb_image : (sb : Sb) → FitsSb sb → length (sb_image sb) ≡ 512
length-sb_image sb f = subst (λ x. length (sb_image x) ≡ 512) (signed_eq sb f) (length-signed sb f)

pub sb_valid-FitsSb : (sb : Sb) → FitsSb sb → sb_valid sb ≡ true
unfolding sb_valid same_bytes
sb_valid-FitsSb sb f =
    λ p. same_bytes 8 (f.sig p) noosfs_sig && f.block_size p == 512 && f.version p == 2

-- Of two valid copies the newer is taken, the first at a tie.
choose_equal : (sb : Sb) → sb_valid sb ≡ true → choose_sb sb sb ≡ some sb
unfolding choose_sb
choose_equal sb v =
    let le : leb sb.seq sb.seq ≡ true = ground arith in
    (λ p.
      if v p
      then (if v p then (if le p then some sb else some sb) else some sb)
      else (if v p then some sb else none))

choose_second :
    (a b : Sb) → sb_valid b ≡ true → (sb_valid a ≡ true → a.seq < b.seq) → choose_sb a b ≡ some b
unfolding choose_sb
choose_second a b v older =
    if-cases (λ (o : Option Sb). o ≡ some b) (sb_valid a) _ _
      (λ h.
        let gt : leb b.seq a.seq ≡ false = ground (arith, older h) in
        λ p. if v p then (if gt p then some a else some b) else some a)
      (λ h. λ p. if v p then some b else none)

module _ {W : Type 0} (ide : Ide W) where
  pub read_any_sb-choose :
      (s : Fs W) (b0 b1 : List ℕ) (sb : Sb)
      → disk_read_block ide 0 s.disk ≡ some b0
      → disk_read_block ide 1 s.disk ≡ some b1
      → choose_sb (sb_of b0) (sb_of b1) ≡ some sb
      → read_any_sb ide s ≡ (true, record s { sb = sb })
  unfolding read_any_sb
  read_any_sb-choose s b0 b1 sb e0 e1 e = rw (read_any_sb, e0, e1, e) refl

pub send_block-sb :
    {W : Type 0} (ide : Ide W) (a : ℕ) (b : List ℕ) (s : Fs W) → (send_block ide a b s).sb ≡ s.sb
unfolding send_block put_block
send_block-sb ide a b s = refl

module _ {W : Type 0} (ide : Ide W) (d : IsDisk ide) (s : Fs W) where
  abbrev next : Sb
  next = record s.sb { seq = add32 s.sb.seq 1 }

  abbrev begun : Fs W
  begun = record s { sb = next }

  -- The state in the middle of `sb_write_all`.
  abbrev pub second_written : Fs W
  second_written = send_block ide 1 (sb_image next) begun

  module _ (f : FitsSb s.sb) where
    next_fits : FitsSb next
    next_fits = record {
      sig = f.sig;
      version = f.version;
      block_size = f.block_size;
      block_count = f.block_count;
      bitmap_start = f.bitmap_start;
      bitmap_blocks = f.bitmap_blocks;
      inode_start = f.inode_start;
      inode_count = f.inode_count;
      data_start = f.data_start;
      root_inode = f.root_inode;
      seq = omega arith;
      flags = f.flags;
      reserved = f.reserved;
    }

    module _ (done1 : (put_block ide 1 (sb_image next) begun).0 ≡ true) where
      at_second :
          (j : ℕ)
          → j < 2 ^ 28
          → disk_read_block ide j second_written.disk
            ≡ (if 1 == j then some (sb_image next) else disk_read_block ide j s.disk)
      unfolding send_block
      at_second j hj =
          read-put ide d 1 j (sb_image next) begun (omega arith) hj (length-sb_image next next_fits)
            done1

      both_written :
          (put_block ide 0 (sb_image next) second_written).0 ≡ true
          → (j : ℕ) → j < 2 ^ 28
          → disk_read_block ide j (send_block ide 0 (sb_image next) second_written).disk
            ≡ (if 0 == j then some (sb_image next) else disk_read_block ide j second_written.disk)
      unfolding send_block
      both_written done0 j hj =
          read-put ide d 0 j (sb_image next) second_written (omega arith) hj
            (length-sb_image next next_fits) done0

      -- The new superblock is read from the second block when the first has an older one.
      newer :
          (b0 : List ℕ)
          → disk_read_block ide 0 s.disk ≡ some b0
          → (sb_valid (sb_of b0) ≡ true → (sb_of b0).seq < add32 s.sb.seq 1)
          → read_any_sb ide second_written ≡ (true, second_written)
      newer b0 e older =
          let back = sb_of-sb_image next next_fits in
          read_any_sb-choose ide second_written b0 (sb_image next) next
            (at_second 0 (omega arith) ∙ e) (at_second 1 (omega arith))
            ((λ p. choose_sb (sb_of b0) (back p))
              ∙ choose_second (sb_of b0) next (sb_valid-FitsSb next next_fits) older)
          ∙ (λ p. (
            true,
            record second_written { sb = sym (send_block-sb ide 1 (sb_image next) begun) p },
          ))

      -- `sb_write_all` raises the sequence number, writes block 1, which is to succeed, and then block 0. When the
      -- machine stops between the two writes, the superblock with the raised number is read, whatever block 0
      -- holds that can be read: no valid copy, or one with a lower number. The superblock in memory is one that
      -- its fields on the disk can hold, with its signature, version and block size.
      pub read_any_sb-interrupted :
          (b0 : List ℕ)
          → disk_read_block ide 0 s.disk ≡ some b0
          → (sb_valid (sb_of b0) ≡ true → (sb_of b0).seq < add32 s.sb.seq 1)
          → (sb_write_all ide s ≡ send_block ide 0 (sb_image second_written.sb) second_written)
            × (second_written.sb ≡ record s.sb { seq = add32 s.sb.seq 1 })
            × (read_any_sb ide second_written ≡ (true, second_written))
      unfolding sb_write_all
      read_any_sb-interrupted b0 e older =
          let same : second_written.sb ≡ next = send_block-sb ide 1 (sb_image next) begun in
          ((λ p. send_block ide 0 (sb_image (sym same p)) second_written), same, newer b0 e older)

      -- After both writes the two copies agree, and the superblock that was written is read.
      pub read_any_sb-sb_write_all :
          (put_block ide 0 (sb_image next) second_written).0 ≡ true
          → read_any_sb ide (sb_write_all ide s) ≡ (true, sb_write_all ide s)
      unfolding sb_write_all
      read_any_sb-sb_write_all done0 =
          let u = send_block ide 0 (sb_image next) second_written in
          let back = sb_of-sb_image next next_fits in
          let found = both_written done0 in
          let same : u.sb ≡ next =
            send_block-sb ide 0 (sb_image next) second_written
            ∙ send_block-sb ide 1 (sb_image next) begun in
          read_any_sb-choose ide u (sb_image next) (sb_image next) next (found 0 (omega arith))
            (found 1 (omega arith) ∙ at_second 1 (omega arith))
            ((λ p. choose_sb (back p) (back p))
              ∙ choose_equal next (sb_valid-FitsSb next next_fits))
          ∙ (λ p. (true, record u { sb = sym same p }))
