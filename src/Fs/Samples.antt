-- ===== src/Fs/Samples.antt =====
-- A small disk for noosfs.c, a function from sectors to bytes, and a mounted file system with one file on it.
use no_os.Base.{
  ℕ, zero, suc, ◌<◌, ◌≡◌, refl, sym, ap, ◌∙◌, ◌≢◌, true, some, List, [], ◌∷◌, ◌++◌, arith, ◌==◌,
  if◌then◌else◌, length, get_or, take, replicate, length-append, length-take, if-cases,
}
use no_os.Mm.Bitmap.{bitmap_test}
use no_os.Fs.{
  Sb, Inode, Ide, Fs, zero_inode, to_le, from_le, slice, read_words, word_bytes, inode_of,
  inode_image, disk_read_block, inode_lba, read_inode,
}
use no_os.Fs.Bytes.{FitsInode}
use no_os.Fs.Inodes.{IsDisk, IsLaidOut}
use no_os.Fs.Space.{Owns}
use no_os.Fs.Super.{noosfs_sig}

abbrev pub Sectors : Type 0
Sectors = ℕ → List ℕ

abbrev pub fit : List ℕ → List ℕ
fit b = take 512 (b ++ replicate 512 0)

abbrev pub ram : Ide Sectors
ram = record {
  read_sector = λ a w. some (fit (w a));
  write_sector = λ a b w. (true, λ j. if a == j then b else w j);
  drive_sectors = λ w. 65536;
  present = λ w. true;
}

take_whole : (n : ℕ) (b z : List ℕ) → length b ≡ n → take n (b ++ z) ≡ b
take_whole zero [] z e = refl
take_whole zero (x ∷ b) z e = absurd (omega (arith, e))
take_whole (suc n) [] z e = absurd (omega (arith, e))
take_whole (suc n) (x ∷ b) z e = λ p. x ∷ take_whole n b z (omega (arith, e)) p

pub ram-IsDisk : IsDisk ram
ram-IsDisk = record {
  sector = λ a w b e. let q : fit (w a) ≡ b = cc in ap length (sym q) ∙ length-fit (w a);
  read-write = λ a j b w ha hj e done.
      if-cases (λ c. some (fit c) ≡ (if a == j then some b else some (fit (w j)))) (a == j) b (w j)
        (λ h. rw h (ap some (take_whole 512 b (replicate 512 0) e))) (λ h. rw h refl);
}
  where
    length-fit : (b : List ℕ) → length (fit b) ≡ 512
    length-fit b =
        omega
          (arith, length-take {0} 512 (b ++ replicate 512 0), length-append {0} b (replicate 512 0))

abbrev pub small_sb : Sb
small_sb = record {
  sig = noosfs_sig;
  version = 2;
  block_size = 512;
  block_count = 8;
  bitmap_start = 2;
  bitmap_blocks = 1;
  inode_start = 3;
  inode_count = 256;
  data_start = 39;
  root_inode = 0;
  seq = 4;
  flags = 0;
  reserved = replicate 436 0;
}

-- A file with the cluster 3.
abbrev pub small_file : Inode
small_file = record zero_inode { mode = 0x8000; nlinks = 1; size = 512; blocks = 3 ∷ replicate 9 0 }

abbrev pub small : Fs Sectors
small = record {
  sb = small_sb;
  inode_bitmap = 3 ∷ replicate 31 0;
  cluster_bitmap = 8 ∷ [];
  mounted = true;
  root_cache = zero_inode;
  disk = λ j. if j == 3 then replicate 72 0 ++ inode_image small_file else [];
}

pub small-IsLaidOut : IsLaidOut small_sb
small-IsLaidOut = record {
  front = omega arith;
  bitmap = omega arith;
  inodes = omega arith;
  top = omega arith;
  bits = omega arith;
  inode_count = refl;
}

pub small_file-FitsInode : FitsInode small_file
small_file-FitsInode = record {
  mode = omega arith;
  nlinks = omega arith;
  size = omega arith;
  mtime = omega arith;
  flags = omega arith;
  count = refl;
  blocks = omega arith;
  reserved = omega arith;
}

pub small_file_read : read_inode ram 1 small ≡ some small_file
unfolding read_inode disk_read_block inode_lba slice inode_of inode_image to_le from_le read_words
    word_bytes
small_file_read = refl

get_or-replicate : (n k : ℕ) → get_or {A = ℕ} (replicate n 0) k 0 ≡ 0
get_or-replicate zero k = refl
get_or-replicate (suc n) zero = refl
get_or-replicate (suc n) (suc k) = get_or-replicate n k

three_used : bitmap_test (8 ∷ []) 3 ≡ true
unfolding bitmap_test
three_used = refl

pub small-Owns : Owns small small_file.blocks
small-Owns = record { bits = omega arith; used = in_use; distinct = apart }
  where
    in_use :
        (k : ℕ)
        → get_or small_file.blocks k 0 ≢ 0
        → (get_or small_file.blocks k 0 < 8)
          × (bitmap_test (8 ∷ []) (get_or small_file.blocks k 0) ≡ true)
    in_use zero ne = (omega arith, three_used)
    in_use (suc k) ne = absurd (ne (get_or-replicate 9 k))

    apart :
        (k l : ℕ)
        → k ≢ l
        → get_or small_file.blocks k 0 ≢ 0
        → get_or small_file.blocks k 0 ≢ get_or small_file.blocks l 0
    apart zero zero kl ne = absurd (kl refl)
    apart zero (suc l) kl ne = rw (get_or-replicate 9 l) ne
    apart (suc k) l kl ne = absurd (ne (get_or-replicate 9 k))
