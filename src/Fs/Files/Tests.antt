-- ===== src/Fs/Files/Tests.antt =====
-- A file of noosfs.c that keeps one cluster, gets a second one and is read again.
use no_os.Base.{ℕ, ◌≡◌, refl, true, List, arith, take, replicate}
use no_os.Mm.Bitmap.{bitmap_set, bitmap_test, first_clear}
use no_os.Fs.{
  to_le, from_le, slice, cover, overwrite, read_words, word_bytes, inode_of, inode_image,
  disk_read_block, disk_write_block, inode_lba, read_inode, put_block, write_inode,
  fs_alloc_cluster, fs_free_cluster, fs_cluster_write,
}
use no_os.Fs.Files.{
  padded, free_beyond, block_for, write_chunks, save_inode, fs_write_file, fs_read_file,
}
use no_os.Fs.Files.RoundTrip.{read-write_file}
use no_os.Fs.Samples.{
  ram, ram-IsDisk, small, small-IsLaidOut, small_file, small_file-FitsInode, small_file_read,
  small-Owns,
}

abbrev letter : List ℕ
letter = replicate 600 65

letter_written : (fs_write_file ram 1 letter 77 small).0 ≡ true
unfolding fs_write_file read_inode disk_read_block inode_lba slice inode_of inode_image to_le
    from_le read_words word_bytes free_beyond fs_free_cluster write_chunks block_for
    fs_alloc_cluster first_clear bitmap_test bitmap_set fs_cluster_write put_block disk_write_block
    save_inode write_inode overwrite cover padded
letter_written = refl

read-write_file_example :
    fs_read_file ram 1 1000 (fs_write_file ram 1 letter 77 small).1 ≡ (600, take 1000 letter)
read-write_file_example =
    read-write_file ram ram-IsDisk small small-IsLaidOut 1 1000 77 letter small_file (omega arith)
      refl small_file_read small_file-FitsInode small-Owns letter_written
