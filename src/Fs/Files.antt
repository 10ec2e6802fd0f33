-- ===== src/Fs/Files.antt =====
-- The content of files in noosfs.c: writing, reading and the inode's record.
pub mod Places
pub mod Transfers
pub mod RoundTrip
mod Tests
use no_os.Base.{
  [], ℕ, zero, suc, ◌+◌, ◌-◌, ◌/◌, ◌%◌, ◌^◌, min, bit_or, Bool, false, not, ◌||◌, Option, none,
  some, List, ◌++◌, ltb, ◌==◌, if◌then◌else◌, length, get_or, set, take, drop, replicate,
}
use no_os.Fs.{
  Inode, Ide, Fs, fs_block_size, fs_max_blocks, fs_inode_reg, read_inode, write_inode,
  fs_alloc_cluster, fs_free_cluster, fs_cluster_read, fs_cluster_write,
}

-- The blocks of a chunk, filled up with zeros.
pub padded : List ℕ → List ℕ
padded chunk = chunk ++ replicate (fs_block_size - length chunk) 0

module _ {W : Type 0} (ide : Ide W) where
  -- The clusters from place `i` on of a file are freed, in `n` rounds.
  pub free_beyond : ℕ → ℕ → List ℕ → Fs W → List ℕ × Fs W
  unfolding fs_free_cluster
  free_beyond i zero blocks s = (blocks, s)
  free_beyond i (suc n) blocks s =
      let c = get_or blocks i 0 in
      if c == 0
      then free_beyond (i + 1) n blocks s
      else free_beyond (i + 1) n (set blocks i 0) (fs_free_cluster ide c s)

  -- `blocks[i]`, or a new cluster there.
  pub block_for : ℕ → List ℕ → Fs W → Option ℕ × Fs W
  unfolding fs_alloc_cluster
  block_for i blocks s =
      let c = get_or blocks i 0 in if c == 0 then fs_alloc_cluster ide s else (some c, s)

  -- The chunks from place `i` on, in `n` rounds; `content` is what is left to write.
  pub write_chunks : ℕ → ℕ → List ℕ → List ℕ → Fs W → Option (List ℕ) × Fs W
  unfolding block_for padded fs_cluster_write
  write_chunks i zero content blocks s = (some blocks, s)
  write_chunks i (suc n) content blocks s =
      let (got, s1) = block_for i blocks s in
      elim got [
        | none ↦ (none, s1)
        | some c ↦
            let (done, s2) = fs_cluster_write ide c (padded (take fs_block_size content)) s1 in
            if done
            then write_chunks (i + 1) n (drop fs_block_size content) (set blocks i c) s2
            else (none, s2)
      ]

  -- The inode is saved once every chunk is on the disk.
  pub save_inode : ℕ → Inode → ℕ → ℕ → Option (List ℕ) × Fs W → Bool × Fs W
  unfolding write_inode
  save_inode ino inode size ticks r = elim r.0 [
    | none ↦ (false, r.1)
    | some blocks ↦
        write_inode ide ino
          (record inode {
            mode = bit_or inode.mode fs_inode_reg % 2 ^ 16;
            nlinks = 1;
            size = size;
            mtime = ticks % 2 ^ 32;
            blocks = blocks;
          })
          r.1
  ]

  pub fs_write_file : ℕ → List ℕ → ℕ → Fs W → Bool × Fs W
  unfolding read_inode free_beyond write_chunks save_inode
  fs_write_file ino content ticks s =
      let nblocks = (length content + fs_block_size - 1) / fs_block_size in
      if not s.mounted || ltb fs_max_blocks nblocks
      then (false, s)
      else elim (read_inode ide ino s) [
        | none ↦ (false, s)
        | some inode ↦
            let (kept, s1) = free_beyond nblocks (fs_max_blocks - nblocks) inode.blocks s in
            save_inode ino inode (length content) ticks (write_chunks 0 nblocks content kept s1)
      ]

  -- The bytes that are put into the buffer, and how many of the wanted bytes a failed read leaves out.
  pub read_chunks : ℕ → ℕ → ℕ → List ℕ → Fs W → List ℕ × ℕ
  unfolding fs_cluster_read
  read_chunks i zero left blocks s = ([], 0)
  read_chunks i (suc n) left blocks s =
      let c = get_or blocks i 0 in
      let chunk = min left fs_block_size in
      let (rest, missed) = read_chunks (i + 1) n (left - chunk) blocks s in
      if left == 0 || c == 0 then ([], 0) else elim (fs_cluster_read ide c s) [
        | none ↦ ([], left)
        | some block ↦ (take chunk block ++ rest, missed)
      ]

  -- The number of bytes that is returned, and the bytes that are put into the buffer.
  pub fs_read_file : ℕ → ℕ → Fs W → ℕ × List ℕ
  unfolding read_inode read_chunks
  fs_read_file ino most s = elim (read_inode ide ino s) [
    | none ↦ (0, [])
    | some inode ↦
        let want = min inode.size most in
        let (bytes, missed) = read_chunks 0 fs_max_blocks want inode.blocks s in
        (want - missed, bytes)
  ]

  pub fs_stat : ℕ → Fs W → Option Inode
  unfolding read_inode
  fs_stat ino s = read_inode ide ino s
