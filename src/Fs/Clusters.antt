-- ===== src/Fs/Clusters.antt =====
-- Reads and writes of clusters in noosfs.c, over what the disk driver promises.
use no_os.Base.{
  ℕ, ◌+◌, ◌*◌, ◌/◌, ◌%◌, ◌≤◌, ◌<◌, ◌≡◌, refl, sym, ap, ◌∙◌, Bool, true, false, Option, none, some,
  List, arith, leb, ◌==◌, if◌then◌else◌, length, dec_lt, if-cases, subst,
}
use no_os.Fs.{
  Ide, Fs, Inode, inode_lba, disk_read_block, put_block, read_inode, fs_cluster_read,
  fs_cluster_write,
}
use no_os.Fs.{write_inode, overwrite, inode_image}
use no_os.Fs.Bytes.{length-overwrite}
use no_os.Fs.Inodes.{put_in, length-read, IsDisk, IsLaidOut, read-put, inode_in, read_inode_at}

module _ {W : Type 0} (ide : Ide W) where
  cluster_write_at :
      (c : ℕ) (buf : List ℕ) (s : Fs W)
      → c < s.sb.block_count
      → fs_cluster_write ide c buf s ≡ put_block ide (s.sb.data_start + c) buf s
  unfolding fs_cluster_write
  cluster_write_at c buf s h =
      if-cases (λ (r : Bool × Fs W). r ≡ put_block ide (s.sb.data_start + c) buf s)
        (leb s.sb.block_count c) _ _ (λ e. absurd (ground (arith, h, e))) (λ e. refl)

  cluster_read_at :
      (c : ℕ) (s : Fs W)
      → c < s.sb.block_count
      → fs_cluster_read ide c s ≡ disk_read_block ide (s.sb.data_start + c) s.disk
  unfolding fs_cluster_read
  cluster_read_at c s h =
      if-cases (λ (r : Option (List ℕ)). r ≡ disk_read_block ide (s.sb.data_start + c) s.disk)
        (leb s.sb.block_count c) _ _ (λ e. absurd (ground (arith, h, e))) (λ e. refl)

  cluster_read_above : (c : ℕ) (s : Fs W) → s.sb.block_count ≤ c → fs_cluster_read ide c s ≡ none
  unfolding fs_cluster_read
  cluster_read_above c s h =
      if-cases (λ (r : Option (List ℕ)). r ≡ none) (leb s.sb.block_count c) _ _ (λ e. refl)
        (λ e. absurd (ground (arith, h, e)))

-- What a write of a cluster that the disk has taken leaves.
pub record Put {W : Type 0} (ide : Ide W) (c : ℕ) (buf : List ℕ) (s t : Fs W) : Type 0 where
  pub clusters :
      (k : ℕ) → fs_cluster_read ide k t ≡ (if c == k then some buf else fs_cluster_read ide k s)
  pub inodes : (j : ℕ) → j < 256 → read_inode ide j t ≡ read_inode ide j s
  pub rest : t ≡ record s { disk = t.disk }

module _ {W : Type 0} (ide : Ide W) (d : IsDisk ide) (s : Fs W) (g : IsLaidOut s.sb) where
  module _ (c : ℕ) (buf : List ℕ) (hc : c < s.sb.block_count) (full : length buf ≡ 512) where
    abbrev after : Fs W
    after = (put_block ide (s.sb.data_start + c) buf s).1

    module _ (done : (put_block ide (s.sb.data_start + c) buf s).0 ≡ true) where
      put_clusters :
          (k : ℕ)
          → fs_cluster_read ide k after ≡ (if c == k then some buf else fs_cluster_read ide k s)
      unfolding put_block
      put_clusters k = elim (dec_lt k s.sb.block_count) [
        | yes lt ↦
            let same : (s.sb.data_start + c == s.sb.data_start + k) ≡ (c == k) = ground arith in
            cluster_read_at ide k after lt
            ∙ read-put ide d (s.sb.data_start + c) (s.sb.data_start + k) buf s
                (omega (arith, g.top)) (omega (arith, g.top)) full done
            ∙ rw (same, cluster_read_at ide k s lt) refl
        | no ge ↦
            let differ : (c == k) ≡ false = ground (arith, hc, ge) in
            cluster_read_above ide k after (omega arith)
            ∙ rw (differ, cluster_read_above ide k s (omega arith)) refl
      ]

      put_inodes : 0 < c → (j : ℕ) → j < 256 → read_inode ide j after ≡ read_inode ide j s
      unfolding put_block
      put_inodes pos j hj =
          let differ : (s.sb.data_start + c == s.sb.inode_start + j / 7) ≡ false =
            ground (arith, g.inodes, hj, pos) in
          let found : disk_read_block ide (s.sb.inode_start + j / 7) after.disk
              ≡ disk_read_block ide (s.sb.inode_start + j / 7) s.disk =
            read-put ide d (s.sb.data_start + c) (s.sb.inode_start + j / 7) buf s
              (omega (arith, g.top)) (omega (arith, g.top, g.inodes)) full done
            ∙ rw differ refl in
          read_inode_at ide j after ∙ ap (inode_in j) found ∙ sym (read_inode_at ide j s)

  pub fs_cluster_write-Put :
      (c : ℕ) (buf : List ℕ)
      → 0 < c
      → c < s.sb.block_count
      → length buf ≡ 512
      → (fs_cluster_write ide c buf s).0 ≡ true
      → Put ide c buf s (fs_cluster_write ide c buf s).1
  fs_cluster_write-Put c buf pos hc full done =
      let at = cluster_write_at ide c buf s hc in
      let ok = rw at at done in
      subst (λ (r : Bool × Fs W). Put ide c buf s r.1) (sym at)
        (record {
          clusters = put_clusters c buf hc full ok;
          inodes = put_inodes c buf hc full ok pos;
          rest = unfold put_block in refl;
        })

  clusters_after :
      (i : ℕ) (inode : Inode) (o : Option (List ℕ)) (k : ℕ)
      → i < 256
      → 0 < k
      → disk_read_block ide (s.sb.inode_start + i / 7) s.disk ≡ o
      → (put_in ide i inode s o).0 ≡ true
      → fs_cluster_read ide k (put_in ide i inode s o).1 ≡ fs_cluster_read ide k s
  unfolding put_block
  clusters_after i inode none k hi pos e done = cc
  clusters_after i inode (some block) k hi pos e done =
      let image = overwrite block (i % 7 * 72) (inode_image inode) in
      let full : length image ≡ 512 =
        length-overwrite block (i % 7 * 72) (inode_image inode)
        ∙ length-read ide d (s.sb.inode_start + i / 7) s.disk block e in
      let t = (put_block ide (s.sb.inode_start + i / 7) image s).1 in
      elim (dec_lt k s.sb.block_count) [
        | yes lt ↦
            let differ : (s.sb.inode_start + i / 7 == s.sb.data_start + k) ≡ false =
              ground (arith, g.inodes, hi, pos) in
            cluster_read_at ide k t lt
            ∙ read-put ide d (s.sb.inode_start + i / 7) (s.sb.data_start + k) image s
                (omega (arith, g.top, g.inodes)) (omega (arith, g.top)) full done
            ∙ rw differ refl
            ∙ sym (cluster_read_at ide k s lt)
        | no ge ↦
            cluster_read_above ide k t (omega arith)
            ∙ sym (cluster_read_above ide k s (omega arith))
      ]

  -- Saving an inode leaves the clusters alone.
  pub cluster_read-write_inode :
      (i : ℕ) (inode : Inode) (k : ℕ)
      → i < 256
      → 0 < k
      → (write_inode ide i inode s).0 ≡ true
      → fs_cluster_read ide k (write_inode ide i inode s).1 ≡ fs_cluster_read ide k s
  unfolding write_inode inode_lba
  cluster_read-write_inode i inode k hi pos done = clusters_after i inode _ k hi pos refl done
