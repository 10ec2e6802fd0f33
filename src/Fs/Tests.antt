-- ===== src/Fs/Tests.antt =====
-- Runs of the inode table and of the allocation of clusters in noosfs.c.
use no_os.Base.{◌≡◌, refl, some, arith}
use no_os.Fs.{fs_alloc_cluster, read_inode, write_inode}
use no_os.Fs.Inodes.{read-write_inode}
use no_os.Fs.Space.{Allocated, fs_alloc_cluster-Allocated}
use no_os.Fs.Samples.{ram, ram-IsDisk, small, small-IsLaidOut, small_file, small_file-FitsInode}

fs_alloc_cluster-Allocated_example : Allocated small (fs_alloc_cluster ram small)
fs_alloc_cluster-Allocated_example = fs_alloc_cluster-Allocated ram small (omega arith) refl

read-write_inode_example : read_inode ram 8 (write_inode ram 8 small_file small).1 ≡ some small_file
read-write_inode_example =
    read-write_inode ram ram-IsDisk small small-IsLaidOut 8 8 small_file (omega arith) (omega arith)
      small_file-FitsInode (unfold write_inode in refl)
