-- ===== src/Fs/Dir/Tests.antt =====
-- Names in blocks of noosfs.c's directory.
use no_os.Base.{
  ℕ, ◌*◌, ◌≡◌, refl, false, none, some, List, [], ◌∷◌, arith, ◌==◌, if◌then◌else◌, length,
  replicate,
}
use no_os.Fs.{
  Inode, Fs, zero_inode, zero_block, to_le, from_le, slice, cover, overwrite, read_words,
  word_bytes, inode_of, inode_image, disk_read_block, inode_lba, read_inode, fs_cluster_read,
}
use no_os.Fs.Super.{same_bytes}
use no_os.Fs.Dir.{
  dirent_of, dirent_at, dirent_image, new_dirent, free_entry, find_entry, entry_matches,
  dir_add_entry, dt_file,
}
use no_os.Fs.Dir.Names.{AddedAt, added-AddedAt}
use no_os.Fs.Dir.Full.{IsFull, dir_add_entry-IsFull}
use no_os.Fs.Samples.{ram, small}

abbrev notes : List ℕ
notes = 110 ∷ 111 ∷ 116 ∷ 101 ∷ 115 ∷ []

abbrev one_entry : List ℕ
one_entry = overwrite zero_block (32 * 0) (dirent_image (new_dirent (97 ∷ []) 1 dt_file))

one_entry_room : free_entry one_entry 0 16 ≡ some 1
unfolding free_entry dirent_at dirent_of from_le slice overwrite cover dirent_image new_dirent to_le
one_entry_room = refl

notes_absent : find_entry notes one_entry 0 16 ≡ none
unfolding find_entry entry_matches same_bytes dirent_at dirent_of from_le slice overwrite cover
    dirent_image new_dirent to_le
notes_absent = refl

a_present : find_entry (97 ∷ []) one_entry 0 16 ≡ some 0
unfolding find_entry entry_matches same_bytes dirent_at dirent_of from_le slice overwrite cover
    dirent_image new_dirent to_le
a_present = refl

length-one_entry : length one_entry ≡ 512
unfolding overwrite cover dirent_image new_dirent to_le
length-one_entry = refl

added-AddedAt_example :
    AddedAt notes 2 1 one_entry
      (overwrite one_entry (32 * 1) (dirent_image (new_dirent notes 2 dt_file)))
added-AddedAt_example =
    added-AddedAt one_entry notes 2 dt_file 1 length-one_entry (omega arith) (omega arith)
      (omega arith) (omega arith) notes_absent one_entry_room

-- Sixteen entries with the inode 1.
abbrev full_block : List ℕ
full_block = replicate 512 1

abbrev full_root : Inode
full_root = record zero_inode { mode = 0x4000; nlinks = 2; size = 512; blocks = 1 ∷ replicate 9 0 }

abbrev crowded : Fs (ℕ → List ℕ)
crowded = record small {
  disk = λ j. if j == 3 then inode_image full_root else (if j == 40 then full_block else []);
}

crowded-IsFull : IsFull ram full_root full_block crowded
unfolding read_inode disk_read_block inode_lba slice inode_of inode_image to_le from_le read_words
    word_bytes fs_cluster_read free_entry dirent_at dirent_of
crowded-IsFull = record {
  loaded = refl;
  size = omega arith;
  first = λ e. omega (arith, e);
  second = refl;
  block = refl;
  entries = refl;
}

dir_add_entry-IsFull_example :
    dir_add_entry ram notes 2 dt_file crowded ≡ (false, record crowded { root_cache = full_root })
dir_add_entry-IsFull_example =
    dir_add_entry-IsFull ram full_root full_block crowded notes 2 dt_file (omega arith)
      crowded-IsFull
