-- ===== src/Fs/Dir.antt =====
-- The root directory of noosfs.c: its entries, their search and their changes, and the creation and the removal
-- of a file. A name is its bytes without the final zero.
pub mod Entries
pub mod Names
pub mod Full
mod Tests
use no_os.Base.{
  [], ℕ, zero, suc, ◌+◌, ◌-◌, ◌*◌, ◌%◌, ◌^◌, Bool, true, false, not, ◌&&◌, ◌||◌, Option, none, some,
  List, ◌∷◌, ◌++◌, ltb, ◌==◌, if◌then◌else◌, length, get_or, set, take, drop, replicate,
}
use no_os.Mm.Bitmap.{bitmap_clear}
use no_os.Fs.Super.{same_bytes}
use no_os.Fs.{
  Ide, Fs, fs_name_max, fs_max_blocks, fs_inode_dir, zero_inode, zero_block, to_le, from_le, slice,
  cover, overwrite, read_inode, write_inode, fs_alloc_cluster, fs_free_cluster, fs_alloc_inode,
  fs_cluster_read, fs_cluster_write,
}

abbrev pub dt_file : ℕ
dt_file = 1

abbrev pub dt_dir : ℕ
dt_dir = 2

abbrev pub dirent_bytes : ℕ
dirent_bytes = 32

abbrev pub dirent_per_block : ℕ
dirent_per_block = 16

-- `struct fs_dirent`
pub record Dirent : Type 0 where
  pub inode : ℕ
  pub reclen : ℕ
  pub namelen : ℕ
  pub type : ℕ
  pub name : List ℕ

pub dirent_of : List ℕ → Dirent
unfolding slice from_le
dirent_of bytes = record {
  inode = from_le (slice bytes 0 4);
  reclen = from_le (slice bytes 4 2);
  namelen = from_le (slice bytes 6 1);
  type = from_le (slice bytes 7 1);
  name = drop 8 bytes;
}

-- `blk[e]`
pub dirent_at : List ℕ → ℕ → Dirent
unfolding slice dirent_of
dirent_at blk e = dirent_of (slice blk (dirent_bytes * e) dirent_bytes)

pub dirent_image : Dirent → List ℕ
unfolding to_le
dirent_image d =
    to_le 4 d.inode ++ (to_le 2 d.reclen ++ (to_le 1 d.namelen ++ (to_le 1 d.type ++ d.name)))

-- The entry that `dir_add_entry` writes.
pub new_dirent : List ℕ → ℕ → ℕ → Dirent
unfolding cover
new_dirent name ino type = record {
  inode = ino;
  reclen = dirent_bytes;
  namelen = length name % 256;
  type = type;
  name = cover (replicate 24 0) name;
}

-- The first unused entry from `e` on, in `n` rounds.
pub free_entry : List ℕ → ℕ → ℕ → Option ℕ
unfolding dirent_at
free_entry blk e zero = none
free_entry blk e (suc n) =
    let rest = free_entry blk (e + 1) n in if (dirent_at blk e).inode == 0 then some e else rest

pub entry_matches : List ℕ → Dirent → Bool
unfolding same_bytes
entry_matches name d =
    not (d.inode == 0) && d.namelen == length name && same_bytes (length name) d.name name

-- The first entry with the name from `e` on, in `n` rounds.
pub find_entry : List ℕ → List ℕ → ℕ → ℕ → Option ℕ
unfolding dirent_at entry_matches
find_entry name blk e zero = none
find_entry name blk e (suc n) =
    let rest = find_entry name blk (e + 1) n in
    if entry_matches name (dirent_at blk e) then some e else rest

module _ {W : Type 0} (ide : Ide W) where
  pub root_load : Fs W → Bool × Fs W
  unfolding read_inode
  root_load s = elim (read_inode ide s.sb.root_inode s) [
    | none ↦ (false, s)
    | some inode ↦ (true, record s { root_cache = inode })
  ]

  pub root_save : Fs W → Bool × Fs W
  unfolding write_inode
  root_save s = write_inode ide s.sb.root_inode s.root_cache s

  -- A new zeroed block at place `bi` of the root directory, which grows to `size`.
  pub add_block : ℕ → ℕ → Fs W → Bool × Fs W
  unfolding fs_alloc_cluster fs_cluster_write root_save
  add_block bi size s =
      let (got, s1) = fs_alloc_cluster ide s in
      elim got [
        | none ↦ (false, s1)
        | some c ↦
            let (done, s2) = fs_cluster_write ide c zero_block s1 in
            if done
            then root_save (record s2 {
              root_cache = record s2.root_cache {
                blocks = set s2.root_cache.blocks bi c;
                size = size;
              };
            })
            else (false, s2)
      ]

  pub root_ensure_block : Fs W → Bool × Fs W
  unfolding add_block
  root_ensure_block s = if ltb 0 s.root_cache.size then (true, s) else add_block 0 512 s

  -- The rounds from block `bi` on of the loop of `dir_add_entry`.
  pub add_in : List ℕ → ℕ → ℕ → ℕ → ℕ → Fs W → Bool × Fs W
  unfolding fs_cluster_read fs_cluster_write free_entry new_dirent dirent_image overwrite add_block
  add_in name ino type bi zero s = (false, s)
  add_in name ino type bi (suc n) s =
      let c = get_or s.root_cache.blocks bi 0 in
      let rest = add_in name ino type (bi + 1) n s in
      if c == 0 then (false, s) else elim (fs_cluster_read ide c s) [
        | none ↦ (false, s)
        | some blk ↦ elim (free_entry blk 0 dirent_per_block) [
          | some e ↦
              fs_cluster_write ide c
                (overwrite blk (dirent_bytes * e) (dirent_image (new_dirent name ino type))) s
          | none ↦ if c == 0 then add_block bi (s.root_cache.size + 512) s else rest
        ]
      ]

  -- What `dir_add_entry` does once the root directory is loaded, and once it has a block.
  pub add_ensured : List ℕ → ℕ → ℕ → Bool × Fs W → Bool × Fs W
  unfolding add_in
  add_ensured name ino type r =
      if r.0 then add_in name ino type 0 fs_max_blocks r.1 else (false, r.1)

  pub add_loaded : List ℕ → ℕ → ℕ → Bool × Fs W → Bool × Fs W
  unfolding root_ensure_block add_ensured
  add_loaded name ino type r =
      if not r.0 || length name == 0 || ltb fs_name_max (length name)
      then (false, r.1)
      else add_ensured name ino type (root_ensure_block r.1)

  pub dir_add_entry : List ℕ → ℕ → ℕ → Fs W → Bool × Fs W
  unfolding root_load add_loaded
  dir_add_entry name ino type s = add_loaded name ino type (root_load s)

  -- The block of the directory and the entry in it that have the name, with the inode that the entry names.
  pub find_in : List ℕ → ℕ → ℕ → Fs W → Option (ℕ × ℕ × ℕ)
  unfolding fs_cluster_read find_entry dirent_at
  find_in name bi zero s = none
  find_in name bi (suc n) s =
      let c = get_or s.root_cache.blocks bi 0 in
      let rest = find_in name (bi + 1) n s in
      if c == 0 then none else elim (fs_cluster_read ide c s) [
        | none ↦ none
        | some blk ↦ elim (find_entry name blk 0 dirent_per_block) [
          | some e ↦ some (bi, e, (dirent_at blk e).inode)
          | none ↦ rest
        ]
      ]

  pub fs_lookup : List ℕ → Fs W → Option ℕ × Fs W
  unfolding root_load find_in
  fs_lookup name s =
      if s.mounted
      then (let (loaded, s1) = root_load s in
          if loaded
          then elim (find_in name 0 fs_max_blocks s1) [
            | none ↦ (none, s1)
            | some at ↦ (some at.2, s1)
          ]
          else (none, s1))
      else (none, s)

  pub dir_find_slot : List ℕ → Fs W → Option (ℕ × ℕ)
  unfolding find_in
  dir_find_slot name s = elim (find_in name 0 fs_max_blocks s) [
    | none ↦ none
    | some at ↦ some (at.0, at.1)
  ]

  -- A lookup's result is the number of an inode where it is not negative.
  pub is_found : Option ℕ → Bool
  is_found none = false
  is_found (some ino) = ltb ino (2 ^ 31)

  pub fs_create : List ℕ → ℕ → ℕ → Fs W → Option ℕ × Fs W
  unfolding fs_lookup is_found fs_alloc_inode write_inode dir_add_entry
  fs_create name mode ticks s =
      if s.mounted
      then (let (found, s1) = fs_lookup name s in
          if is_found found
          then (none, s1)
          else (let (got, s2) = fs_alloc_inode ide s1 in
              elim got [
                | none ↦ (none, s2)
                | some ino ↦
                    let inode = record zero_inode {
                      mode = mode;
                      nlinks = 1;
                      mtime = ticks % 2 ^ 32;
                    } in
                    let (written, s3) = write_inode ide ino inode s2 in
                    let (added, s4) =
                      dir_add_entry name ino (if mode == fs_inode_dir then dt_dir else dt_file)
                        s3 in
                    if written then (if added then (some ino, s4) else (none, s4)) else (none, s3)
              ]))
      else (none, s)

  -- The clusters of a file go back to the bitmap.
  pub free_blocks : List ℕ → Fs W → Fs W
  unfolding fs_free_cluster
  free_blocks [] s = s
  free_blocks (c ∷ rest) s = free_blocks rest (if c == 0 then s else fs_free_cluster ide c s)

  -- The entry of a removed file is zeroed; `junk` is what the buffer holds when its block cannot be read.
  pub clear_entry : List ℕ → ℕ → ℕ → Fs W → Fs W
  unfolding fs_cluster_read fs_cluster_write overwrite
  clear_entry junk bi e s =
      let c = get_or s.root_cache.blocks bi 0 in
      let blk : List ℕ = elim (fs_cluster_read ide c s) [ none ↦ junk | some b ↦ b ] in
      (fs_cluster_write ide c (overwrite blk (dirent_bytes * e) (replicate 32 0)) s).1

  pub release_inode : ℕ → Fs W → Fs W
  unfolding read_inode free_blocks write_inode bitmap_clear
  release_inode ino s =
      let s1 : Fs W = elim (read_inode ide ino s) [
        | none ↦ s
        | some inode ↦ free_blocks inode.blocks s
      ] in
      let s2 = (write_inode ide ino zero_inode s1).1 in
      record s2 { inode_bitmap = bitmap_clear s2.inode_bitmap ino }

  pub fs_unlink : List ℕ → List ℕ → Fs W → Bool × Fs W
  unfolding fs_lookup root_load dir_find_slot release_inode clear_entry
  fs_unlink junk name s =
      if s.mounted
      then (let (found, s1) = fs_lookup name s in
          elim found [
            | none ↦ (false, s1)
            | some ino ↦
                let (loaded, s2) = root_load s1 in
                if ino == 2 ^ 32 - 1
                then (false, s1)
                else (if loaded
                    then elim (dir_find_slot name s2) [
                      | none ↦ (false, s2)
                      | some (bi, e) ↦ (true, clear_entry junk bi e (release_inode ino s2))
                    ]
                    else (false, s2))
          ])
      else (false, s)

  -- The lines for the entries from `e` on of a block: the name and the size.
  pub list_block : List ℕ → ℕ → ℕ → Fs W → List (List ℕ × ℕ)
  unfolding dirent_at read_inode
  list_block blk e zero s = []
  list_block blk e (suc n) s =
      let d = dirent_at blk e in
      let rest = list_block blk (e + 1) n s in
      if d.inode == 0 then rest else elim (read_inode ide d.inode s) [
        | none ↦ rest
        | some inode ↦ (take d.namelen d.name, inode.size) ∷ rest
      ]

  pub list_from : ℕ → ℕ → Fs W → List (List ℕ × ℕ)
  unfolding fs_cluster_read list_block
  list_from bi zero s = []
  list_from bi (suc n) s =
      let c = get_or s.root_cache.blocks bi 0 in
      let rest = list_from (bi + 1) n s in
      if c == 0 then [] else elim (fs_cluster_read ide c s) [
        | none ↦ rest
        | some blk ↦ list_block blk 0 dirent_per_block s ++ rest
      ]

  -- The printed lines, whose number the call returns.
  pub fs_listdir : Fs W → Option (List (List ℕ × ℕ)) × Fs W
  unfolding root_load list_from
  fs_listdir s =
      if s.mounted
      then (let (loaded, s1) = root_load s in
          if loaded then (some (list_from 0 fs_max_blocks s1), s1) else (none, s1))
      else (none, s)
