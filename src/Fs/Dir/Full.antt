-- ===== src/Fs/Dir/Full.antt =====
-- The directory of noosfs.c once its block has no unused entry.
use no_os.Base.{
  ℕ, zero, suc, ◌+◌, ◌≤◌, ◌<◌, ◌≡◌, refl, ap, ◌∙◌, ◌≢◌, Bool, true, false, ◌||◌, none, some, List,
  arith, ltb, ◌==◌, lt→ltb, length, get_or, if-true, if-false, elim-some, elim-none, ==_false,
}
use no_os.Fs.{Ide, Fs, Inode, read_inode, fs_cluster_read}
use no_os.Fs.Dir.{
  add_ensured, add_loaded, free_entry, add_in, root_load, root_ensure_block, dir_add_entry,
}
use no_os.Fs.Dir.Entries.{IsName}

module _ {W : Type 0} (ide : Ide W) (s : Fs W) (name : List ℕ) (ino type : ℕ) (blk : List ℕ) where
  add_in_ends :
      (bi n : ℕ)
      → get_or s.root_cache.blocks bi 0 ≡ 0
      → add_in ide name ino type bi n s ≡ (false, s)
  unfolding add_in
  add_in_ends bi zero z = refl
  add_in_ends bi (suc n) z =
      if-true (λ (r : Bool × Fs W). r ≡ (false, s)) (get_or s.root_cache.blocks bi 0 == 0) _ _
        (λ p. z p == 0) refl

  add_in_passes :
      (bi n : ℕ)
      → get_or s.root_cache.blocks bi 0 ≢ 0
      → fs_cluster_read ide (get_or s.root_cache.blocks bi 0) s ≡ some blk
      → free_entry blk 0 16 ≡ none
      → add_in ide name ino type bi (suc n) s ≡ add_in ide name ino type (bi + 1) n s
  unfolding add_in
  add_in_passes bi n nz e used =
      let c = get_or s.root_cache.blocks bi 0 in
      let P = λ (r : Bool × Fs W). r ≡ add_in ide name ino type (bi + 1) n s in
      let differ = ==_false c 0 nz in
      if-false P (c == 0) _ _ differ (
        elim-some P (fs_cluster_read ide c s) _ _ blk e
          (elim-none P (free_entry blk 0 16) _ _ used (if-false P (c == 0) _ _ differ refl)))

-- The root directory has one block, with no unused entry.
pub record IsFull {W : Type 0} (ide : Ide W) (root : Inode) (blk : List ℕ) (s : Fs W) : Type 0 where
  pub loaded : read_inode ide s.sb.root_inode s ≡ some root
  pub size : 0 < root.size
  pub first : get_or root.blocks 0 0 ≢ 0
  pub second : get_or root.blocks 1 0 ≡ 0
  pub block : fs_cluster_read ide (get_or root.blocks 0 0) s ≡ some blk
  pub entries : free_entry blk 0 16 ≡ none

name_test : (name : List ℕ) → IsName name → (length name == 0 || ltb 24 (length name)) ≡ false
name_test name ok = lengths (length name) ok.0 ok.1
  where
    lengths : (n : ℕ) → 0 < n → n ≤ 24 → (n == 0 || ltb 24 n) ≡ false
    lengths n lo hi = ground (arith, lo, hi)

root_load_lem :
    {W : Type 0} (ide : Ide W) (root : Inode) (s : Fs W)
    → read_inode ide s.sb.root_inode s ≡ some root
    → root_load ide s ≡ (true, record s { root_cache = root })
unfolding root_load
root_load_lem {W} ide root s e =
    elim-some (λ (r : Bool × Fs W). r ≡ (true, record s { root_cache = root }))
      (read_inode ide s.sb.root_inode s) _ _ root e refl

root_ensure_lem :
    {W : Type 0} (ide : Ide W) (t : Fs W)
    → 0 < t.root_cache.size
    → root_ensure_block ide t ≡ (true, t)
unfolding root_ensure_block
root_ensure_lem {W} ide t h =
    if-true (λ (r : Bool × Fs W). r ≡ (true, t)) (ltb 0 t.root_cache.size) _ _
      (lt→ltb 0 t.root_cache.size h) refl

-- A directory whose only block is full takes no further entry: the call fails, and no block is added, however
-- many clusters are free.
pub dir_add_entry-IsFull :
    {W : Type 0} (ide : Ide W) (root : Inode) (blk : List ℕ) (s : Fs W) (name : List ℕ)
    (ino type : ℕ)
    → IsName name
    → IsFull ide root blk s
    → dir_add_entry ide name ino type s ≡ (false, record s { root_cache = root })
unfolding dir_add_entry add_loaded add_ensured
dir_add_entry-IsFull {W} ide root blk s name ino type ok f =
    let t : Fs W = record s { root_cache = root } in
    ap (add_loaded ide name ino type) (root_load_lem ide root s f.loaded)
    ∙ if-false (λ (r : Bool × Fs W). r ≡ (false, t)) (length name == 0 || ltb 24 (length name)) _ _
        (name_test name ok)
        (ap (add_ensured ide name ino type) (root_ensure_lem ide t f.size)
          ∙ add_in_passes ide t name ino type blk 0 9 f.first f.block f.entries
          ∙ add_in_ends ide t name ino type blk 1 9 f.second)
