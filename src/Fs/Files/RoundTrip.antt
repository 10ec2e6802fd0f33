-- ===== src/Fs/Files/RoundTrip.antt =====
-- A file of noosfs.c that is written and read again.
use no_os.Base.{
  ℕ, zero, suc, ◌+◌, ◌-◌, ◌*◌, ◌/◌, ◌%◌, ◌^◌, ◌≤◌, ◌<◌, min, bit_or, ◌≡◌, refl, sym, ◌∙◌, ◌≢◌, Bool,
  true, not, ◌||◌, Option, none, some, List, [], ◌∷◌, ◌++◌, arith, ltb, ◌==◌, length, get_or, take,
  drop, replicate, length-drop, dec_lt, ℕ_discrete, if-cases, elim-cases, subst,
}
use no_os.Fs.{Ide, Fs, Inode, read_inode, write_inode, fs_cluster_read}
use no_os.Fs.Bytes.{FitsInode}
use no_os.Fs.Inodes.{IsDisk, IsLaidOut, read-write_inode}
use no_os.Fs.Clusters.{cluster_read-write_inode}
use no_os.Fs.Files.{save_inode}
use no_os.Fs.Space.{Owns}
use no_os.Fs.Files.{padded, free_beyond, write_chunks, read_chunks, fs_write_file, fs_read_file}
use no_os.Fs.Files.Places.{Words, free_beyond-Freed}
use no_os.Fs.Files.Transfers.{pos, Holds, Ends, write_chunks-Written}

take_front :
    (k b : ℕ) (xs zs : List ℕ) → k ≤ b → k ≤ length xs → take k (take b xs ++ zs) ≡ take k xs
take_front zero b xs zs h l = refl
take_front (suc k) zero xs zs h l = absurd (omega arith)
take_front (suc k) (suc b) [] zs h l = absurd (omega arith)
take_front (suc k) (suc b) (x ∷ xs) zs h l =
    λ p. x ∷ take_front k b xs zs (omega arith) (omega arith) p

take_split : (b n : ℕ) (xs : List ℕ) → b ≤ n → take n xs ≡ take b xs ++ take (n - b) (drop b xs)
take_split zero n xs h = let e : n ≡ n - 0 = omega arith in λ p. take (e p) xs
take_split (suc b) zero xs h = absurd (omega arith)
take_split (suc b) (suc n) [] h = take_nil (suc n - suc b)
  where
    take_nil : (m : ℕ) → [] ≡ take {A = ℕ} m []
    take_nil zero = refl
    take_nil (suc m) = refl
take_split (suc b) (suc n) (x ∷ xs) h =
    let e : n - b ≡ suc n - suc b = omega arith in
    (λ p. x ∷ take_split b n xs (omega arith) p) ∙ (λ p. x ∷ (take b xs ++ take (e p) (drop b xs)))

append_nil : (xs : List ℕ) → xs ++ [] ≡ xs
append_nil [] = refl
append_nil (x ∷ xs) = λ p. x ∷ append_nil xs p

chunk_then_rest :
    (left : ℕ) (content : List ℕ)
    → left ≤ length content
    → take (min left 512) (padded (take 512 content))
        ++ take (left - min left 512) (drop 512 content)
      ≡ take left content
unfolding padded
chunk_then_rest left content h = elim (dec_lt left 512) [
  | yes lt ↦
      let e : min left 512 ≡ left = omega arith in
      let z : left - left ≡ 0 = omega arith in
      rw
        (
          e,
          z,
          take_front left 512 content (replicate (512 - length (take 512 content)) 0) (omega arith)
              h,
        )
        (append_nil (take left content))
  | no ge ↦
      let e : min left 512 ≡ 512 = omega arith in
      rw
        (
          e,
          take_front 512 512 content (replicate (512 - length (take 512 content)) 0) (omega arith)
              (omega arith),
        )
        (sym (take_split 512 left content (omega arith)))
]

some_inj {ℓ} : {A : Type ℓ} {x y : A} → some x ≡ some y → x ≡ y
some_inj e = cc

more_left : (left c : ℕ) → left ≢ 0 → c ≢ 0 → (left == 0 || c == 0) ≢ true
more_left left c hl hc e = ground (arith, hl, hc, e)

take_all : (xs : List ℕ) (m : ℕ) → length xs ≤ m → take m xs ≡ xs
take_all [] zero h = refl
take_all [] (suc m) h = refl
take_all (x ∷ xs) zero h = absurd (omega arith)
take_all (x ∷ xs) (suc m) h = λ p. x ∷ take_all xs m (omega arith) p

take-min : (xs : List ℕ) (m : ℕ) → take (min (length xs) m) xs ≡ take m xs
take-min xs m = elim (dec_lt m (length xs)) [
  | yes lt ↦ let e : min (length xs) m ≡ m = omega arith in λ p. take (e p) xs
  | no ge ↦
      let e : min (length xs) m ≡ length xs = omega arith in
      (λ p. take (e p) xs)
      ∙ take_all xs (length xs) (omega arith)
      ∙ sym (take_all xs m (omega arith))
]

sub_zero : (n : ℕ) → n - 0 ≡ n
sub_zero n = omega arith

module _ {W : Type 0} (ide : Ide W) where
  nothing_left : (i m : ℕ) (blocks : List ℕ) (s : Fs W) → read_chunks ide i m 0 blocks s ≡ ([], 0)
  unfolding read_chunks
  nothing_left i zero blocks s = refl
  nothing_left i (suc m) blocks s = refl

  read_chunks-Holds :
      (i m n left : ℕ) (content blocks : List ℕ) (s : Fs W)
      → n ≤ m
      → left ≤ length content
      → length content ≤ 512 * n
      → Holds ide i n content blocks s
      → read_chunks ide i m left blocks s ≡ (take left content, 0)
  unfolding read_chunks
  read_chunks-Holds i m zero left content blocks s nm h l k =
      let z : left ≡ 0 = omega arith in rw z (nothing_left i m blocks s)
  read_chunks-Holds i zero (suc n) left content blocks s nm h l k = absurd (omega arith)
  read_chunks-Holds i (suc m) (suc n) left content blocks s nm h l k = elim (ℕ_discrete left 0) [
    | yes z ↦ rw z (nothing_left i (suc m) blocks s)
    | no ne ↦
        let P = λ (r : List ℕ × ℕ). r ≡ (take left content, 0) in
        let c = get_or blocks i 0 in
        let rest : read_chunks ide (i + 1) m (left - min left 512) blocks s
            ≡ (take (left - min left 512) (drop 512 content), 0) =
          read_chunks-Holds (i + 1) m n (left - min left 512) (drop 512 content) blocks s
            (omega arith) (omega (arith, length-drop {0} 512 content))
            (omega (arith, length-drop {0} 512 content)) k.2 in
        if-cases P (left == 0 || c == 0) _ _ (λ e. absurd (more_left left c ne k.0 e))
          (λ e.
            (λ p. elim (k.1 p) as (λ o. List ℕ × ℕ) [
              | none ↦ ([], left)
              | some block ↦ (take (min left 512) block ++ (rest p).0, (rest p).1)
            ])
            ∙ (λ p. (chunk_then_rest left content h p, 0)))
  ]

  Holds-frame :
      (i n : ℕ) (content blocks : List ℕ) (s t : Fs W)
      → ((k : ℕ) → 0 < k → fs_cluster_read ide k t ≡ fs_cluster_read ide k s)
      → Holds ide i n content blocks s
      → Holds ide i n content blocks t
  Holds-frame i zero content blocks s t e h = tt
  Holds-frame i (suc n) content blocks s t e h =
      (h.0, e _ (pos _ h.0) ∙ h.1, Holds-frame (i + 1) n (drop 512 content) blocks s t e h.2)

abbrev saved : Inode → ℕ → ℕ → List ℕ → Inode
saved inode size ticks blocks = record inode {
  mode = bit_or inode.mode 0x8000 % 2 ^ 16;
  nlinks = 1;
  size = size;
  mtime = ticks % 2 ^ 32;
  blocks = blocks;
}

saved-FitsInode :
    (inode : Inode) (size ticks : ℕ) (blocks : List ℕ)
    → FitsInode inode
    → size ≤ 5120
    → Words blocks
    → FitsInode (saved inode size ticks blocks)
saved-FitsInode inode size ticks blocks f h w = record {
  mode = omega arith;
  nlinks = omega arith;
  size = omega arith;
  mtime = omega arith;
  flags = f.flags;
  count = w.0;
  blocks = w.1;
  reserved = f.reserved;
}

module _ {W : Type 0} (ide : Ide W) (d : IsDisk ide) (s : Fs W) (g : IsLaidOut s.sb) where
  read_saved :
      (ino n most ticks : ℕ) (content kept : List ℕ) (inode : Inode) (r : Option (List ℕ) × Fs W)
      → ino < 256
      → n ≤ 10
      → length content ≤ 512 * n
      → FitsInode inode
      → Ends ide 0 n content kept s r
      → (save_inode ide ino inode (length content) ticks r).0 ≡ true
      → fs_read_file ide ino most (save_inode ide ino inode (length content) ticks r).1
        ≡ (min (length content) most, take most content)
  unfolding save_inode fs_read_file
  read_saved ino n most ticks content kept inode (none, t) hi hn l f x done = cc
  read_saved ino n most ticks content kept inode (some blocks, t) hi hn l f x done =
      let new = saved inode (length content) ticks blocks in
      let laid = subst IsLaidOut (sym x.sb) g in
      let self : (ino == ino) ≡ true = ground arith in
      let u = (write_inode ide ino new t).1 in
      let found : read_inode ide ino u ≡ some new =
        read-write_inode ide d t laid ino ino new hi hi
          (saved-FitsInode inode (length content) ticks blocks f (omega arith) x.words) done
        ∙ rw self refl in
      let chunks =
        read_chunks-Holds ide 0 10 n (min (length content) most) content blocks u hn (omega arith) l
          (Holds-frame ide 0 n content blocks t u
            (λ k q. cluster_read-write_inode ide d t laid ino new k hi q done) x.held) in
      (λ p. elim (found p) as (λ o. ℕ × List ℕ) [
        | none ↦ (0, [])
        | some i ↦
            let want = min i.size most in
            let (bytes, missed) = read_chunks ide 0 10 want i.blocks u in (want - missed, bytes)
      ])
      ∙ (λ p. (min (length content) most - (chunks p).1, (chunks p).0))
      ∙ (λ p. (sub_zero (min (length content) most) p, take-min content most p))

module _ {W : Type 0} (ide : Ide W) (d : IsDisk ide) (s : Fs W) (g : IsLaidOut s.sb) where
  -- On a mounted file system whose areas are laid out and whose bitmap and inode own the file's clusters, a
  -- content that `fs_write_file` has written with success is what `fs_read_file` gives, up to the size of
  -- the buffer.
  pub read-write_file :
      (ino most ticks : ℕ) (content : List ℕ) (inode : Inode)
      → ino < 256
      → s.mounted ≡ true
      → read_inode ide ino s ≡ some inode
      → FitsInode inode
      → Owns s inode.blocks
      → (fs_write_file ide ino content ticks s).0 ≡ true
      → fs_read_file ide ino most (fs_write_file ide ino content ticks s).1
        ≡ (min (length content) most, take most content)
  unfolding fs_write_file
  read-write_file ino most ticks content inode hi m e f o =
      let n = (length content + 512 - 1) / 512 in
      let P = λ (r : Bool × Fs W).
        r.0 ≡ true
        → fs_read_file ide ino most r.1 ≡ (min (length content) most, take most content) in
      if-cases P (not s.mounted || ltb 10 n) _ _ (λ h done. cc)
        (λ h.
          let hn : n ≤ 10 = ground (arith, h, m) in
          elim-cases P (read_inode ide ino s) _ _ (λ done. cc)
            (λ i q.
              let same : i ≡ inode = some_inj (sym q ∙ e) in
              let fi = subst FitsInode (sym same) f in
              let freed =
                free_beyond-Freed ide s n (10 - n) i.blocks (omega arith)
                  (subst (λ x. Owns s x.blocks) (sym same) o) (fi.count, fi.blocks) in
              let (kept, t) = free_beyond ide n (10 - n) i.blocks s in
              let laid : IsLaidOut t.sb = subst (λ x. IsLaidOut x.sb) (sym freed.rest) g in
              read_saved ide d t laid ino n most ticks content kept i
                (write_chunks ide 0 n content kept t) hi hn (omega arith) fi
                (write_chunks-Written ide d 0 n content kept t (omega arith)
                  ((λ p. (freed.rest p).mounted) ∙ m) laid freed.owns freed.words)))
