-- ===== src/Fs/Files/Transfers.antt =====
-- The loops of noosfs.c over the chunks of a file: what a file written is when it is read.
use no_os.Base.{
  ℕ, zero, suc, ◌+◌, ◌-◌, ◌≤◌, ◌<◌, ◌≡◌, refl, sym, ap, ◌∙◌, ◌≢◌, true, false, Option, none, some,
  List, arith, ◌==◌, length, get_or, set, take, drop, replicate, length-append, length-replicate,
  length-take, if-cases, elim-cases, subst,
}
use no_os.Fs.{Ide, Fs, read_inode, fs_cluster_read, fs_cluster_write}
use no_os.Fs.Inodes.{IsDisk, IsLaidOut}
use no_os.Fs.Clusters.{Put, fs_cluster_write-Put}
use no_os.Fs.Space.{Owns, at_self, at_other}
use no_os.Fs.Files.{padded, block_for, write_chunks}
use no_os.Fs.Files.Places.{OnlyBits, Words, set-Words, Placed, block_for-Placed}

Owns-disk :
    {W : Type 0} (s : Fs W) (blocks : List ℕ) (w : W)
    → Owns s blocks
    → Owns (record s { disk = w }) blocks
Owns-disk s blocks w o = record { bits = o.bits; used = o.used; distinct = o.distinct }

length-padded : (content : List ℕ) → length (padded (take 512 content)) ≡ 512
unfolding padded
length-padded content = omega (
  arith,
  length-append {0} (take 512 content) (replicate (512 - length (take 512 content)) 0),
  length-replicate {0} {A = ℕ} (512 - length (take 512 content)) 0,
  length-take {0} 512 content,
)

pub pos : (c : ℕ) → c ≢ 0 → 0 < c
pos c ne = ground (arith, ne)

later : (i k : ℕ) → k < i → i ≢ k
later i k lt = ground (arith, lt)

not_same : (a b : ℕ) → a ≢ b → (a == b) ≡ false
not_same a b ne = ground (arith, ne)

module _ {W : Type 0} (ide : Ide W) where
  -- The places from `i` on hold the chunks of the content.
  abbrev pub Holds : ℕ → ℕ → List ℕ → List ℕ → Fs W → Type 0
  Holds i zero content blocks s = Unit
  Holds i (suc n) content blocks s =
      (get_or blocks i 0 ≢ 0)
      × (fs_cluster_read ide (get_or blocks i 0) s ≡ some (padded (take 512 content)))
      × Holds (i + 1) n (drop 512 content) blocks s

  pub record Written (i n : ℕ) (content blocks : List ℕ) (s : Fs W) (blocks' : List ℕ) (t : Fs W)
      : Type 0 where
    pub kept : (k : ℕ) → k < i → get_or blocks' k 0 ≡ get_or blocks k 0
    pub held : Holds i n content blocks' t
    pub frame :
        (k : ℕ)
        → k < i
        → get_or blocks k 0 ≢ 0
        → fs_cluster_read ide (get_or blocks k 0) t ≡ fs_cluster_read ide (get_or blocks k 0) s
    pub inodes : (j : ℕ) → j < 256 → read_inode ide j t ≡ read_inode ide j s
    pub sb : t.sb ≡ s.sb
    pub words : Words blocks'
    pub owns : Owns t blocks'

  abbrev pub Ends : ℕ → ℕ → List ℕ → List ℕ → Fs W → Option (List ℕ) × Fs W → Type 0
  Ends i n content blocks s (none, t) = Unit
  Ends i n content blocks s (some blocks', t) = Written i n content blocks s blocks' t

  OnlyBits-cluster :
      (s t : Fs W) (k : ℕ) → OnlyBits s t → fs_cluster_read ide k t ≡ fs_cluster_read ide k s
  unfolding fs_cluster_read
  OnlyBits-cluster s t k e = λ p. fs_cluster_read ide k (e p)

  OnlyBits-inode : (s t : Fs W) (j : ℕ) → OnlyBits s t → read_inode ide j t ≡ read_inode ide j s
  unfolding read_inode
  OnlyBits-inode s t j e = λ p. read_inode ide j (e p)

  module _ (i n : ℕ) (content blocks : List ℕ) (s s1 : Fs W) (c : ℕ) (hi : i < 10)
      (w : Words blocks) (pl : Placed s blocks i c s1) (t : Fs W)
      (put : Put ide c (padded (take 512 content)) s1 t) where
    -- One round in front of the rest.
    written_step :
        (r : Option (List ℕ) × Fs W)
        → Ends (i + 1) n (drop 512 content) (set blocks i c) t r
        → Ends i (suc n) content blocks s r
    written_step (none, u) h = h
    written_step (some blocks', u) h =
        let self : get_or blocks' i 0 ≡ c =
          h.kept i (omega arith) ∙ at_self blocks i c (omega (arith, w.0)) in
        let at = at_self blocks i c (omega (arith, w.0)) in
        let same : (c == c) ≡ true = ground arith in
        let seen : fs_cluster_read ide c u ≡ some (padded (take 512 content)) =
          (rw at at (h.frame i (omega arith))) pl.above ∙ put.clusters c ∙ rw same refl in
        record {
          kept = λ k lt.
              h.kept k (omega arith) ∙ at_other blocks i c (omega (arith, w.0)) k (later i k lt);
          held = (rw self pl.above, rw self seen, h.held);
          frame = λ k lt nz.
              let e = at_other blocks i c (omega (arith, w.0)) k (later i k lt) in
              let differ : (c == get_or blocks k 0) ≡ false =
                not_same _ _ (λ q. pl.unshared k (λ x. later i k lt (sym x)) nz (sym q)) in
              (rw e at (h.frame k (omega arith))) nz
              ∙ put.clusters (get_or blocks k 0)
              ∙ rw differ refl
              ∙ OnlyBits-cluster s s1 (get_or blocks k 0) pl.rest;
          inodes = λ j lt. h.inodes j lt ∙ put.inodes j lt ∙ OnlyBits-inode s s1 j pl.rest;
          sb = h.sb ∙ (λ p. (put.rest p).sb) ∙ (λ p. (pl.rest p).sb);
          words = h.words;
          owns = h.owns;
        }

module _ {W : Type 0} (ide : Ide W) (d : IsDisk ide) where
  pub write_chunks-Written :
      (i n : ℕ) (content blocks : List ℕ) (s : Fs W)
      → i + n ≤ 10
      → s.mounted ≡ true
      → IsLaidOut s.sb
      → Owns s blocks
      → Words blocks
      → Ends ide i n content blocks s (write_chunks ide i n content blocks s)
  unfolding write_chunks
  write_chunks-Written i zero content blocks s h m g o w = record {
    kept = λ k lt. refl;
    held = tt;
    frame = λ k lt nz. refl;
    inodes = λ j lt. refl;
    sb = refl;
    words = w;
    owns = o;
  }
  write_chunks-Written i (suc n) content blocks s h m g o w =
      let E = Ends ide i (suc n) content blocks s in
      let got = block_for ide i blocks s in
      elim-cases E got.0 _ _ tt (λ c e.
        let pl : Placed s blocks i c got.1 =
          block_for-Placed ide s i blocks (omega arith) o w m c e in
        let same : got.1.sb ≡ s.sb = λ p. (pl.rest p).sb in
        let buf = padded (take 512 content) in
        let put = fs_cluster_write ide c buf got.1 in
        if-cases E put.0 _ _
          (λ done.
            let lt : c < got.1.sb.block_count =
              omega (arith, pl.below, ap (λ sb. sb.block_count) same) in
            let P =
              fs_cluster_write-Put ide d got.1 (subst IsLaidOut (sym same) g) c buf (pos c pl.above)
                lt (length-padded content) done in
            let same' : put.1.sb ≡ s.sb = (λ p. (P.rest p).sb) ∙ same in
            written_step ide i n content blocks s got.1 c (omega arith) w pl put.1 P _ (
              write_chunks-Written (i + 1) n (drop 512 content) (set blocks i c) put.1 (omega arith)
                ((λ p. (P.rest p).mounted) ∙ (λ p. (pl.rest p).mounted) ∙ m)
                (subst IsLaidOut (sym same') g)
                (subst (λ u. Owns u (set blocks i c)) (sym P.rest)
                  (Owns-disk got.1 (set blocks i c) put.1.disk pl.owns))
                (set-Words blocks i c w (omega (arith, pl.below, g.top)))))
          (λ fail. tt))
