-- ===== src/Fs/Space.antt =====
-- The allocation of clusters in noosfs.c: what the bitmap says of the clusters of one file.
use no_os.Base.{
  ℕ, ◌-◌, ◌<◌, ◌≡◌, refl, sym, ◌∙◌, ◌≢◌, true, false, Option, none, some, List, arith, ◌==◌,
  if◌then◌else◌, length, get_or, set, get_or-set_self, get_or-set_ne, ℕ_discrete, if-cases,
  Bool-clash,
}
use no_os.Mm.Bitmap.{
  bitmap_set, bitmap_test, IsBitmap, test-set, set-IsBitmap, Found, first_clear-Found,
}
use no_os.Fs.{Ide, Fs, fs_alloc_cluster}

-- The clusters that the list of a file names are in use, exist, and no two places name the same one.
pub record Owns {W : Type 0} (s : Fs W) (blocks : List ℕ) : Type 0 where
  pub bits : IsBitmap s.sb.block_count s.cluster_bitmap
  pub used :
      (k : ℕ)
      → get_or blocks k 0 ≢ 0
      → (get_or blocks k 0 < s.sb.block_count)
        × (bitmap_test s.cluster_bitmap (get_or blocks k 0) ≡ true)
  pub distinct : (k l : ℕ) → k ≢ l → get_or blocks k 0 ≢ 0 → get_or blocks k 0 ≢ get_or blocks l 0

-- What an allocation leaves: nothing changed where every cluster but 0 is taken, and else the lowest free one taken.
pub record Taken {W : Type 0} (s : Fs W) (c : ℕ) (t : Fs W) : Type 0 where
  pub above : 0 < c
  pub below : c < s.sb.block_count
  pub was_free : bitmap_test s.cluster_bitmap c ≡ false
  pub lowest : (k : ℕ) → 0 < k → k < c → bitmap_test s.cluster_bitmap k ≡ true
  pub bits : IsBitmap s.sb.block_count t.cluster_bitmap
  pub bit :
      (k : ℕ)
      → bitmap_test t.cluster_bitmap k ≡ (if c == k then true else bitmap_test s.cluster_bitmap k)
  pub rest : t ≡ record s { cluster_bitmap = t.cluster_bitmap }

abbrev pub Allocated : {W : Type 0} → Fs W → Option ℕ × Fs W → Type 0
Allocated s (none, t) =
    (t ≡ s) × ((k : ℕ) → 0 < k → k < s.sb.block_count → bitmap_test s.cluster_bitmap k ≡ true)
Allocated s (some c, t) = Taken s c t

module _ {W : Type 0} (ide : Ide W) (s : Fs W)
    (v : IsBitmap s.sb.block_count s.cluster_bitmap) where
  alloc_by :
      (o : Option ℕ)
      → s.mounted ≡ true
      → Found s.cluster_bitmap 1 (s.sb.block_count - 1) o
      → Allocated s (elim o [
        | none ↦ (none, s)
        | some c ↦ (some c, record s { cluster_bitmap = bitmap_set s.cluster_bitmap c })
      ])
  alloc_by none m f = (refl, λ k lo hi. f k (omega arith) (omega arith))
  alloc_by (some c) m f =
      let below : c < s.sb.block_count = omega (arith, f.0, f.1) in
      record {
        above = omega (arith, f.0);
        below = below;
        was_free = f.2;
        lowest = λ k lo hi. f.3 k (omega arith) hi;
        bits = set-IsBitmap s.cluster_bitmap v c below;
        bit = test-set s.cluster_bitmap v c below;
        rest = refl;
      }

  -- On a mounted file system whose bitmap in memory has a bit for every cluster an allocation fails, and
  -- changes nothing, only when every cluster but cluster 0 is in use; else it takes the lowest free
  -- cluster, marks exactly it, and changes nothing else.
  pub fs_alloc_cluster-Allocated : s.mounted ≡ true → Allocated s (fs_alloc_cluster ide s)
  unfolding fs_alloc_cluster
  fs_alloc_cluster-Allocated m =
      if-cases (Allocated s) s.mounted _ _
        (λ e. alloc_by _ m (first_clear-Found s.cluster_bitmap 1 (s.sb.block_count - 1)))
        (λ e. absurd (Bool-clash s.mounted m e))

-- A list of blocks after the write of a place, by place.
module _ (blocks : List ℕ) (i c : ℕ) (h : i < length blocks) where
  pub at_self : get_or (set blocks i c) i 0 ≡ c
  at_self = get_or-set_self blocks i c 0 h

  pub at_other : (k : ℕ) → i ≢ k → get_or (set blocks i c) k 0 ≡ get_or blocks k 0
  at_other k ne = get_or-set_ne blocks i k c 0 ne

module _ {W : Type 0} (s t : Fs W) (blocks : List ℕ) (o : Owns s blocks) (same : t.sb ≡ s.sb) where
  module _ (bits : IsBitmap t.sb.block_count t.cluster_bitmap) (i c : ℕ)
      (h : i < length blocks) where
    -- The place gets a cluster that is in use and that no other place names.
    pub set-Owns :
        c < s.sb.block_count
        → c ≢ 0
        → bitmap_test t.cluster_bitmap c ≡ true
        → ((k : ℕ) → bitmap_test s.cluster_bitmap k ≡ true → bitmap_test t.cluster_bitmap k ≡ true)
        → ((k : ℕ) → k ≢ i → get_or blocks k 0 ≢ c)
        → Owns t (set blocks i c)
    set-Owns lt nz is_used kept fresh = record {
      bits = bits;
      used = λ k ne. elim (ℕ_discrete i k) [
        | yes q ↦
            let e : get_or (set blocks i c) k 0 ≡ c = rw (← q) (at_self blocks i c h) in
            rw (e, same) (lt, is_used)
        | no q ↦
            let e = at_other blocks i c h k q in
            let u = o.used k (rw e at ne) in rw (e, same) (u.0, kept _ u.1)
      ];
      distinct = λ k l kl ne. elim (ℕ_discrete i k) [
        | yes q ↦
            let e : get_or (set blocks i c) k 0 ≡ c = rw (← q) (at_self blocks i c h) in
            let il : i ≢ l = λ r. kl (sym q ∙ r) in
            let el = at_other blocks i c h l il in
            rw (e, el) (λ r. fresh l (λ x. il (sym x)) (sym r))
        | no q ↦ elim (ℕ_discrete i l) [
          | yes r ↦
              let e = at_other blocks i c h k q in
              let el : get_or (set blocks i c) l 0 ≡ c = rw (← r) (at_self blocks i c h) in
              rw (e, el) (fresh k (λ x. q (sym x)))
          | no r ↦
              let e = at_other blocks i c h k q in
              let el = at_other blocks i c h l r in rw (e, el) (o.distinct k l kl (rw e at ne))
        ]
      ];
    }

    -- The place is given up, and the clusters of the other places stay in use.
    pub set_zero-Owns :
        ((k : ℕ)
          → k ≢ get_or blocks i 0
          → bitmap_test t.cluster_bitmap k ≡ bitmap_test s.cluster_bitmap k)
        → Owns t (set blocks i 0)
    set_zero-Owns kept = record {
      bits = bits;
      used = λ k ne. elim (ℕ_discrete i k) [
        | yes q ↦
            let e : get_or (set blocks i 0) k 0 ≡ 0 = rw (← q) (at_self blocks i 0 h) in
            absurd (ne e)
        | no q ↦
            let e = at_other blocks i 0 h k q in
            let nz : get_or blocks k 0 ≢ 0 = rw e at ne in
            let u = o.used k nz in
            rw (e, same) (u.0, kept _ (o.distinct k i (λ x. q (sym x)) nz) ∙ u.1)
      ];
      distinct = λ k l kl ne. elim (ℕ_discrete i k) [
        | yes q ↦
            let e : get_or (set blocks i 0) k 0 ≡ 0 = rw (← q) (at_self blocks i 0 h) in
            absurd (ne e)
        | no q ↦ elim (ℕ_discrete i l) [
          | yes r ↦
              let el : get_or (set blocks i 0) l 0 ≡ 0 = rw (← r) (at_self blocks i 0 h) in rw el ne
          | no r ↦
              let e = at_other blocks i 0 h k q in
              let el = at_other blocks i 0 h l r in rw (e, el) (o.distinct k l kl (rw e at ne))
        ]
      ];
    }
