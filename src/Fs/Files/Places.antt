-- ===== src/Fs/Files/Places.antt =====
-- The places of a file's list of clusters in noosfs.c: what giving a place up and filling it leave.
use no_os.Base.{
  ℕ, zero, suc, ◌+◌, ◌^◌, ◌≤◌, ◌<◌, ◌≡◌, refl, sym, ap, ◌∙◌, ◌≢◌, Bool, true, false, Option, none,
  some, List, arith, ltb, ◌==◌, if◌then◌else◌, lt→ltb, length, get_or, set, All, length-set,
  All-set, ℕ_discrete, if-cases, Bool-clash,
}
use no_os.Mm.Bitmap.{bitmap_clear, test-clear, clear-IsBitmap}
use no_os.Fs.{Ide, Fs, fs_alloc_cluster, fs_free_cluster}
use no_os.Fs.Files.{free_beyond, block_for}
use no_os.Fs.Space.{Owns, Allocated, fs_alloc_cluster-Allocated, set-Owns, set_zero-Owns}

-- No part of the state but the bitmap has changed.
abbrev pub OnlyBits : {W : Type 0} → Fs W → Fs W → Type 0
OnlyBits s t = t ≡ record s { cluster_bitmap = t.cluster_bitmap }

OnlyBits-trans : {W : Type 0} (s t u : Fs W) → OnlyBits s t → OnlyBits t u → OnlyBits s u
OnlyBits-trans s t u h k = k ∙ (λ e. record (h e) { cluster_bitmap = u.cluster_bitmap })

abbrev pub Words : List ℕ → Type 0
Words blocks = (length blocks ≡ 10) × All (λ v. v < 2 ^ 32) blocks

pub set-Words : (blocks : List ℕ) (i c : ℕ) → Words blocks → c < 2 ^ 32 → Words (set blocks i c)
set-Words blocks i c w h = (length-set blocks i c ∙ w.0, All-set (λ v. v < 2 ^ 32) blocks i c w.1 h)

-- A state and a list of clusters after places were given up.
pub record Freed {W : Type 0} (s : Fs W) (blocks : List ℕ) (t : Fs W) : Type 0 where
  pub owns : Owns t blocks
  pub words : Words blocks
  pub rest : OnlyBits s t

module _ {W : Type 0} (ide : Ide W) where
  fs_free_cluster-Freed :
      (s : Fs W) (i : ℕ) (blocks : List ℕ)
      → i < 10
      → Owns s blocks
      → Words blocks
      → get_or blocks i 0 ≢ 0
      → Freed s (set blocks i 0) (fs_free_cluster ide (get_or blocks i 0) s)
  unfolding fs_free_cluster
  fs_free_cluster-Freed s i blocks hi o w nz =
      let c = get_or blocks i 0 in
      let u = o.used i nz in
      let t = record s { cluster_bitmap = bitmap_clear s.cluster_bitmap c } in
      if-cases (Freed s (set blocks i 0)) (ltb c s.sb.block_count) _ _
        (λ e. record {
          owns =
              set_zero-Owns s t blocks o refl (clear-IsBitmap s.cluster_bitmap o.bits c u.0) i 0
                (omega (arith, w.0))
                (λ k ne.
                  let differ : (c == k) ≡ false = ground (arith, ne) in
                  test-clear s.cluster_bitmap o.bits c u.0 k ∙ rw differ refl);
          words = set-Words blocks i 0 w (omega arith);
          rest = refl;
        })
        (λ e. absurd (Bool-clash (ltb c s.sb.block_count) (lt→ltb c s.sb.block_count u.0) e))

  pub free_beyond-Freed :
      (s : Fs W) (i n : ℕ) (blocks : List ℕ)
      → i + n ≤ 10
      → Owns s blocks
      → Words blocks
      → Freed s (free_beyond ide i n blocks s).0 (free_beyond ide i n blocks s).1
  unfolding free_beyond
  free_beyond-Freed s i zero blocks h o w = record { owns = o; words = w; rest = refl }
  free_beyond-Freed s i (suc n) blocks h o w =
      if-cases (λ (r : List ℕ × Fs W). Freed s r.0 r.1) (get_or blocks i 0 == 0) _ _
        (λ e. free_beyond-Freed s (i + 1) n blocks (omega arith) o w)
        (λ e.
          let nz : get_or blocks i 0 ≢ 0 = λ z. ground (arith, z) in
          let f = fs_free_cluster-Freed s i blocks (omega arith) o w nz in
          let g =
            free_beyond-Freed (fs_free_cluster ide (get_or blocks i 0) s) (i + 1) n (set blocks i 0)
              (omega arith) f.owns f.words in
          record { owns = g.owns; words = g.words; rest = OnlyBits-trans s _ _ f.rest g.rest })

if_same {ℓ} : {A : Type ℓ} (b : Bool) (x y : A) → x ≡ y → (if b then x else y) ≡ y
if_same true x y e = e
if_same false x y e = refl

-- A state after the place `i` was filled with `c`.
pub record Placed {W : Type 0} (s : Fs W) (blocks : List ℕ) (i c : ℕ) (t : Fs W) : Type 0 where
  pub above : c ≢ 0
  pub below : c < s.sb.block_count
  pub unshared : (k : ℕ) → k ≢ i → get_or blocks k 0 ≢ 0 → get_or blocks k 0 ≢ c
  pub owns : Owns t (set blocks i c)
  pub rest : OnlyBits s t

Fills : {W : Type 0} → Fs W → List ℕ → ℕ → Option ℕ × Fs W → Type 0
Fills s blocks i (none, t) = OnlyBits s t
Fills s blocks i (some c, t) = Placed s blocks i c t

module _ {W : Type 0} (s : Fs W) (i : ℕ) (blocks : List ℕ) (hi : i < 10) (o : Owns s blocks)
    (w : Words blocks) where
  filled_new : (r : Option ℕ × Fs W) → get_or blocks i 0 ≡ 0 → Allocated s r → Fills s blocks i r
  unfolding Fills
  filled_new (none, t) z a = a.0 ∙ (λ e. record s { cluster_bitmap = (sym a.0 e).cluster_bitmap })
  filled_new (some c, t) z a =
      let nz : c ≢ 0 = λ e. ground (arith, a.above, e) in
      let same : t.sb ≡ s.sb = λ e. (a.rest e).sb in
      let self : (c == c) ≡ true = ground arith in
      let fresh : (k : ℕ) → get_or blocks k 0 ≢ 0 → get_or blocks k 0 ≢ c =
        λ k z e. Bool-clash _ (o.used k z).1 (rw e a.was_free) in
      record {
        above = nz;
        below = a.below;
        unshared = λ k ne. fresh k;
        owns =
            set-Owns s t blocks o same
              (a.bits.0, omega (arith, a.bits.1, ap (λ sb. sb.block_count) same)) i c
              (omega (arith, w.0)) a.below nz (a.bit c ∙ rw self refl)
              (λ k h. a.bit k ∙ if_same (c == k) true _ (sym h) ∙ h)
              (λ k ne. elim (ℕ_discrete (get_or blocks k 0) 0) [
                | yes e ↦ rw e (λ q. nz (sym q))
                | no e ↦ fresh k e
              ]);
        rest = a.rest;
      }

  filled_old : get_or blocks i 0 ≢ 0 → Placed s blocks i (get_or blocks i 0) s
  filled_old nz =
      let u = o.used i nz in
      let fresh : (k : ℕ) → k ≢ i → get_or blocks k 0 ≢ get_or blocks i 0 = λ k ne.
        elim (ℕ_discrete (get_or blocks k 0) 0) [
          | yes e ↦ rw e (λ q. nz (sym q))
          | no e ↦ o.distinct k i ne e
        ] in
      record {
        above = nz;
        below = u.0;
        unshared = λ k ne z. fresh k ne;
        owns =
            set-Owns s s blocks o refl o.bits i (get_or blocks i 0) (omega (arith, w.0)) u.0 nz u.1
              (λ k h. h) fresh;
        rest = refl;
      }

block_for-Fills :
    {W : Type 0} (ide : Ide W) (s : Fs W) (i : ℕ) (blocks : List ℕ)
    → i < 10
    → Owns s blocks
    → Words blocks
    → s.mounted ≡ true
    → Fills s blocks i (block_for ide i blocks s)
unfolding block_for Fills
block_for-Fills ide s i blocks hi o w m =
    if-cases (Fills s blocks i) (get_or blocks i 0 == 0) _ _
      (λ e.
        filled_new s i blocks hi o w (fs_alloc_cluster ide s) (ground (arith, e))
          (fs_alloc_cluster-Allocated ide s o.bits m))
      (λ e. filled_old s i blocks hi o w (λ z. ground (arith, z, e)))

filled_at :
    {W : Type 0} (s : Fs W) (i : ℕ) (blocks : List ℕ) (r : Option ℕ × Fs W)
    → Fills s blocks i r
    → (c : ℕ) → r.0 ≡ some c
    → Placed s blocks i c r.1
unfolding Fills
filled_at s i blocks (none, t) f c e = cc
filled_at s i blocks (some k, t) f c e = let q : k ≡ c = cc in rw (← q) f

pub block_for-Placed :
    {W : Type 0} (ide : Ide W) (s : Fs W) (i : ℕ) (blocks : List ℕ)
    → i < 10
    → Owns s blocks
    → Words blocks
    → s.mounted ≡ true
    → (c : ℕ) → (block_for ide i blocks s).0 ≡ some c
    → Placed s blocks i c (block_for ide i blocks s).1
block_for-Placed ide s i blocks hi o w m =
    filled_at s i blocks (block_for ide i blocks s) (block_for-Fills ide s i blocks hi o w m)
