-- ===== src/Fs/Bytes.antt =====
-- Structures of noosfs.c as bytes: numbers in little-endian order, copies into buffers, and the image of an inode.
use no_os.Base.{
  ℕ, zero, suc, ◌+◌, ◌*◌, ◌/◌, ◌^◌, ◌≤◌, ◌<◌, ◌≡◌, refl, ap, ap₂, ◌∙◌, ◌⊎◌, inl, inr, List, [], ◌∷◌,
  ◌++◌, arith, length, take, drop, replicate, All, length-append,
}
use native.Mathlib.Nat.{pow-suc}
use no_os.Fs.{
  Inode, to_le, from_le, slice, cover, overwrite, read_words, word_bytes, inode_of, inode_image,
}

pub from_le-to_le : (k n : ℕ) → n < 256 ^ k → from_le (to_le k n) ≡ n
unfolding from_le to_le
from_le-to_le zero n h = omega arith
from_le-to_le (suc k) n h =
    omega (arith, pow-suc 256 k, from_le-to_le k (n / 256) (omega (arith, pow-suc 256 k)))

pub length-to_le : (k n : ℕ) → length (to_le k n) ≡ k
unfolding to_le
length-to_le zero n = refl
length-to_le (suc k) n = ap suc (length-to_le k (n / 256))

module _ {ℓ} {A : Type ℓ} where
  pub length-cover : (xs ys : List A) → length (cover xs ys) ≡ length xs
  unfolding cover
  length-cover [] ys = refl
  length-cover (x ∷ xs) [] = refl
  length-cover (x ∷ xs) (y ∷ ys) = ap suc (length-cover xs ys)

  pub length-overwrite :
      (xs : List A) (off : ℕ) (ys : List A) → length (overwrite xs off ys) ≡ length xs
  unfolding overwrite
  length-overwrite xs zero ys = length-cover xs ys
  length-overwrite [] (suc off) ys = refl
  length-overwrite (x ∷ xs) (suc off) ys = ap suc (length-overwrite xs off ys)

  take-cover : (xs ys : List A) → length ys ≤ length xs → take (length ys) (cover xs ys) ≡ ys
  unfolding cover
  take-cover [] [] h = refl
  take-cover [] (y ∷ ys) h = absurd (omega arith)
  take-cover (x ∷ xs) [] h = refl
  take-cover (x ∷ xs) (y ∷ ys) h = ap (λ r. y ∷ r) (take-cover xs ys (omega arith))

  drop-cover : (xs ys : List A) (k : ℕ) → length ys ≤ k → drop k (cover xs ys) ≡ drop k xs
  unfolding cover
  drop-cover [] ys k h = refl
  drop-cover (x ∷ xs) [] k h = refl
  drop-cover (x ∷ xs) (y ∷ ys) zero h = absurd (omega arith)
  drop-cover (x ∷ xs) (y ∷ ys) (suc k) h = drop-cover xs ys k (omega arith)

  take-overwrite :
      (xs : List A) (off : ℕ) (ys : List A) (n : ℕ)
      → n ≤ off
      → take n (overwrite xs off ys) ≡ take n xs
  unfolding overwrite
  take-overwrite xs off ys zero h = refl
  take-overwrite xs zero ys (suc n) h = absurd (omega arith)
  take-overwrite [] (suc off) ys (suc n) h = refl
  take-overwrite (x ∷ xs) (suc off) ys (suc n) h =
      ap (λ r. x ∷ r) (take-overwrite xs off ys n (omega arith))

  -- What was copied is read back.
  slice-overwrite :
      (xs : List A) (off : ℕ) (ys : List A)
      → off + length ys ≤ length xs
      → slice (overwrite xs off ys) off (length ys) ≡ ys
  unfolding slice overwrite
  slice-overwrite xs zero ys h = take-cover xs ys (omega arith)
  slice-overwrite [] (suc off) [] h = absurd (omega arith)
  slice-overwrite [] (suc off) (y ∷ ys) h = absurd (omega arith)
  slice-overwrite (x ∷ xs) (suc off) ys h = slice-overwrite xs off ys (omega arith)

  pub slice-overwrite_of :
      (xs : List A) (off : ℕ) (ys : List A) (n : ℕ)
      → length ys ≡ n
      → off + n ≤ length xs
      → slice (overwrite xs off ys) off n ≡ ys
  slice-overwrite_of xs off ys n e h = rw (← e) (slice-overwrite xs off ys (omega (arith, e)))

  -- Bytes beside the copy stay.
  pub slice-overwrite_apart :
      (xs : List A) (off : ℕ) (ys : List A) (at n : ℕ)
      → (at + n ≤ off) ⊎ (off + length ys ≤ at)
      → slice (overwrite xs off ys) at n ≡ slice xs at n
  unfolding slice overwrite
  slice-overwrite_apart xs off ys zero n (inl h) = take-overwrite xs off ys n (omega arith)
  slice-overwrite_apart xs zero ys at n (inr h) = rw (drop-cover xs ys at (omega arith)) refl
  slice-overwrite_apart [] (suc off) ys at n h = refl
  slice-overwrite_apart (x ∷ xs) zero ys (suc at) n (inl h) = absurd (omega arith)
  slice-overwrite_apart [] zero ys (suc at) n (inl h) = absurd (omega arith)
  slice-overwrite_apart (x ∷ xs) (suc off) ys (suc at) n (inl h) =
      slice-overwrite_apart xs off ys at n (inl (omega arith))
  slice-overwrite_apart (x ∷ xs) (suc off) ys zero n (inr h) = absurd (omega arith)
  slice-overwrite_apart (x ∷ xs) (suc off) ys (suc at) n (inr h) =
      slice-overwrite_apart xs off ys at n (inr (omega arith))

read_words-word_bytes :
    (n : ℕ) (ws rest : List ℕ)
    → length ws ≡ n
    → All (λ v. v < 2 ^ 32) ws
    → read_words n (word_bytes ws ++ rest) ≡ ws
unfolding read_words word_bytes to_le
read_words-word_bytes zero [] rest e h = refl
read_words-word_bytes zero (v ∷ ws) rest e h = absurd (omega (arith, e))
read_words-word_bytes (suc n) [] rest e h = absurd (omega (arith, e))
read_words-word_bytes (suc n) (v ∷ ws) rest e h =
    ap₂ ◌∷◌ (from_le-to_le 4 v h.0) (read_words-word_bytes n ws rest (omega (arith, e)) h.1)

drop-word_bytes :
    (n : ℕ) (ws rest : List ℕ) → length ws ≡ n → drop (4 * n) (word_bytes ws ++ rest) ≡ rest
unfolding word_bytes to_le
drop-word_bytes zero [] rest e = refl
drop-word_bytes zero (v ∷ ws) rest e = absurd (omega (arith, e))
drop-word_bytes (suc n) [] rest e = absurd (omega (arith, e))
drop-word_bytes (suc n) (v ∷ ws) rest e =
    let four : 4 * suc n ≡ suc (suc (suc (suc (4 * n)))) = omega arith in
    rw four (drop-word_bytes n ws rest (omega (arith, e)))

length-word_bytes : (ws : List ℕ) → length (word_bytes ws) ≡ 4 * length ws
unfolding word_bytes to_le
length-word_bytes [] = refl
length-word_bytes (v ∷ ws) = omega (arith, length-word_bytes ws)

-- The fields have the widths of `struct fs_inode`.
pub record FitsInode (i : Inode) : Type 0 where
  pub mode : i.mode < 2 ^ 16
  pub nlinks : i.nlinks < 2 ^ 16
  pub size : i.size < 2 ^ 64
  pub mtime : i.mtime < 2 ^ 32
  pub flags : i.flags < 2 ^ 32
  pub count : length i.blocks ≡ 10
  pub blocks : All (λ v. v < 2 ^ 32) i.blocks
  pub reserved : i.reserved < 2 ^ 32

reserved_read :
    (i : Inode)
    → length i.blocks ≡ 10
    → (inode_of (inode_image i)).reserved ≡ from_le (to_le 4 i.reserved)
unfolding inode_of inode_image slice to_le
reserved_read i e =
    ap (λ bytes. from_le (take 4 bytes))
      (drop-word_bytes 10 i.blocks (to_le 4 i.reserved ++ replicate 4 0) e)

pub inode_of-inode_image : (i : Inode) → FitsInode i → inode_of (inode_image i) ≡ i
unfolding inode_of inode_image slice to_le
inode_of-inode_image i f = λ k. record {
  mode = from_le-to_le 2 i.mode f.mode k;
  nlinks = from_le-to_le 2 i.nlinks f.nlinks k;
  size = from_le-to_le 8 i.size f.size k;
  mtime = from_le-to_le 4 i.mtime f.mtime k;
  flags = from_le-to_le 4 i.flags f.flags k;
  blocks =
      read_words-word_bytes 10 i.blocks (to_le 4 i.reserved ++ replicate 4 0) f.count f.blocks k;
  reserved = (reserved_read i f.count ∙ from_le-to_le 4 i.reserved f.reserved) k;
}

pub length-inode_image : (i : Inode) → length i.blocks ≡ 10 → length (inode_image i) ≡ 72
unfolding inode_image to_le
length-inode_image i e = omega (
  arith,
  length-append {0} (word_bytes i.blocks) (to_le 4 i.reserved ++ replicate 4 0),
  length-word_bytes i.blocks,
  e,
)
