-- ===== src/Fs/Dir/Entries.antt =====
-- A block of directory entries of noosfs.c as a map from names to entries.
use no_os.Base.{
  ℕ, zero, suc, ◌+◌, ◌*◌, ◌%◌, ◌^◌, ◌≤◌, ◌<◌, ◌≡◌, refl, ap, ap₂, ◌≢◌, ◌⊎◌, inl, inr, true, false,
  none, some, List, [], ◌∷◌, arith, ◌==◌, if◌then◌else◌, Bool-cases, length, replicate, dec_lt,
  ℕ_discrete,
}
use no_os.Fs.{to_le, slice, cover, overwrite}
use no_os.Fs.Bytes.{from_le-to_le, slice-overwrite_of, slice-overwrite_apart, length-cover}
use no_os.Fs.Super.{same_bytes}
use no_os.Fs.Dir.{
  dirent_of, dirent_at, dirent_image, new_dirent, free_entry, find_entry, entry_matches,
}

pub same_bytes-cover :
    (xs name other : List ℕ)
    → length name ≡ length other
    → length name ≤ length xs
    → same_bytes (length other) (cover xs name) other ≡ true
    → name ≡ other
unfolding same_bytes cover
same_bytes-cover xs [] [] e h s = refl
same_bytes-cover xs [] (o ∷ other) e h s = absurd (omega (arith, e))
same_bytes-cover xs (c ∷ name) [] e h s = absurd (omega (arith, e))
same_bytes-cover [] (c ∷ name) (o ∷ other) e h s = absurd (omega arith)
same_bytes-cover (x ∷ xs) (c ∷ name) (o ∷ other) e h s =
    let rest = same_bytes-cover xs name other (omega (arith, e)) (omega arith) in
    let here : c ≡ o = ground (arith, s) in
    let there : same_bytes (length other) (cover xs name) other ≡ true = ground (arith, s) in
    ap₂ ◌∷◌ here (rest there)

pub same_bytes_refl :
    (xs name : List ℕ)
    → length name ≤ length xs
    → same_bytes (length name) (cover xs name) name ≡ true
unfolding same_bytes cover
same_bytes_refl xs [] h = refl
same_bytes_refl [] (c ∷ name) h = absurd (omega arith)
same_bytes_refl (x ∷ xs) (c ∷ name) h = ground (arith, same_bytes_refl xs name (omega arith))

-- What `dir_add_entry` asks of a name.
abbrev pub IsName : List ℕ → Type 0
IsName name = (0 < length name) × (length name ≤ 24)

module _ (name : List ℕ) (ino type : ℕ) where
  pub entry_length : length (dirent_image (new_dirent name ino type)) ≡ 32
  unfolding dirent_image new_dirent to_le
  entry_length = omega (arith, length-cover (replicate 24 0) name)

  pub entry_back :
      ino < 2 ^ 32
      → type < 256
      → dirent_of (dirent_image (new_dirent name ino type)) ≡ new_dirent name ino type
  unfolding dirent_of dirent_image new_dirent to_le slice
  entry_back hi ht = λ p. record {
    inode = from_le-to_le 4 ino hi p;
    reclen = 32;
    namelen = from_le-to_le 1 (length name % 256) (omega arith) p;
    type = from_le-to_le 1 type ht p;
    name = cover (replicate 24 0) name;
  }

places_apart : (e j : ℕ) → e ≢ j → (32 * j + 32 ≤ 32 * e) ⊎ (32 * e + 32 ≤ 32 * j)
places_apart e j ne = elim (dec_lt e j) [ yes p ↦ inr (omega arith) | no p ↦ inl (omega arith) ]

-- What a write of 32 bytes over the entry `e` leaves at the entry `j`.
pub dirent_at-overwrite :
    (blk bytes : List ℕ) (e j : ℕ)
    → length blk ≡ 512
    → length bytes ≡ 32
    → e < 16
    → dirent_at (overwrite blk (32 * e) bytes) j
      ≡ (if e == j then dirent_of bytes else dirent_at blk j)
unfolding dirent_at
dirent_at-overwrite blk bytes e j lb ly he = elim (ℕ_discrete e j) [
  | yes q ↦
      let self : (e == e) ≡ true = ground arith in
      rw (← q, self)
        (ap dirent_of (slice-overwrite_of blk (32 * e) bytes 32 ly (omega (arith, lb))))
  | no ne ↦
      let differ : (e == j) ≡ false = ground (arith, ne) in
      rw differ (
        ap dirent_of (
          slice-overwrite_apart blk (32 * e) bytes (32 * j) 32
            (elim (places_apart e j ne) [ inl h ↦ inl h | inr h ↦ inr (omega (arith, ly)) ])))
]

-- A search is decided by the entries in its range.
pub find_ext :
    (name blk blk' : List ℕ) (e n : ℕ)
    → ((j : ℕ)
        → e ≤ j
        → entry_matches name (dirent_at blk' j) ≡ entry_matches name (dirent_at blk j))
    → find_entry name blk' e n ≡ find_entry name blk e n
unfolding find_entry
find_ext name blk blk' e zero h = refl
find_ext name blk blk' e (suc n) h =
    rw (h e (omega arith), find_ext name blk blk' (e + 1) n (λ j q. h j (omega arith))) refl

pub none_before :
    (name blk : List ℕ) (e n : ℕ)
    → find_entry name blk e n ≡ none
    → (j : ℕ) → e ≤ j
    → j < e + n
    → entry_matches name (dirent_at blk j) ≡ false
unfolding find_entry
none_before name blk e zero h j lo hi = absurd (omega arith)
none_before name blk e (suc n) h j lo hi =
    elim (Bool-cases (entry_matches name (dirent_at blk e))) [
      | inl m ↦ let x = rw m at h in cc
      | inr m ↦ elim (ℕ_discrete e j) [
        | yes q ↦ rw (← q) m
        | no ne ↦ none_before name blk (e + 1) n (rw m at h) j (omega arith) (omega arith)
      ]
    ]

pub first_match :
    (name blk : List ℕ) (e n k : ℕ)
    → e ≤ k
    → k < e + n
    → entry_matches name (dirent_at blk k) ≡ true
    → ((j : ℕ) → e ≤ j → j < k → entry_matches name (dirent_at blk j) ≡ false)
    → find_entry name blk e n ≡ some k
unfolding find_entry
first_match name blk e zero k lo hi m h = absurd (omega arith)
first_match name blk e (suc n) k lo hi m h = elim (ℕ_discrete e k) [
  | yes q ↦ rw (q, m) refl
  | no ne ↦ rw (h e (omega arith) (omega arith)) (
      first_match name blk (e + 1) n k (omega arith) (omega arith) m (λ j a b. h j (omega arith) b))
]

pub free_is_unused :
    (blk : List ℕ) (e n k : ℕ)
    → free_entry blk e n ≡ some k
    → (k < e + n) × ((dirent_at blk k).inode ≡ 0)
unfolding free_entry
free_is_unused blk e zero k h = cc
free_is_unused blk e (suc n) k h = elim (Bool-cases ((dirent_at blk e).inode == 0)) [
  | inl z ↦
      let q : e ≡ k = let x = rw z at h in cc in (omega (arith, q), rw (← q) (ground (arith, z)))
  | inr z ↦ let r = free_is_unused blk (e + 1) n k (rw z at h) in (omega (arith, r.0), r.1)
]
