-- ===== src/Fs/Dir/Names.antt =====
-- A directory block of noosfs.c as a map from names: what adding and clearing an entry do to every search.
use no_os.Base.{
  ℕ, zero, suc, ◌+◌, ◌*◌, ◌^◌, ◌<◌, ◌≡◌, refl, sym, ap, ap₂, ◌∙◌, ◌≢◌, inl, inr, true, false, none,
  some, List, [], ◌∷◌, arith, ◌==◌, Bool-cases, length, replicate, ℕ_discrete,
}
use no_os.Fs.{cover, overwrite, slice, from_le}
use no_os.Fs.Super.{same_bytes}
use no_os.Fs.Dir.{
  Dirent, dirent_of, dirent_at, dirent_image, new_dirent, free_entry, find_entry, entry_matches,
}
use no_os.Fs.Dir.Entries.{
  IsName, find_ext, none_before, first_match, free_is_unused, entry_length, entry_back,
  same_bytes_refl, same_bytes-cover, dirent_at-overwrite,
}

matches_new :
    (name other : List ℕ) (ino type : ℕ)
    → IsName name
    → other ≢ name
    → entry_matches other (new_dirent name ino type) ≡ false
unfolding entry_matches new_dirent
matches_new name other ino type ok ne =
    elim (Bool-cases (entry_matches other (new_dirent name ino type))) [
      | inr h ↦ h
      | inl h ↦
          let same : length name ≡ length other = ground (arith, h, ok.1) in
          let bytes : same_bytes (length other) (cover (replicate 24 0) name) other ≡ true =
            ground (arith, h) in
          absurd (ne (sym (same_bytes-cover (replicate 24 0) name other same ok.1 bytes)))
    ]

matches_self :
    (name : List ℕ) (ino type : ℕ)
    → IsName name
    → 0 < ino
    → entry_matches name (new_dirent name ino type) ≡ true
unfolding entry_matches new_dirent
matches_self name ino type ok pos =
    ground (arith, ok.1, pos, same_bytes_refl (replicate 24 0) name ok.1)

unused_matches : (other : List ℕ) (d : Dirent) → d.inode ≡ 0 → entry_matches other d ≡ false
unfolding entry_matches
unused_matches other d z = ground (arith, z)

same_prefix :
    (xs name other : List ℕ)
    → length name ≡ length other
    → same_bytes (length name) xs name ≡ true
    → same_bytes (length other) xs other ≡ true
    → other ≡ name
unfolding same_bytes
same_prefix xs [] [] e h k = refl
same_prefix xs [] (o ∷ other) e h k = absurd (omega (arith, e))
same_prefix xs (c ∷ name) [] e h k = absurd (omega (arith, e))
same_prefix [] (c ∷ name) (o ∷ other) e h k = cc
same_prefix (x ∷ xs) (c ∷ name) (o ∷ other) e h k =
    let rest = same_prefix xs name other (omega (arith, e)) in
    let here : o ≡ c = ground (arith, h, k) in
    let first : same_bytes (length name) xs name ≡ true = ground (arith, h) in
    let second : same_bytes (length other) xs other ≡ true = ground (arith, k) in
    ap₂ ◌∷◌ here (rest first second)

one_name :
    (name other : List ℕ) (d : Dirent)
    → entry_matches name d ≡ true
    → other ≢ name
    → entry_matches other d ≡ false
unfolding entry_matches
one_name name other d m ne = elim (Bool-cases (entry_matches other d)) [
  | inr h ↦ h
  | inl h ↦
      let same : length name ≡ length other = ground (arith, h, m) in
      let first : same_bytes (length name) d.name name ≡ true = ground (arith, m) in
      let second : same_bytes (length other) d.name other ≡ true = ground (arith, h) in
      absurd (ne (same_prefix d.name name other same first second))
]

found_matches :
    (name blk : List ℕ) (e n k : ℕ)
    → find_entry name blk e n ≡ some k
    → (k < e + n) × (entry_matches name (dirent_at blk k) ≡ true)
unfolding find_entry
found_matches name blk e zero k h = cc
found_matches name blk e (suc n) k h = elim (Bool-cases (entry_matches name (dirent_at blk e))) [
  | inl m ↦ let q : e ≡ k = let x = rw m at h in cc in (omega (arith, q), rw (← q) m)
  | inr m ↦ let r = found_matches name blk (e + 1) n k (rw m at h) in (omega (arith, r.0), r.1)
]

-- The write of 32 bytes over the entry `e`, by place.
module _ (blk bytes : List ℕ) (e : ℕ) (full : length blk ≡ 512) (long : length bytes ≡ 32)
    (he : e < 16) where
  at_place : dirent_at (overwrite blk (32 * e) bytes) e ≡ dirent_of bytes
  at_place =
      let self : (e == e) ≡ true = ground arith in
      dirent_at-overwrite blk bytes e e full long he ∙ rw self refl

  elsewhere : (j : ℕ) → e ≢ j → dirent_at (overwrite blk (32 * e) bytes) j ≡ dirent_at blk j
  elsewhere j ne =
      let differ : (e == j) ≡ false = ground (arith, ne) in
      dirent_at-overwrite blk bytes e j full long he ∙ rw differ refl

  -- A search that neither the old nor the new entry fits finds what it found.
  search_same :
      (other : List ℕ)
      → entry_matches other (dirent_at blk e) ≡ false
      → entry_matches other (dirent_of bytes) ≡ false
      → find_entry other (overwrite blk (32 * e) bytes) 0 16 ≡ find_entry other blk 0 16
  search_same other old new = find_ext other blk (overwrite blk (32 * e) bytes) 0 16 (λ j lo.
      elim (ℕ_discrete e j) [
        | yes q ↦ rw (← q) (ap (entry_matches other) at_place ∙ new ∙ sym old)
        | no ne ↦ ap (entry_matches other) (elsewhere j ne)
      ])

-- What the block `blk'` holds after the name was added to `blk` at `e`.
pub record AddedAt (name : List ℕ) (ino e : ℕ) (blk blk' : List ℕ) : Type 0 where
  pub found : find_entry name blk' 0 16 ≡ some e
  pub inode : (dirent_at blk' e).inode ≡ ino
  pub others :
      (other : List ℕ) → other ≢ name → find_entry other blk' 0 16 ≡ find_entry other blk 0 16

above : (e j : ℕ) → j < e → e ≢ j
above e j h = ground (arith, h)

module _ (blk name : List ℕ) (ino type e : ℕ) (full : length blk ≡ 512) where
  abbrev added : List ℕ
  added = overwrite blk (32 * e) (dirent_image (new_dirent name ino type))

  -- A name that is not in a block is found after its entry was written into the first unused place, with its
  -- inode, and every other name is found where it was found before.
  pub added-AddedAt :
      IsName name
      → 0 < ino
      → ino < 2 ^ 32
      → type < 256
      → find_entry name blk 0 16 ≡ none
      → free_entry blk 0 16 ≡ some e
      → AddedAt name ino e blk added
  unfolding new_dirent
  added-AddedAt ok pos hi ht absent room =
      let free = free_is_unused blk 0 16 e room in
      let image = dirent_image (new_dirent name ino type) in
      let long = entry_length name ino type in
      let back = entry_back name ino type hi ht in
      let here : dirent_at added e ≡ new_dirent name ino type =
        at_place blk image e full long free.0 ∙ back in
      record {
        found =
            first_match name added 0 16 e (omega arith) free.0
              (ap (entry_matches name) here ∙ matches_self name ino type ok pos)
              (λ j lo hj.
                ap (entry_matches name) (elsewhere blk image e full long free.0 j (above e j hj))
                ∙ none_before name blk 0 16 absent j lo (omega (arith, free.0)));
        inode = λ p. (here p).inode;
        others = λ other ne.
            search_same blk image e full long free.0 other (unused_matches other _ free.1)
              (ap (entry_matches other) back ∙ matches_new name other ino type ok ne);
      }

-- Clearing the entry that a search for a name has found makes it an unused one, and every other name is found where
-- it was found before.
pub cleared-others :
    (blk name : List ℕ) (e : ℕ)
    → length blk ≡ 512
    → find_entry name blk 0 16 ≡ some e
    → ((dirent_at (overwrite blk (32 * e) (replicate 32 0)) e).inode ≡ 0)
      × ((other : List ℕ)
          → other ≢ name
          → find_entry other (overwrite blk (32 * e) (replicate 32 0)) 0 16
            ≡ find_entry other blk 0 16)
unfolding dirent_of from_le slice
cleared-others blk name e full found =
    let f = found_matches name blk 0 16 e found in
    (
      λ p. (at_place blk (replicate 32 0) e full refl f.0 p).inode,
      λ other ne.
          search_same blk (replicate 32 0) e full refl f.0 other (one_name name other _ f.1 ne)
            (unused_matches other _ refl),
    )
