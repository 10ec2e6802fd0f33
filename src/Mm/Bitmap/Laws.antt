-- ===== src/Mm/Bitmap/Laws.antt =====
-- What the bits of a bitmap are after a write, and how many of them are clear.
use no_os.Base.{
  ℕ, zero, suc, ◌+◌, ◌/◌, ◌%◌, ◌≤◌, ◌<◌, ◌≡◌, refl, ◌≢◌, inl, inr, true, false, not, Option, none,
  some, List, arith, ◌==◌, if◌then◌else◌, Bool-cases, length, get_or, All, length-set,
  length-replicate, get_or-set_self, get_or-set_ne, All-set, All-get_or, all_below, all_below_sound,
  ℕ_discrete,
}
use no_os.Mm.Bitmap.Defs.{
  cleared, bitmap_set, bitmap_clear, bitmap_test, first_clear, count_clear, IsBitmap,
}
use no_os.Mm.Bitmap.Bytes.{
  byte_test, byte_set, byte_clear, byte_set-lt, byte_clear-lt, byte_test-set, byte_test-clear,
}

quot_ne : (i j : ℕ) → i / 8 ≢ j / 8 → (i == j) ≡ false
quot_ne i j h = ground arith

rem_eq : (i j : ℕ) → i / 8 ≡ j / 8 → (i % 8 == j % 8) ≡ (i == j)
rem_eq i j h = ground arith

module _ {n : ℕ} (bitmap : List ℕ) (v : IsBitmap n bitmap) (i : ℕ) (h : i < n) where
  byte_lt : (k : ℕ) → get_or bitmap k 0 < 256
  byte_lt k = All-get_or (λ b. b < 256) bitmap k 0 v.0 (omega arith)

  pub set-IsBitmap : IsBitmap n (bitmap_set bitmap i)
  unfolding bitmap_set
  set-IsBitmap = (
    All-set (λ b. b < 256) bitmap (i / 8) _ v.0
        (byte_set-lt _ (i % 8) 0 (byte_lt (i / 8)) (omega arith) (omega arith)),
    omega (arith, v.1, length-set bitmap (i / 8) (byte_set (get_or bitmap (i / 8) 0) (i % 8))),
  )

  pub clear-IsBitmap : IsBitmap n (bitmap_clear bitmap i)
  unfolding bitmap_clear
  clear-IsBitmap = (
    All-set (λ b. b < 256) bitmap (i / 8) _ v.0
        (byte_clear-lt _ (i % 8) 0 (byte_lt (i / 8)) (omega arith) (omega arith)),
    omega (arith, v.1, length-set bitmap (i / 8) (byte_clear (get_or bitmap (i / 8) 0) (i % 8))),
  )

  pub test-set :
      (j : ℕ)
      → bitmap_test (bitmap_set bitmap i) j ≡ (if i == j then true else bitmap_test bitmap j)
  unfolding bitmap_set bitmap_test
  test-set j = elim (ℕ_discrete (i / 8) (j / 8)) [
    | yes e ↦
        rw
          (
            ← e,
            get_or-set_self bitmap (i / 8) (byte_set (get_or bitmap (i / 8) 0) (i % 8)) 0
                (omega (arith, v.1)),
          )
          (rw (
            byte_test-set _ (i % 8) (j % 8) (byte_lt (i / 8)) (omega arith) (omega arith),
            rem_eq i j e,
          ))
    | no ne ↦ rw (
      get_or-set_ne bitmap (i / 8) (j / 8) (byte_set (get_or bitmap (i / 8) 0) (i % 8)) 0 ne,
      quot_ne i j ne,
    )
  ]

  pub test-clear :
      (j : ℕ)
      → bitmap_test (bitmap_clear bitmap i) j ≡ (if i == j then false else bitmap_test bitmap j)
  unfolding bitmap_clear bitmap_test
  test-clear j = elim (ℕ_discrete (i / 8) (j / 8)) [
    | yes e ↦
        rw
          (
            ← e,
            get_or-set_self bitmap (i / 8) (byte_clear (get_or bitmap (i / 8) 0) (i % 8)) 0
                (omega (arith, v.1)),
          )
          (rw (
            byte_test-clear _ (i % 8) (j % 8) (byte_lt (i / 8)) (omega arith) (omega arith),
            rem_eq i j e,
          ))
    | no ne ↦ rw (
      get_or-set_ne bitmap (i / 8) (j / 8) (byte_clear (get_or bitmap (i / 8) 0) (i % 8)) 0 ne,
      quot_ne i j ne,
    )
  ]

  -- A write beyond the bits that are counted does not change the count.
  count-set_above : (m : ℕ) → m ≤ i → count_clear (bitmap_set bitmap i) m ≡ count_clear bitmap m
  unfolding count_clear
  count-set_above zero q = refl
  count-set_above (suc m) q = ground (arith, test-set m, count-set_above m)

  count-clear_above : (m : ℕ) → m ≤ i → count_clear (bitmap_clear bitmap i) m ≡ count_clear bitmap m
  unfolding count_clear
  count-clear_above zero q = refl
  count-clear_above (suc m) q = ground (arith, test-clear m, count-clear_above m)

  pub count-set :
      (m : ℕ)
      → i < m
      → bitmap_test bitmap i ≡ false
      → count_clear (bitmap_set bitmap i) m + 1 ≡ count_clear bitmap m
  unfolding count_clear
  count-set zero q e = absurd (omega arith)
  count-set (suc m) q e = ground (arith, test-set m, count-set m, count-set_above m)

  pub count-clear :
      (m : ℕ)
      → i < m
      → bitmap_test bitmap i ≡ true
      → count_clear (bitmap_clear bitmap i) m ≡ count_clear bitmap m + 1
  unfolding count_clear
  count-clear zero q e = absurd (omega arith)
  count-clear (suc m) q e = ground (arith, test-clear m, count-clear m, count-clear_above m)

-- What the first-fit scan of the rounds `i .. i + n - 1` has found.
abbrev pub Found : List ℕ → ℕ → ℕ → Option ℕ → Type 0
Found bitmap i n none = (k : ℕ) → i ≤ k → k < i + n → bitmap_test bitmap k ≡ true
Found bitmap i n (some j) =
    (i ≤ j)
    × (j < i + n)
    × (bitmap_test bitmap j ≡ false)
    × ((k : ℕ) → i ≤ k → k < j → bitmap_test bitmap k ≡ true)

Found-step :
    (bitmap : List ℕ) (i n : ℕ) (r : Option ℕ)
    → bitmap_test bitmap i ≡ true
    → Found bitmap (i + 1) n r
    → Found bitmap i (suc n) r
Found-step bitmap i n none e f = λ k lo hi. elim (ℕ_discrete i k) [
  | yes q ↦ rw (← q) e
  | no ne ↦ f k (omega arith) (omega arith)
]
Found-step bitmap i n (some j) e f = (omega (arith, f.0), omega (arith, f.1), f.2, below)
  where
    below : (k : ℕ) → i ≤ k → k < j → bitmap_test bitmap k ≡ true
    below k lo hi = elim (ℕ_discrete i k) [ yes q ↦ rw (← q) e | no ne ↦ f.3 k (omega arith) hi ]

pub first_clear-Found : (bitmap : List ℕ) (i n : ℕ) → Found bitmap i n (first_clear bitmap i n)
unfolding first_clear
first_clear-Found bitmap i zero = λ k lo hi. absurd (omega arith)
first_clear-Found bitmap i (suc n) = elim (Bool-cases (bitmap_test bitmap i)) [
  | inl e ↦ rw e (Found-step bitmap i n _ e (first_clear-Found bitmap (i + 1) n))
  | inr e ↦ rw e (omega arith, omega arith, e, λ k lo hi. absurd (omega arith))
]

-- With no clear bit the count is zero, and a clear bit is counted.
pub count_pos :
    (bitmap : List ℕ) (i n : ℕ) → i < n → bitmap_test bitmap i ≡ false → 0 < count_clear bitmap n
unfolding count_clear
count_pos bitmap i zero h e = absurd (omega arith)
count_pos bitmap i (suc n) h e = elim (ℕ_discrete i n) [
  | yes q ↦ rw (← q, e) (omega arith)
  | no ne ↦ ground (arith, count_pos bitmap i n)
]

pub count_zero :
    (bitmap : List ℕ) (n : ℕ)
    → ((k : ℕ) → k < n → bitmap_test bitmap k ≡ true)
    → count_clear bitmap n ≡ 0
unfolding count_clear
count_zero bitmap zero h = refl
count_zero bitmap (suc n) h =
    rw (h n (omega arith)) (count_zero bitmap n (λ k q. h k (omega arith)))

pub count-le : (bitmap : List ℕ) (n : ℕ) → count_clear bitmap n ≤ n
unfolding count_clear
count-le bitmap zero = omega arith
count-le bitmap (suc n) = ground (arith, count-le bitmap n)

pub count_ext :
    (a b : List ℕ) (n : ℕ)
    → ((k : ℕ) → k < n → bitmap_test a k ≡ bitmap_test b k)
    → count_clear a n ≡ count_clear b n
unfolding count_clear
count_ext a b zero h = refl
count_ext a b (suc n) h = rw (h n (omega arith), count_ext a b n (λ k q. h k (omega arith)))

zero_bits : all_below 8 (λ k. not (byte_test 0 k)) ≡ true
unfolding all_below byte_test
zero_bits = refl

get-cleared : (n i : ℕ) → get_or (cleared n) i 0 ≡ 0
unfolding cleared
get-cleared zero i = refl
get-cleared (suc n) zero = refl
get-cleared (suc n) (suc i) = get-cleared n i

pub test-cleared : (n i : ℕ) → bitmap_test (cleared n) i ≡ false
unfolding bitmap_test
test-cleared n i =
    rw get-cleared (ground (arith, all_below_sound 8 (λ k. not (byte_test 0 k)) (i % 8) zero_bits))

pub count-cleared : (n m : ℕ) → count_clear (cleared n) m ≡ m
unfolding count_clear
count-cleared n zero = refl
count-cleared n (suc m) = rw (test-cleared n m, count-cleared n m) (omega arith)

pub bytes-cleared : (n : ℕ) → All (λ b. b < 256) (cleared n)
unfolding cleared
bytes-cleared zero = tt
bytes-cleared (suc n) = (omega arith, bytes-cleared n)

pub length-cleared : (n : ℕ) → length (cleared n) ≡ n
unfolding cleared
length-cleared n = length-replicate n 0
