-- ===== src/Mm/Bitmap/Bytes.antt =====
-- Single bits of a byte: what a bitmap's operations do to the byte that they touch.
use no_os.Base.{
  ℕ, ◌-◌, ◌/◌, ◌%◌, ◌^◌, ◌<◌, bit_and, bit_or, ◌≡◌, refl, Bool, true, false, ◌&&◌, arith, ltb, ◌==◌,
  if◌then◌else◌, all_below, all_below_sound,
}

-- (b >> k) & 1u
unfoldable pub byte_test : ℕ → ℕ → Bool
byte_test b k = bit_and (b / 2 ^ k) 1 == 1

-- b |= (u8)(1u << k)
unfoldable pub byte_set : ℕ → ℕ → ℕ
byte_set b k = bit_or b (2 ^ k % 256)

-- b &= (u8)~(1u << k)
unfoldable pub byte_clear : ℕ → ℕ → ℕ
byte_clear b k = bit_and b (255 - 2 ^ k % 256)

iffb : Bool → Bool → Bool
iffb true b = b
iffb false true = false
iffb false false = true

iffb_eq : (a b : Bool) → iffb a b ≡ true → a ≡ b
unfolding iffb
iffb_eq a b h = ground arith

-- All that is said of a byte, for each byte and bit.
row : ℕ → ℕ → ℕ → Bool
row b k j =
    ltb (byte_set b k) 256
    && ltb (byte_clear b k) 256
    && iffb (byte_test (byte_set b k) j) (if k == j then true else byte_test b j)
    && iffb (byte_test (byte_clear b k) j) (if k == j then false else byte_test b j)

table : all_below 256 (λ b. all_below 8 (λ k. all_below 8 (λ j. row b k j))) ≡ true
unfolding all_below row byte_test byte_set byte_clear iffb
table = refl

row_holds : (b k j : ℕ) → b < 256 → k < 8 → j < 8 → row b k j ≡ true
row_holds b k j hb hk hj =
    all_below_sound 8 _ j (all_below_sound 8 _ k (all_below_sound 256 _ b table hb) hk) hj

module _ (b k j : ℕ) (hb : b < 256) (hk : k < 8) (hj : j < 8) where
  pub byte_set-lt : byte_set b k < 256
  unfolding row
  byte_set-lt = ground (arith, row_holds b k j hb hk hj)

  pub byte_clear-lt : byte_clear b k < 256
  unfolding row
  byte_clear-lt = ground (arith, row_holds b k j hb hk hj)

  pub byte_test-set : byte_test (byte_set b k) j ≡ (if k == j then true else byte_test b j)
  unfolding row iffb
  byte_test-set = ground (arith, row_holds b k j hb hk hj)

  pub byte_test-clear : byte_test (byte_clear b k) j ≡ (if k == j then false else byte_test b j)
  unfolding row iffb
  byte_test-clear = ground (arith, row_holds b k j hb hk hj)
