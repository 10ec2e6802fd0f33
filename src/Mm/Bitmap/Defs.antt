-- ===== src/Mm/Bitmap/Defs.antt =====
-- The bit operations of pmm.c, and the scan and the count that the users of bitmaps make.
use no_os.Base.{
  ℕ, zero, suc, ◌+◌, ◌*◌, ◌/◌, ◌%◌, ◌≤◌, ◌<◌, Bool, Option, none, some, List, if◌then◌else◌, length,
  get_or, set, replicate, All,
}
use no_os.Mm.Bitmap.Bytes.{byte_test, byte_set, byte_clear}

unfoldable pub bitmap_set : List ℕ → ℕ → List ℕ
unfolding byte_set
bitmap_set bitmap idx = set bitmap (idx / 8) (byte_set (get_or bitmap (idx / 8) 0) (idx % 8))

unfoldable pub bitmap_clear : List ℕ → ℕ → List ℕ
unfolding byte_clear
bitmap_clear bitmap idx = set bitmap (idx / 8) (byte_clear (get_or bitmap (idx / 8) 0) (idx % 8))

unfoldable pub bitmap_test : List ℕ → ℕ → Bool
unfolding byte_test
bitmap_test bitmap idx = byte_test (get_or bitmap (idx / 8) 0) (idx % 8)

-- `memset(bitmap, 0, n)`
unfoldable pub cleared : ℕ → List ℕ
cleared n = replicate n 0

-- The first clear bit from `i` on, in `n` rounds.
unfoldable pub first_clear : List ℕ → ℕ → ℕ → Option ℕ
first_clear bitmap i zero = none
first_clear bitmap i (suc n) =
    let rest = first_clear bitmap (i + 1) n in if bitmap_test bitmap i then rest else some i

-- How many of the first `n` bits are clear.
unfoldable pub count_clear : List ℕ → ℕ → ℕ
count_clear bitmap zero = 0
count_clear bitmap (suc n) =
    if bitmap_test bitmap n then count_clear bitmap n else count_clear bitmap n + 1

-- Bytes, with room for `n` bits.
abbrev pub IsBitmap : ℕ → List ℕ → Type 0
IsBitmap n bitmap = All (λ b. b < 256) bitmap × (n ≤ 8 * length bitmap)
