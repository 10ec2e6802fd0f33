-- ===== src/Base/Words.antt =====
-- Machine words: arithmetic that wraps, and little-endian reads of memory.
use Prim.Native.Nat.{ℕ, ◌+◌, ◌-◌, ◌*◌, ◌%◌, ◌^◌}

abbrev pub add64 : ℕ → ℕ → ℕ
add64 a b = (a + b) % 2 ^ 64

-- For `b` below the modulus; `-` on ℕ stops at 0.
abbrev pub sub64 : ℕ → ℕ → ℕ
sub64 a b = (a + 2 ^ 64 - b) % 2 ^ 64

abbrev pub mul64 : ℕ → ℕ → ℕ
mul64 a b = a * b % 2 ^ 64

abbrev pub add32 : ℕ → ℕ → ℕ
add32 a b = (a + b) % 2 ^ 32

abbrev pub sub32 : ℕ → ℕ → ℕ
sub32 a b = (a + 2 ^ 32 - b) % 2 ^ 32

-- Memory as the byte at each address.
abbrev pub read32 : (ℕ → ℕ) → ℕ → ℕ
read32 mem a =
    mem a + 256 * mem (a + 1) + 256 * (256 * mem (a + 2)) + 256 * (256 * (256 * mem (a + 3)))

abbrev pub read64 : (ℕ → ℕ) → ℕ → ℕ
read64 mem a = read32 mem a + 2 ^ 32 * read32 mem (a + 4)
