-- ===== src/Kern/Memory/Tests.antt =====
-- Copies between ranges that overlap.
use no_os.Base.{ℕ, ◌+◌, ◌%◌, ◌≤◌, ◌≡◌, ◌⊎◌}
use no_os.Kern.Memory.{memcpy, memmove, moved, memmove_lem}

abbrev counting : ℕ → ℕ
counting j = j % 256

memmove_lem_example :
    (memmove 10 8 4 counting 11 ≡ moved 10 8 4 counting 11)
    × (10 ≤ 8 ⊎ 8 + 4 ≤ 10 → memcpy 10 8 4 counting 11 ≡ moved 10 8 4 counting 11)
memmove_lem_example = memmove_lem 10 8 4 counting 11
