-- ===== src/Kern/Format.antt =====
-- kernel/kern/format.c, lines 3 to 51: a logarithm, a power that saturates, and the digits of a number.
pub mod Digits
mod Tests
use no_os.Base.{
  ℕ, zero, suc, ◌+◌, ◌-◌, ◌*◌, ◌/◌, ◌%◌, ◌^◌, Bool, not, ◌&&◌, ◌||◌, List, [], ◌∷◌, ◌++◌, map, ltb,
  ◌==◌, if◌then◌else◌, take,
}

-- The fuel bounds the rounds of the loop; a word has at most 63.
pub floor_log2 : ℕ → ℕ → ℕ
floor_log2 zero v = 0
floor_log2 (suc fuel) v = let r = floor_log2 fuel (v / 2) in if ltb 1 v then r + 1 else 0

-- The rounds that are left, from the product `r`.
pub upow_from : ℕ → ℕ → ℕ → ℕ
upow_from base r zero = r
upow_from base r (suc n) =
    let more = upow_from base (r * base) n in
    if not (base == 0) && ltb ((2 ^ 64 - 1) / base) r then 2 ^ 64 - 1 else more

pub upow : ℕ → ℕ → ℕ
unfolding upow_from
upow base n = upow_from base 1 n

-- The characters of the sixteen digits; the code reads behind the table for the digits of a larger base.
pub digit_char : Bool → ℕ → ℕ
digit_char upper d = if ltb d 10 then b'0' + d else (if upper then b'A' else b'a') + (d - 10)

-- `tmp`, which has room for 65 digits, the lowest first.
pub digits : ℕ → ℕ → ℕ → List ℕ
digits zero base v = []
digits (suc room) base v =
    let rest = digits room base (v / base) in if v == 0 then [] else v % base ∷ rest

pub rev : List ℕ → List ℕ
rev [] = []
rev (x ∷ xs) = rev xs ++ x ∷ []

pub real_base : ℕ → ℕ
real_base base = if ltb base 2 || ltb 36 base then 10 else base

-- The text that is in the buffer of `n` bytes, before its terminator.
pub aformat : ℕ → ℕ → ℕ → Bool → List ℕ
unfolding digit_char digits rev real_base
aformat n base v upper =
    let tmp = if v == 0 then 0 ∷ [] else digits 65 (real_base base) v in
    take (n - 1) (rev (map (digit_char upper) tmp))
