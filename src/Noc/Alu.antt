-- ===== src/Noc/Alu.antt =====
-- kernel/noc/vm.c, lines 347 to 426: the arithmetic of the virtual machine, on words of 64 bits that are
-- signed in a division and in an order.
pub mod Signed
use no_os.Base.{
  ℕ, ◌+◌, ◌-◌, ◌*◌, ◌/◌, ◌%◌, ◌^◌, bit_and, bit_or, bit_xor, Bool, true, false, not, ◌&&◌, ltb, leb,
  ◌==◌, if◌then◌else◌, add64, sub64, mul64,
}

-- The operators, in the order of their opcodes.
pub data BinOp : Type 0 where
  op_add op_sub op_mul op_div op_mod : BinOp
  op_eq op_ne op_lt op_le op_gt op_ge : BinOp
  op_band op_bor op_bxor op_shl op_shr : BinOp

pub data UnOp : Type 0 where
  op_not op_neg op_bnot : UnOp

unfoldable pub is_negative : ℕ → Bool
is_negative a = leb (2 ^ 63) a

unfoldable pub negate : ℕ → ℕ
negate a = (2 ^ 64 - a) % 2 ^ 64

unfoldable pub magnitude : ℕ → ℕ
magnitude a = if is_negative a then 2 ^ 64 - a else a

-- `(i64)a / (i64)b`, which rounds to zero; `b` is not 0.
unfoldable pub signed_div : ℕ → ℕ → ℕ
signed_div a b =
    let q = magnitude a / magnitude b in
    if is_negative a
    then (if is_negative b then q else negate q)
    else (if is_negative b then negate q else q)

-- `(i64)a % (i64)b`, with the sign of `a`; `b` is not 0.
unfoldable pub signed_mod : ℕ → ℕ → ℕ
signed_mod a b = let r = magnitude a % magnitude b in if is_negative a then negate r else r

-- `(i64)a < (i64)b`
unfoldable pub signed_lt : ℕ → ℕ → Bool
signed_lt a b = ltb ((a + 2 ^ 63) % 2 ^ 64) ((b + 2 ^ 63) % 2 ^ 64)

abbrev pub bit : Bool → ℕ
bit true = 1
bit false = 0

-- What an operator gives: a value, the machine's error, or the processor's exception, which it raises for
-- the one quotient that does not fit, that of -2^63 and -1.
pub data AluResult : Type 0 where
  value : ℕ → AluResult
  zero_divisor divide_exception : AluResult

unfoldable pub overflows : ℕ → ℕ → Bool
overflows a b = (a == 2 ^ 63) && (b == 2 ^ 64 - 1)

unfoldable pub divide : (ℕ → ℕ → ℕ) → ℕ → ℕ → AluResult
divide f a b =
    if b == 0 then zero_divisor else (if overflows a b then divide_exception else value (f a b))

unfoldable pub binary : BinOp → ℕ → ℕ → AluResult
binary op_add a b = value (add64 a b)
binary op_sub a b = value (sub64 a b)
binary op_mul a b = value (mul64 a b)
binary op_div a b = divide signed_div a b
binary op_mod a b = divide signed_mod a b
binary op_eq a b = value (bit (a == b))
binary op_ne a b = value (bit (not (a == b)))
binary op_lt a b = value (bit (signed_lt a b))
binary op_le a b = value (bit (not (signed_lt b a)))
binary op_gt a b = value (bit (signed_lt b a))
binary op_ge a b = value (bit (not (signed_lt a b)))
binary op_band a b = value (bit_and a b)
binary op_bor a b = value (bit_or a b)
binary op_bxor a b = value (bit_xor a b)
binary op_shl a b = value (a * 2 ^ bit_and b 63 % 2 ^ 64)
binary op_shr a b = value (a / 2 ^ bit_and b 63)

unfoldable pub unary : UnOp → ℕ → ℕ
unary op_not a = bit (a == 0)
unary op_neg a = negate a
unary op_bnot a = 2 ^ 64 - 1 - a
