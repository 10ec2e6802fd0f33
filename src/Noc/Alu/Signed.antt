-- ===== src/Noc/Alu/Signed.antt =====
-- The signed division of vm.c: quotient and remainder, and the one exception of the processor.
use no_os.Base.{
  ℕ, zero, suc, ◌+◌, ◌-◌, ◌*◌, ◌/◌, ◌%◌, ◌^◌, ◌≤◌, ◌<◌, ◌≡◌, sym, ap, ◌∙◌, ◌≢◌, ◌⊎◌, inl, inr, true,
  false, arith, Bool-cases, ℕ_discrete, add64, mul64, if-cases,
}
use no_os.Noc.Alu.{
  op_div, op_mod, value, zero_divisor, divide_exception, is_negative, negate, magnitude, signed_div,
  signed_mod, overflows, divide, binary,
}
use native.Mathlib.Nat.{div-add-mod', mod-lt, mul-add, div-le_self, add-mul}

-- How the product `w` of quotient and divisor, a multiple of 2^64 away from the product `u` of their
-- magnitudes or from its negation, gives the dividend.
add_positive :
    (a u w k l r : ℕ)
    → a < 2 ^ 64
    → a ≡ u + r
    → w + k * 2 ^ 64 ≡ u + l * 2 ^ 64
    → add64 (w % 2 ^ 64) r ≡ a
add_positive a u w k l r la e s = omega arith

add_negative :
    (a u w k r : ℕ)
    → 2 ^ 63 ≤ a
    → a < 2 ^ 64
    → 2 ^ 64 - a ≡ u + r
    → w + u ≡ k * 2 ^ 64
    → add64 (w % 2 ^ 64) ((2 ^ 64 - r) % 2 ^ 64) ≡ a
add_negative a u w k r pa la e s = omega arith

times_sum : (x y b s : ℕ) → x + y ≡ s → x * b + y * b ≡ s * b
times_sum x y b s e = sym (add-mul x y b) ∙ ap (λ n. n * b) e

negate_zero : (b : ℕ) → negate 0 * b ≡ 0
unfolding negate
negate_zero b = omega arith

negate_times : (q b : ℕ) → q < 2 ^ 64 → (k : ℕ) × (negate q * b + q * b ≡ k * 2 ^ 64)
negate_times zero b lq = (0, (let z = negate_zero b in omega arith))
negate_times (suc q) b lq =
    (b, times_sum (negate (suc q)) (suc q) b (2 ^ 64) (unfold negate in omega arith) ∙ omega arith)

signs :
    (a : ℕ)
    → ((is_negative a ≡ true) × (2 ^ 63 ≤ a) × (magnitude a ≡ 2 ^ 64 - a))
      ⊎ ((is_negative a ≡ false) × (a < 2 ^ 63) × (magnitude a ≡ a))
unfolding is_negative magnitude
signs a = ground arith

-- The product with a negative divisor.
times_complement : (q b m : ℕ) → b < 2 ^ 64 → m ≡ 2 ^ 64 - b → q * b + q * m ≡ q * 2 ^ 64
times_complement q b m lb e = sym (mul-add q b m) ∙ ap (λ n. q * n) (omega arith)

module _ (a b : ℕ) (la : a < 2 ^ 64) (lb : b < 2 ^ 64) where
  q : ℕ
  q = magnitude a / magnitude b

  r : ℕ
  r = magnitude a % magnitude b

  parts : magnitude a ≡ q * magnitude b + r
  unfolding q r
  parts = sym (div-add-mod' (magnitude a) (magnitude b))

  q-lt : magnitude a ≤ 2 ^ 63 → q < 2 ^ 64
  unfolding q
  q-lt h = let small = div-le_self (magnitude a) (magnitude b) in omega arith

  IsQuotient : Type 0
  IsQuotient = add64 (mul64 (signed_div a b) b) (signed_mod a b) ≡ a

  divided :
      ((is_negative a ≡ true) × (2 ^ 63 ≤ a) × (magnitude a ≡ 2 ^ 64 - a))
        ⊎ ((is_negative a ≡ false) × (a < 2 ^ 63) × (magnitude a ≡ a))
      → ((is_negative b ≡ true) × (2 ^ 63 ≤ b) × (magnitude b ≡ 2 ^ 64 - b))
        ⊎ ((is_negative b ≡ false) × (b < 2 ^ 63) × (magnitude b ≡ b))
      → IsQuotient
  unfolding IsQuotient q r signed_div signed_mod
  divided (inr (na, ga, ma)) (inr (nb, gb, mb)) =
      rw (na, nb)
        (add_positive a (q * magnitude b) (q * b) 0 0 r la (sym ma ∙ parts)
          (ap (λ m. q * m + 0) (sym mb)))
  divided (inr (na, ga, ma)) (inl (nb, gb, mb)) =
      let n = negate_times q b (q-lt (omega arith)) in
      let c = times_complement q b (magnitude b) lb mb in
      rw (na, nb)
        (add_positive a (q * magnitude b) (negate q * b) q n.0 r la (sym ma ∙ parts)
          (omega (arith, n.1)))
  divided (inl (na, ga, ma)) (inr (nb, gb, mb)) =
      let n = negate_times q b (q-lt (omega arith)) in
      rw (na, nb)
        (unfold negate in
          add_negative a (q * magnitude b) (negate q * b) n.0 r ga la (sym ma ∙ parts)
            (ap (λ m. negate q * b + q * m) mb ∙ n.1))
  divided (inl (na, ga, ma)) (inl (nb, gb, mb)) =
      rw (na, nb)
        (unfold negate in
          add_negative a (q * magnitude b) (q * b) q r ga la (sym ma ∙ parts)
            (times_complement q b (magnitude b) lb mb))

magnitude_bounds : (b : ℕ) → b < 2 ^ 64 → b ≢ 0 → (0 < magnitude b) × (magnitude b ≤ 2 ^ 63)
unfolding magnitude is_negative
magnitude_bounds b lb nz = ground arith

small_magnitude : (r m : ℕ) → r < m → m ≤ 2 ^ 63 → (magnitude r < m) × (magnitude (negate r) < m)
unfolding magnitude is_negative negate
small_magnitude r m h k = ground arith

remainder-lt : (a b : ℕ) → b < 2 ^ 64 → b ≢ 0 → magnitude (signed_mod a b) < magnitude b
unfolding signed_mod
remainder-lt a b lb nz =
    let m = magnitude_bounds b lb nz in
    let small =
      small_magnitude (magnitude a % magnitude b) (magnitude b) (mod-lt (magnitude a) m.0) m.1 in
    if-cases (λ r. magnitude r < magnitude b) (is_negative a) _ _ (λ n. small.1) (λ p. small.0)

-- What a division by `b` gives: the machine's error, the processor's exception, or a quotient and a
-- remainder that is smaller than the divisor in magnitude.
abbrev pub DivMod : ℕ → ℕ → Type 0
DivMod a b =
    ((b ≡ 0) × (binary op_div a b ≡ zero_divisor) × (binary op_mod a b ≡ zero_divisor))
    ⊎ ((a ≡ 2 ^ 63)
        × (b ≡ 2 ^ 64 - 1)
        × (binary op_div a b ≡ divide_exception)
        × (binary op_mod a b ≡ divide_exception))
    ⊎ ((q : ℕ) × (r : ℕ) × (binary op_div a b ≡ value q)
        × (binary op_mod a b ≡ value r)
        × (add64 (mul64 q b) r ≡ a)
        × (magnitude r < magnitude b))

-- For words, a division by zero is the machine's error, -2^63 by -1 is the processor's exception, and every
-- other pair has a quotient and a remainder: quotient times divisor plus remainder is the dividend, and the
-- remainder is smaller than the divisor in magnitude.
pub binary-div-mod : (a b : ℕ) → a < 2 ^ 64 → b < 2 ^ 64 → DivMod a b
unfolding binary divide overflows
binary-div-mod a b la lb =
    let law : (add64 (mul64 (signed_div a b) b) (signed_mod a b) ≡ a) =
      unfold IsQuotient in divided a b la lb (signs a) (signs b) in
    elim (ℕ_discrete b 0) [
      | yes z ↦ inl (z, (ground arith), ground arith)
      | no nz ↦ elim (Bool-cases (overflows a b)) [
        | inl o ↦ inr (inl ((ground arith), (ground arith), (ground arith), ground arith))
        | inr o ↦ inr (
            inr (
              signed_div a b,
              signed_mod a b,
              (ground arith),
              (ground arith),
              law,
              remainder-lt a b lb nz,
            ))
      ]
    ]
