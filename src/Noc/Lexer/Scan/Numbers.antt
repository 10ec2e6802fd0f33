-- ===== src/Noc/Lexer/Scan/Numbers.antt =====
-- Numbers in kernel/noc/lexer.c against the reading of the digits that kernel/kern/format.c writes.
use no_os.Base.{
  ℕ, ◌+◌, ◌*◌, ◌%◌, ◌^◌, ◌<◌, ◌≡◌, ◌∙◌, Bool, true, false, List, [], ◌∷◌, ◌++◌, arith,
  if◌then◌else◌, All, add64, mul64, if-true, if-false,
}
use no_os.Kern.Format.Digits.{parse}
use no_os.Kern.Format.Digits
use no_os.Noc.Lexer.{is_digit, is_hex_digit, between}
use no_os.Noc.Lexer.Scan.{char_at, number, digit_value}

abbrev pub base_of : Bool → ℕ
base_of hex = if hex then 16 else 10

-- A character that a number of the kind takes.
abbrev pub takes : Bool → ℕ → Bool
takes hex c = if hex then is_hex_digit c else is_digit c

same_digit : (hex : Bool) (c : ℕ) → takes hex c ≡ true → digit_value c ≡ Digits.digit_value c
unfolding digit_value is_digit is_hex_digit between Digits.digit_value
same_digit true c h = ground (arith, h)
same_digit false c h = ground (arith, h)

-- Reading on from numbers that agree as words gives numbers that agree as words.
parse_wraps :
    (hex : Bool) (text : List ℕ) (a b : ℕ)
    → a % 2 ^ 64 ≡ b % 2 ^ 64
    → parse (base_of hex) a text % 2 ^ 64 ≡ parse (base_of hex) b text % 2 ^ 64
unfolding parse
parse_wraps hex [] a b e = e
parse_wraps true (c ∷ text) a b e =
    parse_wraps true text (a * 16 + Digits.digit_value c) (b * 16 + Digits.digit_value c)
      (omega (arith, e))
parse_wraps false (c ∷ text) a b e =
    parse_wraps false text (a * 10 + Digits.digit_value c) (b * 10 + Digits.digit_value c)
      (omega (arith, e))

step_wraps :
    (hex : Bool) (v d : ℕ)
    → add64 (mul64 v (base_of hex)) d % 2 ^ 64 ≡ (v * base_of hex + d) % 2 ^ 64
step_wraps true v d = omega arith
step_wraps false v d = omega arith

-- The digits in front of a text are read as the number that they stand for, modulo 2 ^ 64, in base 10 or 16,
-- and the text behind them is left.
pub number-parse :
    (hex : Bool) (text rest : List ℕ) (v : ℕ)
    → v < 2 ^ 64
    → All (λ c. takes hex c ≡ true) text
    → takes hex (char_at rest 0) ≡ false
    → number hex (text ++ rest) v ≡ (parse (base_of hex) v text % 2 ^ 64, rest)
unfolding number parse
number-parse hex [] [] v h t stop = λ p. (wrapped p, [])
  where
    wrapped : v ≡ v % 2 ^ 64
    wrapped = omega arith
number-parse hex [] (c ∷ rest) v h t stop =
    let wrapped : v ≡ v % 2 ^ 64 = omega arith in
    if-false (λ (r : ℕ × List ℕ). r ≡ (v % 2 ^ 64, c ∷ rest)) (takes hex c) _ _ stop
      (λ p. (wrapped p, c ∷ rest))
number-parse hex (c ∷ text) rest v h t stop =
    let w = add64 (mul64 v (base_of hex)) (digit_value c) in
    let P = λ (r : ℕ × List ℕ).
      r ≡ (parse (base_of hex) (v * base_of hex + Digits.digit_value c) text % 2 ^ 64, rest) in
    if-true P (takes hex c) (number hex (text ++ rest) w) (v, c ∷ (text ++ rest)) t.0
      (number-parse hex text rest w (omega arith) t.1 stop ∙ (λ p. (
        parse_wraps hex text w (v * base_of hex + Digits.digit_value c)
            (step_wraps hex v (digit_value c)
              ∙ (λ q. (v * base_of hex + same_digit hex c t.0 q) % 2 ^ 64))
            p,
        rest,
      )))
