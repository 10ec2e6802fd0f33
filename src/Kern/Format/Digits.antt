-- ===== src/Kern/Format/Digits.antt =====
-- The digits of format.c, read back.
use no_os.Base.{
  ℕ, zero, suc, ◌+◌, ◌-◌, ◌*◌, ◌/◌, ◌%◌, ◌^◌, ◌≤◌, ◌<◌, ◌≡◌, refl, ap, ap₂, ◌∙◌, Bool, true, false,
  List, [], ◌∷◌, ◌++◌, map, arith, ltb, ◌==◌, if◌then◌else◌, length, take, All, length-append,
  dec_lt, if-cases, subst,
}
use native.Mathlib.Nat.{div-add-mod', mod-lt, mul-div-le, mul-le-mul, pow-succ'}
use no_os.Kern.Format.{digit_char, digits, rev, real_base, aformat}

-- What a digit's character stands for, in either case.
unfoldable pub digit_value : ℕ → ℕ
digit_value c =
    if ltb c b'A' then c - b'0' else (if ltb c b'a' then c - b'A' + 10 else c - b'a' + 10)

-- The number that a text stands for, the highest digit first.
unfoldable pub parse : ℕ → ℕ → List ℕ → ℕ
parse base acc [] = acc
parse base acc (c ∷ text) = parse base (acc * base + digit_value c) text

digit_value-char : (upper : Bool) (d : ℕ) → d < 16 → digit_value (digit_char upper d) ≡ d
unfolding digit_value digit_char
digit_value-char true d lt = ground arith
digit_value-char false d lt = ground arith

parse-append :
    (base acc : ℕ) (xs ys : List ℕ) → parse base acc (xs ++ ys) ≡ parse base (parse base acc xs) ys
unfolding parse
parse-append base acc [] ys = refl
parse-append base acc (x ∷ xs) ys = parse-append base (acc * base + digit_value x) xs ys

-- The number of the digits, the lowest first.
total : ℕ → List ℕ → ℕ
total base [] = 0
total base (d ∷ ds) = total base ds * base + d

parse-rev :
    (base : ℕ) (upper : Bool) (ds : List ℕ)
    → All (λ d. d < 16) ds
    → parse base 0 (rev (map (digit_char upper) ds)) ≡ total base ds
unfolding rev total parse
parse-rev base upper [] h = refl
parse-rev base upper (d ∷ ds) h =
    parse-append base 0 (rev (map (digit_char upper) ds)) (digit_char upper d ∷ [])
    ∙ ap₂ (λ (a b : ℕ). a * base + b) (parse-rev base upper ds h.1) (digit_value-char upper d h.0)

quotient-lt : (v base m : ℕ) → 2 ≤ base → v < 2 * m → v / base < m
quotient-lt v base m two lt = elim (dec_lt (v / base) m) [
  | yes below ↦ below
  | no above ↦
      let le = mul-le-mul {n₁ = 2} {m₁ = m} {n₂ = base} {m₂ = v / base} two (omega arith) in
      let q = mul-div-le v base in absurd (omega arith)
]

digits-total :
    (room base v : ℕ)
    → 2 ≤ base
    → base ≤ 16
    → v < 2 ^ room
    → (total base (digits room base v) ≡ v) × All (λ d. d < 16) (digits room base v)
unfolding digits total
digits-total zero base v two small lt = ((omega arith), tt)
digits-total (suc room) base v two small lt =
    let ih =
      digits-total room base (v / base) two small
        (quotient-lt v base (2 ^ room) two (subst (λ m. v < m) (pow-succ' 2 room) lt)) in
    if-cases (λ ds. (total base ds ≡ v) × All (λ d. d < 16) ds) (v == 0) [] _
      (λ zero_left. ((ground arith), tt))
      (λ some_left. (
        ap (λ q. q * base + v % base) ih.0 ∙ div-add-mod' v base,
        ((let r = mod-lt v {m = base} (omega arith) in omega arith), ih.1),
      ))

length-rev : (xs : List ℕ) → length (rev xs) ≡ length xs
unfolding rev
length-rev [] = refl
length-rev (x ∷ xs) =
    let a = length-append (rev xs) (x ∷ []) in let ih = length-rev xs in omega arith

length-digits : (room base v : ℕ) → length (digits room base v) ≤ room
unfolding digits
length-digits zero base v = omega arith
length-digits (suc room) base v = let ih = length-digits room base (v / base) in ground arith

length-map : (f : ℕ → ℕ) (xs : List ℕ) → length (map f xs) ≡ length xs
length-map f [] = refl
length-map f (x ∷ xs) = ap suc (length-map f xs)

take_all : (n : ℕ) (xs : List ℕ) → length xs ≤ n → take n xs ≡ xs
take_all zero [] le = refl
take_all zero (x ∷ xs) le = absurd (omega arith)
take_all (suc n) [] le = refl
take_all (suc n) (x ∷ xs) le = ap (λ rest. x ∷ rest) (take_all n xs (omega arith))

whole :
    (n base : ℕ) (upper : Bool) (ds : List ℕ) (v : ℕ)
    → length ds < n
    → All (λ d. d < 16) ds
    → total base ds ≡ v
    → parse base 0 (take (n - 1) (rev (map (digit_char upper) ds))) ≡ v
whole n base upper ds v lt small e =
    ap (parse base 0) (
      take_all (n - 1) (rev (map (digit_char upper) ds)) (
        let a = length-rev (map (digit_char upper) ds) in
        let b = length-map (digit_char upper) ds in omega arith))
    ∙ parse-rev base upper ds small
    ∙ e

-- In a base from 2 to 16 and a buffer of at least 66 bytes, the text written for a word stands for it,
-- whichever the case of the letters.
pub parse-aformat :
    (n base v : ℕ) (upper : Bool)
    → 66 ≤ n
    → 2 ≤ base
    → base ≤ 16
    → v < 2 ^ 64
    → parse base 0 (aformat n base v upper) ≡ v
unfolding aformat
parse-aformat n base v upper room two small lt =
    let same : real_base base ≡ base = unfold real_base in ground arith in
    let d = digits-total 65 base v two small (omega arith) in
    rw same (
      if-cases (λ ds. parse base 0 (take (n - 1) (rev (map (digit_char upper) ds))) ≡ v) (v == 0)
        (0 ∷ []) (digits 65 base v)
        (λ z.
          whole n base upper (0 ∷ []) v (omega arith) ((omega arith), tt)
            (unfold total in ground arith))
        (λ nz.
          whole n base upper (digits 65 base v) v (let l = length-digits 65 base v in omega arith)
            d.1 d.0))
