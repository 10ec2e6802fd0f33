-- ===== src/Noc/Lexer/Scan/Munch.antt =====
-- The choice of an operator in kernel/noc/lexer.c.
use no_os.Base.{
  ℕ, ◌≤◌, ◌≡◌, refl, Bool, true, false, ◌&&◌, Option, none, some, List, [], ◌∷◌, arith, leb, length,
  All, if-cases, Bool-clash,
}
use no_os.Noc.Lexer.{TokType, operators}
use no_os.Noc.Lexer.Scan.{starts_with, find_op}

-- No later entry of a table is longer than an earlier one.
no_longer : ℕ → List (List ℕ × TokType) → Bool
no_longer n [] = true
no_longer n ((op, t) ∷ rest) = leb (length op) n && no_longer n rest

longest_first : List (List ℕ × TokType) → Bool
longest_first [] = true
longest_first ((op, t) ∷ rest) = no_longer (length op) rest && longest_first rest

operators-longest_first : longest_first operators ≡ true
unfolding longest_first no_longer
operators-longest_first = refl

no_longer-All :
    (n : ℕ) (p : List ℕ) (table : List (List ℕ × TokType))
    → no_longer n table ≡ true
    → All (λ y. starts_with p y.0 ≡ true → length y.0 ≤ n) table
unfolding no_longer
no_longer-All n p [] h = tt
no_longer-All n p ((op, t) ∷ rest) h =
    let first : length op ≤ n = ground (arith, h) in
    let later : no_longer n rest ≡ true = ground (arith, h) in
    (λ e. first, no_longer-All n p rest later)

-- The operator that a table gives for a text, or that it has none.
abbrev pub Munched : List ℕ → List (List ℕ × TokType) → Option (List ℕ × TokType) → Type 0
Munched p table none = All (λ y. starts_with p y.0 ≡ false) table
Munched p table (some x) =
    (starts_with p x.0 ≡ true) × All (λ y. starts_with p y.0 ≡ true → length y.0 ≤ length x.0) table

skip_first :
    (p op : List ℕ) (t : TokType) (rest : List (List ℕ × TokType)) (r : Option (List ℕ × TokType))
    → starts_with p op ≡ false
    → Munched p rest r
    → Munched p ((op, t) ∷ rest) r
skip_first p op t rest none e h = (e, h)
skip_first p op t rest (some x) e h =
    (h.0, ((λ q. absurd (Bool-clash (starts_with p op) q e)), h.1))

find_op-Munched :
    (p : List ℕ) (table : List (List ℕ × TokType))
    → longest_first table ≡ true
    → Munched p table (find_op table p)
unfolding find_op longest_first
find_op-Munched p [] h = tt
find_op-Munched p ((op, t) ∷ rest) h =
    let shorter : no_longer (length op) rest ≡ true = ground (arith, h) in
    let later : longest_first rest ≡ true = ground (arith, h) in
    if-cases (Munched p ((op, t) ∷ rest)) (starts_with p op) (some (op, t)) (find_op rest p)
      (λ e. (e, ((λ q. omega arith), no_longer-All (length op) p rest shorter)))
      (λ e. skip_first p op t rest (find_op rest p) e (find_op-Munched p rest later))

-- The operator that is taken starts the text, and no other operator that starts it is longer; when none is taken,
-- no operator starts the text.
pub operators-Munched : (p : List ℕ) → Munched p operators (find_op operators p)
operators-Munched p = find_op-Munched p operators operators-longest_first
