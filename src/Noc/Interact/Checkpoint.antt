-- ===== src/Noc/Interact/Checkpoint.antt =====
-- The checkpoint of the log of kernel/noc/interact.c.
use no_os.Base.{
  ℕ, zero, suc, ◌-◌, ◌≤◌, ◌<◌, ◌≡◌, refl, sym, ap, ◌∙◌, true, false, ◌&&◌, List, [], ◌∷◌, ◌++◌,
  arith, ltb, ◌==◌, length, drop, All, length-append, length-drop, dec_lt, if-cases, subst,
}
use no_os.Noc.Interact.{has_line, drop_record, checkpoint}
use no_os.Noc.Interact.Records.{flatten, drop_record-flatten}

drop_within :
    (m : ℕ) (line rest : List ℕ) → m ≤ length line → drop m (line ++ rest) ≡ drop m line ++ rest
drop_within zero line rest h = refl
drop_within (suc m) [] rest h = absurd (omega arith)
drop_within (suc m) (c ∷ line) rest h = drop_within m line rest (omega arith)

drop_behind :
    (m : ℕ) (line rest : List ℕ)
    → length line < m
    → drop m (line ++ 10 ∷ rest) ≡ drop (m - length line - 1) rest
drop_behind zero line rest h = absurd (omega arith)
drop_behind (suc m) [] rest h = let e : m ≡ suc m - 0 - 1 = omega arith in λ p. drop (e p) rest
drop_behind (suc m) (c ∷ line) rest h =
    let e : m - length line - 1 ≡ suc m - suc (length line) - 1 = omega arith in
    drop_behind m line rest (omega arith) ∙ (λ p. drop (e p) rest)

has_line-drop : (m : ℕ) (s : List ℕ) → has_line s ≡ false → has_line (drop m s) ≡ false
unfolding has_line
has_line-drop zero s h = h
has_line-drop (suc m) [] h = refl
has_line-drop (suc m) (c ∷ s) h =
    let later : has_line s ≡ false = ground (arith, h) in has_line-drop m s later

has_line-front : (s rest : List ℕ) → has_line (s ++ 10 ∷ rest) ≡ true
unfolding has_line
has_line-front [] rest = refl
has_line-front (c ∷ s) rest = let later = has_line-front s rest in ground (arith, later)

-- A text that begins in the middle of records has a line end, and behind it whole records.
abbrev Aligned : List (List ℕ) → List ℕ → Type 0
Aligned lines text =
    (has_line text ≡ true)
    × (j : ℕ) × (drop_record text ≡ flatten (drop (suc j) lines))
    × (length text ≤ length (flatten (drop j lines)))

line-Aligned :
    (m : ℕ) (lines : List (List ℕ))
    → All (λ line. has_line line ≡ false) lines
    → m < length (flatten lines)
    → Aligned lines (drop m (flatten lines))
unfolding flatten
line-Aligned m [] s h = absurd (omega arith)
line-Aligned m (line ∷ lines) s h = elim (dec_lt (length line) m) [
  | yes behind ↦
      let e = drop_behind m line (flatten lines) behind in
      let r =
        line-Aligned (m - length line - 1) lines s.1
          (omega (arith, h, behind, length-append {0} line (10 ∷ flatten lines))) in
      (
        (λ p. has_line (e p)) ∙ r.0,
        suc r.1,
        (λ p. drop_record (e p)) ∙ r.2,
        omega (arith, r.3, ap length e),
      )
  | no within ↦
      let e = drop_within m line (10 ∷ flatten lines) (omega arith) in
      (
        (λ p. has_line (e p)) ∙ has_line-front (drop m line) (flatten lines),
        0,
        (λ p. drop_record (e p))
            ∙ drop_record-flatten (drop m line) (flatten lines) (has_line-drop m line s.0),
        omega (arith, length-drop {0} m (flatten (line ∷ lines))),
      )
]

length-drop_record : (text : List ℕ) → length (drop_record text) ≤ length text
unfolding drop_record
length-drop_record [] = omega arith
length-drop_record (c ∷ text) =
    if-cases (λ t. length t ≤ length (c ∷ text)) (c == 10) text (drop_record text)
      (λ h. omega arith) (λ h. omega (arith, length-drop_record text))

-- The checkpoint of a log of whole records is at most 4096 bytes and holds the last records of the log as a whole;
-- where it leaves records out, one record more would make at least 4096 bytes.
pub checkpoint-flatten :
    (lines : List (List ℕ))
    → All (λ line. has_line line ≡ false) lines
    → (length (checkpoint (flatten lines)) ≤ 4096)
      × (k : ℕ) × (checkpoint (flatten lines) ≡ flatten (drop k lines))
      × (0 < k → 4096 ≤ length (flatten (drop (k - 1) lines)))
unfolding checkpoint
checkpoint-flatten lines s =
    let text = flatten lines in
    let window = drop (length text - 4096) text in
    let P = λ (t : List ℕ).
      (length t ≤ 4096)
      × (k : ℕ) × (t ≡ flatten (drop k lines))
      × (0 < k → 4096 ≤ length (flatten (drop (k - 1) lines))) in
    let size = length-drop {0} (length text - 4096) text in
    if-cases P (ltb 4096 (length text) && has_line window) (drop_record window) window
      (λ h.
        let long : 4096 < length text = ground (arith, h) in
        let r = line-Aligned (length text - 4096) lines s (omega (arith, long)) in
        (
          omega (arith, size, length-drop_record window),
          suc r.1,
          r.2,
          λ q.
              let same : suc r.1 - 1 ≡ r.1 = omega arith in
              let larger : 4096 ≤ length (flatten (drop r.1 lines)) =
                omega (arith, long, size, r.3) in
              subst (λ i. 4096 ≤ length (flatten (drop i lines))) (sym same) larger,
        ))
      (λ h. elim (dec_lt 4096 (length text)) [
        | yes long ↦
            let r = line-Aligned (length text - 4096) lines s (omega (arith, long)) in
            absurd (ground (arith, h, r.0, long))
        | no short ↦
            let e : length text - 4096 ≡ 0 = omega (arith, short) in
            (omega (arith, size, short), 0, (λ p. drop (e p) text), λ q. absurd (omega arith))
      ])
