-- ===== src/Kern/Line/Reads.antt =====
-- A whole line read by line.c: the text returned, and the bounds of the history.
use no_os.Base.{
  ℕ, ◌+◌, ◌≤◌, ◌<◌, ◌≡◌, refl, sym, ap, ap₂, ◌∙◌, Option, none, some, List, [], ◌∷◌, ◌++◌, arith,
  ◌==◌, length, take, drop, All, length-append, if-cases,
}
use no_os.Kern.Line.{Line, hist_max, hist_add, insert, edit, read_keys, line_read}
use no_os.Kern.Line.Edits.{AllFit, inserted}

-- The history has at most 16 lines, and each fits into the buffer.
pub record IsHistory (cap : ℕ) (history : List (List ℕ)) : Type 0 where
  pub size : length history ≤ hist_max
  pub all : AllFit cap history

-- There is such a history.
abbrev pub Stays : ℕ → Option (List (List ℕ)) → Type 0
Stays cap none = ⊥
Stays cap (some history) = IsHistory cap history

-- What a read leaves behind.
abbrev pub ReadFits : ℕ → Option (List ℕ × Option (List (List ℕ)) × List ℕ) → Type 0
ReadFits cap none = Unit
ReadFits cap (some (text, history, keys)) = (length text < cap) × Stays cap history

-- A key of plain text.
abbrev pub IsPlain : ℕ → Type 0
IsPlain c = (0x20 ≤ c) × (c < 0x7F)

take_whole : (xs : List ℕ) → take (length xs) xs ≡ xs
take_whole [] = refl
take_whole (x ∷ xs) = ap (λ rest. x ∷ rest) (take_whole xs)

drop_whole : (xs : List ℕ) → drop (length xs) xs ≡ []
drop_whole [] = refl
drop_whole (x ∷ xs) = drop_whole xs

assoc : (xs ys zs : List ℕ) → (xs ++ ys) ++ zs ≡ xs ++ (ys ++ zs)
assoc [] ys zs = refl
assoc (x ∷ xs) ys zs = ap (λ rest. x ∷ rest) (assoc xs ys zs)

-- The line with the cursor at its end.
abbrev at_end : List (List ℕ) → List ℕ → ℕ → Line
at_end history text pos = record { buf = text; cur = length text; hist_pos = pos }

edit_plain :
    (cap : ℕ) (history : List (List ℕ)) (c : ℕ) (l : Line)
    → IsPlain c
    → edit cap history c l ≡ insert cap history c l
unfolding edit
edit_plain cap history c l p = ground arith

-- The same line, from its parts.
abbrev line_of : List (List ℕ) → List ℕ → ℕ → Line
line_of history text n = record { buf = text; cur = n; hist_pos = length history }

typed :
    (cap : ℕ) (history : List (List ℕ)) (text : List ℕ) (c pos : ℕ)
    → IsPlain c
    → length text + 1 < cap
    → edit cap history c (at_end history text pos)
      ≡ at_end history (text ++ c ∷ []) (length history)
typed cap history text c pos p room =
    edit_plain cap history c (at_end history text pos) p
    ∙ inserted cap history (at_end history text pos) c (p.0, (let q = p.1 in omega arith)) room
    ∙ ap₂ (line_of history) (ap₂ (λ (a b : List ℕ). a ++ c ∷ b) (take_whole text) (drop_whole text))
        (sym (length-append text (c ∷ [])))

append_nil : (xs : List ℕ) → xs ++ [] ≡ xs
append_nil [] = refl
append_nil (x ∷ xs) = ap (λ rest. x ∷ rest) (append_nil xs)

read_plain :
    (cap : ℕ) (history : List (List ℕ)) (c : ℕ) (keys : List ℕ) (l : Line)
    → IsPlain c
    → read_keys cap history (c ∷ keys) l ≡ read_keys cap history keys (edit cap history c l)
unfolding read_keys
read_plain cap history c keys l p = ground arith

-- The result for the text `t`.
abbrev entered : List (List ℕ) → List ℕ → List ℕ → Option (List ℕ × Option (List (List ℕ)) × List ℕ)
entered history rest t = some (t, hist_add t history, rest)

read_keys-typed :
    (cap : ℕ) (history : List (List ℕ)) (keys rest text : List ℕ) (pos : ℕ)
    → All IsPlain keys
    → length text + length keys < cap
    → read_keys cap history (keys ++ b'\n' ∷ rest) (at_end history text pos)
      ≡ entered history rest (text ++ keys)
read_keys-typed cap history [] rest text pos p room =
    unfold read_keys in ap (entered history rest) (sym (append_nil text))
read_keys-typed cap history (c ∷ keys) rest text pos p room =
    read_plain cap history c (keys ++ b'\n' ∷ rest) (at_end history text pos) p.0
    ∙ ap (read_keys cap history (keys ++ b'\n' ∷ rest))
        (typed cap history text c pos p.0 (omega arith))
    ∙ read_keys-typed cap history keys rest (text ++ c ∷ []) (length history) p.1
        (let a = length-append text (c ∷ []) in omega arith)
    ∙ ap (entered history rest) (assoc text (c ∷ []) keys)

-- Keys of plain text that find room, followed by the key for the end of the line, give exactly the text
-- typed, which is also handed to the history, and leave the keys after it unread.
pub line_read-typed :
    (cap : ℕ) (history : List (List ℕ)) (keys rest : List ℕ)
    → All IsPlain keys
    → length keys < cap
    → line_read cap history (keys ++ b'\n' ∷ rest) ≡ some (keys, hist_add keys history, rest)
unfolding line_read
line_read-typed cap history keys rest p room =
    if-cases
      (λ (o : Option (List ℕ × Option (List (List ℕ)) × List ℕ)).
        o ≡ some (keys, hist_add keys history, rest))
      (cap == 0) _ _ (λ none_at_all. absurd (ground arith))
      (λ some_room. read_keys-typed cap history keys rest [] (length history) p (omega arith))
