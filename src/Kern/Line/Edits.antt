-- ===== src/Kern/Line/Edits.antt =====
-- The editing of a line in line.c, key by key: the bounds of the buffer, and the text around the cursor.
use no_os.Base.{
  ℕ, zero, suc, ◌+◌, ◌-◌, ◌≤◌, ◌<◌, min, ◌≡◌, refl, ap, ap₂, ◌∙◌, ◌≢◌, not, ◌&&◌, List, [], ◌∷◌,
  ◌++◌, arith, ltb, leb, ◌==◌, length, take, drop, All, length-append, length-take, length-drop,
  take-append-drop, All-get_or, if-cases,
}
use no_os.Kern.Line.{Line, backspace, delete, insert, recalled, recall_up, recall_down, edit}

-- The cursor and the history's slot are in bounds, and there is room for the terminator.
pub record IsLine (cap : ℕ) (history : List (List ℕ)) (l : Line) : Type 0 where
  pub cur_le : l.cur ≤ length l.buf
  pub fits : length l.buf < cap
  pub pos_le : l.hist_pos ≤ length history

-- Every text of the history fits into the buffer.
abbrev pub AllFit : ℕ → List (List ℕ) → Type 0
AllFit cap history = All (λ (text : List ℕ). length text < cap) history

module _ {A : Type 0} where
  pub take-take_append :
      (n : ℕ) (xs ys : List A) → n ≤ length xs → take n (take n xs ++ ys) ≡ take n xs
  take-take_append zero xs ys le = refl
  take-take_append (suc n) [] ys le = absurd (omega arith)
  take-take_append (suc n) (x ∷ xs) ys le =
      ap (λ rest. x ∷ rest) (take-take_append n xs ys (omega arith))

  pub drop-take_append : (n : ℕ) (xs ys : List A) → n ≤ length xs → drop n (take n xs ++ ys) ≡ ys
  drop-take_append zero xs ys le = refl
  drop-take_append (suc n) [] ys le = absurd (omega arith)
  drop-take_append (suc n) (x ∷ xs) ys le = drop-take_append n xs ys (omega arith)

  drop-next :
      (n : ℕ) (xs ys : List A) (c : A) → n ≤ length xs → drop (suc n) (take n xs ++ c ∷ ys) ≡ ys
  drop-next zero xs ys c le = refl
  drop-next (suc n) [] ys c le = absurd (omega arith)
  drop-next (suc n) (x ∷ xs) ys c le = drop-next n xs ys c (omega arith)

  take-insert :
      (n : ℕ) (xs ys : List A) (c : A)
      → n ≤ length xs
      → take (n + 1) (take n xs ++ c ∷ ys) ≡ take n xs ++ c ∷ []
  take-insert n xs ys c le =
      ap (λ m. take m (take n xs ++ c ∷ ys)) {y = suc n} (omega arith) ∙ go n xs le
    where
      go :
          (n : ℕ) (xs : List A)
          → n ≤ length xs
          → take (suc n) (take n xs ++ c ∷ ys) ≡ take n xs ++ c ∷ []
      go zero xs le = refl
      go (suc n) [] le = absurd (omega arith)
      go (suc n) (x ∷ xs) le = ap (λ rest. x ∷ rest) (go n xs (omega arith))

  drop-insert :
      (n : ℕ) (xs ys : List A) (c : A) → n ≤ length xs → drop (n + 1) (take n xs ++ c ∷ ys) ≡ ys
  drop-insert n xs ys c le =
      ap (λ m. drop m (take n xs ++ c ∷ ys)) {y = suc n} (omega arith) ∙ drop-next n xs ys c le

length-cut : (m n : ℕ) (xs ys : List ℕ) → length (take m xs ++ ys) ≡ min m (length xs) + length ys
length-cut m n xs ys =
    let a = length-append (take m xs) ys in let t = length-take m xs in omega arith

module _ (cap : ℕ) (history : List (List ℕ)) (l : Line) (v : IsLine cap history l) where
  backspace-IsLine : IsLine cap history (backspace cap history l)
  unfolding backspace
  backspace-IsLine =
      if-cases (IsLine cap history) (ltb 0 l.cur) _ _
        (λ some_before.
          let len = length-cut (l.cur - 1) 0 l.buf (drop l.cur l.buf) in
          let d = length-drop l.cur l.buf in
          let c = v.cur_le in
          let f = v.fits in
          record { cur_le = ground arith; fits = ground arith; pos_le = omega arith })
        (λ at_start. v)

  delete-IsLine : IsLine cap history (delete cap history l)
  unfolding delete
  delete-IsLine =
      if-cases (IsLine cap history) (ltb l.cur (length l.buf)) _ _
        (λ some_behind.
          let len = length-cut l.cur 0 l.buf (drop (l.cur + 1) l.buf) in
          let d = length-drop (l.cur + 1) l.buf in
          let c = v.cur_le in
          let f = v.fits in
          record { cur_le = ground arith; fits = ground arith; pos_le = omega arith })
        (λ at_end. v)

  insert-IsLine : (c : ℕ) → IsLine cap history (insert cap history c l)
  unfolding insert
  insert-IsLine c =
      if-cases (IsLine cap history) (leb 0x20 c && not (c == 0x7F) && ltb (length l.buf + 1) cap) _
        _
        (λ typed.
          let len = length-cut l.cur 0 l.buf (c ∷ drop l.cur l.buf) in
          let d = length-drop l.cur l.buf in
          let e = v.cur_le in
          record { cur_le = ground arith; fits = ground arith; pos_le = omega arith })
        (λ ignored. v)

  recalled-IsLine :
      (i : ℕ)
      → AllFit cap history
      → i < length history
      → IsLine cap history (recalled cap history i)
  recalled-IsLine i all lt = record {
    cur_le = omega arith;
    fits =
        All-get_or (λ (text : List ℕ). length text < cap) history i [] all
          (let f = v.fits in omega arith);
    pos_le = omega arith;
  }

  recall_up-IsLine : AllFit cap history → IsLine cap history (recall_up cap history l)
  unfolding recall_up
  recall_up-IsLine all =
      if-cases (IsLine cap history) (ltb 0 (length history) && ltb 0 l.hist_pos) _ _
        (λ some_before. let p = v.pos_le in recalled-IsLine (l.hist_pos - 1) all (ground arith))
        (λ none_before. v)

  recall_down-IsLine : AllFit cap history → IsLine cap history (recall_down cap history l)
  unfolding recall_down
  recall_down-IsLine all =
      if-cases (IsLine cap history) (ltb l.hist_pos (length history)) _ _
        (λ recalling.
          if-cases (IsLine cap history) (ltb (l.hist_pos + 1) (length history)) _ _
            (λ further. recalled-IsLine (l.hist_pos + 1) all (ground arith))
            (λ last.
              let f = v.fits in
              record { cur_le = omega arith; fits = omega arith; pos_le = ground arith }))
        (λ at_end. v)

  -- Every key keeps the cursor, the length and the history's slot in bounds, if the texts of the history fit
  -- into the buffer.
  pub edit-IsLine : (c : ℕ) → AllFit cap history → IsLine cap history (edit cap history c l)
  unfolding edit
  edit-IsLine c all =
      let le = v.cur_le in
      let at : ((n : ℕ) → n ≤ length l.buf → IsLine cap history (record l { cur = n })) =
        λ n h. record { cur_le = h; fits = v.fits; pos_le = v.pos_le } in
      if-cases (IsLine cap history) (c == 0x08) _ _ (λ k. backspace-IsLine)
        (λ k1.
          if-cases (IsLine cap history) (c == 0x82) _ _ (λ k. at (l.cur - 1) (omega arith))
            (λ k2.
              if-cases (IsLine cap history) (c == 0x83) _ _
                (λ k.
                  if-cases (IsLine cap history) (ltb l.cur (length l.buf)) _ _
                    (λ more. at (l.cur + 1) (ground arith)) (λ end. v))
                (λ k3.
                  if-cases (IsLine cap history) (c == 0x84) _ _ (λ k. at 0 (omega arith))
                    (λ k4.
                      if-cases (IsLine cap history) (c == 0x85) _ _
                        (λ k. at (length l.buf) (omega arith))
                        (λ k5.
                          if-cases (IsLine cap history) (c == 0x86) _ _ (λ k. delete-IsLine)
                            (λ k6.
                              if-cases (IsLine cap history) (c == 0x80) _ _
                                (λ k. recall_up-IsLine all)
                                (λ k7.
                                  if-cases (IsLine cap history) (c == 0x81) _ _
                                    (λ k. recall_down-IsLine all) (λ k8. insert-IsLine c))))))))

-- The byte of a key that is put into the line.
abbrev pub IsPrintable : ℕ → Type 0
IsPrintable c = (0x20 ≤ c) × (c ≢ 0x7F)

pub inserted :
    (cap : ℕ) (history : List (List ℕ)) (l : Line) (c : ℕ)
    → IsPrintable c
    → length l.buf + 1 < cap
    → insert cap history c l ≡ record {
      buf = take l.cur l.buf ++ c ∷ drop l.cur l.buf;
      cur = l.cur + 1;
      hist_pos = length history;
    }
unfolding insert
inserted cap history l c p room = ground arith

backspaced :
    (cap : ℕ) (history : List (List ℕ)) (l : Line)
    → 0 < l.cur
    → backspace cap history l ≡ record {
      buf = take (l.cur - 1) l.buf ++ drop l.cur l.buf;
      cur = l.cur - 1;
      hist_pos = length history;
    }
unfolding backspace
backspaced cap history l pos = ground arith

taken_back :
    (xs : List ℕ) (n c : ℕ)
    → n ≤ length xs
    → take (n + 1 - 1) (take n xs ++ c ∷ drop n xs) ++ drop (n + 1) (take n xs ++ c ∷ drop n xs)
      ≡ xs
taken_back xs n c le =
    ap₂ (λ (a b : List ℕ). a ++ b)
      (ap (λ m. take m (take n xs ++ c ∷ drop n xs)) {y = n} (omega arith)
        ∙ take-take_append n xs (c ∷ drop n xs) le)
      (drop-insert n xs (drop n xs) c le)
    ∙ take-append-drop n xs

-- A printable byte that finds room goes between what stands before the cursor and what stands behind it,
-- with the cursor behind it, and a backspace then restores the text and the cursor.
pub backspace-insert :
    (cap : ℕ) (history : List (List ℕ)) (l : Line) (c : ℕ)
    → IsLine cap history l
    → IsPrintable c
    → length l.buf + 1 < cap
    → let l' = insert cap history c l in
      (take l'.cur l'.buf ≡ take l.cur l.buf ++ c ∷ [])
      × (drop l'.cur l'.buf ≡ drop l.cur l.buf)
      × ((backspace cap history l').buf ≡ l.buf)
      × ((backspace cap history l').cur ≡ l.cur)
backspace-insert cap history l c v p room =
    let le = v.cur_le in
    let b = drop l.cur l.buf in
    let l' : Line = record {
      buf = take l.cur l.buf ++ c ∷ b;
      cur = l.cur + 1;
      hist_pos = length history;
    } in
    let back = backspaced cap history l' (omega arith) in
    rw (inserted cap history l c p room) (
      take-insert l.cur l.buf b c le,
      drop-insert l.cur l.buf b c le,
      ap (λ (k : Line). k.buf) back ∙ taken_back l.buf l.cur c le,
      ap (λ (k : Line). k.cur) back ∙ omega arith,
    )
