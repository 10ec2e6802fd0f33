-- ===== src/Noc/Lexer/Scan/Progress.antt =====
-- Each round of kernel/noc/lexer.c takes at least one byte of the text.
use no_os.Base.{
  ℕ, ◌+◌, ◌≤◌, ◌<◌, ◌≡◌, refl, inl, inr, Bool, true, false, not, ◌&&◌, ◌||◌, some, List, [], ◌∷◌,
  arith, ltb, leb, ◌==◌, if◌then◌else◌, Bool-cases, length, drop, length-drop, dec_lt, add64, mul64,
  if-cases, elim-cases, if-true, if-false,
}
use no_os.Noc.Lexer.{
  same_word, TokType, t_eof, t_str, Arena, noc_arena_alloc, is_digit, is_ident_start, is_ident_char,
  is_hex_digit, is_space, keyword_in, keyword_type, keywords, operators,
}
use no_os.Noc.Lexer.Scan.{
  char_at, skip_spaces, skip_line, skip_block, number, word, StringEnd, closed, too_long, overrun,
  put_byte, string_body, starts_with, find_op, Next, ended, got, failed, fault, lex_number,
  lex_word, end_string, lex_string, lex_op, next_token, line_comment, block_comment, lex_escape,
  digit_value,
}

unfoldable pub is_eof : TokType → Bool
is_eof t_eof = true
is_eof _ = false

pub length-skip_spaces : (p : List ℕ) → length (skip_spaces p) ≤ length p
unfolding skip_spaces
length-skip_spaces [] = omega arith
length-skip_spaces (c ∷ p) =
    if-cases (λ q. length q ≤ length (c ∷ p)) (is_space c) (skip_spaces p) (c ∷ p)
      (λ h. omega (arith, length-skip_spaces p)) (λ h. omega arith)

length-skip_line : (p : List ℕ) → length (skip_line p) ≤ length p
unfolding skip_line
length-skip_line [] = omega arith
length-skip_line (c ∷ p) =
    if-cases (λ q. length q ≤ length (c ∷ p)) (c == 10) (c ∷ p) (skip_line p) (λ h. omega arith)
      (λ h. omega (arith, length-skip_line p))

length-skip_block : (p : List ℕ) → length (skip_block p) ≤ length p
unfolding skip_block
length-skip_block [] = omega arith
length-skip_block (c ∷ p) =
    if-cases (λ q. length q ≤ length (c ∷ p)) (c == b'*' && char_at p 0 == b'/') (drop 1 p)
      (skip_block p) (λ h. omega (arith, length-drop {0} 1 p))
      (λ h. omega (arith, length-skip_block p))

-- A comment is passed over.
pub comment_shorter :
    (q : List ℕ)
    → (line_comment q || block_comment q) ≡ true
    → length (if line_comment q then skip_line q else skip_block (drop 2 q)) < length q
unfolding line_comment block_comment skip_line
comment_shorter [] h = cc
comment_shorter (c ∷ q) h =
    let slash : c ≡ b'/' = ground (arith, h) in
    let other : (c == 10) ≡ false = ground (arith, slash) in
    let line : length (skip_line (c ∷ q)) < length (c ∷ q) =
      if-false (λ r. length r < length (c ∷ q)) (c == 10) (c ∷ q) (skip_line q) other
        (omega (arith, length-skip_line q)) in
    if-cases (λ r. length r < length (c ∷ q)) (line_comment (c ∷ q)) (skip_line (c ∷ q))
      (skip_block (drop 1 q)) (λ e. line)
      (λ e. omega (arith, length-skip_block (drop 1 q), length-drop {0} 1 q))

length-number : (hex : Bool) (p : List ℕ) (v : ℕ) → length (number hex p v).1 ≤ length p
unfolding number
length-number hex [] v = omega arith
length-number hex (d ∷ p) v =
    let w = add64 (mul64 v (if hex then 16 else 10)) (digit_value d) in
    if-cases (λ (r : ℕ × List ℕ). length r.1 ≤ length (d ∷ p))
      (if hex then is_hex_digit d else is_digit d) (number hex p w) (v, d ∷ p)
      (λ h. omega (arith, length-number hex p w)) (λ h. omega arith)

length-word : (p : List ℕ) → length (word p).1 ≤ length p
unfolding word
length-word [] = omega arith
length-word (c ∷ p) =
    if-cases (λ (r : List ℕ × List ℕ). length r.1 ≤ length (c ∷ p)) (is_ident_char c)
      (c ∷ (word p).0, (word p).1) ([], c ∷ p) (λ h. omega (arith, length-word p))
      (λ h. omega arith)

-- Whether a text ends with a backslash.
pub ends_escaped : List ℕ → Bool
ends_escaped [] = false
ends_escaped (c ∷ []) = c == b'\\'
ends_escaped (c ∷ e ∷ p) = ends_escaped (e ∷ p)

ends_later : (c : ℕ) (p : List ℕ) → ends_escaped p ≡ true → ends_escaped (c ∷ p) ≡ true
unfolding ends_escaped
ends_later c [] h = cc
ends_later c (e ∷ p) h = h

-- How the loop over the text `p` ends behind `len` bytes: before a quote or at the end of the text, with room
-- for the final zero; with more bytes than the buffer has; or behind the text, after a last backslash.
abbrev pub Scanned : List ℕ → ℕ → StringEnd → Type 0
Scanned p len (closed bytes rest) = (length rest ≤ length p) × (length bytes + len ≤ 255)
Scanned p len too_long = 255 < len + length p
Scanned p len overrun = ends_escaped p ≡ true

put_byte-Scanned :
    (c len : ℕ) (q p : List ℕ) (r : StringEnd)
    → len ≤ 255
    → length q + 1 ≤ length p
    → (ends_escaped q ≡ true → ends_escaped p ≡ true)
    → (len + 1 ≤ 255 → Scanned q (len + 1) r)
    → Scanned p len (put_byte c len r)
unfolding put_byte
put_byte-Scanned c len q p (closed bytes rest) small shorter ends h =
    if-cases (Scanned p len) (leb 256 (len + 1)) _ _ (λ e. ground arith)
      (λ e.
        let fits : len + 1 ≤ 255 = ground (arith, e) in
        (omega (arith, (h fits).0), omega (arith, (h fits).1)))
put_byte-Scanned c len q p too_long small shorter ends h = elim (dec_lt 254 len) [
  | yes full ↦ omega arith
  | no room ↦ let ih = h (omega (arith, room)) in omega (arith, ih)
]
put_byte-Scanned c len q p overrun small shorter ends h =
    if-cases (Scanned p len) (leb 256 (len + 1)) _ _ (λ e. ground arith)
      (λ e. ends (h (ground (arith, e))))

-- The loop over a string, on a text behind `len` bytes that the buffer holds: a string that it accepts ends
-- within the text and leaves room for the final zero in the buffer of 256 bytes; it refuses a string as too long
-- only when the text has the bytes to fill the buffer; and it reads behind the text only after a backslash
-- that is the text's last byte.
pub string_body-Scanned : (p : List ℕ) (len : ℕ) → len ≤ 255 → Scanned p len (string_body p len)
unfolding string_body
string_body-Scanned [] len h = omega arith
string_body-Scanned (c ∷ []) len h =
    let P = Scanned (c ∷ []) len in
    if-cases P (c == b'"') _ _ (λ e. omega arith)
      (λ e.
        if-cases P (c == b'\\') _ _
          (λ f.
            unfold put_byte ends_escaped in
            if-cases P (leb 256 (len + 1)) too_long overrun (λ full. ground arith) (λ room. f))
          (λ f.
            put_byte-Scanned c len [] (c ∷ []) (closed [] []) h (omega arith)
              (λ q. unfold ends_escaped in cc) (λ q. (omega arith, omega arith))))
string_body-Scanned (c ∷ e ∷ p) len h =
    let P = Scanned (c ∷ e ∷ p) len in
    if-cases P (c == b'"') _ _ (λ q. (omega arith, omega arith))
      (λ q.
        if-cases P (c == b'\\') _ _
          (λ f.
            put_byte-Scanned (lex_escape e) len p (c ∷ e ∷ p) (string_body p (len + 1)) h
              (omega arith) (λ z. ends_later c (e ∷ p) (ends_later e p z))
              (string_body-Scanned p (len + 1)))
          (λ f.
            put_byte-Scanned c len (e ∷ p) (c ∷ e ∷ p) (string_body (e ∷ p) (len + 1)) h
              (omega arith) (ends_later c (e ∷ p)) (string_body-Scanned (e ∷ p) (len + 1))))

-- What a round has taken: some of the text, for a token that is not the end.
abbrev pub Advances : ℕ → Next → Type 0
Advances n ended = Unit
Advances n (got t rest a) = (length rest < n) × (is_eof t.t ≡ false)
Advances n (failed e) = Unit
Advances n fault = Unit

start_shorter :
    (hex : Bool) (d : ℕ) (p : List ℕ)
    → is_digit d ≡ true
    → length (number hex (if hex then drop 1 p else d ∷ p) 0).1 < length (d ∷ p)
unfolding number
start_shorter true d p h = omega (arith, length-number true (drop 1 p) 0, length-drop {0} 1 p)
start_shorter false d p h =
    let w = add64 (mul64 0 10) (digit_value d) in
    if-true (λ (r : ℕ × List ℕ). length r.1 < length (d ∷ p)) (is_digit d) (number false p w)
      (0, d ∷ p) h (omega (arith, length-number false p w))

number-Advances :
    (d : ℕ) (p : List ℕ) (a : Arena)
    → is_digit d ≡ true
    → Advances (length (d ∷ p)) (lex_number (d ∷ p) a)
unfolding lex_number is_eof
number-Advances d p a h =
    (start_shorter (d == b'0' && (char_at p 0 == b'x' || char_at p 0 == b'X')) d p h, refl)

-- No entry of a table stands for the end.
no_eof : List (List ℕ × TokType) → Bool
no_eof [] = true
no_eof ((w, t) ∷ rest) = not (is_eof t) && no_eof rest

keyword_in-is_eof :
    (table : List (List ℕ × TokType)) (s : List ℕ)
    → no_eof table ≡ true
    → is_eof (keyword_in table s) ≡ false
unfolding keyword_in no_eof
keyword_in-is_eof [] s h = unfold is_eof in refl
keyword_in-is_eof ((w, t) ∷ rest) s h =
    if-cases (λ k. is_eof k ≡ false) (same_word w s) t (keyword_in rest s) (λ e. ground (arith, h))
      (λ e. let later : no_eof rest ≡ true = ground (arith, h) in keyword_in-is_eof rest s later)

keywords-no_eof : no_eof keywords ≡ true
unfolding no_eof is_eof
keywords-no_eof = refl

word-Advances :
    (c : ℕ) (p : List ℕ) (a : Arena)
    → is_ident_start c ≡ true
    → Advances (length (c ∷ p)) (lex_word (c ∷ p) a)
unfolding lex_word keyword_type word is_ident_char
word-Advances c p a h =
    let chars = (word (c ∷ p)).0 in
    let shorter : length (word (c ∷ p)).1 < length (c ∷ p) =
      if-true (λ (r : List ℕ × List ℕ). length r.1 < length (c ∷ p)) (is_ident_char c)
        (c ∷ (word p).0, (word p).1) ([], c ∷ p) (ground (arith, h))
        (omega (arith, length-word p)) in
    elim-cases (Advances (length (c ∷ p))) (noc_arena_alloc (length chars + 1) a).0 _ _ tt
      (λ s e. (shorter, keyword_in-is_eof keywords chars keywords-no_eof))

string-Advances :
    (c : ℕ) (p : List ℕ) (a : Arena) → Advances (length (c ∷ p)) (lex_string (c ∷ p) a)
unfolding lex_string end_string
string-Advances c p a =
    elim-cases (Advances (length (c ∷ p))) (noc_arena_alloc 256 a).0 _ _ tt
      (λ s e. finish (string_body p 0) _ (string_body-Scanned p 0 (omega arith)))
  where
    finish :
        (r : StringEnd) (b : Arena) → Scanned p 0 r → Advances (length (c ∷ p)) (end_string r b)
    finish (closed bytes rest) b h =
        if-cases (λ (q : List ℕ). (length q < length (c ∷ p)) × (is_eof t_str ≡ false))
          (char_at rest 0 == b'"') (drop 1 rest) rest
          (λ q. (omega (arith, h.0, length-drop {0} 1 rest), unfold is_eof in refl))
          (λ q. (omega (arith, h.0), unfold is_eof in refl))
    finish too_long b h = tt
    finish overrun b h = tt

starts_with-length : (p op : List ℕ) → starts_with p op ≡ true → length op ≤ length p
unfolding starts_with
starts_with-length p [] h = omega arith
starts_with-length [] (y ∷ op) h = cc
starts_with-length (x ∷ p) (y ∷ op) h =
    let rest : starts_with p op ≡ true = ground (arith, h) in
    omega (arith, starts_with-length p op rest)

good_ops : List (List ℕ × TokType) → Bool
good_ops [] = true
good_ops ((op, t) ∷ rest) = ltb 0 (length op) && not (is_eof t) && good_ops rest

operators-good : good_ops operators ≡ true
unfolding good_ops is_eof
operators-good = refl

find_op-fits :
    (table : List (List ℕ × TokType)) (p : List ℕ) (x : List ℕ × TokType)
    → good_ops table ≡ true
    → find_op table p ≡ some x
    → (0 < length x.0) × (length x.0 ≤ length p) × (is_eof x.1 ≡ false)
unfolding find_op good_ops
find_op-fits [] p x h e = cc
find_op-fits ((op, t) ∷ rest) p x h e = elim (Bool-cases (starts_with p op)) [
  | inl s ↦
      let q : (op, t) ≡ x = let y = rw s at e in cc in
      rw (← q) (ground (arith, h), starts_with-length p op s, ground (arith, h))
  | inr s ↦
      let later : good_ops rest ≡ true = ground (arith, h) in
      find_op-fits rest p x later (rw s at e)
]

op-Advances : (p : List ℕ) (a : Arena) → Advances (length p) (lex_op p a)
unfolding lex_op
op-Advances p a = elim-cases (Advances (length p)) (find_op operators p) _ _ tt (λ x e.
    let f = find_op-fits operators p x operators-good e in
    (omega (arith, f.0, f.1, length-drop {0} (length x.0) p), f.2))

-- A token that a round gives takes some of the text and is not the end.
pub next_token-Advances : (p : List ℕ) (a : Arena) → Advances (length p) (next_token p a)
unfolding next_token
next_token-Advances [] a = tt
next_token-Advances (c ∷ p) a =
    let P = Advances (length (c ∷ p)) in
    if-cases P (c == 0) _ _ (λ e. tt)
      (λ e. if-cases P (is_digit c) _ _ (number-Advances c p a) (λ e.
        if-cases P (is_ident_start c) _ _ (word-Advances c p a) (λ e.
          if-cases P (c == b'"') _ _ (λ e. string-Advances c p a) (λ e. op-Advances (c ∷ p) a))))
