-- ===== src/Noc/Lexer/Scan.antt =====
-- The scanning loops of `noc_lex` in kernel/noc/lexer.c and the choice of the next token.
pub mod Progress
pub mod Stream
pub mod Munch
pub mod Numbers
mod Tests
use no_os.Base.{
  [], ℕ, zero, suc, ◌+◌, ◌-◌, Bool, true, false, ◌&&◌, ◌||◌, Option, none, some, List, ◌∷◌, leb,
  ◌==◌, if◌then◌else◌, length, get_or, drop, add64, mul64,
}
use no_os.Noc.Lexer.{
  TokType, t_eof, t_num, t_str, Tok, Arena, noc_arena_alloc, is_digit, is_ident_start,
  is_ident_char, is_hex_digit, is_space, between, keyword_type, operators,
}

-- `*p` and `p[1]`
abbrev pub char_at : List ℕ → ℕ → ℕ
char_at p i = get_or p i 0

pub skip_spaces : List ℕ → List ℕ
unfolding is_space
skip_spaces [] = []
skip_spaces (c ∷ p) = let rest = skip_spaces p in if is_space c then rest else c ∷ p

-- To the line feed, which stays.
pub skip_line : List ℕ → List ℕ
skip_line [] = []
skip_line (c ∷ p) = let rest = skip_line p in if c == 10 then c ∷ p else rest

-- Behind the end of the comment, or to the end of the text.
pub skip_block : List ℕ → List ℕ
skip_block [] = []
skip_block (c ∷ p) =
    let rest = skip_block p in if c == b'*' && char_at p 0 == b'/' then drop 1 p else rest

pub digit_value : ℕ → ℕ
unfolding is_digit between
digit_value d =
    if is_digit d then d - b'0' else (if between b'a' d b'f' then d - b'a' + 10 else d - b'A' + 10)

pub number : Bool → List ℕ → ℕ → ℕ × List ℕ
unfolding is_hex_digit is_digit digit_value
number hex [] v = (v, [])
number hex (d ∷ p) v =
    let rest = number hex p (add64 (mul64 v (if hex then 16 else 10)) (digit_value d)) in
    if (if hex then is_hex_digit d else is_digit d) then rest else (v, d ∷ p)

pub word : List ℕ → List ℕ × List ℕ
unfolding is_ident_char
word [] = ([], [])
word (c ∷ p) =
    let (chars, rest) = word p in if is_ident_char c then (c ∷ chars, rest) else ([], c ∷ p)

pub lex_escape : ℕ → ℕ
lex_escape c = if c == b'n' then 10 else (if c == b't' then 9 else (if c == b'r' then 13 else c))

-- How the loop over a string ends: before a quote or the end of the text with the decoded bytes, by the limit of 256
-- bytes, or by an escape at the end of the text, which reads on behind it.
pub data StringEnd : Type 0 where
  closed : List ℕ → List ℕ → StringEnd
  too_long : StringEnd
  overrun : StringEnd

pub put_byte : ℕ → ℕ → StringEnd → StringEnd
put_byte c len (closed bytes rest) = if leb 256 (len + 1) then too_long else closed (c ∷ bytes) rest
put_byte c len too_long = too_long
put_byte c len overrun = if leb 256 (len + 1) then too_long else overrun

pub string_body : List ℕ → ℕ → StringEnd
unfolding put_byte lex_escape
string_body [] len = closed [] []
string_body (c ∷ []) len =
    if c == b'"'
    then closed [] (c ∷ [])
    else (if c == b'\\' then put_byte 0 len overrun else put_byte c len (closed [] []))
string_body (c ∷ e ∷ p) len =
    let escaped = string_body p (len + 1) in
    let plain = string_body (e ∷ p) (len + 1) in
    if c == b'"'
    then closed [] (c ∷ e ∷ p)
    else (if c == b'\\' then put_byte (lex_escape e) len escaped else put_byte c len plain)

pub starts_with : List ℕ → List ℕ → Bool
starts_with p [] = true
starts_with [] (y ∷ op) = false
starts_with (x ∷ p) (y ∷ op) = x == y && starts_with p op

pub find_op : List (List ℕ × TokType) → List ℕ → Option (List ℕ × TokType)
unfolding starts_with
find_op [] p = none
find_op ((op, t) ∷ rest) p = let r = find_op rest p in if starts_with p op then some (op, t) else r

pub data Error : Type 0 where
  too_many_tokens : Error
  out_of_memory : Error
  string_too_long : Error
  unexpected : ℕ → Error

-- What one round makes of a text that starts with no space and no comment. `fault` is a write to NULL or a read behind
-- the text.
pub data Next : Type 0 where
  ended : Next
  got : Tok → List ℕ → Arena → Next
  failed : Error → Next
  fault : Next

pub lex_number : List ℕ → Arena → Next
unfolding number
lex_number p a =
    let hex = char_at p 0 == b'0' && (char_at p 1 == b'x' || char_at p 1 == b'X') in
    let (v, rest) = number hex (if hex then drop 2 p else p) 0 in
    got (record { t = t_num; num = v; s = none }) rest a

pub lex_word : List ℕ → Arena → Next
unfolding word noc_arena_alloc keyword_type
lex_word p a =
    let (chars, rest) = word p in
    let (s, a') = noc_arena_alloc (length chars + 1) a in
    elim s [
      | none ↦ failed out_of_memory
      | some _ ↦ got (record { t = keyword_type chars; num = 0; s = some chars }) rest a'
    ]

pub end_string : StringEnd → Arena → Next
end_string (closed bytes rest) a =
    got (record { t = t_str; num = 0; s = some bytes })
      (if char_at rest 0 == b'"' then drop 1 rest else rest) a
end_string too_long a = failed string_too_long
end_string overrun a = fault

-- The buffer is written without a test for NULL.
pub lex_string : List ℕ → Arena → Next
unfolding noc_arena_alloc string_body end_string
lex_string p a =
    let (buf, a') = noc_arena_alloc 256 a in
    elim buf [ none ↦ fault | some _ ↦ end_string (string_body (drop 1 p) 0) a' ]

-- The message of the error is put into the arena if it has room.
pub lex_op : List ℕ → Arena → Next
unfolding find_op
lex_op p a = elim (find_op operators p) [
  | none ↦ failed (unexpected (char_at p 0))
  | some (op, t) ↦ got (record { t = t; num = 0; s = none }) (drop (length op) p) a
]

pub next_token : List ℕ → Arena → Next
unfolding is_digit is_ident_start lex_number lex_word lex_string lex_op
next_token p a =
    let c = char_at p 0 in
    if c == 0
    then ended
    else (if is_digit c
        then lex_number p a
        else (if is_ident_start c
            then lex_word p a
            else (if c == b'"' then lex_string p a else lex_op p a)))

-- The tokens and the arena, an error, a fault, or the end of the fuel.
pub data Lexed : Type 0 where
  lexed : List Tok → Arena → Lexed
  refused : Error → Lexed
  faulted : Lexed
  no_fuel : Lexed

pub push_tok : Tok → Lexed → Lexed
push_tok t (lexed toks a) = lexed (t ∷ toks) a
push_tok t (refused e) = refused e
push_tok t faulted = faulted
push_tok t no_fuel = no_fuel

abbrev pub eof : Tok
eof = record { t = t_eof; num = 0; s = none }

pub line_comment : List ℕ → Bool
line_comment p = char_at p 0 == b'/' && char_at p 1 == b'/'

pub block_comment : List ℕ → Bool
block_comment p = char_at p 0 == b'/' && char_at p 1 == b'*'

-- What follows a round; `more` is the rest of the loop.
pub after_round : (List ℕ → Arena → Lexed) → Arena → Next → Lexed
unfolding push_tok
after_round more a ended = lexed (eof ∷ []) a
after_round more a (got t rest a') = push_tok t (more rest a')
after_round more a (failed e) = refused e
after_round more a fault = faulted

-- The rounds of the loop, with `n` tokens behind them.
pub lex_from : ℕ → ℕ → List ℕ → ℕ → Arena → Lexed
unfolding skip_spaces skip_line skip_block line_comment block_comment next_token after_round
lex_from zero maxtoks p n a = no_fuel
lex_from (suc fuel) maxtoks p n a =
    let q = skip_spaces p in
    let behind_comment =
      lex_from fuel maxtoks (if line_comment q then skip_line q else skip_block (drop 2 q)) n a in
    let behind_token =
      after_round (λ rest a'. lex_from fuel maxtoks rest (n + 1) a') a (next_token q a) in
    if line_comment q || block_comment q
    then behind_comment
    else (if leb maxtoks n then refused too_many_tokens else behind_token)

pub noc_lex : List ℕ → Arena → ℕ → Lexed
unfolding lex_from
noc_lex src a maxtoks = lex_from (length src + 1) maxtoks src 0 a
