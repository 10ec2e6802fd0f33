-- ===== src/Noc/Lexer.antt =====
-- kernel/noc/lexer.c: the arena's allocation and the splitting of a text into tokens. A text is its bytes before the
-- final zero, so the empty list is read as a zero byte.
pub mod Scan
use no_os.Base.{
  [], ℕ, ◌*◌, ◌/◌, Bool, true, false, not, ◌&&◌, ◌||◌, Option, none, some, List, ◌∷◌, ltb, leb,
  ◌==◌, if◌then◌else◌, add64,
}

-- `tok_t`
pub data TokType : Type 0 where
  t_eof : TokType
  t_num : TokType
  t_str : TokType
  t_ident : TokType
  t_lp : TokType
  t_rp : TokType
  t_lb : TokType
  t_rb : TokType
  t_semi : TokType
  t_comma : TokType
  t_plus : TokType
  t_minus : TokType
  t_star : TokType
  t_slash : TokType
  t_pct : TokType
  t_eq : TokType
  t_eqeq : TokType
  t_neq : TokType
  t_lt : TokType
  t_le : TokType
  t_gt : TokType
  t_ge : TokType
  t_andand : TokType
  t_oror : TokType
  t_bang : TokType
  t_amp : TokType
  t_pipe : TokType
  t_caret : TokType
  t_tilde : TokType
  t_shl : TokType
  t_shr : TokType
  t_plusplus : TokType
  t_minusminus : TokType
  t_pluseq : TokType
  t_minuseq : TokType
  t_stareq : TokType
  t_slasheq : TokType
  t_if : TokType
  t_else : TokType
  t_while : TokType
  t_for : TokType
  t_return : TokType
  t_true : TokType
  t_false : TokType
  t_type_u0 : TokType
  t_type_i64 : TokType
  t_type_u64 : TokType
  t_type_bool : TokType
  t_type_str : TokType
  t_type_u8 : TokType
  t_type_u16 : TokType
  t_type_u32 : TokType
  t_type_i8 : TokType
  t_type_i16 : TokType
  t_type_i32 : TokType
  t_type_f64 : TokType

-- `tok`; the text is `none` where `s` is NULL.
pub record Tok : Type 0 where
  pub t : TokType
  pub num : ℕ
  pub s : Option (List ℕ)

-- `noc_arena`, by the amounts that allocation looks at.
pub record Arena : Type 0 where
  pub base : Bool
  pub used : ℕ
  pub cap : ℕ

-- The offset of the new memory.
pub noc_arena_alloc : ℕ → Arena → Option ℕ × Arena
noc_arena_alloc n a =
    let size = add64 n 15 / 16 * 16 in
    if not a.base || ltb a.cap (add64 a.used size)
    then (none, a)
    else (some a.used, record a { used = add64 a.used size })

pub between : ℕ → ℕ → ℕ → Bool
between lo c hi = leb lo c && leb c hi

pub is_digit : ℕ → Bool
unfolding between
is_digit c = between b'0' c b'9'

pub is_ident_start : ℕ → Bool
unfolding between
is_ident_start c = between b'a' c b'z' || between b'A' c b'Z' || c == b'_'

pub is_ident_char : ℕ → Bool
unfolding is_ident_start is_digit
is_ident_char c = is_ident_start c || is_digit c

pub is_hex_digit : ℕ → Bool
unfolding is_digit between
is_hex_digit c = is_digit c || between b'a' c b'f' || between b'A' c b'F'

pub is_space : ℕ → Bool
is_space c = c == b' ' || c == 9 || c == 13 || c == 10

pub same_word : List ℕ → List ℕ → Bool
same_word [] [] = true
same_word [] (y ∷ ys) = false
same_word (x ∷ xs) [] = false
same_word (x ∷ xs) (y ∷ ys) = x == y && same_word xs ys

abbrev pub keywords : List (List ℕ × TokType)
keywords =
    (b'U' ∷ b'0' ∷ [], t_type_u0)
    ∷ (b'I' ∷ b'6' ∷ b'4' ∷ [], t_type_i64)
    ∷ (b'U' ∷ b'6' ∷ b'4' ∷ [], t_type_u64)
    ∷ (b'B' ∷ b'o' ∷ b'o' ∷ b'l' ∷ [], t_type_bool)
    ∷ (b'S' ∷ b't' ∷ b'r' ∷ [], t_type_str)
    ∷ (b'U' ∷ b'8' ∷ [], t_type_u8)
    ∷ (b'U' ∷ b'1' ∷ b'6' ∷ [], t_type_u16)
    ∷ (b'U' ∷ b'3' ∷ b'2' ∷ [], t_type_u32)
    ∷ (b'I' ∷ b'8' ∷ [], t_type_i8)
    ∷ (b'I' ∷ b'1' ∷ b'6' ∷ [], t_type_i16)
    ∷ (b'I' ∷ b'3' ∷ b'2' ∷ [], t_type_i32)
    ∷ (b'F' ∷ b'6' ∷ b'4' ∷ [], t_type_f64)
    ∷ (b'i' ∷ b'f' ∷ [], t_if)
    ∷ (b'e' ∷ b'l' ∷ b's' ∷ b'e' ∷ [], t_else)
    ∷ (b'w' ∷ b'h' ∷ b'i' ∷ b'l' ∷ b'e' ∷ [], t_while)
    ∷ (b'f' ∷ b'o' ∷ b'r' ∷ [], t_for)
    ∷ (b'r' ∷ b'e' ∷ b't' ∷ b'u' ∷ b'r' ∷ b'n' ∷ [], t_return)
    ∷ (b't' ∷ b'r' ∷ b'u' ∷ b'e' ∷ [], t_true)
    ∷ (b'f' ∷ b'a' ∷ b'l' ∷ b's' ∷ b'e' ∷ [], t_false)
    ∷ []

pub keyword_in : List (List ℕ × TokType) → List ℕ → TokType
unfolding same_word
keyword_in [] s = t_ident
keyword_in ((kw, t) ∷ rest) s = let r = keyword_in rest s in if same_word kw s then t else r

pub keyword_type : List ℕ → TokType
unfolding keyword_in
keyword_type s = keyword_in keywords s

-- The operators in the order in which they are tried.
abbrev pub operators : List (List ℕ × TokType)
operators =
    (b'=' ∷ b'=' ∷ [], t_eqeq)
    ∷ (b'!' ∷ b'=' ∷ [], t_neq)
    ∷ (b'<' ∷ b'=' ∷ [], t_le)
    ∷ (b'>' ∷ b'=' ∷ [], t_ge)
    ∷ (b'&' ∷ b'&' ∷ [], t_andand)
    ∷ (b'|' ∷ b'|' ∷ [], t_oror)
    ∷ (b'<' ∷ b'<' ∷ [], t_shl)
    ∷ (b'>' ∷ b'>' ∷ [], t_shr)
    ∷ (b'+' ∷ b'+' ∷ [], t_plusplus)
    ∷ (b'-' ∷ b'-' ∷ [], t_minusminus)
    ∷ (b'+' ∷ b'=' ∷ [], t_pluseq)
    ∷ (b'-' ∷ b'=' ∷ [], t_minuseq)
    ∷ (b'*' ∷ b'=' ∷ [], t_stareq)
    ∷ (b'/' ∷ b'=' ∷ [], t_slasheq)
    ∷ (b'(' ∷ [], t_lp)
    ∷ (b')' ∷ [], t_rp)
    ∷ (b'{' ∷ [], t_lb)
    ∷ (b'}' ∷ [], t_rb)
    ∷ (b';' ∷ [], t_semi)
    ∷ (b',' ∷ [], t_comma)
    ∷ (b'+' ∷ [], t_plus)
    ∷ (b'-' ∷ [], t_minus)
    ∷ (b'*' ∷ [], t_star)
    ∷ (b'/' ∷ [], t_slash)
    ∷ (b'%' ∷ [], t_pct)
    ∷ (b'=' ∷ [], t_eq)
    ∷ (b'<' ∷ [], t_lt)
    ∷ (b'>' ∷ [], t_gt)
    ∷ (b'!' ∷ [], t_bang)
    ∷ (b'&' ∷ [], t_amp)
    ∷ (b'|' ∷ [], t_pipe)
    ∷ (b'^' ∷ [], t_caret)
    ∷ (b'~' ∷ [], t_tilde)
    ∷ []
