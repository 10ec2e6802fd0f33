-- ===== src/Noc/Lexer/Scan/Tests.antt =====
-- Texts through kernel/noc/lexer.c.
use no_os.Base.{ℕ, ◌%◌, ◌^◌, ◌≡◌, refl, true, false, none, some, List, [], ◌∷◌, arith, All}
use no_os.Kern.Format.Digits.{parse}
use no_os.Noc.Lexer.{
  Arena, t_ident, t_eq, t_num, noc_arena_alloc, is_digit, is_ident_start, is_ident_char, is_space,
  between, keyword_in, keyword_type, operators, same_word,
}
use no_os.Noc.Lexer.Scan.{
  skip_spaces, number, word, put_byte, string_body, starts_with, find_op, lex_number, lex_word,
  end_string, lex_string, lex_op, next_token, lexed, faulted, push_tok, eof, line_comment,
  block_comment, lex_from, noc_lex, after_round, digit_value,
}
use no_os.Noc.Lexer.Scan.Progress.{Scanned, string_body-Scanned}
use no_os.Noc.Lexer.Scan.Stream.{IsLexed, noc_lex-IsLexed}
use no_os.Noc.Lexer.Scan.Munch.{Munched, operators-Munched}
use no_os.Noc.Lexer.Scan.Numbers.{number-parse}

abbrev room : Arena
room = record { base = true; used = 0; cap = 4096 }

-- x=12
abbrev assignment : List ℕ
assignment = b'x' ∷ b'=' ∷ b'1' ∷ b'2' ∷ []

assignment_lexed :
    noc_lex assignment room 8
    ≡ lexed
        (record { t = t_ident; num = 0; s = some (b'x' ∷ []) }
          ∷ record { t = t_eq; num = 0; s = none }
          ∷ record { t = t_num; num = 12; s = none }
          ∷ eof
          ∷ [])
        (record room { used = 16 })
unfolding noc_lex lex_from skip_spaces is_space line_comment block_comment after_round next_token
    is_digit is_ident_start lex_word word is_ident_char noc_arena_alloc keyword_type keyword_in
    same_word push_tok lex_op find_op starts_with lex_number number digit_value between
assignment_lexed = refl

-- An escape at the end of the text reads behind it.
escape_overruns : noc_lex (b'"' ∷ b'\\' ∷ []) room 8 ≡ faulted
unfolding noc_lex lex_from skip_spaces is_space line_comment block_comment after_round next_token
    is_digit is_ident_start lex_string noc_arena_alloc string_body put_byte end_string between
escape_overruns = refl

noc_lex-IsLexed_example : IsLexed 8 0 (noc_lex assignment room 8)
noc_lex-IsLexed_example = noc_lex-IsLexed assignment room 8

operators-Munched_example :
    Munched (b'<' ∷ b'=' ∷ []) operators (find_op operators (b'<' ∷ b'=' ∷ []))
operators-Munched_example = operators-Munched (b'<' ∷ b'=' ∷ [])

string_body-Scanned_example : Scanned (b'a' ∷ b'"' ∷ []) 0 (string_body (b'a' ∷ b'"' ∷ []) 0)
string_body-Scanned_example = string_body-Scanned (b'a' ∷ b'"' ∷ []) 0 (omega arith)

digits_taken : All (λ c. is_digit c ≡ true) (b'1' ∷ b'2' ∷ [])
unfolding is_digit between
digits_taken = (refl, (refl, tt))

semicolon_stops : is_digit b';' ≡ false
unfolding is_digit between
semicolon_stops = refl

number-parse_example :
    number false (b'1' ∷ b'2' ∷ b';' ∷ []) 0 ≡ (parse 10 0 (b'1' ∷ b'2' ∷ []) % 2 ^ 64, b';' ∷ [])
number-parse_example =
    number-parse false (b'1' ∷ b'2' ∷ []) (b';' ∷ []) 0 (omega arith) digits_taken semicolon_stops
