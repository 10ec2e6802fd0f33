-- ===== src/Noc/Lexer/Scan/Stream.antt =====
-- The whole of `noc_lex` in kernel/noc/lexer.c: it ends, and what it gives.
use no_os.Base.{
  ℕ, zero, suc, ◌+◌, ◌≤◌, ◌<◌, ◌≡◌, refl, true, false, ◌||◌, List, [], ◌∷◌, arith, leb,
  if◌then◌else◌, length, drop, if-cases,
}
use no_os.Noc.Lexer.{Tok, Arena}
use no_os.Noc.Lexer.Scan.{
  after_round, skip_spaces, skip_line, skip_block, Next, ended, got, failed, fault, next_token,
  Lexed, lexed, refused, faulted, no_fuel, push_tok, line_comment, block_comment, lex_from, noc_lex,
}
use no_os.Noc.Lexer.Scan.Progress.{
  is_eof, length-skip_spaces, comment_shorter, Advances, next_token-Advances,
}

-- Tokens before the end, and then the end.
abbrev pub IsStream : List Tok → Type 0
IsStream [] = ⊥
IsStream (t ∷ []) = is_eof t.t ≡ true
IsStream (t ∷ u ∷ rest) = (is_eof t.t ≡ false) × IsStream (u ∷ rest)

-- The outcome behind `n` tokens: the fuel is not used up, and tokens are a stream that fits into the array.
abbrev pub IsLexed : ℕ → ℕ → Lexed → Type 0
IsLexed maxtoks n (lexed toks a) = IsStream toks × (n + length toks ≤ maxtoks)
IsLexed maxtoks n (refused e) = Unit
IsLexed maxtoks n faulted = Unit
IsLexed maxtoks n no_fuel = ⊥

push_tok-IsLexed :
    (maxtoks n : ℕ) (t : Tok) (r : Lexed)
    → is_eof t.t ≡ false
    → IsLexed maxtoks (n + 1) r
    → IsLexed maxtoks n (push_tok t r)
unfolding push_tok
push_tok-IsLexed maxtoks n t (lexed [] a) e h = absurd h.0
push_tok-IsLexed maxtoks n t (lexed (u ∷ toks) a) e h = ((e, h.0), omega (arith, h.1))
push_tok-IsLexed maxtoks n t (refused x) e h = tt
push_tok-IsLexed maxtoks n t faulted e h = tt
push_tok-IsLexed maxtoks n t no_fuel e h = absurd h

after_round-IsLexed :
    (maxtoks n k : ℕ) (more : List ℕ → Arena → Lexed) (a : Arena) (r : Next)
    → n < maxtoks
    → Advances k r
    → ((rest : List ℕ) (b : Arena) → length rest < k → IsLexed maxtoks (n + 1) (more rest b))
    → IsLexed maxtoks n (after_round more a r)
unfolding after_round is_eof
after_round-IsLexed maxtoks n k more a ended room h ih = (refl, omega arith)
after_round-IsLexed maxtoks n k more a (got t rest b) room h ih =
    push_tok-IsLexed maxtoks n t (more rest b) h.1 (ih rest b h.0)
after_round-IsLexed maxtoks n k more a (failed e) room h ih = tt
after_round-IsLexed maxtoks n k more a fault room h ih = tt

lex_from-IsLexed :
    (fuel maxtoks : ℕ) (p : List ℕ) (n : ℕ) (a : Arena)
    → length p < fuel
    → IsLexed maxtoks n (lex_from fuel maxtoks p n a)
unfolding lex_from
lex_from-IsLexed zero maxtoks p n a h = absurd (omega arith)
lex_from-IsLexed (suc fuel) maxtoks p n a h =
    let P = IsLexed maxtoks n in
    let q = skip_spaces p in
    let r = if line_comment q then skip_line q else skip_block (drop 2 q) in
    let le = length-skip_spaces p in
    if-cases P (line_comment q || block_comment q) (lex_from fuel maxtoks r n a) _
      (λ e. lex_from-IsLexed fuel maxtoks r n a (omega (arith, le, h, comment_shorter q e)))
      (λ e.
        if-cases P (leb maxtoks n) _ _ (λ f. tt)
          (λ f.
            after_round-IsLexed maxtoks n (length q) _ a (next_token q a) (ground (arith, f))
              (next_token-Advances q a)
              (λ rest b lt.
                lex_from-IsLexed fuel maxtoks rest (n + 1) b (omega (arith, le, lt, h)))))

-- Lexing ends for every text: with an error, a fault, or tokens that fit into the array and of which the last
-- and no other is the end.
pub noc_lex-IsLexed :
    (src : List ℕ) (a : Arena) (maxtoks : ℕ) → IsLexed maxtoks 0 (noc_lex src a maxtoks)
unfolding noc_lex
noc_lex-IsLexed src a maxtoks = lex_from-IsLexed (length src + 1) maxtoks src 0 a (omega arith)
