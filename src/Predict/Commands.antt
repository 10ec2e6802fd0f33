-- ===== src/Predict/Commands.antt =====
-- kernel/noc/predict.c: the history of the typed commands and the guess of the next one. A command is the
-- list of its bytes without the terminator.
use no_os.Base.{
  ℕ, ◌-◌, ◌≤◌, ◌<◌, ◌≡◌, refl, ◌⊎◌, inl, inr, Bool, false, ◌&&◌, ◌||◌, Option, none, some, List, [],
  ◌∷◌, map, arith, ltb, ◌==◌, if◌then◌else◌, length, take, ℕ_discrete,
}
use no_os.Noc.Registry.{same_text, to_lower}
use no_os.Noc.Registry.Names.{same_text_iff}
use no_os.Predict.Votes.{follows, occurs, Elected, followers-Elected, frequencies-Elected}
use no_os.Predict.{History, record_item, cleared, entry, followers, frequencies, pick_best}

abbrev pub cmd_len : ℕ
cmd_len = 128

-- "predict", "hist" and "clearhist".
pub metas : List (List ℕ)
metas =
    (b'p' ∷ b'r' ∷ b'e' ∷ b'd' ∷ b'i' ∷ b'c' ∷ b't' ∷ [])
    ∷ (b'h' ∷ b'i' ∷ b's' ∷ b't' ∷ [])
    ∷ (b'c' ∷ b'l' ∷ b'e' ∷ b'a' ∷ b'r' ∷ b'h' ∷ b'i' ∷ b's' ∷ b't' ∷ [])
    ∷ []

-- The command without a semicolon at its end.
pub strip : List ℕ → List ℕ
strip [] = []
strip (c ∷ cmd) = if c == b';' && (length cmd == 0) then [] else c ∷ strip cmd

pub any_text : List ℕ → List (List ℕ) → Bool
any_text name [] = false
any_text name (m ∷ ms) = same_text name m || any_text name ms

pub is_meta : List ℕ → Bool
unfolding metas strip any_text
is_meta cmd = any_text (map to_lower (strip cmd)) metas

pub cmdhist_add : List ℕ → History (List ℕ) → History (List ℕ)
unfolding is_meta
cmdhist_add cmd h =
    if length cmd == 0 || is_meta cmd then h else record_item [] (take (cmd_len - 1) cmd) h

pub cmdhist_clear : History (List ℕ) → History (List ℕ)
cmdhist_clear h = cleared [] h

-- `none` is the null pointer.
pub cmdhist_entry : ℕ → History (List ℕ) → Option (List ℕ)
cmdhist_entry back h = if ltb back 1 || ltb h.count back then none else some (entry [] h back)

pub or_else : Option (List ℕ) → Option (List ℕ) → Option (List ℕ)
or_else (some p) fallback = some p
or_else none fallback = fallback

pub cmdhist_predict : History (List ℕ) → Option (List ℕ)
unfolding or_else
cmdhist_predict h =
    if h.count == 0
    then none
    else or_else
        (pick_best (followers same_text (entry [] h) h.count (entry [] h 1) 1 (h.count - 1) []))
        (pick_best (frequencies same_text (entry [] h) h.count 1 h.count []))

-- The live entries, as the two passes read them: how often `x` follows the latest command, and how often it
-- stands in the history.
abbrev pub follow_count : History (List ℕ) → List ℕ → ℕ
follow_count h x = follows same_text same_text_iff (entry [] h) (entry [] h 1) x 1 (h.count - 1)

abbrev pub use_count : History (List ℕ) → List ℕ → ℕ
use_count h x = occurs same_text same_text_iff (entry [] h) x 1 h.count

or_else_lem :
    (f g : List ℕ → ℕ) (o u : Option (List ℕ))
    → Elected same_text same_text_iff f o
    → Elected same_text same_text_iff g u
    → ((p : List ℕ) × (or_else o u ≡ some p) × (0 < f p) × ((x : List ℕ) → f x ≤ f p))
      ⊎ (((x : List ℕ) → f x ≡ 0) × Elected same_text same_text_iff g (or_else o u))
unfolding or_else
or_else_lem f g (some p) u e d = inl (p, refl, e.0, e.1)
or_else_lem f g none u e d = inr (e, d)

-- What a guess is: nothing for an empty history; otherwise a command that followed the latest one, as often
-- as any other did, or, when nothing followed it, one that is in the history, as often as any.
abbrev pub Guessed : History (List ℕ) → Type 0
Guessed h =
    ((h.count ≡ 0) × (cmdhist_predict h ≡ none))
    ⊎ ((p : List ℕ) × (cmdhist_predict h ≡ some p)
        × (0 < follow_count h p)
        × ((x : List ℕ) → follow_count h x ≤ follow_count h p))
    ⊎ (((x : List ℕ) → follow_count h x ≡ 0)
        × Elected same_text same_text_iff (use_count h) (cmdhist_predict h))

-- For an empty history the guess is nothing; otherwise it is a command that followed the latest one, at least
-- once and as often as any other did, or, when nothing followed it, what is elected by the uses: a command
-- that is in the history, as often as any other, or nothing where none is.
pub cmdhist_predict-Guessed : (h : History (List ℕ)) → Guessed h
unfolding cmdhist_predict
cmdhist_predict-Guessed h =
    let two =
      followers-Elected same_text same_text_iff (entry [] h) h.count (entry [] h 1) 1
        (h.count - 1) in
    let one = frequencies-Elected same_text same_text_iff (entry [] h) h.count 1 h.count in
    elim (ℕ_discrete h.count 0) [
      | yes z ↦ inl (z, ground arith)
      | no nz ↦
          let test : ((h.count == 0) ≡ false) = ground arith in
          inr (rw test (or_else_lem (follow_count h) (use_count h) _ _ two one))
    ]
