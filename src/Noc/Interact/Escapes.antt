-- ===== src/Noc/Interact/Escapes.antt =====
-- The escaped payloads of kernel/noc/interact.c.
use no_os.Base.{
  ℕ, ◌+◌, ◌*◌, ◌≤◌, ◌<◌, ◌≡◌, refl, ◌∙◌, ◌≢◌, Bool, true, false, ◌&&◌, ◌||◌, List, [], ◌∷◌, ◌++◌,
  arith, ltb, leb, ◌==◌, if◌then◌else◌, lt→ltb, length, take, length-append, length-take, if-cases,
  if-true, if-false, ==_false,
}
use no_os.Noc.Interact.{Log, has_line, escape, escape_into, il_append_esc}
use no_os.Noc.Interact.Records.{Holds, Appended, has_line-take, il_append-Appended}

has_line-append :
    (xs ys : List ℕ) → has_line xs ≡ false → has_line ys ≡ false → has_line (xs ++ ys) ≡ false
unfolding has_line
has_line-append [] ys h k = k
has_line-append (c ∷ xs) ys h k =
    let later : has_line xs ≡ false = ground (arith, h) in
    let rest = has_line-append xs ys later k in ground (arith, h, rest)

has_line-escape : (c : ℕ) → has_line (escape c) ≡ false
unfolding has_line escape
has_line-escape c = ground arith

has_line-escape_into : (n : ℕ) (payload : List ℕ) → has_line (escape_into n payload) ≡ false
unfolding escape_into
has_line-escape_into n [] = unfold has_line in refl
has_line-escape_into n (c ∷ payload) =
    if-cases (λ t. has_line t ≡ false) (ltb n 2110)
      (escape c ++ escape_into (n + length (escape c)) payload) []
      (λ h.
        has_line-append (escape c) (escape_into (n + length (escape c)) payload) (has_line-escape c)
          (has_line-escape_into (n + length (escape c)) payload))
      (λ h. unfold has_line in refl)

-- The record that a tag and a payload make.
abbrev pub esc_record : List ℕ → List ℕ → List ℕ
esc_record tag payload = take 2110 tag ++ escape_into (length (take 2110 tag)) payload

-- Whatever the payload, an escaped record with a tag of one line stays one record of the log.
pub il_append_esc-Appended :
    (tag payload : List ℕ) (lines : List (List ℕ)) (log : Log)
    → 0 < length tag
    → has_line tag ≡ false
    → Holds log lines
    → Appended (esc_record tag payload) lines (il_append_esc tag payload log)
unfolding il_append_esc
il_append_esc-Appended tag payload lines log pos one h =
    il_append-Appended (esc_record tag payload) lines log
      (omega (
        arith,
        length-append {0} (take 2110 tag) (escape_into (length (take 2110 tag)) payload),
        length-take {0} 2110 tag,
      ))
      (has_line-append (take 2110 tag) (escape_into (length (take 2110 tag)) payload)
        (has_line-take 2110 tag one) (has_line-escape_into (length (take 2110 tag)) payload))
      h

-- The bytes that an escaped payload keeps.
pub is_kept : ℕ → Bool
is_kept c = (leb 32 c && ltb c 127) || c == 10 || c == 13 || c == 9

pub kept : List ℕ → List ℕ
kept [] = []
kept (c ∷ text) = let rest = kept text in if is_kept c then c ∷ rest else rest

-- What the byte behind a backslash stands for.
pub decode : ℕ → ℕ
decode c = if c == b'n' then 10 else (if c == b'r' then 13 else (if c == b't' then 9 else c))

pub unescape : List ℕ → List ℕ
unescape [] = []
unescape (c ∷ []) = c ∷ []
unescape (c ∷ e ∷ text) =
    let escaped = unescape text in
    let plain = unescape (e ∷ text) in if c == b'\\' then decode e ∷ escaped else c ∷ plain

unescape-plain : (c : ℕ) (text : List ℕ) → c ≢ b'\\' → unescape (c ∷ text) ≡ c ∷ unescape text
unfolding unescape
unescape-plain c [] ne = refl
unescape-plain c (e ∷ text) ne =
    if-false (λ t. t ≡ c ∷ unescape (e ∷ text)) (c == b'\\') _ _ (==_false c b'\\' ne) refl

-- A byte that is kept is what the escape for it stands for.
from_escape :
    (c e : ℕ) (text : List ℕ)
    → is_kept c ≡ true
    → decode e ≡ c
    → unescape (b'\\' ∷ e ∷ text) ≡ (if is_kept c then c ∷ unescape text else unescape text)
unfolding unescape
from_escape c e text k d =
    (λ p. d p ∷ unescape text)
    ∙ if-true (λ t. c ∷ unescape text ≡ t) (is_kept c) (c ∷ unescape text) (unescape text) k refl

unescape-escape :
    (c : ℕ) (text : List ℕ)
    → unescape (escape c ++ text) ≡ (if is_kept c then c ∷ unescape text else unescape text)
unfolding escape is_kept decode
unescape-escape c text =
    let P = λ (t : List ℕ).
      unescape (t ++ text) ≡ (if is_kept c then c ∷ unescape text else unescape text) in
    if-cases P (c == b'\\') _ _
      (λ h. from_escape c b'\\' text (ground (arith, h)) (ground (arith, h)))
      (λ h.
        if-cases P (c == 10) _ _
          (λ k. from_escape c b'n' text (ground (arith, k)) (ground (arith, k)))
          (λ k.
            if-cases P (c == 13) _ _
              (λ l. from_escape c b'r' text (ground (arith, l)) (ground (arith, l)))
              (λ l.
                if-cases P (c == 9) _ _
                  (λ m. from_escape c b't' text (ground (arith, m)) (ground (arith, m)))
                  (λ m.
                    if-cases P (leb 32 c && ltb c 127) _ _
                      (λ q.
                        unescape-plain c text (λ z. ground (arith, h, z))
                        ∙ if-true (λ t. c ∷ unescape text ≡ t) (is_kept c) (c ∷ unescape text)
                            (unescape text) (ground (arith, q)) refl)
                      (λ q.
                        if-false (λ t. unescape text ≡ t) (is_kept c) (c ∷ unescape text)
                          (unescape text) (ground (arith, q, k, l, m)) refl)))))

length-escape : (c : ℕ) → length (escape c) ≤ 2
unfolding escape
length-escape c = ground arith

-- A payload whose bytes fit twice into the rest of the buffer is written whole: undoing the escapes gives its
-- printable bytes, backslashes, line ends and tabs, in order.
pub unescape-escape_into :
    (n : ℕ) (payload : List ℕ)
    → n + 2 * length payload ≤ 2110
    → unescape (escape_into n payload) ≡ kept payload
unfolding escape_into kept
unescape-escape_into n [] h = unfold unescape in refl
unescape-escape_into n (c ∷ payload) h =
    let m = n + length (escape c) in
    if-true (λ t. unescape t ≡ kept (c ∷ payload)) (ltb n 2110) (escape c ++ escape_into m payload)
      [] (lt→ltb n 2110 (omega arith))
      (unescape-escape c (escape_into m payload) ∙ (λ p.
        if is_kept c
        then c ∷ unescape-escape_into m payload (omega (arith, length-escape c)) p
        else unescape-escape_into m payload (omega (arith, length-escape c)) p))
