-- ===== src/Drivers/Kbd/Ring.antt =====
-- The ring of kbd.c, against a queue of characters.
use no_os.Base.{
  ℕ, zero, suc, ◌+◌, ◌-◌, ◌%◌, ◌<◌, ◌≡◌, refl, ap, ap₂, ◌∙◌, ◌⊎◌, inl, inr, true, false, none, some,
  List, [], ◌∷◌, ◌++◌, arith, ltb, ◌==◌, if◌then◌else◌, Bool-cases, length, get_or, set, length-set,
  get_or-set_self, get_or-set_ne,
}
use no_os.Drivers.Kbd.{Kbd, buf_size, kbd_push, kbd_getc, kbd_peekc, kbd_avail}

pub record IsValid (k : Kbd) : Type 0 where
  pub storage : length k.buf ≡ buf_size
  pub head_in : k.head < buf_size
  pub tail_in : k.tail < buf_size

-- How many characters wait.
abbrev pub waiting : Kbd → ℕ
waiting k = (k.head + buf_size - k.tail) % buf_size

-- The `n` characters from index `t` on, going round.
abbrev pub window : List ℕ → ℕ → ℕ → List ℕ
window buf t zero = []
window buf t (suc n) = get_or buf t 0 ∷ window buf ((t + 1) % buf_size) n

abbrev pub contents : Kbd → List ℕ
contents k = window k.buf k.tail (waiting k)

length-window : (buf : List ℕ) (t n : ℕ) → length (window buf t n) ≡ n
length-window buf t zero = refl
length-window buf t (suc n) = ap suc (length-window buf ((t + 1) % buf_size) n)

shift_index : (t n : ℕ) → (t + suc n) % buf_size ≡ ((t + 1) % buf_size + n) % buf_size
shift_index t n = omega arith

window-set :
    (buf : List ℕ) (c n t i : ℕ)
    → length buf ≡ buf_size
    → t < buf_size
    → n < buf_size
    → i ≡ (t + n) % buf_size
    → window (set buf i c) t (suc n) ≡ window buf t n ++ c ∷ []
window-set buf c zero t i s h q e =
    let e' : i ≡ t = omega arith in rw (e', get_or-set_self buf t c 0 (omega arith)) refl
window-set buf c (suc n) t i s h q e =
    ap₂ ◌∷◌ (get_or-set_ne buf i t c 0 (λ z. absurd (omega arith))) (
      window-set buf c n ((t + 1) % buf_size) i s (omega arith) (omega arith) (e ∙ shift_index t n))

window_cons :
    (buf : List ℕ) (t n : ℕ)
    → 0 < n
    → window buf t n ≡ get_or buf t 0 ∷ window buf ((t + 1) % buf_size) (n - 1)
window_cons buf t zero h = absurd (omega arith)
window_cons buf t (suc n) h = ap (λ m. window buf t (suc m)) (omega arith)

-- A push into a ring with room appends the character; into a full one, with 255 waiting, it is dropped.
-- The invariant is kept.
pub kbd_push_lem :
    (k : Kbd) (c : ℕ)
    → IsValid k
    → IsValid (kbd_push c k)
      × (contents (kbd_push c k)
          ≡ (if ltb (length (contents k)) 255 then contents k ++ c ∷ [] else contents k))
unfolding kbd_push
kbd_push_lem k c v = elim (Bool-cases ((k.head + 1) % buf_size == k.tail)) [
  | inl full ↦ rw (full, length-window k.buf k.tail (waiting k)) (v, ground arith)
  | inr room ↦
      rw (room, length-window k.buf k.tail (waiting k))
        (ground (arith, length-set k.buf k.head c), appended room)
]
  where
    appended :
        ((k.head + 1) % buf_size == k.tail) ≡ false
        → window
            (set k.buf k.head c)
            k.tail
            (((k.head + 1) % buf_size + buf_size - k.tail) % buf_size)
          ≡ (if ltb (waiting k) 255 then contents k ++ c ∷ [] else contents k)
    appended room =
        let e : ((k.head + 1) % buf_size + buf_size - k.tail) % buf_size ≡ suc (waiting k) =
          ground arith in
        let lt : ltb (waiting k) 255 ≡ true = ground arith in
        rw (e, lt)
          (window-set k.buf c (waiting k) k.tail k.head v.storage v.tail_in (omega arith)
            (omega arith))

-- A read takes the oldest character, and fails only on an empty ring; a peek sees the same character and
-- takes nothing; the ring is available exactly when it is not empty.
pub kbd_getc_lem :
    (k : Kbd)
    → IsValid k
    → IsValid (kbd_getc k).1
      × (((contents k ≡ [])
            × (kbd_getc k ≡ (none, k))
            × (kbd_peekc k ≡ none)
            × (kbd_avail k ≡ false))
          ⊎ ((c : ℕ) × (contents k ≡ c ∷ contents (kbd_getc k).1)
              × ((kbd_getc k).0 ≡ some c)
              × (kbd_peekc k ≡ some c)
              × (kbd_avail k ≡ true)))
unfolding kbd_getc kbd_peekc kbd_avail
kbd_getc_lem k v = elim (Bool-cases (k.head == k.tail)) [
  | inl empty ↦
      let z : waiting k ≡ 0 = ground arith in rw empty (v, inl (rw z refl, refl, refl, refl))
  | inr some_left ↦
      let e : (k.head + buf_size - (k.tail + 1) % buf_size) % buf_size ≡ waiting k - 1 =
        ground arith in
      rw some_left (
        ground arith,
        inr (
          get_or k.buf k.tail 0,
          rw e (window_cons k.buf k.tail (waiting k) (ground arith)),
          refl,
          refl,
          refl,
        ),
      )
]
