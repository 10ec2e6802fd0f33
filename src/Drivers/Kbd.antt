-- ===== src/Drivers/Kbd.antt =====
-- kernel/drivers/kbd.c: scan codes to characters, and the ring in which they wait. The interrupt
-- controller's acknowledgement and the training clocks are left out; a call of `sched_on_key` is a
-- flag of the handler's result.
pub mod Ring
pub mod Keys
mod Tests
use mathlib.Core.Bool.{xor}
use no_os.Base.{
  ℕ, zero, suc, ◌+◌, ◌-◌, ◌*◌, ◌/◌, ◌%◌, ◌^◌, ◌≤◌, ◌<◌, min, max, bit_and, bit_or, bit_xor, ◌≡◌,
  refl, sym, ap, ap₂, ◌∙◌, ◌≢◌, ◌↔◌, ◌⊎◌, inl, inr, Bool, true, false, not, ◌&&◌, ◌||◌, Option,
  none, some, List, [], ◌∷◌, ◌++◌, map, arith, ltb, leb, ◌==◌, if◌then◌else◌, ltb→lt, lt→ltb,
  leb→le, ==_iff, tests, Bool-cases, Option-cases, length, get_elem?, get_or, set, take, drop,
  replicate, All, length-append, length-set, length-replicate, length-take, length-drop,
  take-append-drop, get_or-set_self, get_or-set_ne, All-set, All-get_or, All-append, all_below,
  all_below_sound, dec_lt, ℕ_discrete, add64, sub64, mul64, add32, sub32, read32, read64, All-map,
  All-zip, if-cases, elim-cases, subst, Bool-clash, if-true, if-false, elim-some, elim-none,
  ==_false, ==_self,
}

abbrev pub buf_size : ℕ
buf_size = 256

-- `buf`, `head`, `tail`, and the modifiers.
pub record Kbd : Type 0 where
  pub buf : List ℕ
  pub head : ℕ
  pub tail : ℕ
  pub shift : Bool
  pub caps : Bool
  pub ext : Bool
  pub ctrl : Bool

abbrev pub kbd_up : ℕ
kbd_up = 0x80

abbrev pub kbd_down : ℕ
kbd_down = 0x81

abbrev pub kbd_left : ℕ
kbd_left = 0x82

abbrev pub kbd_right : ℕ
kbd_right = 0x83

abbrev pub kbd_home : ℕ
kbd_home = 0x84

abbrev pub kbd_end : ℕ
kbd_end = 0x85

abbrev pub kbd_del : ℕ
kbd_del = 0x86

abbrev pub kb_normal : List ℕ
kb_normal =
    0
    ∷ 27
    ∷ b'1'
    ∷ b'2'
    ∷ b'3'
    ∷ b'4'
    ∷ b'5'
    ∷ b'6'
    ∷ b'7'
    ∷ b'8'
    ∷ b'9'
    ∷ b'0'
    ∷ b'-'
    ∷ b'='
    ∷ 8
    ∷ 9
    ∷ b'q'
    ∷ b'w'
    ∷ b'e'
    ∷ b'r'
    ∷ b't'
    ∷ b'y'
    ∷ b'u'
    ∷ b'i'
    ∷ b'o'
    ∷ b'p'
    ∷ b'['
    ∷ b']'
    ∷ 10
    ∷ 0
    ∷ b'a'
    ∷ b's'
    ∷ b'd'
    ∷ b'f'
    ∷ b'g'
    ∷ b'h'
    ∷ b'j'
    ∷ b'k'
    ∷ b'l'
    ∷ b';'
    ∷ 39
    ∷ 96
    ∷ 0
    ∷ 92
    ∷ b'z'
    ∷ b'x'
    ∷ b'c'
    ∷ b'v'
    ∷ b'b'
    ∷ b'n'
    ∷ b'm'
    ∷ b','
    ∷ b'.'
    ∷ b'/'
    ∷ 0
    ∷ b'*'
    ∷ 0
    ∷ 32
    ∷ replicate 70 0

abbrev pub kb_shift : List ℕ
kb_shift =
    0
    ∷ 27
    ∷ b'!'
    ∷ b'@'
    ∷ b'#'
    ∷ b'$'
    ∷ b'%'
    ∷ b'^'
    ∷ b'&'
    ∷ b'*'
    ∷ b'('
    ∷ b')'
    ∷ b'_'
    ∷ b'+'
    ∷ 8
    ∷ 9
    ∷ b'Q'
    ∷ b'W'
    ∷ b'E'
    ∷ b'R'
    ∷ b'T'
    ∷ b'Y'
    ∷ b'U'
    ∷ b'I'
    ∷ b'O'
    ∷ b'P'
    ∷ b'{'
    ∷ b'}'
    ∷ 10
    ∷ 0
    ∷ b'A'
    ∷ b'S'
    ∷ b'D'
    ∷ b'F'
    ∷ b'G'
    ∷ b'H'
    ∷ b'J'
    ∷ b'K'
    ∷ b'L'
    ∷ b':'
    ∷ 34
    ∷ b'~'
    ∷ 0
    ∷ b'|'
    ∷ b'Z'
    ∷ b'X'
    ∷ b'C'
    ∷ b'V'
    ∷ b'B'
    ∷ b'N'
    ∷ b'M'
    ∷ b'<'
    ∷ b'>'
    ∷ b'?'
    ∷ 0
    ∷ b'*'
    ∷ 0
    ∷ 32
    ∷ replicate 70 0

-- A full ring drops the character.
pub kbd_push : ℕ → Kbd → Kbd
kbd_push c k =
    let next = (k.head + 1) % buf_size in
    if next == k.tail then k else record k { buf = set k.buf k.head c; head = next }

-- The second byte of an extended scan code.
pub extended : ℕ → Kbd → Kbd
unfolding kbd_push
extended sc k =
    if sc == 0x1D
    then record k { ctrl = true }
    else if sc == 0x9D
    then record k { ctrl = false }
    else if sc == 0x2A
    then record k { shift = true }
    else if sc == 0x36
    then record k { shift = true }
    else if sc == 0x48
    then kbd_push kbd_up k
    else if sc == 0x50
    then kbd_push kbd_down k
    else if sc == 0x4B
    then kbd_push kbd_left k
    else if sc == 0x4D
    then kbd_push kbd_right k
    else if sc == 0x47
    then kbd_push kbd_home k
    else if sc == 0x4F
    then kbd_push kbd_end k
    else if sc == 0x53
    then kbd_push kbd_del k
    else k

-- The character of a key press: the table by shift and caps lock, control codes with ctrl.
pub translate : ℕ → Kbd → ℕ
unfolding xor
translate sc k =
    let c =
      if xor k.shift k.caps then get_or kb_shift (sc % 128) 0 else get_or kb_normal (sc % 128) 0 in
    if k.ctrl && leb b'a' c && leb c b'z' then c - b'a' + 1 else c

-- Key presses beyond the modifiers.
pub pressed : ℕ → Kbd → Kbd × Bool
unfolding translate kbd_push
pressed sc k = let c = translate sc k in (if c == 0 then k else kbd_push c k, true)

-- The handler on the scan code `sc`; the flag says whether `sched_on_key` is called.
pub kbd_handler : ℕ → Kbd → Kbd × Bool
unfolding extended pressed
kbd_handler sc k =
    if k.ext
    then (extended sc (record k { ext = false }), false)
    else if sc == 0xE0
    then (record k { ext = true }, false)
    else if sc == 0x2A || sc == 0x36
    then (record k { shift = true }, false)
    else if sc == 0xAA || sc == 0xB6
    then (record k { shift = false }, false)
    else if sc == 0x1D
    then (record k { ctrl = true }, false)
    else if sc == 0x9D
    then (record k { ctrl = false }, false)
    else if sc == 0x3A
    then (record k { caps = not k.caps }, false)
    else if leb 0x80 sc
    then (k, false)
    else pressed sc k

-- `ctrl` keeps its value.
pub kbd_init : Kbd → Kbd
kbd_init k = record k { head = 0; tail = 0; shift = false; caps = false; ext = false }

pub kbd_avail : Kbd → Bool
kbd_avail k = not (k.head == k.tail)

-- `none` is the result -1.
unfoldable pub kbd_getc : Kbd → Option ℕ × Kbd
kbd_getc k =
    if k.head == k.tail
    then (none, k)
    else (some (get_or k.buf k.tail 0), record k { tail = (k.tail + 1) % buf_size })

pub kbd_peekc : Kbd → Option ℕ
kbd_peekc k = if k.head == k.tail then none else some (get_or k.buf k.tail 0)
