-- ===== src/Kern/Line.antt =====
-- kernel/kern/line.c: the line editor with its history. The buffer is the list of its `len` bytes; the keys
-- are the list of those that the keyboard is going to give; the redrawing of the line is left out.
-- A slot of the history has 256 bytes, and the code copies a line into it without a test that it fits: for a
-- longer line, which overwrites what is behind the slot, there is no history here.
pub mod Edits
pub mod Reads
mod Tests
use no_os.Base.{
  ℕ, ◌+◌, ◌-◌, not, ◌&&◌, ◌||◌, Option, none, some, List, [], ◌∷◌, ◌++◌, ltb, leb, ◌==◌,
  if◌then◌else◌, length, get_or, take, drop,
}
use no_os.Drivers.Kbd.{kbd_up, kbd_down, kbd_left, kbd_right, kbd_home, kbd_end, kbd_del}
use no_os.Noc.Registry.{same_text}

abbrev pub hist_max : ℕ
hist_max = 16

pub record Line : Type 0 where
  pub buf : List ℕ
  pub cur : ℕ
  pub hist_pos : ℕ

-- The line that was entered last, or no text.
abbrev pub latest : List (List ℕ) → List ℕ
latest history = get_or history (length history - 1) []

abbrev pub hist_len : ℕ
hist_len = 256

-- `none` when the line overruns its slot.
pub hist_add : List ℕ → List (List ℕ) → Option (List (List ℕ))
hist_add line history =
    if length line == 0 || (ltb 0 (length history) && same_text (latest history) line)
    then some history
    else (if leb hist_len (length line)
        then none
        else (if leb hist_max (length history)
            then some (drop 1 history ++ line ∷ [])
            else some (history ++ line ∷ [])))

module _ (cap : ℕ) (history : List (List ℕ)) where
  pub backspace : Line → Line
  backspace l =
      if ltb 0 l.cur
      then record {
        buf = take (l.cur - 1) l.buf ++ drop l.cur l.buf;
        cur = l.cur - 1;
        hist_pos = length history;
      }
      else l

  pub delete : Line → Line
  delete l =
      if ltb l.cur (length l.buf)
      then record l { buf = take l.cur l.buf ++ drop (l.cur + 1) l.buf; hist_pos = length history }
      else l

  pub insert : ℕ → Line → Line
  insert c l =
      if leb 0x20 c && not (c == 0x7F) && ltb (length l.buf + 1) cap
      then record {
        buf = take l.cur l.buf ++ c ∷ drop l.cur l.buf;
        cur = l.cur + 1;
        hist_pos = length history;
      }
      else l

  -- The text of the slot `i`, with the cursor at its end.
  abbrev pub recalled : ℕ → Line
  recalled i =
      let text = get_or history i [] in record { buf = text; cur = length text; hist_pos = i }

  pub recall_up : Line → Line
  recall_up l = if ltb 0 (length history) && ltb 0 l.hist_pos then recalled (l.hist_pos - 1) else l

  -- Behind the last slot, where there is no text, the line is empty.
  pub recall_down : Line → Line
  recall_down l =
      if ltb l.hist_pos (length history)
      then (if ltb (l.hist_pos + 1) (length history)
          then recalled (l.hist_pos + 1)
          else record { buf = []; cur = 0; hist_pos = l.hist_pos + 1 })
      else l

  -- One key, other than those that end the line.
  pub edit : ℕ → Line → Line
  unfolding backspace delete insert recall_up recall_down
  edit c l =
      if c == 0x08
      then backspace l
      else (if c == kbd_left
          then record l { cur = l.cur - 1 }
          else (if c == kbd_right
              then (if ltb l.cur (length l.buf) then record l { cur = l.cur + 1 } else l)
              else (if c == kbd_home
                  then record l { cur = 0 }
                  else (if c == kbd_end
                      then record l { cur = length l.buf }
                      else (if c == kbd_del
                          then delete l
                          else (if c == kbd_up
                              then recall_up l
                              else (if c == kbd_down then recall_down l else insert c l)))))))

  -- The loop of `line_read`: the text, the history and the keys that are left, or nothing when the keys do
  -- not end the line.
  pub read_keys : List ℕ → Line → Option (List ℕ × Option (List (List ℕ)) × List ℕ)
  unfolding edit
  read_keys [] l = none
  read_keys (c ∷ keys) l =
      let more = read_keys keys (edit c l) in
      if c == b'\n'
      then some (l.buf, hist_add l.buf history, keys)
      else (if c == 0x03 || c == 0x1B then some ([], some history, keys) else more)

pub line_read : ℕ → List (List ℕ) → List ℕ → Option (List ℕ × Option (List (List ℕ)) × List ℕ)
unfolding read_keys
line_read cap history keys =
    if cap == 0
    then some ([], some history, keys)
    else read_keys cap history keys (record { buf = []; cur = 0; hist_pos = length history })
