-- ===== src/Noc/Interact.antt =====
-- kernel/noc/interact.c: the log of commands and their output, a buffer of lines, and its checkpoint in a file. The used
-- bytes of the buffer are a list; what is printed on the way is left out.
pub mod Records
pub mod Escapes
pub mod Checkpoint
mod Tests
use no_os.Base.{
  ℕ, zero, suc, ◌+◌, ◌-◌, ◌*◌, Bool, true, false, ◌&&◌, ◌||◌, Option, none, some, List, [], ◌∷◌,
  ◌++◌, ltb, leb, ◌==◌, if◌then◌else◌, length, take, drop,
}
use no_os.Fs.{Ide, Fs, fs_inode_reg}
use no_os.Fs.Super.{fs_sync_bitmap}
use no_os.Fs.Dir.{fs_lookup, fs_create, is_found}
use no_os.Fs.Files.{fs_write_file, fs_read_file, fs_stat}

abbrev pub il_ring_size : ℕ
il_ring_size = 65536

abbrev pub il_file_max : ℕ
il_file_max = 4096

abbrev pub il_cap_max : ℕ
il_cap_max = 1024

-- `il_ring` up to `il_len`, `il_records`, `il_cap` up to `il_cap_len`, and `il_cap_on`.
pub record Log : Type 0 where
  pub ring : List ℕ
  pub records : ℕ
  pub capture : List ℕ
  pub cap_on : Bool

-- The text behind the first line.
pub drop_record : List ℕ → List ℕ
drop_record [] = []
drop_record (c ∷ text) = let rest = drop_record text in if c == 10 then text else rest

-- Lines go from the front until `n` bytes and a line feed fit. The rounds are at most as many as the bytes.
pub evict : ℕ → ℕ → List ℕ → ℕ → List ℕ × ℕ
unfolding drop_record
evict zero n ring records = (ring, records)
evict (suc fuel) n ring records =
    let rest = evict fuel n (drop_record ring) (records - 1) in
    if ltb (il_ring_size - 1) (length ring + n + 1) then rest else (ring, records)

pub il_append : List ℕ → Log → Log
unfolding evict
il_append s log =
    let n = if leb il_ring_size (length s + 1) then il_ring_size - 2 else length s in
    let (ring, records) = evict (length log.ring) n log.ring log.records in
    if length s == 0
    then log
    else record log { ring = ring ++ (take n s ++ 10 ∷ []); records = records + 1 }

-- The escaped form of one byte.
pub escape : ℕ → List ℕ
escape c =
    if c == b'\\'
    then b'\\' ∷ b'\\' ∷ []
    else (if c == 10
        then b'\\' ∷ b'n' ∷ []
        else (if c == 13
            then b'\\' ∷ b'r' ∷ []
            else (if c == 9
                then b'\\' ∷ b't' ∷ []
                else (if leb 32 c && ltb c 127 then c ∷ [] else []))))

-- The buffer of 2112 bytes behind the `n` bytes that it has.
pub escape_into : ℕ → List ℕ → List ℕ
unfolding escape
escape_into n [] = []
escape_into n (c ∷ payload) =
    let rest = escape_into (n + length (escape c)) payload in
    if ltb n (il_cap_max * 2 + 64 - 2) then escape c ++ rest else []

pub il_append_esc : List ℕ → List ℕ → Log → Log
unfolding escape_into il_append
il_append_esc tag payload log =
    let front = take (il_cap_max * 2 + 64 - 2) tag in
    il_append (front ++ escape_into (length front) payload) log

pub il_begin_capture : Log → Log
il_begin_capture log = record log { capture = []; cap_on = true }

pub il_capture_putc : ℕ → Log → Log
il_capture_putc c log =
    if log.cap_on && ltb (length log.capture) (il_cap_max - 1)
    then record log { capture = log.capture ++ c ∷ [] }
    else log

-- Line ends at the end of the captured text go.
pub trim_lines : List ℕ → List ℕ
trim_lines [] = []
trim_lines (c ∷ text) =
    let rest = trim_lines text in if length rest == 0 && (c == 10 || c == 13) then [] else c ∷ rest

pub is_error : List ℕ → Bool
is_error (a ∷ b ∷ c ∷ d ∷ e ∷ text) = a == b'N' && b == b'O' && c == b'C' && d == b':' && e == b' '
is_error _ = false

abbrev pub tick_tag : List ℕ
tick_tag = b'[' ∷ b'T' ∷ b'I' ∷ b'C' ∷ b'K' ∷ b']' ∷ []

abbrev pub cmd_tag : List ℕ
cmd_tag = b'[' ∷ b'C' ∷ b'M' ∷ b'D' ∷ b']' ∷ b' ' ∷ []

abbrev pub err_tag : List ℕ
err_tag = b'[' ∷ b'E' ∷ b'R' ∷ b'R' ∷ b']' ∷ b' ' ∷ []

abbrev pub out_tag : List ℕ
out_tag = b'[' ∷ b'O' ∷ b'U' ∷ b'T' ∷ b']' ∷ b' ' ∷ []

-- The record of the captured text.
pub append_output : List ℕ → Log → Log
unfolding is_error il_append_esc
append_output text log =
    if length text == 0
    then log
    else (if is_error text
        then il_append_esc err_tag (drop 5 text) log
        else il_append_esc out_tag text log)

pub il_end_capture : List ℕ → Log → Log
unfolding trim_lines il_append il_append_esc append_output
il_end_capture cmd log =
    let text = trim_lines log.capture in
    let stopped = record log { capture = text; cap_on = false } in
    append_output text (il_append_esc cmd_tag cmd (il_append tick_tag stopped))

-- Whether a text has a line feed.
pub has_line : List ℕ → Bool
has_line [] = false
has_line (c ∷ text) = c == 10 || has_line text

-- The bytes that `il_save` writes: all, or the lines that begin within the last 4096 bytes.
pub checkpoint : List ℕ → List ℕ
unfolding has_line drop_record
checkpoint ring =
    let window = drop (length ring - il_file_max) ring in
    if ltb il_file_max (length ring) && has_line window then drop_record window else window

pub count_lines : List ℕ → ℕ
count_lines [] = 0
count_lines (c ∷ text) = if c == 10 then count_lines text + 1 else count_lines text

-- "interact.log"
abbrev pub log_name : List ℕ
log_name = b'i' ∷ b'n' ∷ b't' ∷ b'e' ∷ b'r' ∷ b'a' ∷ b'c' ∷ b't' ∷ b'.' ∷ b'l' ∷ b'o' ∷ b'g' ∷ []

module _ {W : Type 0} (ide : Ide W) where
  -- The inode of the log's file, which is created where it is missing.
  pub log_inode : ℕ → Fs W → Option ℕ × Fs W
  log_inode ticks s =
      let (found, s1) = fs_lookup ide log_name s in
      if is_found ide found then (found, s1) else fs_create ide log_name fs_inode_reg ticks s1

  pub il_save : Log → ℕ → Fs W → Fs W
  unfolding checkpoint log_inode
  il_save log ticks s =
      let text = checkpoint log.ring in
      let (got, s1) = log_inode ticks s in
      if length text == 0 then s else elim got [
        | none ↦ s1
        | some ino ↦
            let (done, s2) = fs_write_file ide ino text ticks s1 in
            if done then fs_sync_bitmap ide s2 else s2
      ]

  -- `buffer` is what the array `il_ring` holds.
  pub il_load : List ℕ → Log → Fs W → Log × Fs W
  unfolding count_lines
  il_load buffer log s =
      let (found, s1) = fs_lookup ide log_name s in
      if is_found ide found
      then elim found [
        | none ↦ (log, s1)
        | some ino ↦ elim (fs_stat ide ino s1) [
          | none ↦ (log, s1)
          | some st ↦
              let (n, bytes) = fs_read_file ide ino st.size s1 in
              let text = take n (bytes ++ drop (length bytes) buffer) in
              if st.size == 0 || ltb il_file_max st.size
              then (log, s1)
              else (record log { ring = text; records = count_lines text; cap_on = false }, s1)
        ]
      ]
      else (log, s1)

pub il_clear : Log → Log
il_clear log = record log { ring = []; records = 0 }

-- `front` is the tag with the number of the task, as sprintk writes it.
pub il_event_spawn : List ℕ → Option (List ℕ) → Log → Log
unfolding il_append
il_event_spawn front name log = elim name [
  | none ↦ il_append front log
  | some text ↦
      let spaced = if ltb (length front) 63 then front ++ b' ' ∷ [] else front in
      il_append (spaced ++ take (63 - length spaced) text) log
]

-- `text` is the whole record, as sprintk writes it.
pub il_event_exit : List ℕ → Log → Log
unfolding il_append
il_event_exit text log = il_append text log

pub il_len_bytes : Log → ℕ
il_len_bytes log = length log.ring

-- The bytes that are copied, whose number is returned.
pub il_copy_tail : ℕ → Log → List ℕ
il_copy_tail cap log =
    drop (length log.ring - (if ltb (length log.ring) cap then length log.ring else cap)) log.ring
