-- ===== src/Noc/Interact/Tests.antt =====
-- A log of kernel/noc/interact.c with two records.
use no_os.Base.{ℕ, ◌-◌, ◌≤◌, ◌<◌, ◌≡◌, refl, true, false, List, [], ◌∷◌, arith, length, drop, All}
use no_os.Noc.Interact.{
  Log, has_line, il_append, il_append_esc, escape_into, escape, checkpoint, il_end_capture,
  trim_lines, evict, append_output, is_error,
}
use no_os.Noc.Interact.Records.{flatten, Holds, Appended, il_append-Appended}
use no_os.Noc.Interact.Escapes.{unescape, kept, unescape-escape_into}
use no_os.Noc.Interact.Checkpoint.{checkpoint-flatten}

abbrev two_lines : List (List ℕ)
two_lines = (b'a' ∷ []) ∷ (b'b' ∷ b'c' ∷ []) ∷ []

abbrev small_log : Log
small_log = record {
  ring = b'a' ∷ 10 ∷ b'b' ∷ b'c' ∷ 10 ∷ [];
  records = 2;
  capture = b'h' ∷ b'i' ∷ 10 ∷ [];
  cap_on = true;
}

two_lines_single : All (λ line. has_line line ≡ false) two_lines
unfolding has_line
two_lines_single = (refl, (refl, tt))

small_log-Holds : Holds small_log two_lines
unfolding flatten
small_log-Holds = record { ring = refl; records = refl; single = two_lines_single }

-- A command with one line of output makes three records.
captured_records : (il_end_capture (b'x' ∷ []) small_log).records ≡ 5
unfolding il_end_capture trim_lines il_append il_append_esc escape_into escape evict append_output
    is_error
captured_records = refl

il_append-Appended_example : Appended (b'd' ∷ []) two_lines (il_append (b'd' ∷ []) small_log)
il_append-Appended_example =
    il_append-Appended (b'd' ∷ []) two_lines small_log (omega arith) (unfold has_line in refl)
      small_log-Holds

unescape-escape_into_example :
    unescape (escape_into 6 (10 ∷ b'q' ∷ b'\\' ∷ [])) ≡ kept (10 ∷ b'q' ∷ b'\\' ∷ [])
unescape-escape_into_example = unescape-escape_into 6 (10 ∷ b'q' ∷ b'\\' ∷ []) (omega arith)

checkpoint-flatten_example :
    (length (checkpoint (flatten two_lines)) ≤ 4096)
    × (k : ℕ) × (checkpoint (flatten two_lines) ≡ flatten (drop k two_lines))
    × (0 < k → 4096 ≤ length (flatten (drop (k - 1) two_lines)))
checkpoint-flatten_example = checkpoint-flatten two_lines two_lines_single
