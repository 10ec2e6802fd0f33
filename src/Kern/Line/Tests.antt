-- ===== src/Kern/Line/Tests.antt =====
-- Lines typed into a small buffer.
use no_os.Base.{ℕ, List, [], ◌∷◌, arith}
use no_os.Kern.Line.{Line}
use no_os.Kern.Line.Edits.{IsLine}

abbrev one_line : List (List ℕ)
one_line = (b'h' ∷ b'i' ∷ []) ∷ []

abbrev half : Line
half = record { buf = b'a' ∷ b'b' ∷ []; cur = 1; hist_pos = 1 }

half-IsLine : IsLine 8 one_line half
half-IsLine = record { cur_le = omega arith; fits = omega arith; pos_le = omega arith }
