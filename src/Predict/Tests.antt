-- ===== src/Predict/Tests.antt =====
-- Histories of the two predictors.
use no_os.Base.{ℕ, List, [], ◌∷◌, replicate}
use no_os.Predict.{History}
use no_os.Predict.Commands.{Guessed, cmdhist_predict-Guessed}

abbrev empty_pages : History ℕ
empty_pages = record { ring = replicate 256 0; count = 0; wr = 0 }

abbrev two_commands : History (List ℕ)
two_commands = record { ring = (b'a' ∷ []) ∷ (b'b' ∷ []) ∷ replicate 254 []; count = 2; wr = 2 }

cmdhist_predict-Guessed_example : Guessed two_commands
cmdhist_predict-Guessed_example = cmdhist_predict-Guessed two_commands
