-- ===== src/Predict/Pages.antt =====
-- kernel/mm/pgpred.c: the history of the pages that faulted and the guess of the next one.
use no_os.Base.{ℕ, ◌-◌, ◌/◌, ◌^◌, ◌||◌, Option, none, some, [], ltb, ◌==◌, if◌then◌else◌}
use no_os.Predict.{History, record_item, cleared, entry, followers, frequencies, pick_best}

pub pgpred_fault : ℕ → History ℕ → History ℕ
pgpred_fault vaddr h = record_item 0 (vaddr / 2 ^ 12) h

pub pgpred_clear : History ℕ → History ℕ
pgpred_clear h = cleared 0 h

pub pgpred_entry : History ℕ → ℕ → ℕ
pgpred_entry h back = if ltb back 1 || ltb h.count back then 0 else entry 0 h back

-- `pick_best`, with 0 for no candidate.
pub or_zero : Option ℕ → ℕ
or_zero none = 0
or_zero (some p) = p

pub pgpred_predict : History ℕ → ℕ
unfolding or_zero pgpred_entry
pgpred_predict h =
    let unigram = or_zero (pick_best (frequencies ◌==◌ (pgpred_entry h) h.count 1 h.count [])) in
    let bigram =
      or_zero (
        pick_best
          (followers ◌==◌ (pgpred_entry h) h.count (pgpred_entry h 1) 1 (h.count - 1) [])) in
    if h.count == 0 then 0 else (if bigram == 0 then unigram else bigram)
