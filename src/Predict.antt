-- ===== src/Predict.antt =====
-- kernel/mm/pgpred.c and kernel/noc/predict.c: a ring of the latest items and the vote on the next one,
-- which the two files have for page numbers and for commands.
pub mod Ring
pub mod Votes
pub mod Commands
pub mod Pages
mod Tests
use no_os.Base.{
  ℕ, zero, suc, ◌+◌, ◌-◌, ◌%◌, Bool, ◌&&◌, ◌||◌, Option, none, some, List, [], ◌∷◌, ltb, ◌==◌,
  if◌then◌else◌, get_or, set,
}

-- The ring, its live entries and the next index to write.
pub record History (A : Type 0) : Type 0 where
  pub ring : List A
  pub count : ℕ
  pub wr : ℕ

-- `cand_t`
pub record Cand (A : Type 0) : Type 0 where
  pub item : A
  pub count : ℕ
  pub recency : ℕ

-- `PGHIST_MAX` and `CMDHIST_MAX`
abbrev pub hist_max : ℕ
hist_max = 256

-- `blank` is what the ring holds before a write.
module _ {A : Type 0} (blank : A) where
  pub record_item : A → History A → History A
  record_item x h = record {
    ring = set h.ring h.wr x;
    count = if ltb h.count hist_max then h.count + 1 else h.count;
    wr = (h.wr + 1) % hist_max;
  }

  pub cleared : History A → History A
  cleared h = record h { count = 0; wr = 0 }

  -- The item written `back` positions before the next one.
  pub entry : History A → ℕ → A
  entry h back = get_or h.ring ((h.wr + hist_max - back) % hist_max) blank

module _ {A : Type 0} (same : A → A → Bool) where
  -- One more vote for `x`.
  pub vote : A → ℕ → List (Cand A) → List (Cand A)
  vote x recency [] = record { item = x; count = 1; recency = recency } ∷ []
  vote x recency (c ∷ cands) =
      if same c.item x
      then record c { count = c.count + 1; recency = recency } ∷ cands
      else c ∷ vote x recency cands

  -- The bigram pass over `n` entries from `i` on: the followers of `last`.
  pub followers : (ℕ → A) → ℕ → A → ℕ → ℕ → List (Cand A) → List (Cand A)
  unfolding vote
  followers at count last i zero cands = cands
  followers at count last i (suc n) cands =
      followers at count last (i + 1) n
        (if same (at (i + 1)) last then vote (at i) (count - i) cands else cands)

  -- The unigram pass.
  pub frequencies : (ℕ → A) → ℕ → ℕ → ℕ → List (Cand A) → List (Cand A)
  unfolding vote
  frequencies at count i zero cands = cands
  frequencies at count i (suc n) cands =
      frequencies at count (i + 1) n (vote (at i) (count - i + 1) cands)

module _ {A : Type 0} where
  pub better : Cand A → Cand A → Bool
  better c best = ltb best.count c.count || (c.count == best.count && ltb best.recency c.recency)

  pub best_of : Cand A → List (Cand A) → Cand A
  unfolding better
  best_of best [] = best
  best_of best (c ∷ cands) = best_of (if better c best then c else best) cands

  pub pick_best : List (Cand A) → Option A
  unfolding best_of
  pick_best [] = none
  pick_best (c ∷ cands) = some (best_of c cands).item
