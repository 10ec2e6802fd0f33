-- ===== src/Predict/Votes.antt =====
-- The vote of predict.c and pgpred.c, against a count of the entries.
use no_os.Base.{
  ℕ, zero, suc, ◌+◌, ◌-◌, ◌≤◌, ◌<◌, ◌≡◌, refl, sym, ap, ◌∙◌, ◌↔◌, Bool, true, ◌&&◌, Option, none,
  some, List, [], ◌∷◌, arith, if◌then◌else◌, All, if-cases,
}
use no_os.Predict.{Cand, vote, followers, frequencies, better, best_of, pick_best}

module _ {A : Type 0} (same : A → A → Bool) (lawful : (x y : A) → (same x y ≡ true) ↔ (x ≡ y)) where
  -- How many of the `n` entries from `i` on are `x` and stand after `last`.
  pub follows : (ℕ → A) → A → A → ℕ → ℕ → ℕ
  follows at last x i zero = 0
  follows at last x i (suc n) =
      (if same (at (i + 1)) last && same (at i) x then 1 else 0) + follows at last x (i + 1) n

  -- How many of them are `x`.
  pub occurs : (ℕ → A) → A → ℕ → ℕ → ℕ
  occurs at x i zero = 0
  occurs at x i (suc n) = (if same (at i) x then 1 else 0) + occurs at x (i + 1) n

  -- The votes of the first candidate for `x`, and those of all.
  first_votes : A → List (Cand A) → ℕ
  first_votes x [] = 0
  first_votes x (c ∷ cands) = if same c.item x then c.count else first_votes x cands

  all_votes : A → List (Cand A) → ℕ
  all_votes x [] = 0
  all_votes x (c ∷ cands) = (if same c.item x then c.count else 0) + all_votes x cands

  same_sides : (a b x : A) → same a b ≡ true → same a x ≡ same b x
  same_sides a b x h = ap (λ c. same c x) ((lawful a b).0 h)

  first_votes-vote :
      (x y : A) (r : ℕ) (cands : List (Cand A))
      → first_votes x (vote same y r cands) ≡ (if same y x then 1 else 0) + first_votes x cands
  unfolding first_votes vote
  first_votes-vote x y r [] = ground arith
  first_votes-vote x y r (c ∷ cands) =
      let ih = first_votes-vote x y r cands in
      let s = same_sides c.item y x in
      let closes : (same y x ≡ true → same c.item x ≡ true → same c.item y ≡ true) =
        λ p q. (lawful c.item y).1 ((lawful c.item x).0 q ∙ sym ((lawful y x).0 p)) in
      ground arith

  all_votes-vote :
      (x y : A) (r : ℕ) (cands : List (Cand A))
      → all_votes x (vote same y r cands) ≡ (if same y x then 1 else 0) + all_votes x cands
  unfolding all_votes vote
  all_votes-vote x y r [] = ground arith
  all_votes-vote x y r (c ∷ cands) =
      let ih = all_votes-vote x y r cands in let s = same_sides c.item y x in ground arith

  module _ (count_votes : A → List (Cand A) → ℕ)
      (count-vote : (x y : A) (r : ℕ) (cands : List (Cand A))
        → count_votes x (vote same y r cands)
          ≡ (if same y x then 1 else 0) + count_votes x cands) where
    count-followers :
        (at : ℕ → A) (count : ℕ) (last x : A) (i n : ℕ) (cands : List (Cand A))
        → count_votes x (followers same at count last i n cands)
          ≡ follows at last x i n + count_votes x cands
    unfolding followers follows
    count-followers at count last x i zero cands = omega arith
    count-followers at count last x i (suc n) cands =
        let v = count-vote x (at i) (count - i) cands in
        if-cases
          (λ cs.
            count_votes x (followers same at count last (i + 1) n cs)
            ≡ (if same (at (i + 1)) last && same (at i) x then 1 else 0)
              + follows at last x (i + 1) n
              + count_votes x cands)
          (same (at (i + 1)) last) _ _
          (λ after_last.
            let ih =
              count-followers at count last x (i + 1) n (vote same (at i) (count - i) cands) in
            ground arith)
          (λ elsewhere. let ih = count-followers at count last x (i + 1) n cands in ground arith)

    count-frequencies :
        (at : ℕ → A) (count : ℕ) (x : A) (i n : ℕ) (cands : List (Cand A))
        → count_votes x (frequencies same at count i n cands)
          ≡ occurs at x i n + count_votes x cands
    unfolding frequencies occurs
    count-frequencies at count x i zero cands = omega arith
    count-frequencies at count x i (suc n) cands =
        let ih = count-frequencies at count x (i + 1) n (vote same (at i) (count - i + 1) cands) in
        let v = count-vote x (at i) (count - i + 1) cands in omega arith

  -- What `best_of` picks, against the candidates and the first choice.
  best_of_lem :
      (best : Cand A) (cands : List (Cand A))
      → (best.count ≤ (best_of best cands).count)
        × All (λ (c : Cand A). c.count ≤ (best_of best cands).count) cands
  unfolding best_of better
  best_of_lem best [] = ((omega arith), tt)
  best_of_lem best (c ∷ cands) =
      if-cases
        (λ b.
          (best.count ≤ (best_of b cands).count)
          × ((c.count ≤ (best_of b cands).count)
              × All (λ (d : Cand A). d.count ≤ (best_of b cands).count) cands))
        (better c best) c best
        (λ wins. let ih = best_of_lem c cands in ((ground arith), (ih.0, ih.1)))
        (λ loses. let ih = best_of_lem best cands in (ih.0, ((ground arith), ih.1)))

  best_of-votes :
      (best : Cand A) (cands : List (Cand A))
      → (best_of best cands).count ≤ all_votes (best_of best cands).item (best ∷ cands)
  unfolding best_of all_votes
  best_of-votes best [] = let s = (lawful best.item best.item).1 refl in ground arith
  best_of-votes best (c ∷ cands) =
      if-cases (λ b. (best_of b cands).count ≤ all_votes (best_of b cands).item (best ∷ c ∷ cands))
        (better c best) c best (λ wins. let ih = best_of-votes c cands in omega arith)
        (λ loses. let ih = best_of-votes best cands in omega arith)

  first_votes-le :
      (m : ℕ) (x : A) (cands : List (Cand A))
      → All (λ (c : Cand A). c.count ≤ m) cands
      → first_votes x cands ≤ m
  unfolding first_votes
  first_votes-le m x [] h = omega arith
  first_votes-le m x (c ∷ cands) h = let ih = first_votes-le m x cands h.1 in ground arith

  -- What is picked from the candidates: nothing when there is none, and else an item with the most votes.
  abbrev pub Elected : (A → ℕ) → Option A → Type 0
  Elected votes none = (x : A) → votes x ≡ 0
  Elected votes (some p) = (0 < votes p) × ((x : A) → votes x ≤ votes p)

  -- Every candidate has a vote.
  abbrev Voted : List (Cand A) → Type 0
  Voted cands = All (λ (c : Cand A). 0 < c.count) cands

  vote-Voted : (y : A) (r : ℕ) (cands : List (Cand A)) → Voted cands → Voted (vote same y r cands)
  unfolding vote
  vote-Voted y r [] h = (omega arith, tt)
  vote-Voted y r (c ∷ cands) h =
      if-cases Voted (same c.item y) _ _ (λ e. (omega arith, h.1))
        (λ e. (h.0, vote-Voted y r cands h.1))

  followers-Voted :
      (at : ℕ → A) (count : ℕ) (last : A) (i n : ℕ) (cands : List (Cand A))
      → Voted cands
      → Voted (followers same at count last i n cands)
  unfolding followers
  followers-Voted at count last i zero cands h = h
  followers-Voted at count last i (suc n) cands h = followers-Voted at count last (i + 1) n _ (
      if-cases Voted (same (at (i + 1)) last) _ _ (λ e. vote-Voted (at i) (count - i) cands h)
        (λ e. h))

  frequencies-Voted :
      (at : ℕ → A) (count i n : ℕ) (cands : List (Cand A))
      → Voted cands
      → Voted (frequencies same at count i n cands)
  unfolding frequencies
  frequencies-Voted at count i zero cands h = h
  frequencies-Voted at count i (suc n) cands h =
      frequencies-Voted at count (i + 1) n _ (vote-Voted (at i) (count - i + 1) cands h)

  pick_best-Elected :
      (votes : A → ℕ) (cands : List (Cand A))
      → Voted cands
      → ((x : A) → first_votes x cands ≡ votes x)
      → ((x : A) → all_votes x cands ≡ votes x)
      → Elected votes (pick_best cands)
  unfolding pick_best
  pick_best-Elected votes [] voted first all = λ x. sym (first x) ∙ unfold first_votes in refl
  pick_best-Elected votes (c ∷ cands) voted first all =
      let best = best_of c cands in
      let m = best_of_lem c cands in
      let ge = best_of-votes c cands in
      (
        omega (arith, voted.0, m.0, ge, all best.item),
        λ x.
            let le = first_votes-le best.count x (c ∷ cands) m in
            omega (arith, first x, all best.item),
      )

  pub followers-Elected :
      (at : ℕ → A) (count : ℕ) (last : A) (i n : ℕ)
      → Elected (λ x. follows at last x i n) (pick_best (followers same at count last i n []))
  followers-Elected at count last i n =
      pick_best-Elected (λ x. follows at last x i n) (followers same at count last i n [])
        (followers-Voted at count last i n [] tt)
        (λ x.
          unfold first_votes in
          omega (arith, count-followers first_votes first_votes-vote at count last x i n []))
        (λ x.
          unfold all_votes in
          omega (arith, count-followers all_votes all_votes-vote at count last x i n []))

  pub frequencies-Elected :
      (at : ℕ → A) (count i n : ℕ)
      → Elected (λ x. occurs at x i n) (pick_best (frequencies same at count i n []))
  frequencies-Elected at count i n =
      pick_best-Elected (λ x. occurs at x i n) (frequencies same at count i n [])
        (frequencies-Voted at count i n [] tt)
        (λ x.
          unfold first_votes in
          omega (arith, count-frequencies first_votes first_votes-vote at count x i n []))
        (λ x.
          unfold all_votes in
          omega (arith, count-frequencies all_votes all_votes-vote at count x i n []))
