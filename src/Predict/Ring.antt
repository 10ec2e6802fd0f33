-- ===== src/Predict/Ring.antt =====
-- The ring of predict.c and pgpred.c as the list of its latest items.
use no_os.Base.{
  ℕ, zero, suc, ◌+◌, ◌-◌, ◌%◌, ◌≤◌, ◌<◌, min, ◌≡◌, refl, sym, ap, ap₂, ◌∙◌, List, [], ◌∷◌, arith,
  length, get_or, set, take, length-set, get_or-set_self, get_or-set_ne,
}
use no_os.Predict.{History, hist_max, record_item, entry}

pub record IsRing {A : Type 0} (h : History A) : Type 0 where
  pub size : length h.ring ≡ hist_max
  pub wr_in : h.wr < hist_max
  pub count_le : h.count ≤ hist_max

module _ {A : Type 0} (blank : A) where
  -- The items from the one written `back` positions before on.
  pub recent_from : History A → ℕ → ℕ → List A
  recent_from h back zero = []
  recent_from h back (suc n) = entry blank h back ∷ recent_from h (back + 1) n

  -- The live items, the latest first.
  abbrev pub recent : History A → List A
  recent h = recent_from h 1 h.count

  record_item-IsRing : (x : A) (h : History A) → IsRing h → IsRing (record_item blank x h)
  unfolding record_item
  record_item-IsRing x h v = record {
    size = length-set h.ring h.wr x ∙ v.size;
    wr_in = omega arith;
    count_le = let c = v.count_le in ground arith;
  }

  first-entry : (x : A) (h : History A) → IsRing h → entry blank (record_item blank x h) 1 ≡ x
  unfolding record_item entry
  first-entry x h v =
      let w = v.wr_in in
      let back : ((h.wr + 1) % hist_max + hist_max - 1) % hist_max ≡ h.wr = omega arith in
      ap (λ i. get_or (set h.ring h.wr x) i blank) back
      ∙ get_or-set_self h.ring h.wr x blank (let s = v.size in omega arith)

  later-entry :
      (x : A) (h : History A) (k : ℕ)
      → IsRing h
      → 1 ≤ k
      → k < hist_max
      → entry blank (record_item blank x h) (k + 1) ≡ entry blank h k
  unfolding record_item entry
  later-entry x h k v pos lt =
      let w = v.wr_in in
      let back : ((h.wr + 1) % hist_max + hist_max - (k + 1)) % hist_max
          ≡ (h.wr + hist_max - k) % hist_max =
        omega arith in
      ap (λ i. get_or (set h.ring h.wr x) i blank) back
      ∙ get_or-set_ne h.ring h.wr ((h.wr + hist_max - k) % hist_max) x blank (λ e. omega arith)

  later-recent :
      (x : A) (h : History A) (k n : ℕ)
      → IsRing h
      → 1 ≤ k
      → k + n ≤ hist_max
      → recent_from (record_item blank x h) (k + 1) n ≡ recent_from h k n
  unfolding recent_from
  later-recent x h k zero v pos le = refl
  later-recent x h k (suc n) v pos le =
      ap₂ (λ a rest. a ∷ rest) (later-entry x h k v pos (omega arith))
        (later-recent x h (k + 1) n v (omega arith) (omega arith))

  take-recent : (h : History A) (k n m : ℕ) → take m (recent_from h k n) ≡ recent_from h k (min m n)
  unfolding recent_from
  take-recent h k n zero = ap (recent_from h k) {x = 0} {y = min 0 n} (omega arith)
  take-recent h k zero (suc m) = ap (recent_from h k) {x = 0} {y = min (suc m) 0} (omega arith)
  take-recent h k (suc n) (suc m) =
      ap (λ rest. entry blank h k ∷ rest) (take-recent h (k + 1) n m)
      ∙ ap (recent_from h k) {x = suc (min m n)} {y = min (suc m) (suc n)} (omega arith)

  count-record_item :
      (x : A) (h : History A)
      → IsRing h
      → (record_item blank x h).count ≡ min hist_max (h.count + 1)
  unfolding record_item
  count-record_item x h v = let c = v.count_le in ground arith

  recent_count :
      (h : History A) (c : ℕ)
      → h.count ≡ min hist_max (c + 1)
      → recent h ≡ entry blank h 1 ∷ recent_from h 2 (min 255 c)
  unfolding recent_from
  recent_count h c e = ap (recent_from h 1) {y = suc (min 255 c)} (omega (arith, e))

  -- A ring stays one, and its live items are afterwards the new one and those before it, of which at
  -- most 255 are kept.
  pub recent-record_item :
      (x : A) (h : History A)
      → IsRing h
      → IsRing (record_item blank x h)
        × (recent (record_item blank x h) ≡ take hist_max (x ∷ recent h))
  recent-record_item x h v = (
    record_item-IsRing x h v,
    recent_count (record_item blank x h) h.count (count-record_item x h v)
        ∙ ap₂ (λ a rest. a ∷ rest) (first-entry x h v)
            (later-recent x h 1 (min 255 h.count) v (omega arith)
              (let c = v.count_le in omega arith))
        ∙ ap (λ rest. x ∷ rest) (sym (take-recent h 1 h.count 255)),
  )
