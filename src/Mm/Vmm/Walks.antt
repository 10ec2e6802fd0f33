-- ===== src/Mm/Vmm/Walks.antt =====
-- The walk of kernel/mm/vmm.c down the tables to an entry of the lowest level, and a write to that entry.
use no_os.Base.{
  ℕ, suc, ◌%◌, ◌<◌, ◌≡◌, refl, sym, ap, ◌∙◌, ◌≢◌, true, Option, none, some, arith, ◌==◌,
  if◌then◌else◌, if-cases, subst, if-true, if-false, elim-some, ==_false, ==_self,
}
use no_os.Mm.Vmm.{
  Paging, write_word, entry_at, page_of, is_present, descend, and_then, walk_to, set_last, find_pt,
  vmm_translate, pml4i, pdpti, pdi, pti,
}
use no_os.Mm.Vmm.Tables.{IsTree, Descended, descend-Descended, tables_apart, some_value, none_value}

-- The three tables of a walk, with the entries that lead to them.
pub record Path3 (level : ℕ → ℕ) (s : Paging) (cr3 vaddr pt : ℕ) : Type 0 where
  pdpt : ℕ
  pd : ℕ
  here4 : is_present (s.mem (entry_at cr3 (pml4i vaddr))) ≡ true
  to4 : page_of (s.mem (entry_at cr3 (pml4i vaddr))) ≡ pdpt
  here3 : is_present (s.mem (entry_at pdpt (pdpti vaddr))) ≡ true
  to3 : page_of (s.mem (entry_at pdpt (pdpti vaddr))) ≡ pd
  here2 : is_present (s.mem (entry_at pd (pdi vaddr))) ≡ true
  to2 : page_of (s.mem (entry_at pd (pdi vaddr))) ≡ pt
  pub level4 : level cr3 ≡ 4
  level3 : level pdpt ≡ 3
  level2 : level pd ≡ 2
  pub level1 : level pt ≡ 1

find-Path3 :
    (level : ℕ → ℕ) (s : Paging) (cr3 vaddr pt : ℕ)
    → Path3 level s cr3 vaddr pt
    → find_pt cr3 vaddr s ≡ some pt
unfolding find_pt
find-Path3 level s cr3 vaddr pt w =
    let P = λ (o : Option ℕ). o ≡ some pt in
    let e4 = s.mem (entry_at cr3 (pml4i vaddr)) in
    let e3 = s.mem (entry_at (page_of e4) (pdpti vaddr)) in
    let e2 = s.mem (entry_at (page_of e3) (pdi vaddr)) in
    let q3 : e3 ≡ s.mem (entry_at w.pdpt (pdpti vaddr)) =
      λ p. s.mem (entry_at (w.to4 p) (pdpti vaddr)) in
    let r3 : page_of e3 ≡ w.pd = ap page_of q3 ∙ w.to3 in
    let q2 : e2 ≡ s.mem (entry_at w.pd (pdi vaddr)) = λ p. s.mem (entry_at (r3 p) (pdi vaddr)) in
    if-true P (is_present e4) _ _ w.here4 (
      if-true P (is_present e3) _ _ (ap is_present q3 ∙ w.here3) (
        if-true P (is_present e2) _ _ (ap is_present q2 ∙ w.here2)
          (ap some (ap page_of q2 ∙ w.to2))))

-- What is found is such a path.
pub Path3-find_pt :
    (level : ℕ → ℕ) (s : Paging) (v : IsTree level s) (cr3 vaddr pt : ℕ)
    → level cr3 ≡ 4
    → pml4i vaddr ≢ 0
    → find_pt cr3 vaddr s ≡ some pt
    → Path3 level s cr3 vaddr pt
unfolding find_pt
Path3-find_pt level s v cr3 vaddr pt top user =
    let P = λ (o : Option ℕ). o ≡ some pt → Path3 level s cr3 vaddr pt in
    let e4 = s.mem (entry_at cr3 (pml4i vaddr)) in
    let e3 = s.mem (entry_at (page_of e4) (pdpti vaddr)) in
    let e2 = s.mem (entry_at (page_of e3) (pdi vaddr)) in
    if-cases P (is_present e4) _ _
      (λ h4.
        if-cases P (is_present e3) _ _
          (λ h3.
            if-cases P (is_present e2) _ _
              (λ h2 q.
                let l3 : level (page_of e4) ≡ 3 =
                  v.child cr3 (pml4i vaddr) 2 (omega arith) top (λ z. user) h4 in
                let l2 : level (page_of e3) ≡ 2 =
                  v.child (page_of e4) (pdpti vaddr) 1 (omega arith) l3
                    (λ z. absurd (omega (arith, z))) h3 in
                let l1 : level (page_of e2) ≡ 1 =
                  v.child (page_of e3) (pdi vaddr) 0 (omega arith) l2
                    (λ z. absurd (omega (arith, z))) h2 in
                let e : page_of e2 ≡ pt = some_value q in
                record {
                  pdpt = page_of e4;
                  pd = page_of e3;
                  here4 = h4;
                  to4 = refl;
                  here3 = h3;
                  to3 = refl;
                  here2 = h2;
                  to2 = e;
                  level4 = top;
                  level3 = l3;
                  level2 = l2;
                  level1 = ap level (sym e) ∙ l1;
                })
              (λ h q. absurd (none_value q)))
          (λ h q. absurd (none_value q)))
      (λ h q. absurd (none_value q))

mem_store : (a w : ℕ) (s : Paging) → (write_word a w s).mem a ≡ w
unfolding write_word
mem_store a w s = if-true (λ x. x ≡ w) (a == a) _ _ (==_self a) refl

-- A write to a table of the lowest level is no write to an entry above it.
above_same :
    (level : ℕ → ℕ) (s : Paging) (v : IsTree level s) (pt w x i j k : ℕ)
    → level pt ≡ 1
    → level x ≡ suc (suc k)
    → i < 512
    → j < 512
    → (write_word (entry_at pt j) w s).mem (entry_at x i) ≡ s.mem (entry_at x i)
unfolding write_word
above_same level s v pt w x i j k lp lx hi hj =
    let ne : x ≢ pt = λ e. let z = ap level e in absurd (omega (arith, lp, lx, z)) in
    let px : 0 < level x = omega (arith, lx) in
    let pp : 0 < level pt = omega (arith, lp) in
    if-false (λ y. y ≡ s.mem (entry_at x i)) (entry_at x i == entry_at pt j) _ _
      (==_false _ _ (tables_apart x pt i j (v.aligned x px) (v.aligned pt pp) ne hi hj)) refl

Path3-store :
    (level : ℕ → ℕ) (s : Paging) (v : IsTree level s) (cr3 vaddr pt w : ℕ)
    → Path3 level s cr3 vaddr pt
    → Path3 level (write_word (entry_at pt (pti vaddr)) w s) cr3 vaddr pt
Path3-store level s v cr3 vaddr pt w h =
    let same = λ (x i k : ℕ) (lx : level x ≡ suc (suc k)) (hi : i < 512).
      above_same level s v pt w x i (pti vaddr) k h.level1 lx hi (omega arith) in
    let s4 = same cr3 (pml4i vaddr) 2 h.level4 (omega arith) in
    let s3 = same h.pdpt (pdpti vaddr) 1 h.level3 (omega arith) in
    let s2 = same h.pd (pdi vaddr) 0 h.level2 (omega arith) in
    record {
      pdpt = h.pdpt;
      pd = h.pd;
      here4 = ap is_present s4 ∙ h.here4;
      to4 = ap page_of s4 ∙ h.to4;
      here3 = ap is_present s3 ∙ h.here3;
      to3 = ap page_of s3 ∙ h.to3;
      here2 = ap is_present s2 ∙ h.here2;
      to2 = ap page_of s2 ∙ h.to2;
      level4 = h.level4;
      level3 = h.level3;
      level2 = h.level2;
      level1 = h.level1;
    }

-- So the tree is kept.
pub write_word-IsTree :
    (level : ℕ → ℕ) (s : Paging) (pt j w : ℕ)
    → IsTree level s
    → level pt ≡ 1
    → j < 512
    → IsTree level (write_word (entry_at pt j) w s)
write_word-IsTree level s pt j w v lp hj = record {
  frames = unfold write_word in v.frames;
  aligned = v.aligned;
  used = unfold write_word in v.used;
  child = λ x i k hi lx user pres.
      let same = above_same level s v pt w x i j k lp lx hi hj in
      ap (λ e. level (page_of e)) same ∙ v.child x i k hi lx user (ap is_present (sym same) ∙ pres);
}

-- The translation after a write to the last entry.
pub translate-store :
    (level : ℕ → ℕ) (s : Paging) (v : IsTree level s) (cr3 vaddr pt w : ℕ)
    → Path3 level s cr3 vaddr pt
    → vmm_translate cr3 vaddr (write_word (entry_at pt (pti vaddr)) w s)
      ≡ (if is_present w then page_of w else 0)
unfolding vmm_translate
translate-store level s v cr3 vaddr pt w h =
    let u = write_word (entry_at pt (pti vaddr)) w s in
    let found = find-Path3 level u cr3 vaddr pt (Path3-store level s v cr3 vaddr pt w h) in
    let word : u.mem (entry_at pt (pti vaddr)) ≡ w = mem_store (entry_at pt (pti vaddr)) w s in
    elim-some (λ r. r ≡ (if is_present w then page_of w else 0)) (find_pt cr3 vaddr u) 0
      (λ t. let e = u.mem (entry_at t (pti vaddr)) in if is_present e then page_of e else 0) pt
      found (λ p. if is_present (word p) then page_of (word p) else 0)

-- A step down writes to no entry of a table of another level.
rest-Descended :
    (level : ℕ → ℕ) (s : Paging) (v : IsTree level s) (t i k table : ℕ) (u : Paging)
    → Descended level s t i k table u
    → level t ≡ suc (suc k)
    → i < 512
    → (x j : ℕ) → j < 512
    → suc (suc k) < level x
    → u.mem (entry_at x j) ≡ s.mem (entry_at x j)
rest-Descended level s v t i k table u d lt hi x j hj lx =
    let ne : x ≢ t = λ e. let z = ap level e in absurd (omega (arith, lt, lx, z)) in
    let px : 0 < level x = omega (arith, lx) in
    let pt : 0 < level t = omega (arith, lt) in
    d.rest x j hj px (tables_apart x t j i (v.aligned x px) (v.aligned t pt) ne hj hi)

and_then-some :
    (r : Option ℕ × Paging) (next : ℕ → Paging → Option ℕ × Paging) (pt : ℕ)
    → (and_then r next).0 ≡ some pt
    → (table : ℕ) × (r.0 ≡ some table) × (and_then r next ≡ next table r.1)
unfolding and_then
and_then-some (none, s) next pt e = absurd (none_value e)
and_then-some (some table, s) next pt e = (table, refl, refl)

pub set_last-some :
    (r : Option ℕ × Paging) (idx w pt : ℕ)
    → r.0 ≡ some pt
    → set_last idx w r ≡ write_word (entry_at pt idx) w r.1
unfolding set_last
set_last-some (none, s) idx w pt e = absurd (none_value e)
set_last-some (some t, s) idx w pt e =
    let q : t ≡ pt = some_value e in λ p. write_word (entry_at (q p) idx) w s

-- Three steps down make a path.
path_down :
    (level : ℕ → ℕ) (s : Paging) (v : IsTree level s) (cr3 vaddr pdpt pd pt : ℕ) (s1 s2 s3 : Paging)
    → level cr3 ≡ 4
    → (d4 : Descended level s cr3 (pml4i vaddr) 2 pdpt s1)
    → (d3 : Descended d4.level' s1 pdpt (pdpti vaddr) 1 pd s2)
    → (d2 : Descended d3.level' s2 pd (pdi vaddr) 0 pt s3) → Path3 d2.level' s3 cr3 vaddr pt
path_down level s v cr3 vaddr pdpt pd pt s1 s2 s3 top d4 d3 d2 =
    let l4a : d4.level' cr3 ≡ 4 = d4.keep cr3 (omega (arith, top)) ∙ top in
    let l4b : d3.level' cr3 ≡ 4 = d3.keep cr3 (omega (arith, l4a)) ∙ l4a in
    let l3b : d3.level' pdpt ≡ 3 = d3.keep pdpt (omega (arith, d4.below)) ∙ d4.below in
    let down2 =
      rest-Descended d3.level' s2 d3.tree pd (pdi vaddr) 0 pt s3 d2 d3.below (omega arith) in
    let down3 =
      rest-Descended d4.level' s1 d4.tree pdpt (pdpti vaddr) 1 pd s2 d3 d4.below (omega arith) in
    let m4 =
      down2 cr3 (pml4i vaddr) (omega arith) (omega (arith, l4b))
      ∙ down3 cr3 (pml4i vaddr) (omega arith) (omega (arith, l4a)) in
    let m3 = down2 pdpt (pdpti vaddr) (omega arith) (omega (arith, l3b)) in
    record {
      pdpt = pdpt;
      pd = pd;
      here4 = ap is_present m4 ∙ d4.here;
      to4 = ap page_of m4 ∙ d4.points;
      here3 = ap is_present m3 ∙ d3.here;
      to3 = ap page_of m3 ∙ d3.points;
      here2 = d2.here;
      to2 = d2.points;
      level4 = d2.keep cr3 (omega (arith, l4b)) ∙ l4b;
      level3 = d2.keep pdpt (omega (arith, l3b)) ∙ l3b;
      level2 = d2.keep pd (omega (arith, d3.below)) ∙ d3.below;
      level1 = d2.below;
    }

-- A walk that finds a table leaves a tree with the path to it.
pub walk-Path3 :
    (level : ℕ → ℕ) (s : Paging) (v : IsTree level s) (cr3 vaddr flags pt : ℕ)
    → level cr3 ≡ 4
    → pml4i vaddr ≢ 0
    → flags < 4096
    → flags % 2 ≡ 1
    → (walk_to cr3 vaddr flags s).0 ≡ some pt
    → (level' : ℕ → ℕ) × IsTree level' (walk_to cr3 vaddr flags s).1
      × Path3 level' (walk_to cr3 vaddr flags s).1 cr3 vaddr pt
unfolding walk_to
walk-Path3 level s v cr3 vaddr flags pt top user small odd e =
    let P = λ (u : Paging). (level' : ℕ → ℕ) × IsTree level' u × Path3 level' u cr3 vaddr pt in
    let r4 = descend cr3 (pml4i vaddr) flags s in
    let (pdpt, e4, q4) = and_then-some r4 _ pt e in
    let r3 = descend pdpt (pdpti vaddr) flags r4.1 in
    let (pd, e3, q3) = and_then-some r3 _ pt (sym (ap (λ r. r.0) q4) ∙ e) in
    let r2 = descend pd (pdi vaddr) flags r3.1 in
    let e2 : r2.0 ≡ some pt = sym (ap (λ r. r.0) (q4 ∙ q3)) ∙ e in
    let d4 =
      descend-Descended level s v cr3 (pml4i vaddr) 2 flags (omega arith) top small odd (λ z. user)
        pdpt e4 in
    let d3 =
      descend-Descended d4.level' r4.1 d4.tree pdpt (pdpti vaddr) 1 flags (omega arith) d4.below
        small odd (λ z. absurd (omega (arith, z))) pd e3 in
    let d2 =
      descend-Descended d3.level' r3.1 d3.tree pd (pdi vaddr) 0 flags (omega arith) d3.below small
        odd (λ z. absurd (omega (arith, z))) pt e2 in
    subst P (sym (ap (λ r. r.1) (q4 ∙ q3)))
      (d2.level', d2.tree, path_down level s v cr3 vaddr pdpt pd pt r4.1 r3.1 r2.1 top d4 d3 d2)
