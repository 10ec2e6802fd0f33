-- ===== src/Mm/Vmm/Tables.antt =====
-- Page tables of kernel/mm/vmm.c as a tree, whose levels grow along a walk.
use no_os.Base.{
  ℕ, suc, ◌+◌, ◌*◌, ◌/◌, ◌%◌, ◌≤◌, ◌<◌, ◌≡◌, refl, sym, ap, ◌∙◌, ◌≢◌, inl, inr, true, false, ◌&&◌,
  Option, none, some, arith, ltb, leb, ◌==◌, if◌then◌else◌, Bool-cases, ℕ_discrete, if-cases, subst,
  Bool-clash, if-true, if-false, ==_false, ==_self,
}
use no_os.Mm.Bitmap.{bitmap_test}
use no_os.Mm.Pmm.{Pmm, pmm_alloc_frame}
use no_os.Mm.Pmm
use no_os.Mm.Pmm.Alloc.{Took, pmm_alloc_frame-Allocated}
use no_os.Mm.Vmm.{Paging, write_word, entry_at, page_of, is_present, clear_frame, pt_new, descend}

-- Tables have levels, from 4 at the top to 1, and 0 for what is no table: a table is a frame in use, and each present
-- entry of one above level 1 points to a table one level below. Entry 0 of a top table is left out: it is the
-- kernel's, whose tables the boot code has made with pages of 2 MiB, and no user address goes through it.
pub record IsTree (level : ℕ → ℕ) (s : Paging) : Type 0 where
  pub frames : Pmm.IsValid s.pmm
  pub aligned : (t : ℕ) → 0 < level t → page_of t ≡ t
  pub used : (t : ℕ) → 0 < level t → bitmap_test s.pmm.bitmap (t / 4096) ≡ true
  pub child :
      (t i k : ℕ)
      → i < 512
      → level t ≡ suc (suc k)
      → (suc (suc k) ≡ 4 → i ≢ 0)
      → is_present (s.mem (entry_at t i)) ≡ true
      → level (page_of (s.mem (entry_at t i))) ≡ suc k

-- What a step down from the entry `i` of `t` leaves: the tree with the table that it has found or made.
pub record Descended (level : ℕ → ℕ) (s : Paging) (t i k : ℕ) (table : ℕ) (u : Paging)
    : Type 0 where
  pub level' : ℕ → ℕ
  pub tree : IsTree level' u
  pub keep : (x : ℕ) → 0 < level x → level' x ≡ level x
  pub here : is_present (u.mem (entry_at t i)) ≡ true
  pub points : page_of (u.mem (entry_at t i)) ≡ table
  pub below : level' table ≡ suc k
  pub rest :
      (x j : ℕ)
      → j < 512
      → 0 < level x
      → entry_at x j ≢ entry_at t i
      → u.mem (entry_at x j) ≡ s.mem (entry_at x j)

-- Entries of different tables are at different places.
pub tables_apart :
    (x y i j : ℕ)
    → page_of x ≡ x
    → page_of y ≡ y
    → x ≢ y
    → i < 512
    → j < 512
    → entry_at x i ≢ entry_at y j
tables_apart x y i j ax ay ne hi hj e = ne (omega (arith, ax, ay, e))

-- An entry of another table is outside a frame.
outside :
    (f x j : ℕ)
    → page_of f ≡ f
    → page_of x ≡ x
    → x ≢ f
    → j < 512
    → (leb f (entry_at x j) && ltb (entry_at x j) (f + 4096)) ≡ false
outside f x j af ax ne hj =
    elim (Bool-cases (leb f (entry_at x j) && ltb (entry_at x j) (f + 4096))) [
      | inr h ↦ h
      | inl h ↦
          let lo : f ≤ entry_at x j = ground (arith, h) in
          let hi : entry_at x j < f + 4096 = ground (arith, h) in
          absurd (ne (omega (arith, af, ax, lo, hi)))
    ]

inside : (f j : ℕ) → j < 512 → (leb f (entry_at f j) && ltb (entry_at f j) (f + 4096)) ≡ true
inside f j hj = ground arith

odd_present : (f flags : ℕ) → flags % 2 ≡ 1 → page_of f ≡ f → is_present (f + flags) ≡ true
odd_present f flags odd af =
    let r : (f + flags) % 2 ≡ 1 = omega (arith, odd, af) in ground (arith, r)

pub some_value {ℓ} : {A : Type ℓ} {x y : A} → some x ≡ some y → x ≡ y
some_value e = cc

pub none_value {ℓ} : {A : Type ℓ} {y : A} → none ≡ some y → ⊥
none_value e = cc

-- The step that makes a table in the fresh frame `f`.
module _ (level : ℕ → ℕ) (s : Paging) (v : IsTree level s) (t i k flags : ℕ) (hi : i < 512)
    (top : level t ≡ suc (suc k)) (small : flags < 4096) (odd : flags % 2 ≡ 1) (n : ℕ) (pmm : Pmm)
    (took : Took n s.pmm pmm) where
  abbrev f : ℕ
  f = n * 4096

  abbrev made : Paging
  made = write_word (entry_at t i) (f + flags) (clear_frame f (record s { pmm = pmm }))

  abbrev with_f : ℕ → ℕ
  with_f x = if x == f then suc k else level x

  fresh_lem : level f ≡ 0
  fresh_lem = elim (ℕ_discrete (level f) 0) [
    | yes e ↦ e
    | no ne ↦
        let here : f / 4096 ≡ n = omega arith in
        let pos : 0 < level f = ground (arith, ne) in
        absurd (
          Bool-clash (bitmap_test s.pmm.bitmap n)
            (ap (bitmap_test s.pmm.bitmap) (sym here) ∙ v.used f pos) took.was_free)
  ]

  not_f : (x : ℕ) → 0 < level x → x ≢ f
  not_f x pos e = let z = ap level e ∙ fresh_lem in absurd (omega (arith, pos, z))

  keep_lem : (x : ℕ) → 0 < level x → with_f x ≡ level x
  keep_lem x pos =
      if-false (λ l. l ≡ level x) (x == f) (suc k) (level x) (==_false x f (not_f x pos)) refl

  at_f : with_f f ≡ suc k
  at_f = if-true (λ l. l ≡ suc k) (f == f) (suc k) (level f) (==_self f) refl

  -- The words of the state that is made.
  mem_here : made.mem (entry_at t i) ≡ f + flags
  unfolding write_word
  mem_here =
      if-true (λ w. w ≡ f + flags) (entry_at t i == entry_at t i) _ _ (==_self (entry_at t i)) refl

  mem_else :
      (x j : ℕ)
      → j < 512
      → 0 < level x
      → entry_at x j ≢ entry_at t i
      → made.mem (entry_at x j) ≡ s.mem (entry_at x j)
  unfolding write_word clear_frame
  mem_else x j hj pos ne =
      if-false (λ w. w ≡ s.mem (entry_at x j)) (entry_at x j == entry_at t i) _ _
        (==_false (entry_at x j) (entry_at t i) ne)
        (if-false (λ w. w ≡ s.mem (entry_at x j))
          (leb f (entry_at x j) && ltb (entry_at x j) (f + 4096)) _ _
          (outside f x j (omega arith) (v.aligned x pos) (not_f x pos) hj) refl)

  t_pos : 0 < level t
  t_pos = omega (arith, top)

  mem_fresh : (j : ℕ) → j < 512 → made.mem (entry_at f j) ≡ 0
  unfolding write_word clear_frame
  mem_fresh j hj =
      let apart : entry_at f j ≢ entry_at t i =
        tables_apart f t j i (omega arith) (v.aligned t t_pos) (λ e. not_f t t_pos (sym e)) hj hi in
      if-false (λ w. w ≡ 0) (entry_at f j == entry_at t i) _ _
        (==_false (entry_at f j) (entry_at t i) apart)
        (if-true (λ w. w ≡ 0) (leb f (entry_at f j) && ltb (entry_at f j) (f + 4096)) _ _
          (inside f j hj) refl)

  child_lem :
      (x j kk : ℕ)
      → j < 512
      → with_f x ≡ suc (suc kk)
      → (suc (suc kk) ≡ 4 → j ≢ 0)
      → is_present (made.mem (entry_at x j)) ≡ true
      → with_f (page_of (made.mem (entry_at x j))) ≡ suc kk
  child_lem x j kk hj lv user pres = elim (ℕ_discrete x f) [
    | yes e ↦
        let zero_word : made.mem (entry_at x j) ≡ 0 =
          ap (λ y. made.mem (entry_at y j)) e ∙ mem_fresh j hj in
        absurd (Bool-clash (is_present 0) (ap is_present (sym zero_word) ∙ pres) refl)
    | no ne ↦
        let old : level x ≡ suc (suc kk) =
          sym (if-false (λ l. l ≡ level x) (x == f) (suc k) (level x) (==_false x f ne) refl)
          ∙ lv in
        let pos : 0 < level x = omega (arith, old) in
        elim (ℕ_discrete (entry_at x j) (entry_at t i)) [
          | yes same ↦
              let word : made.mem (entry_at x j) ≡ f + flags = ap made.mem same ∙ mem_here in
              let xt : x ≡ t = omega (arith, same, v.aligned x pos, v.aligned t t_pos, hj, hi) in
              let kk_k : k ≡ kk = let z = ap level xt in omega (arith, top, old, z) in
              let page : page_of (f + flags) ≡ f = omega (arith, small) in
              ap (λ w. with_f (page_of w)) word ∙ ap with_f page ∙ at_f ∙ ap suc kk_k
          | no other ↦
              let word = mem_else x j hj pos other in
              let below = v.child x j kk hj old user (ap is_present (sym word) ∙ pres) in
              let below_pos : 0 < level (page_of (s.mem (entry_at x j))) = omega (arith, below) in
              ap (λ w. with_f (page_of w)) word ∙ keep_lem _ below_pos ∙ below
        ]
  ]

  made-IsTree : IsTree with_f made
  unfolding write_word clear_frame
  made-IsTree = record {
    frames = took.valid;
    aligned = λ x pos. elim (ℕ_discrete x f) [
      | yes e ↦ rw e (omega arith)
      | no ne ↦ v.aligned x (
          subst (λ l. 0 < l)
            (if-false (λ l. l ≡ level x) (x == f) (suc k) (level x) (==_false x f ne) refl) pos)
    ];
    used = λ x pos. elim (ℕ_discrete x f) [
      | yes e ↦
          let here : n ≡ x / 4096 = omega (arith, e) in
          took.bit (x / 4096)
          ∙ if-true (λ r. r ≡ true) (n == x / 4096) true _ (ground (arith, here)) refl
      | no ne ↦
          took.bit (x / 4096)
          ∙ if-cases (λ r. r ≡ true) (n == x / 4096) true _ (λ h. refl)
              (λ h. v.used x (
                subst (λ l. 0 < l)
                  (if-false (λ l. l ≡ level x) (x == f) (suc k) (level x) (==_false x f ne) refl)
                  pos))
    ];
    child = child_lem;
  }

  made-Descended : Descended level s t i k (page_of (made.mem (entry_at t i))) made
  made-Descended =
      let page : page_of (f + flags) ≡ f = omega (arith, small) in
      record {
        level' = with_f;
        tree = made-IsTree;
        keep = keep_lem;
        here = ap is_present mem_here ∙ odd_present f flags odd (omega arith);
        points = refl;
        below = ap (λ w. with_f (page_of w)) mem_here ∙ ap with_f page ∙ at_f;
        rest = mem_else;
      }

module _ (level : ℕ → ℕ) (s : Paging) (v : IsTree level s) (t i k flags : ℕ) (hi : i < 512)
    (top : level t ≡ suc (suc k)) (small : flags < 4096) (odd : flags % 2 ≡ 1)
    (user : suc (suc k) ≡ 4 → i ≢ 0) where
  -- What is asked of a step that has found no table but has made one, or has failed.
  abbrev Made : ℕ × Paging → Type 0
  Made r = (r.0 ≢ 0) → Descended level s t i k (page_of (r.1.mem (entry_at t i))) r.1

  pt_new-Made : Made (pt_new t i flags s)
  unfolding pt_new
  pt_new-Made = elim (pmm_alloc_frame-Allocated s.pmm v.frames) [
    | inl full ↦
        if-cases Made ((pmm_alloc_frame s.pmm).0 == 0) _ _ (λ h ne. absurd (ne refl))
          (λ h. absurd (Bool-clash _ (ap (λ r. r.0 == 0) full.1) h))
    | inr some_frame ↦
        let n = some_frame.0 in
        let e : (pmm_alloc_frame s.pmm).0 ≡ n * 4096 = some_frame.1 in
        if-cases Made ((pmm_alloc_frame s.pmm).0 == 0) _ _ (λ h ne. absurd (ne refl))
          (λ h ne.
            subst
              (λ g.
                let u =
                  write_word (entry_at t i) (g + flags)
                    (clear_frame g (record s { pmm = (pmm_alloc_frame s.pmm).1 })) in
                Descended level s t i k (page_of (u.mem (entry_at t i))) u)
              (sym e)
              (made-Descended level s v t i k flags hi top small odd n (pmm_alloc_frame s.pmm).1
                some_frame.2))
  ]

  pub descend-Descended :
      (table : ℕ)
      → (descend t i flags s).0 ≡ some table
      → Descended level s t i k table (descend t i flags s).1
  unfolding descend
  descend-Descended table =
      let D = λ (r : Option ℕ × Paging). r.0 ≡ some table → Descended level s t i k table r.1 in
      let e = s.mem (entry_at t i) in
      let r = pt_new t i flags s in
      if-cases D (is_present e) _ _
        (λ h q.
          let same : page_of e ≡ table = some_value q in
          subst (λ y. Descended level s t i k y s) same
            (record {
              level' = level;
              tree = v;
              keep = λ x pos. refl;
              here = h;
              points = refl;
              below = v.child t i k hi top user h;
              rest = λ x j hj pos ne. refl;
            }))
        (λ h.
          if-cases D (r.0 == 0) _ _ (λ z q. absurd (none_value q))
            (λ z q.
              subst (λ y. Descended level s t i k y r.1) (some_value q)
                (pt_new-Made (λ y. Bool-clash _ (ap (λ x. x == 0) y) z))))
