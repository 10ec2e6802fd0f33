-- ===== src/Mm/Vmm/Spaces.antt =====
-- The address spaces that kernel/mm/vmm.c makes.
use no_os.Base.{
  ℕ, ◌+◌, ◌*◌, ◌/◌, ◌≤◌, ◌<◌, ◌≡◌, refl, sym, ap, ◌∙◌, ◌≢◌, inl, inr, true, ◌&&◌, arith, ltb, leb,
  ◌==◌, if◌then◌else◌, if-cases, Bool-clash, if-true, if-false, ==_false, ==_self,
}
use no_os.Mm.Pmm.{Pmm, pmm_alloc_frame}
use no_os.Mm.Pmm
use no_os.Mm.Pmm.Alloc.{Took, pmm_alloc_frame-Allocated}
use no_os.Mm.Vmm.{clear_frame, vmm_new_address_space, Paging, write_word, entry_at, is_present}
use no_os.Mm.Vmm.Tables.{IsTree}

only_top : ℕ → ℕ → ℕ
only_top f x = if x == f then 4 else 0

new_top :
    (boot : ℕ) (s : Paging) (f n : ℕ) (pmm : Pmm)
    → f ≡ n * 4096
    → Took n s.pmm pmm
    → (level : ℕ → ℕ) × (level f ≡ 4)
      × IsTree level (write_word f boot (clear_frame f (record s { pmm = pmm })))
unfolding write_word clear_frame only_top
new_top boot s f n pmm e took =
    let is_top : (t : ℕ) → 0 < only_top f t → t ≡ f = λ t pos. ground (arith, pos) in
    (
      only_top f,
      if-true (λ l. l ≡ 4) (f == f) 4 0 (==_self f) refl,
      record {
        frames = took.valid;
        aligned = λ t pos. let q = is_top t pos in omega (arith, q, e);
        used = λ t pos.
            let q = is_top t pos in
            let here : n ≡ t / 4096 = omega (arith, q, e) in
            took.bit (t / 4096)
            ∙ if-true (λ r. r ≡ true) (n == t / 4096) true _ (ground (arith, here)) refl;
        child = λ t i k hi lv user pres.
            let q = is_top t (omega (arith, lv)) in
            let four : only_top f t ≡ 4 =
              if-true (λ l. l ≡ 4) (t == f) 4 0 (ground (arith, q)) refl in
            let nz : i ≢ 0 = user (sym lv ∙ four) in
            let blank : (write_word f boot (clear_frame f (record s { pmm = pmm }))).mem
                  (entry_at t i)
                ≡ 0 =
              let ne : entry_at t i ≢ f = λ z. nz (omega (arith, q, z)) in
              let lo : f ≤ entry_at t i = omega (arith, q) in
              let hi' : entry_at t i < f + 4096 = omega (arith, q, hi) in
              if-false (λ w. w ≡ 0) (entry_at t i == f) _ _ (==_false _ _ ne)
                (if-true (λ w. w ≡ 0) (leb f (entry_at t i) && ltb (entry_at t i) (f + 4096)) _ _
                  (ground (arith, lo, hi')) refl) in
            absurd (Bool-clash (is_present 0) (ap is_present (sym blank) ∙ pres) refl);
      },
    )

pub vmm_new_address_space-IsTree :
    (boot : ℕ) (s : Paging)
    → Pmm.IsValid s.pmm
    → let r = vmm_new_address_space boot s in
      (r.0 ≢ 0) → (level : ℕ → ℕ) × (level r.0 ≡ 4) × IsTree level r.1
unfolding vmm_new_address_space
vmm_new_address_space-IsTree boot s valid =
    let P = λ (r : ℕ × Paging). r.0 ≢ 0 → (level : ℕ → ℕ) × (level r.0 ≡ 4) × IsTree level r.1 in
    elim (pmm_alloc_frame-Allocated s.pmm valid) [
      | inl full ↦
          if-cases P ((pmm_alloc_frame s.pmm).0 == 0) _ _ (λ h ne. absurd (ne refl))
            (λ h. absurd (Bool-clash _ (ap (λ r. r.0 == 0) full.1) h))
      | inr (n, e, took) ↦
          if-cases P ((pmm_alloc_frame s.pmm).0 == 0) _ _ (λ h ne. absurd (ne refl))
            (λ h ne. new_top boot s (pmm_alloc_frame s.pmm).0 n (pmm_alloc_frame s.pmm).1 e took)
    ]
