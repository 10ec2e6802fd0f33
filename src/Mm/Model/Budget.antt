-- ===== src/Mm/Model/Budget.antt =====
-- What a demand fault and an eviction of kernel/mm/model.c do to the pages of a task and to its budget.
use no_os.Base.{
  ℕ, zero, suc, ◌+◌, ◌-◌, ◌/◌, ◌%◌, ◌^◌, ◌≤◌, ◌<◌, ◌≡◌, refl, sym, ap, ◌∙◌, inl, inr, Bool, true,
  false, not, ◌&&◌, ◌||◌, none, some, List, [], ◌∷◌, arith, ltb, leb, ◌==◌, if◌then◌else◌,
  Option-cases, length, get_or, set, replicate, length-set, length-replicate, get_or-set_self,
  dec_lt, add32, sub32, if-cases, Bool-clash, elim-some, elim-none,
}
use native.Mathlib.Nat.{add-div_right, div-eq_of_lt, zero-div}
use no_os.Mm.Pmm.{pmm_alloc_frame}
use no_os.Mm.Vmm.{Paging}
use no_os.Mm.Vmm.Tables.{some_value, none_value}
use no_os.Mm.Model.{
  Client, Window, bitmap_words, model_in_range, model_ensure_task, is_allocated, word_bit, word_set,
  word_clear, model_page_resident, model_page_set, set_frame, charged, model_fault_in_page,
  bring_in, model_demand_fault, drop_page, model_evict_page, user_model_base, model_pg,
}

pow_pos : (k : ℕ) → 0 < 2 ^ k
pow_pos zero = omega arith
pow_pos (suc k) = let ih = pow_pos k in omega (arith, ih)

bit-word_set : (w k : ℕ) → word_bit (word_set w k) k ≡ true
unfolding word_bit word_set
bit-word_set w k =
    let pos : 0 < 2 ^ k = pow_pos k in
    if-cases (λ v. word_bit v k ≡ true) (word_bit w k) w (w + 2 ^ k) (λ h. h)
      (λ h.
        let q : (w + 2 ^ k) / 2 ^ k ≡ w / 2 ^ k + 1 = add-div_right w pos in
        let odd : (w / 2 ^ k + 1) % 2 ≡ 1 = ground (arith, h) in rw q (ground (arith, odd)))

bit-word_clear : (w k : ℕ) → word_bit (word_clear w k) k ≡ false
unfolding word_bit word_clear
bit-word_clear w k =
    let pos : 0 < 2 ^ k = pow_pos k in
    if-cases (λ v. word_bit v k ≡ false) (word_bit w k) (w - 2 ^ k) w
      (λ h. elim (dec_lt w (2 ^ k)) [
        | yes lt ↦ let z : w / 2 ^ k ≡ 0 = div-eq_of_lt lt in absurd (ground (arith, z, h))
        | no le ↦
            let v = w - 2 ^ k in
            let back : v + 2 ^ k ≡ w = omega (arith, le) in
            let q : w / 2 ^ k ≡ v / 2 ^ k + 1 =
              ap (λ x. x / 2 ^ k) (sym back) ∙ add-div_right v pos in
            let even : v / 2 ^ k % 2 ≡ 0 = ground (arith, q, h) in ground (arith, even)
      ])
      (λ h. h)

-- A task within its budget, whose bits are as many as its pages need.
pub record IsBudgeted (t : Client) : Type 0 where
  pub within : t.model_weights_kb ≤ t.model_budget_kb
  pub small : t.model_budget_kb < 2 ^ 32
  pub sized :
      (words : List ℕ) → t.model_map ≡ some words → length words ≡ bitmap_words t.model_frames_n

-- The bit of a page is as it was set, where there is room for it.
resident-set :
    (t : Client) (pg : ℕ) (b : Bool) (words : List ℕ)
    → t.model_map ≡ some words
    → pg / 32 < length words
    → model_page_resident (model_page_set pg b t) pg ≡ b
unfolding model_page_resident model_page_set
resident-set t pg b words e hl =
    let w = get_or words (pg / 32) 0 in
    let bit : ℕ = if b then word_set w (pg % 32) else word_clear w (pg % 32) in
    let m : (model_page_set pg b t).model_map ≡ some (set words (pg / 32) bit) =
      elim-some (λ o. o ≡ some (set words (pg / 32) bit)) t.model_map none _ words e refl in
    elim-some (λ r. r ≡ b) (model_page_set pg b t).model_map false
      (λ ws. word_bit (get_or ws (pg / 32) 0) (pg % 32)) (set words (pg / 32) bit) m
      (ap (λ v. word_bit v (pg % 32)) (get_or-set_self words (pg / 32) bit 0 hl)
        ∙ if-cases (λ v. word_bit v (pg % 32) ≡ b) b (word_set w (pg % 32)) (word_clear w (pg % 32))
            (λ h. bit-word_set w (pg % 32) ∙ sym h) (λ h. bit-word_clear w (pg % 32) ∙ sym h))

-- The bits stay as many.
length-page_set :
    (t : Client) (pg : ℕ) (b : Bool)
    → IsBudgeted t
    → (words : List ℕ) → (model_page_set pg b t).model_map ≡ some words
    → length words ≡ bitmap_words t.model_frames_n
unfolding model_page_set
length-page_set t pg b v words e =
    let change : List ℕ → List ℕ = λ ws.
      let w = get_or ws (pg / 32) 0 in
      set ws (pg / 32) (if b then word_set w (pg % 32) else word_clear w (pg % 32)) in
    elim (Option-cases t.model_map) [
      | inl missing ↦
          let gone : (model_page_set pg b t).model_map ≡ none =
            elim-none (λ o. o ≡ none) t.model_map none (λ ws. some (change ws)) missing refl in
          absurd (none_value (sym gone ∙ e))
      | inr (ws, yes_some) ↦
          let here : (model_page_set pg b t).model_map ≡ some (change ws) =
            elim-some (λ o. o ≡ some (change ws)) t.model_map none (λ us. some (change us)) ws
              yes_some refl in
          let q : change ws ≡ words = some_value (sym here ∙ e) in
          ap length (sym q) ∙ length-set ws (pg / 32) _ ∙ v.sized ws yes_some
    ]

-- What bringing in a page leaves.
pub record Served (pg : ℕ) (r : Bool × Window) : Type 0 where
  pub budgeted : IsBudgeted r.1.task
  pub resident : r.0 ≡ true → model_page_resident r.1.task pg ≡ true

-- A task with both arrays for `pages` pages.
record IsReady (pages : ℕ) (t : Client) : Type 0 where
  words : List ℕ
  bits : t.model_map ≡ some words
  enough : pages ≤ t.model_frames_n

charged-Served :
    (t : Client) (pg frame faults : ℕ) (p : Paging) (win pages : ℕ)
    → IsBudgeted t
    → IsReady pages t
    → pg < pages
    → t.model_weights_kb + 4 ≤ t.model_budget_kb
    → Served pg (
      true,
      record {
        task = record (charged pg frame t) {
          model_faults = add32 (charged pg frame t).model_faults faults;
        };
        paging = p;
        win_pages = win;
      },
    )
unfolding charged set_frame model_page_resident model_page_set
charged-Served t pg frame faults p win pages v ready hp room =
    let len = v.sized ready.words ready.bits in
    let here : pg / 32 < length ready.words = omega (arith, len, hp, ready.enough) in
    let u = set_frame pg frame t in
    record {
      budgeted = record {
        within = omega (arith, room, v.small);
        small = v.small;
        sized =
            length-page_set u pg true
              (record { within = v.within; small = v.small; sized = v.sized });
      };
      resident = λ done. resident-set u pg true ready.words ready.bits here;
    }

-- A page comes in where the budget has room for it.
bring_in-Served :
    (faults weights pg pages : ℕ) (s : Window)
    → IsBudgeted s.task
    → IsReady pages s.task
    → pg < pages
    → Served pg (bring_in faults weights pg s)
unfolding bring_in model_fault_in_page
bring_in-Served faults weights pg pages s v ready hp =
    let P = Served pg in
    let frame = (pmm_alloc_frame s.paging.pmm).0 in
    if-cases P (model_page_resident s.task pg) _ _
      (λ h. record { budgeted = v; resident = λ done. h })
      (λ h.
        if-cases P (ltb s.task.model_budget_kb (s.task.model_weights_kb + 4)) _ _
          (λ full. record { budgeted = v; resident = λ done. cc })
          (λ room.
            let Q = λ (r : Bool × Window). P (
              if r.0
              then (
                true,
                record r.1 {
                  task = record r.1.task { model_faults = add32 r.1.task.model_faults faults };
                },
              )
              else (false, r.1)) in
            if-cases Q (frame == 0) _ _ (λ e. record { budgeted = v; resident = λ done. cc })
              (λ e.
                charged-Served s.task pg frame faults _ s.win_pages pages v ready hp
                  (ground (arith, room)))))

-- The arrays that a task is given cover the window.
ensure-IsReady :
    (room : Bool) (pages : ℕ) (t : Client)
    → IsBudgeted t
    → IsBudgeted (model_ensure_task room pages t).1
      × ((model_ensure_task room pages t).0 ≡ true
          → IsReady pages (model_ensure_task room pages t).1)
unfolding model_ensure_task is_allocated
ensure-IsReady room pages t v =
    let P = λ (r : Bool × Client). IsBudgeted r.1 × (r.0 ≡ true → IsReady pages r.1) in
    if-cases P
      (leb pages t.model_frames_n && is_allocated t.model_frames && is_allocated t.model_map) _ _
      (λ h. (
        v,
        λ done. elim (Option-cases t.model_map) [
          | inl e ↦
              let there : is_allocated t.model_map ≡ true = ground (arith, h) in
              absurd (Bool-clash _ there (ap is_allocated e))
          | inr (words, e) ↦ record { words = words; bits = e; enough = ground (arith, h) }
        ],
      ))
      (λ h.
        if-cases P room _ _
          (λ r. (
            record {
              within = v.within;
              small = v.small;
              sized = λ words e.
                  ap length (sym (some_value e)) ∙ length-replicate (bitmap_words pages) 0;
            },
            λ done. record {
              words = replicate (bitmap_words pages) 0;
              bits = refl;
              enough = omega arith;
            },
          ))
          (λ r. (v, λ done. cc)))

-- A demand fault keeps a task within its budget; where the task may go on, the page that it touched is resident.
pub model_demand_fault-Served :
    (room : Bool) (weights cr2 err : ℕ) (s : Window)
    → IsBudgeted s.task
    → Served ((cr2 - user_model_base) / model_pg) (model_demand_fault room weights cr2 err s)
unfolding model_demand_fault
model_demand_fault-Served room weights cr2 err s v =
    let pg = (cr2 - user_model_base) / model_pg in
    let P = Served pg in
    let refused : P (false, s) = record { budgeted = v; resident = λ done. cc } in
    let (kept, ready) = ensure-IsReady room s.win_pages s.task v in
    if-cases P (not (model_in_range s.win_pages cr2) || err % 2 == 1 || leb s.win_pages pg) _ _
      (λ h. refused)
      (λ h.
        if-cases P (model_ensure_task room s.win_pages s.task).0 _ _
          (λ r.
            bring_in-Served 1 weights pg s.win_pages
              (record s { task = (model_ensure_task room s.win_pages s.task).1 }) kept (ready r)
              (ground (arith, h)))
          (λ r. refused))

get_or_outside : (words : List ℕ) (i : ℕ) → length words ≤ i → get_or words i 0 ≡ 0
get_or_outside [] i h = refl
get_or_outside (w ∷ words) zero h = absurd (omega (arith, h))
get_or_outside (w ∷ words) (suc i) h = get_or_outside words i (omega (arith, h))

-- A page that is resident has a bit.
resident_bit :
    (t : Client) (pg : ℕ)
    → model_page_resident t pg ≡ true
    → (words : List ℕ) × (t.model_map ≡ some words) × (pg / 32 < length words)
unfolding model_page_resident word_bit
resident_bit t pg h =
    let test = λ (words : List ℕ). word_bit (get_or words (pg / 32) 0) (pg % 32) in
    elim (Option-cases t.model_map) [
      | inl e ↦ absurd (
          Bool-clash (model_page_resident t pg) h
            (elim-none (λ r. r ≡ false) t.model_map false test e refl))
      | inr (words, e) ↦ elim (dec_lt (pg / 32) (length words)) [
        | yes lt ↦ (words, e, lt)
        | no le ↦
            let outside = get_or_outside words (pg / 32) (omega (arith, le)) in
            let dark : test words ≡ false =
              ap (λ w. word_bit w (pg % 32)) outside
              ∙ ap (λ q. q % 2 == 1) (zero-div (2 ^ (pg % 32))) in
            absurd (
              Bool-clash (model_page_resident t pg) h
                (elim-some (λ r. r ≡ false) t.model_map false test words e dark))
      ]
    ]

-- An eviction that succeeds leaves the page not resident, and the task within its budget with four kilobytes less
-- that are counted, where at least these were counted.
pub model_evict_page_lem :
    (pg : ℕ) (s : Window)
    → IsBudgeted s.task
    → 4 ≤ s.task.model_weights_kb
    → (model_evict_page pg s).0 ≡ true
    → IsBudgeted (model_evict_page pg s).1.task
      × (model_page_resident (model_evict_page pg s).1.task pg ≡ false)
      × ((model_evict_page pg s).1.task.model_weights_kb + 4 ≡ s.task.model_weights_kb)
unfolding model_evict_page drop_page set_frame model_page_set model_page_resident
model_evict_page_lem pg s v four =
    let P = λ (r : Bool × Window).
      r.0 ≡ true
      → IsBudgeted r.1.task
        × (model_page_resident r.1.task pg ≡ false)
        × (r.1.task.model_weights_kb + 4 ≡ s.task.model_weights_kb) in
    if-cases P (leb s.win_pages pg || not (model_page_resident s.task pg)) _ _ (λ h done. cc)
      (λ h done.
        let was : model_page_resident s.task pg ≡ true = ground (arith, h) in
        let (words, e, lt) = resident_bit s.task pg was in
        let u = set_frame pg 0 s.task in
        let kb : sub32 s.task.model_weights_kb 4 + 4 ≡ s.task.model_weights_kb =
          omega (arith, four, v.within, v.small) in
        (
          record {
            within = omega (arith, kb, v.within);
            small = v.small;
            sized =
                length-page_set u pg false
                  (record { within = v.within; small = v.small; sized = v.sized });
          },
          resident-set u pg false words e lt,
          kb,
        ))
