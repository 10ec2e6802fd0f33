-- ===== src/Mm/Model/Tests.antt =====
-- Runs of model.c: a window of two pages on a machine of twelve frames.
use no_os.Base.{◌+◌, ◌-◌, ◌*◌, ◌/◌, ◌≡◌, refl, sym, ap, true, false, some, [], ◌∷◌, arith, length}
use no_os.Mm.Bitmap.{bitmap_test, first_clear}
use no_os.Mm.Pmm.{pmm_alloc_frame}
use no_os.Mm.Model.{
  Window, model_demand_fault, model_evict_page, model_page_resident, word_bit, is_allocated,
  model_ensure_task, bring_in, model_fault_in_page, model_in_range, user_model_base, model_pg,
}
use no_os.Mm.Model.Budget.{IsBudgeted, Served, model_demand_fault-Served, model_evict_page_lem}

-- The top table is in frame 4; page 1 of the window is in frame 3.
abbrev one_page : Window
one_page = record {
  task = record {
    cr3 = 4 * 4096;
    model_budget_kb = 8;
    model_weights_kb = 4;
    model_faults = 1;
    model_frames_n = 2;
    model_frames = some (0 ∷ 3 * 4096 ∷ []);
    model_map = some (2 ∷ []);
  };
  paging = record {
    mem = λ a. 0;
    pmm = record { bitmap = 0b11011 ∷ 0 ∷ []; total_frames = 12; free_frames = 8 };
  };
  win_pages = 2;
}

one_page-IsBudgeted : IsBudgeted one_page.task
one_page-IsBudgeted = record {
  within = omega arith;
  small = omega arith;
  sized = λ words e. let q : 2 ∷ [] ≡ words = cc in ap length (sym q);
}

-- A touch of page 0 brings it in.
fault_served : (model_demand_fault true 0x8000 (user_model_base + 5) 4 one_page).0 ≡ true
unfolding model_demand_fault model_in_range model_ensure_task is_allocated bring_in
    model_fault_in_page model_page_resident word_bit pmm_alloc_frame first_clear bitmap_test
fault_served = refl

model_demand_fault-Served_example :
    Served
      ((user_model_base + 5 - user_model_base) / model_pg)
      (model_demand_fault true 0x8000 (user_model_base + 5) 4 one_page)
model_demand_fault-Served_example =
    model_demand_fault-Served true 0x8000 (user_model_base + 5) 4 one_page one_page-IsBudgeted

evicted : (model_evict_page 1 one_page).0 ≡ true
unfolding model_evict_page model_page_resident word_bit
evicted = refl

model_evict_page_lem_example :
    IsBudgeted (model_evict_page 1 one_page).1.task
    × (model_page_resident (model_evict_page 1 one_page).1.task 1 ≡ false)
    × ((model_evict_page 1 one_page).1.task.model_weights_kb + 4 ≡ one_page.task.model_weights_kb)
model_evict_page_lem_example =
    model_evict_page_lem 1 one_page one_page-IsBudgeted (omega arith) evicted
