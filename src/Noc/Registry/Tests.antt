-- ===== src/Noc/Registry/Tests.antt =====
-- Registrations of small functions.
use no_os.Base.{ℕ, refl, false, none, List, [], ◌∷◌}
use no_os.Noc.Registry.{Fn, noc_name_eq, same_text, to_lower, noc_register_user_fn}
use no_os.Noc.Registry.Names.{Registered, noc_register_user_fn-Registered}

abbrev named : List ℕ → Fn
named name = record {
  name = name;
  code = λ i. 30;
  code_len = 1;
  strings = [];
  nlocals = 0;
  builtin = none;
  last_expr = false;
}

abbrev print_fn : Fn
print_fn = named (b'P' ∷ b'r' ∷ [])

abbrev other_fn : Fn
other_fn = named (b'Q' ∷ [])

abbrev twin_fn : Fn
twin_fn = named (b'p' ∷ b'r' ∷ [])

noc_register_user_fn-Registered_example :
    Registered print_fn
      (other_fn ∷ print_fn ∷ [])
      (noc_register_user_fn print_fn (other_fn ∷ print_fn ∷ []))
noc_register_user_fn-Registered_example =
    noc_register_user_fn-Registered print_fn (other_fn ∷ print_fn ∷ [])
      (unfold noc_name_eq same_text to_lower in ((λ e. cc), ((λ e. refl), tt)))
