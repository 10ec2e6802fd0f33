-- ===== src/Noc/Registry.antt =====
-- kernel/noc/vm.c, lines 22 to 99: the global registry of functions. A text is the list of its bytes
-- without the terminator.
pub mod Names
mod Tests
use no_os.Base.{
  ℕ, ◌+◌, ◌-◌, Bool, true, false, ◌&&◌, Option, none, some, List, [], ◌∷◌, ◌++◌, leb, ◌==◌,
  if◌then◌else◌, length,
}

abbrev pub noc_max_funcs : ℕ
noc_max_funcs = 128

-- A string of the source and the address that it has in memory.
pub record Str : Type 0 where
  pub ptr : ℕ
  pub text : List ℕ

-- `noc_fn`. The code is the memory from its address on, of which `code_len` bytes are code. `builtin` is
-- the index of a builtin, or nothing for a function with code.
pub record Fn : Type 0 where
  pub name : List ℕ
  pub code : ℕ → ℕ
  pub code_len : ℕ
  pub strings : List Str
  pub nlocals : ℕ
  pub builtin : Option ℕ
  pub last_expr : Bool

unfoldable pub to_lower : ℕ → ℕ
to_lower c = if leb b'A' c && leb c b'Z' then c - b'A' + b'a' else c

unfoldable pub noc_name_eq : List ℕ → List ℕ → Bool
noc_name_eq [] [] = true
noc_name_eq [] (y ∷ b) = false
noc_name_eq (x ∷ a) [] = false
noc_name_eq (x ∷ a) (y ∷ b) = if to_lower x == to_lower y then noc_name_eq a b else false

-- `strcmp(a, b) == 0`
unfoldable pub same_text : List ℕ → List ℕ → Bool
same_text [] [] = true
same_text [] (y ∷ b) = false
same_text (x ∷ a) [] = false
same_text (x ∷ a) (y ∷ b) = if x == y then same_text a b else false

unfoldable pub noc_lookup : List ℕ → List Fn → Option Fn
noc_lookup name [] = none
noc_lookup name (f ∷ funcs) = if noc_name_eq f.name name then some f else noc_lookup name funcs

-- The loop of `noc_register_user_fn`: the function of the same name, replaced.
pub replace_fn : Fn → List Fn → Option (List Fn)
replace_fn f [] = none
replace_fn f (g ∷ funcs) =
    if same_text g.name f.name
    then some (f ∷ funcs)
    else elim (replace_fn f funcs) [ none ↦ none | some funcs' ↦ some (g ∷ funcs') ]

-- `none` when the registry is full.
pub noc_register_user_fn : Fn → List Fn → Option (List Fn)
unfolding replace_fn
noc_register_user_fn f funcs = elim (replace_fn f funcs) [
  | some funcs' ↦ some funcs'
  | none ↦ if leb noc_max_funcs (length funcs) then none else some (funcs ++ f ∷ [])
]
