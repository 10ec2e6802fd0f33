-- ===== src/Noc/Registry/Names.antt =====
-- Registering and looking up: names are compared with case in one and without in the other.
use no_os.Base.{
  ℕ, ◌≤◌, ◌<◌, max, ◌≡◌, refl, sym, ap, ◌∙◌, ◌↔◌, inl, inr, true, false, Option, none, some, List,
  [], ◌∷◌, ◌++◌, map, arith, leb, if◌then◌else◌, leb→le, Bool-cases, length, All, length-append,
  if-cases, subst, Bool-clash,
}
use no_os.Noc.Registry.{
  Fn, noc_max_funcs, to_lower, noc_name_eq, same_text, noc_lookup, replace_fn, noc_register_user_fn,
}

noc_name_eq_refl : (a : List ℕ) → noc_name_eq a a ≡ true
unfolding noc_name_eq
noc_name_eq_refl [] = refl
noc_name_eq_refl (x ∷ a) = ground (arith, noc_name_eq_refl a)

-- Without case, names are equal exactly if their lower-case forms are.
pub noc_name_eq_iff : (a b : List ℕ) → (noc_name_eq a b ≡ true) ↔ (map to_lower a ≡ map to_lower b)
unfolding noc_name_eq
noc_name_eq_iff [] [] = ((λ e. refl), λ e. refl)
noc_name_eq_iff [] (y ∷ b) = ((λ e. cc), λ e. cc)
noc_name_eq_iff (x ∷ a) [] = ((λ e. cc), λ e. cc)
noc_name_eq_iff (x ∷ a) (y ∷ b) =
    let ih = noc_name_eq_iff a b in ((λ e. ground (arith, ih.0)), λ e. ground (arith, ih.1))

pub same_text_iff : (a b : List ℕ) → (same_text a b ≡ true) ↔ (a ≡ b)
unfolding same_text
same_text_iff [] [] = ((λ e. refl), λ e. refl)
same_text_iff [] (y ∷ b) = ((λ e. cc), λ e. cc)
same_text_iff (x ∷ a) [] = ((λ e. cc), λ e. cc)
same_text_iff (x ∷ a) (y ∷ b) =
    let ih = same_text_iff a b in ((λ e. ground (arith, ih.0)), λ e. ground (arith, ih.1))

-- The names of `g` and `f` differ at most in case, and then not at all.
abbrev pub NoTwin : Fn → Fn → Type 0
NoTwin f g = noc_name_eq g.name f.name ≡ true → same_text g.name f.name ≡ true

noc_name_eq_trans : (a b c : List ℕ) → noc_name_eq a b ≡ true → noc_name_eq b c ≡ noc_name_eq a c
noc_name_eq_trans a b c h =
    let ab = (noc_name_eq_iff a b).0 h in
    let bc = noc_name_eq_iff b c in
    let ac = noc_name_eq_iff a c in
    elim (Bool-cases (noc_name_eq b c)) [
      | inl y ↦ y ∙ sym (ac.1 (ab ∙ bc.0 y))
      | inr n ↦ elim (Bool-cases (noc_name_eq a c)) [
        | inl y' ↦ bc.1 (sym ab ∙ ac.0 y') ∙ sym y'
        | inr n' ↦ n ∙ sym n'
      ]
    ]

same_text-noc_name_eq : (a b : List ℕ) → same_text a b ≡ true → noc_name_eq a b ≡ true
same_text-noc_name_eq a b h = (noc_name_eq_iff a b).1 (ap (map to_lower) ((same_text_iff a b).0 h))

-- Lookup in the list with `f` in its place, for each name.
abbrev Replaced : Fn → List Fn → Option (List Fn) → Type 0
Replaced f funcs none = All (λ (g : Fn). same_text g.name f.name ≡ false) funcs
Replaced f funcs (some funcs') =
    (length funcs' ≡ length funcs)
    × (¬ All (λ (g : Fn). same_text g.name f.name ≡ false) funcs)
    × ((name : List ℕ)
        → noc_lookup name funcs'
          ≡ (if noc_name_eq f.name name then some f else noc_lookup name funcs))

-- A function that is not `f` by its text does not answer to a name that `f` answers to.
distinct :
    (f g : Fn) (name : List ℕ)
    → NoTwin f g
    → same_text g.name f.name ≡ false
    → noc_name_eq g.name name ≡ true
    → noc_name_eq f.name name ≡ false
distinct f g name h other hit =
    let fact = noc_name_eq_trans f.name name g.name in
    elim (Bool-cases (noc_name_eq f.name name)) [
      | inr no_hit ↦ no_hit
      | inl hit' ↦
          let ng = (noc_name_eq_iff g.name name).0 hit in
          let nf = (noc_name_eq_iff f.name name).0 hit' in
          let same = h ((noc_name_eq_iff g.name f.name).1 (ng ∙ sym nf)) in
          absurd (Bool-clash _ same other)
    ]

lookup-other :
    (f g : Fn) (funcs funcs' : List Fn) (name : List ℕ)
    → NoTwin f g
    → same_text g.name f.name ≡ false
    → noc_lookup name funcs' ≡ (if noc_name_eq f.name name then some f else noc_lookup name funcs)
    → noc_lookup name (g ∷ funcs')
      ≡ (if noc_name_eq f.name name then some f else noc_lookup name (g ∷ funcs))
unfolding noc_lookup
lookup-other f g funcs funcs' name h other e = let d = distinct f g name h other in ground arith

lookup-append :
    (f : Fn) (funcs : List Fn) (name : List ℕ)
    → All (NoTwin f) funcs
    → All (λ (g : Fn). same_text g.name f.name ≡ false) funcs
    → noc_lookup name (funcs ++ f ∷ [])
      ≡ (if noc_name_eq f.name name then some f else noc_lookup name funcs)
lookup-append f [] name h others = unfold noc_lookup in refl
lookup-append f (g ∷ funcs) name h others =
    lookup-other f g funcs (funcs ++ f ∷ []) name h.0 others.0
      (lookup-append f funcs name h.1 others.1)

cons-Replaced :
    (f g : Fn) (funcs : List Fn) (o : Option (List Fn))
    → NoTwin f g
    → same_text g.name f.name ≡ false
    → Replaced f funcs o
    → Replaced f (g ∷ funcs) (elim o [ none ↦ none | some funcs' ↦ some (g ∷ funcs') ])
cons-Replaced f g funcs none h other r = (other, r)
cons-Replaced f g funcs (some funcs') h other r = (
  omega (arith, r.0),
  λ absent. r.1 absent.1,
  λ name. lookup-other f g funcs funcs' name h other (r.2 name),
)

replace_fn-Replaced :
    (f : Fn) (funcs : List Fn) → All (NoTwin f) funcs → Replaced f funcs (replace_fn f funcs)
unfolding replace_fn noc_lookup
replace_fn-Replaced f [] h = tt
replace_fn-Replaced f (g ∷ funcs) h =
    if-cases (Replaced f (g ∷ funcs)) (same_text g.name f.name) _ _
      (λ same. (
        refl,
        λ absent. Bool-clash _ same absent.0,
        λ name.
            let e =
              noc_name_eq_trans g.name f.name name (same_text-noc_name_eq g.name f.name same) in
            ground arith,
      ))
      (λ other.
        cons-Replaced f g funcs (replace_fn f funcs) h.0 other (replace_fn-Replaced f funcs h.1))

-- How a registration ends.
abbrev pub Registered : Fn → List Fn → Option (List Fn) → Type 0
Registered f funcs none =
    (noc_max_funcs ≤ length funcs) × All (λ (g : Fn). same_text g.name f.name ≡ false) funcs
Registered f funcs (some funcs') =
    (¬ ((noc_max_funcs ≤ length funcs) × All (λ (g : Fn). same_text g.name f.name ≡ false) funcs))
    × (length funcs' ≤ max noc_max_funcs (length funcs))
    × ((name : List ℕ)
        → noc_lookup name funcs'
          ≡ (if noc_name_eq f.name name then some f else noc_lookup name funcs))

-- Where no registered name differs from that of `f` in case alone, a registration is refused exactly when
-- the registry is full and has no function of that name, and else every name that `f` answers to finds
-- `f`, and every other name finds what it found before; the registry does not grow beyond its 128 places.
pub noc_register_user_fn-Registered :
    (f : Fn) (funcs : List Fn)
    → All (NoTwin f) funcs
    → Registered f funcs (noc_register_user_fn f funcs)
unfolding noc_register_user_fn
noc_register_user_fn-Registered f funcs h = go (replace_fn f funcs) (replace_fn-Replaced f funcs h)
  where
    go :
        (o : Option (List Fn))
        → Replaced f funcs o
        → Registered f funcs (elim o [
          | some funcs' ↦ some funcs'
          | none ↦ if leb noc_max_funcs (length funcs) then none else some (funcs ++ f ∷ [])
        ])
    go (some funcs') r = ((λ full. r.1 full.1), omega (arith, r.0), r.2)
    go none r =
        if-cases (Registered f funcs) (leb noc_max_funcs (length funcs)) _ _
          (λ full. (leb→le _ _ full, r))
          (λ room.
            let l = length-append funcs (f ∷ []) in
            let space : length funcs < noc_max_funcs = ground (arith, room) in
            (
              (λ full. absurd (omega (arith, full.0, space))),
              omega (arith, l, space),
              λ name. lookup-append f funcs name h r,
            ))

-- The name of `f` finds `g` afterwards.
abbrev pub Finds : Fn → Fn → Option (List Fn) → Type 0
Finds f g none = Unit
Finds f g (some funcs') = noc_lookup f.name funcs' ≡ some g

module _ (f g : Fn) (other : same_text g.name f.name ≡ false) where
  cons-Finds :
      (h : Fn) (funcs : List Fn) (o : Option (List Fn))
      → noc_lookup f.name (h ∷ funcs) ≡ some g
      → (noc_lookup f.name funcs ≡ some g → Finds f g o)
      → Finds f g (elim o [ none ↦ none | some funcs' ↦ some (h ∷ funcs') ])
  unfolding noc_lookup
  cons-Finds h funcs none e k = tt
  cons-Finds h funcs (some funcs') e k = ground arith

  replace_fn-Finds :
      (funcs : List Fn) → noc_lookup f.name funcs ≡ some g → Finds f g (replace_fn f funcs)
  unfolding replace_fn
  replace_fn-Finds [] e = tt
  replace_fn-Finds (h ∷ funcs) e =
      if-cases (Finds f g) (same_text h.name f.name) _ _
        (λ same.
          let hit = same_text-noc_name_eq h.name f.name same in
          let first : noc_lookup f.name (h ∷ funcs) ≡ some h = unfold noc_lookup in ground arith in
          let eq : h ≡ g = cc in
          absurd (Bool-clash _ (subst (λ (k : Fn). same_text k.name f.name ≡ true) eq same) other))
        (λ differs. cons-Finds h funcs (replace_fn f funcs) e (replace_fn-Finds funcs))

  append-Finds :
      (funcs : List Fn)
      → noc_lookup f.name funcs ≡ some g
      → noc_lookup f.name (funcs ++ f ∷ []) ≡ some g
  unfolding noc_lookup
  append-Finds [] e = cc
  append-Finds (h ∷ funcs) e = let ih = append-Finds funcs in ground arith

  -- Where the name of `f` finds a function `g` whose name differs from it (in case, since it is found), a
  -- registration of `f` that succeeds does not make `f` found: its name still finds `g`.
  pub noc_register_user_fn-Finds :
      (funcs : List Fn)
      → noc_lookup f.name funcs ≡ some g
      → Finds f g (noc_register_user_fn f funcs)
  unfolding noc_register_user_fn
  noc_register_user_fn-Finds funcs e = go (replace_fn f funcs) (replace_fn-Finds funcs e)
    where
      go :
          (o : Option (List Fn))
          → Finds f g o
          → Finds f g (elim o [
            | some funcs' ↦ some funcs'
            | none ↦ if leb noc_max_funcs (length funcs) then none else some (funcs ++ f ∷ [])
          ])
      go (some funcs') r = r
      go none r =
          if-cases (Finds f g) (leb noc_max_funcs (length funcs)) _ _ (λ full. tt)
            (λ room. append-Finds funcs e)
