-- ===== src/Mm/Swap/Slots.antt =====
-- The accounting of the swap slots: the bits against the entries of the tasks.
use no_os.Base.{
  ℕ, zero, suc, ◌+◌, ◌-◌, ◌*◌, ◌/◌, ◌^◌, ◌≤◌, ◌<◌, ◌≡◌, refl, ap, ◌∙◌, ◌⊎◌, true, false, List, [],
  ◌∷◌, ◌++◌, arith, ◌==◌, if◌then◌else◌, length, get_or, set, take, length-set, get_or-set_self,
  get_or-set_ne, dec_lt, ℕ_discrete, subst,
}
use no_os.Mm.Bitmap.{
  test-cleared, bytes-cleared, length-cleared, bitmap_set, bitmap_test, IsBitmap, set-IsBitmap,
  clear-IsBitmap, test-set, test-clear,
}
use no_os.Mm.Swap.{swap_init, swap_geometry, Ent, no_ent, Swap, slot_free, remove_at, free_slots}

-- How many entries name the slot `k`.
unfoldable pub uses : ℕ → List Ent → ℕ
uses k [] = 0
uses k (e ∷ ents) = (if e.slot == k then 1 else 0) + uses k ents

-- The entries of a task and those of the others, against the bits. No entry names a slot behind the last.
pub record Accounted (ents others : List Ent) (s : Swap) : Type 0 where
  pub bits : IsBitmap s.pages s.slots
  pub used :
      (k : ℕ) → k < s.pages → uses k ents + uses k others ≡ (if bitmap_test s.slots k then 1 else 0)
  pub above : (k : ℕ) → s.pages ≤ k → uses k ents + uses k others ≡ 0

pub uses-append :
    (k : ℕ) (ents : List Ent) (e : Ent)
    → uses k (ents ++ e ∷ []) ≡ (if e.slot == k then 1 else 0) + uses k ents
unfolding uses
uses-append k [] e = refl
uses-append k (d ∷ ents) e = let ih = uses-append k ents e in omega arith

-- The sum of the weights of the entries.
unfoldable pub weigh : (Ent → ℕ) → List Ent → ℕ
weigh w [] = 0
weigh w (e ∷ ents) = w e + weigh w ents

weigh-set :
    (w : Ent → ℕ) (ents : List Ent) (i : ℕ) (e : Ent)
    → i < length ents
    → weigh w (set ents i e) + w (get_or ents i no_ent) ≡ weigh w ents + w e
unfolding weigh
weigh-set w [] i e lt = absurd (omega arith)
weigh-set w (d ∷ ents) zero e lt = omega arith
weigh-set w (d ∷ ents) (suc i) e lt = let ih = weigh-set w ents i e (omega arith) in omega arith

weigh-take :
    (w : Ent → ℕ) (n : ℕ) (ents : List Ent)
    → length ents ≡ suc n
    → weigh w (take n ents) + w (get_or ents n no_ent) ≡ weigh w ents
unfolding weigh
weigh-take w n [] e = absurd (omega arith)
weigh-take w zero (d ∷ []) e = omega arith
weigh-take w zero (d ∷ d' ∷ ents) e = absurd (omega arith)
weigh-take w (suc n) (d ∷ ents) e = let ih = weigh-take w n ents (omega arith) in omega arith

last-set :
    (ents : List Ent) (i n : ℕ)
    → n < length ents
    → get_or (set ents i (get_or ents n no_ent)) n no_ent ≡ get_or ents n no_ent
last-set ents i n lt = elim (ℕ_discrete i n) [
  | yes e ↦ rw e (get_or-set_self ents n (get_or ents n no_ent) no_ent lt)
  | no ne ↦ get_or-set_ne ents i n (get_or ents n no_ent) no_ent ne
]

-- The entry that goes takes its own weight away, and no other.
pub weigh-remove_at :
    (w : Ent → ℕ) (i : ℕ) (ents : List Ent)
    → i < length ents
    → weigh w (remove_at i ents) + w (get_or ents i no_ent) ≡ weigh w ents
unfolding remove_at
weigh-remove_at w i ents lt =
    let n = length ents - 1 in
    let last = get_or ents n no_ent in
    let t = weigh-take w n (set ents i last) (length-set ents i last ∙ omega arith) in
    let s = weigh-set w ents i last lt in
    let l = ap w (last-set ents i n (omega arith)) in omega (arith, t, s, l)

uses-weigh :
    (k : ℕ) (ents : List Ent) → weigh (λ e. if e.slot == k then 1 else 0) ents ≡ uses k ents
unfolding weigh uses
uses-weigh k [] = refl
uses-weigh k (e ∷ ents) = let ih = uses-weigh k ents in omega arith

pub uses-remove_at :
    (k i : ℕ) (ents : List Ent)
    → i < length ents
    → uses k (remove_at i ents) + (if (get_or ents i no_ent).slot == k then 1 else 0) ≡ uses k ents
uses-remove_at k i ents lt =
    let r = weigh-remove_at (λ e. if e.slot == k then 1 else 0) i ents lt in
    omega (arith, r, uses-weigh k ents, uses-weigh k (remove_at i ents))

-- A slot that is taken for a new entry.
pub take-Accounted :
    (ents others : List Ent) (s : Swap) (vkey i : ℕ)
    → Accounted ents others s
    → i < s.pages
    → bitmap_test s.slots i ≡ false
    → Accounted
        (ents ++ record { vkey = vkey; slot = i } ∷ [])
        others
        (record s { slots = bitmap_set s.slots i })
take-Accounted ents others s vkey i h lt free = record {
  bits = set-IsBitmap s.slots h.bits i lt;
  used = λ k below.
      let u = h.used k below in
      let a = uses-append k ents (record { vkey = vkey; slot = i }) in
      let t = test-set s.slots h.bits i lt k in
      elim (ℕ_discrete i k) [
        | yes e ↦ let f = subst (λ j. bitmap_test s.slots j ≡ false) e free in ground arith
        | no ne ↦ ground arith
      ];
  above = λ k le.
      let u = h.above k le in
      let a = uses-append k ents (record { vkey = vkey; slot = i }) in ground arith;
}

-- A slot that is freed, with its entry gone from the task.
module _ (ents rest others : List Ent) (s : Swap) (slot : ℕ) (h : Accounted ents others s)
    (gone : (k : ℕ) → uses k rest + (if slot == k then 1 else 0) ≡ uses k ents) where
  slot-lt : slot < s.pages
  slot-lt =
      let g = gone slot in
      elim (dec_lt slot s.pages) [
        | yes lt ↦ lt
        | no out ↦ let a = h.above slot (omega arith) in absurd (ground arith)
      ]

  pub give-Accounted : Accounted rest others (slot_free slot s)
  unfolding slot_free
  give-Accounted = record {
    bits = clear-IsBitmap s.slots h.bits slot slot-lt;
    used = λ k below.
        let u = h.used k below in
        let g = gone k in let t = test-clear s.slots h.bits slot slot-lt k in ground arith;
    above = λ k le. let u = h.above k le in let g = gone k in omega arith;
  }

pub free_slots-Accounted :
    (ents others : List Ent) (s : Swap)
    → Accounted ents others s
    → Accounted [] others (free_slots ents s)
unfolding free_slots
free_slots-Accounted [] others s h = h
free_slots-Accounted (e ∷ ents) others s h =
    free_slots-Accounted ents others (slot_free e.slot s)
      (give-Accounted (e ∷ ents) ents others s e.slot h (λ k. unfold uses in omega arith))

-- On a disk of unknown size, which counts as 65536 sectors, or of 8 sectors or more, the region ends where
-- the disk ends and has room for its slots, and all of them are free.
pub swap_init-Accounted :
    (disk : ℕ) (s : Swap)
    → disk ≡ 0 ⊎ (8 ≤ disk) × (disk < 2 ^ 64)
    → let s' = (swap_init disk true s).1 in
      Accounted [] [] s'
      × (s'.start + s'.blocks ≡ (if disk == 0 then 65536 else disk))
      × (8 * s'.pages ≤ s'.blocks)
      × (1 ≤ s'.pages)
unfolding swap_init swap_geometry
swap_init-Accounted disk s h =
    let pages = (swap_init disk true s).1.pages in
    let len = length-cleared ((pages + 7) / 8) in
    (
      record {
        bits = (bytes-cleared ((pages + 7) / 8), omega (arith, len));
        used = λ k below. rw (test-cleared ((pages + 7) / 8) k) (unfold uses in refl);
        above = λ k le. unfold uses in refl;
      },
      (ground arith),
      (ground arith),
      ground arith,
    )
