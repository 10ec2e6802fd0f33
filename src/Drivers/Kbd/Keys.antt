-- ===== src/Drivers/Kbd/Keys.antt =====
-- The interrupt handler of kbd.c: what a scan code adds to the ring, and whom it wakes.
use no_os.Base.{
  ℕ, ◌<◌, ◌≡◌, refl, ◌≢◌, ◌⊎◌, inl, inr, Bool, true, false, not, ◌||◌, [], ◌∷◌, ◌++◌, arith, ltb,
  leb, ◌==◌, if◌then◌else◌, lt→ltb, Bool-cases, length,
}
use no_os.Drivers.Kbd.{Kbd, kbd_push, extended, translate, pressed, kbd_handler, kbd_up}
use no_os.Drivers.Kbd.Ring.{IsValid, contents, kbd_push_lem}

-- The ring is as before, or has one more character, and not the null one, at its end.
pub record Typed (k k' : Kbd) : Type 0 where
  pub valid : IsValid k'
  pub adds : (contents k' ≡ contents k) ⊎ ((c : ℕ) × (c ≢ 0) × (contents k' ≡ contents k ++ c ∷ []))

same-Typed :
    (k k' : Kbd) → IsValid k → k'.buf ≡ k.buf → k'.head ≡ k.head → k'.tail ≡ k.tail → Typed k k'
same-Typed k k' v b h t = record {
  valid = ground (arith, v.storage, v.head_in, v.tail_in);
  adds = inl (rw (b, h, t) refl);
}

push-Typed : (k : Kbd) (c : ℕ) → IsValid k → c ≢ 0 → Typed k (kbd_push c k)
push-Typed k c v nz = record {
  valid = (kbd_push_lem k c v).0;
  adds = adds (ltb (length (contents k)) 255) (kbd_push_lem k c v).1;
}
  where
    adds :
        (b : Bool)
        → contents (kbd_push c k) ≡ (if b then contents k ++ c ∷ [] else contents k)
        → (contents (kbd_push c k) ≡ contents k)
          ⊎ ((d : ℕ) × (d ≢ 0) × (contents (kbd_push c k) ≡ contents k ++ d ∷ []))
    adds true e = inr (c, nz, e)
    adds false e = inl e

pressed-Typed : (sc : ℕ) (k : Kbd) → IsValid k → Typed k (pressed sc k).0
unfolding pressed
pressed-Typed sc k v = elim (Bool-cases (translate sc k == 0)) [
  | inl e ↦ rw e (same-Typed k k v refl refl refl)
  | inr e ↦ rw e (push-Typed k (translate sc k) v (ground arith))
]

choose : (k : Kbd) (b : Bool) {x y : Kbd} → Typed k x → Typed k y → Typed k (if b then x else y)
choose k true p q = p
choose k false p q = q

extended-Typed : (sc : ℕ) (k : Kbd) → IsValid k → Typed k (extended sc k)
unfolding extended
extended-Typed sc k v = choose k (sc == 0x1D) (same-Typed k _ v refl refl refl) (
    choose k (sc == 0x9D) (same-Typed k _ v refl refl refl) (
      choose k (sc == 0x2A) (same-Typed k _ v refl refl refl) (
        choose k (sc == 0x36) (same-Typed k _ v refl refl refl) (
          choose k (sc == 0x48) (push-Typed k 0x80 v (omega arith)) (
            choose k (sc == 0x50) (push-Typed k 0x81 v (omega arith)) (
              choose k (sc == 0x4B) (push-Typed k 0x82 v (omega arith)) (
                choose k (sc == 0x4D) (push-Typed k 0x83 v (omega arith)) (
                  choose k (sc == 0x47) (push-Typed k 0x84 v (omega arith)) (
                    choose k (sc == 0x4F) (push-Typed k 0x85 v (omega arith)) (
                      choose k (sc == 0x53) (push-Typed k 0x86 v (omega arith))
                        (same-Typed k k v refl refl refl)))))))))))

-- The handler returns a pair, so the choice is made on the pair.
choose_pair :
    (k : Kbd) (b : Bool) (x y : Kbd × Bool)
    → Typed k x.0
    → Typed k y.0
    → Typed k (if b then x else y).0
choose_pair k true x y p q = p
choose_pair k false x y p q = q

modifier-Typed :
    (k : Kbd) (ext shift caps ctrl : Bool)
    → IsValid k
    → Typed k (record k { ext = ext; shift = shift; caps = caps; ctrl = ctrl })
modifier-Typed k ext shift caps ctrl v = same-Typed k _ v refl refl refl

-- Through a change of modifiers.
through : (k k' : Kbd) → IsValid k → Typed (record k { ext = false }) k' → Typed k k'
through k k' v t = record { valid = t.valid; adds = t.adds }

-- On any scan code, extended or not, the handler keeps the ring valid, never puts the null character in
-- it, and adds one character at most, at its end.
pub kbd_handler-Typed : (sc : ℕ) (k : Kbd) → IsValid k → Typed k (kbd_handler sc k).0
unfolding kbd_handler
kbd_handler-Typed sc k v =
    choose_pair k k.ext _ _
      (through k _ v (
        extended-Typed sc (record k { ext = false })
          (modifier-Typed k false k.shift k.caps k.ctrl v).valid))
      (choose_pair k (sc == 0xE0) _ _ (modifier-Typed k true k.shift k.caps k.ctrl v) (
        choose_pair k (sc == 0x2A || sc == 0x36) _ _ (modifier-Typed k k.ext true k.caps k.ctrl v) (
          choose_pair k (sc == 0xAA || sc == 0xB6) _ _
            (modifier-Typed k k.ext false k.caps k.ctrl v)
            (choose_pair k (sc == 0x1D) _ _ (modifier-Typed k k.ext k.shift k.caps true v) (
              choose_pair k (sc == 0x9D) _ _ (modifier-Typed k k.ext k.shift k.caps false v) (
                choose_pair k (sc == 0x3A) _ _
                  (modifier-Typed k k.ext k.shift (not k.caps) k.ctrl v)
                  (choose_pair k (leb 0x80 sc) _ _ (same-Typed k k v refl refl refl)
                    (pressed-Typed sc k v))))))))

-- An arrow key reaches the ring, where there is room, but does not wake the tasks that wait for a key.
pub arrow_wakes_nobody :
    (k : Kbd)
    → IsValid k
    → k.ext ≡ true
    → length (contents k) < 255
    → (contents (kbd_handler 0x48 k).0 ≡ contents k ++ kbd_up ∷ [])
      × ((kbd_handler 0x48 k).1 ≡ false)
unfolding kbd_handler extended
arrow_wakes_nobody k v e room = rw e (
  rw (lt→ltb (length (contents k)) 255 room) at
      (kbd_push_lem (record k { ext = false }) kbd_up
        (modifier-Typed k false k.shift k.caps k.ctrl v).valid).1,
  refl,
)
