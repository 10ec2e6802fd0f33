-- ===== src/Drivers/Kbd/Tests.antt =====
-- Runs of kbd.c.
use no_os.Base.{◌≡◌, refl, true, false, arith, replicate}
use no_os.Drivers.Kbd.{Kbd, translate, kbd_handler}
use no_os.Drivers.Kbd.Ring.{IsValid}
use no_os.Drivers.Kbd.Keys.{Typed, kbd_handler-Typed}

-- The ring stands near the end of its storage, and holds one character.
abbrev idle : Kbd
idle = record {
  buf = replicate 256 b'x';
  head = 0;
  tail = 255;
  shift = false;
  caps = false;
  ext = true;
  ctrl = false;
}

idle-IsValid : IsValid idle
idle-IsValid = record { storage = refl; head_in = omega arith; tail_in = omega arith }

-- Ctrl with the key of the letter c.
control_c : translate 0x2E (record idle { ctrl = true }) ≡ 3
unfolding translate
control_c = refl

-- With caps lock on, the same keys give a capital letter and no control code.
control_c_with_caps : translate 0x2E (record idle { ctrl = true; caps = true }) ≡ b'C'
unfolding translate
control_c_with_caps = refl

kbd_handler-Typed_example : Typed idle (kbd_handler 0x48 idle).0
kbd_handler-Typed_example = kbd_handler-Typed 0x48 idle idle-IsValid
