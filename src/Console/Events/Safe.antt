-- ===== src/Console/Events/Safe.antt =====
-- Whatever happens to the console, it stays inside its arrays.
use mathlib.Core.Path.{subst}
use jos.Base.{ℕ, ◌≡◌, refl, Bool, true, false, some, List, arith, if◌then◌else◌}
use jos.Ports.{Ports}
use jos.Printf.Format.{codes}
use jos.Console.Buffer.{Cons, initial}
use jos.Console.Buffer.Queue.{initial-IsValid}
use jos.Console.Screen.Bounds
use jos.Console.Screen.Bounds.{cga_putc-IsValid}
use jos.Console.Output.{Machine}
use jos.Console.Devices.{serial_init, cga_init, cons_init}
use jos.Console.Events.{
  Step, devices, prints, serial, keyboard, polls, reads, Reach, here, next, IsSafe,
}
use jos.Console.Events.Sound.{
  IsSound, Keeps, KeepsWith, emit-IsSound, cons_putc-IsSound, serial_intr-Keeps, kbd_intr-Keeps,
  cons_getc-Keeps, getchar-Keeps,
}

module _ {W : Type 0} (io : Ports W) where
  IsSafe-Keeps : (s : Machine W × Cons) → Keeps io (some s) → IsSafe s
  IsSafe-Keeps s k = record { screen = k.0.screen; buffer = k.1; flags = k.0.flags }

  IsSound-of_IsSafe : {s : Machine W × Cons} → IsSafe s → IsSound io s.0
  IsSound-of_IsSafe safe = record { screen = safe.screen; flags = safe.flags }

  Step-IsSafe : {s t : Machine W × Cons} → Step io s t → IsSafe s → IsSafe t
  Step-IsSafe (devices w s cons) safe = record {
    screen = safe.screen;
    buffer = safe.buffer;
    flags = safe.flags;
  }
  Step-IsSafe (prints c s) safe =
      IsSafe-Keeps _ (cons_putc-IsSound io c s.0 (IsSound-of_IsSafe safe), safe.buffer)
  Step-IsSafe (serial fuel {s} {s'} e) safe =
      IsSafe-Keeps s' (
        subst (Keeps io) e (serial_intr-Keeps io fuel s.0 s.1 (IsSound-of_IsSafe safe) safe.buffer))
  Step-IsSafe (keyboard fuel {s} {s'} e) safe =
      IsSafe-Keeps s'
        (subst (Keeps io) e (kbd_intr-Keeps io fuel s.0 s.1 (IsSound-of_IsSafe safe) safe.buffer))
  Step-IsSafe (polls fuel c {s} {s'} e) safe = IsSafe-Keeps s' (
      subst (KeepsWith io) e (cons_getc-Keeps io fuel s.0 s.1 (IsSound-of_IsSafe safe) safe.buffer))
  Step-IsSafe (reads fuel rounds c {s} {s'} e) safe = IsSafe-Keeps s' (
      subst (KeepsWith io) e
        (getchar-Keeps io fuel rounds s.0 s.1 (IsSound-of_IsSafe safe) safe.buffer))

  Reach-keeps : {s t : Machine W × Cons} → Reach io s t → IsSafe s → IsSafe t
  Reach-keeps here safe = safe
  Reach-keeps (next r st) safe = Step-IsSafe st (Reach-keeps r safe)

  serial_init-IsSound : (s : Machine W) → IsSound io s → IsSound io (serial_init io s)
  unfolding serial_init
  serial_init-IsSound s v = record { screen = v.screen; flags = v.flags }

  chosen :
      (b : Bool) (x y : Machine W) → IsSound io x → IsSound io y → IsSound io (if b then x else y)
  chosen true x y v w = v
  chosen false x y v w = w

  cons_init-IsSound :
      (colour : Bool) (cga mono : List ℕ) (s : Machine W)
      → IsSound io (cga_init io colour cga mono s)
      → IsSound io (cons_init io colour cga mono s)
  unfolding cons_init
  cons_init-IsSound colour cga mono s v =
      let sound = serial_init-IsSound (cga_init io colour cga mono s) v in
      chosen _ _ _ sound (emit-IsSound io (codes "Serial port does not exist!\n") _ sound)

  cga_init-shift :
      (colour : Bool) (cga mono : List ℕ) (s : Machine W)
      → (cga_init io colour cga mono s).shift ≡ s.shift
  unfolding cga_init
  cga_init-shift colour cga mono s = refl

  -- From the console's initialisation on, where `cga_init` finds 2000 cells and the cursor on one of
  -- them, whatever functions of the console are called and whatever the devices do, in any order, the
  -- cursor stays inside video memory, the positions of the input buffer stay inside the buffer, and
  -- `shift` holds nothing but its seven flags.
  pub Reach-IsSafe :
      (colour : Bool) (cga mono : List ℕ) (s : Machine W) {t : Machine W × Cons}
      → Bounds.IsValid (cga_init io colour cga mono s).screen
      → s.shift ≡ 0
      → Reach io (cons_init io colour cga mono s, initial) t
      → IsSafe t
  Reach-IsSafe colour cga mono s found none_held r =
      let sound =
        cons_init-IsSound colour cga mono s
          (record { screen = found; flags = omega (arith, cga_init-shift colour cga mono s) }) in
      Reach-keeps r (IsSafe-Keeps _ (sound, initial-IsValid))
