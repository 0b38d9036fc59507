-- ===== src/Console/Events.antt =====
-- What can happen to the console of kern/console.c, in any order: its functions are called, and the
-- devices change by themselves.
pub mod Sound
pub mod Safe
use jos.Base.{ℕ, ◌<◌, ◌≡◌, some}
use jos.Ports.{Ports}
use jos.Console.Buffer.{Cons}
use jos.Console.Output.{Machine}
use jos.Console.Devices.{serial_intr, kbd_intr, cons_getc, getchar}
use jos.Console.Typing.{cputchar}
use jos.Console.Screen.Bounds
use jos.Console.Buffer.Queue

module _ {W : Type 0} (io : Ports W) where
  pub data Step : Machine W × Cons → Machine W × Cons → Type 0 where
    devices :
        (w : W) (s : Machine W) (cons : Cons) → Step (s, cons) (record s { devices = w }, cons)
    prints : (c : ℕ) (s : Machine W × Cons) → Step s (cputchar io c s)
    serial : (fuel : ℕ) {s s' : Machine W × Cons} → serial_intr io fuel s ≡ some s' → Step s s'
    keyboard : (fuel : ℕ) {s s' : Machine W × Cons} → kbd_intr io fuel s ≡ some s' → Step s s'
    polls : (fuel c : ℕ) {s s' : Machine W × Cons} → cons_getc io fuel s ≡ some (c, s') → Step s s'
    reads :
        (fuel rounds c : ℕ) {s s' : Machine W × Cons}
        → getchar io fuel rounds s ≡ some (c, s')
        → Step s s'

  pub data Reach (s : Machine W × Cons) : Machine W × Cons → Type 0 where
    here : Reach s s
    next : {t u : Machine W × Cons} → Reach s t → Step t u → Reach s u

-- The cursor is inside video memory, the positions of the buffer are inside the buffer, and `shift`
-- has no bit but those of the seven flags.
pub record IsSafe {W : Type 0} (s : Machine W × Cons) : Type 0 where
  pub screen : Bounds.IsValid s.0.screen
  pub buffer : Queue.IsValid s.1
  pub flags : s.0.shift < 128
