-- ===== src/Console/Typing/Reader.antt =====
-- The console is a terminal.
use mathlib.Core.List.{append-nil}
use jos.Base.{
  ℕ, suc, ◌≡◌, ◌≢◌, refl, ap, ◌∙◌, false, some, List, [], ◌∷◌, ◌++◌, ◌==◌, arith, length,
  length-append,
}
use jos.Ports.{Ports}
use jos.Console.Buffer.{Cons}
use jos.Console.Buffer.Queue.{contents}
use jos.Console.Buffer.Drain.{arrived}
use jos.Console.Output.{Machine}
use jos.Console.Devices.{cons_getc, getchar}
use jos.Console.Devices.Getc.{cons_getc-contents}
use jos.Console.Typing.{cputchar, Receivers, decoded, shift_after, AreCalm, Typed}
use jos.Console.Typing.Kept.{cputchar-Typed}
use jos.Console.Typing.Taken.{length-decoded, serial-Took, keys-Took}
use jos.Readline.Loop.{Terminal}

module _ {W : Type 0} (io : Ports W) (receivers : Receivers io) (fuel : ℕ) where
  getchar_first :
      (rounds c : ℕ) (s s' : Machine W × Cons)
      → cons_getc io fuel s ≡ some (c, s')
      → c ≢ 0
      → getchar io fuel (suc rounds) s ≡ some (c, s')
  unfolding getchar
  getchar_first rounds c s s' e char =
      let kept : (c == 0) ≡ false = ground arith in rw (getchar, e, kept) refl

  -- Nothing is left in the devices, and the buffer holds `cs`.
  all_taken :
      (shift : ℕ) (cs rest : List ℕ)
      → cs ≡ rest
      → cs ++ arrived [] ++ arrived (decoded shift []) ≡ rest
  unfolding arrived decoded
  all_taken shift cs rest e = append-nil _ ∙ append-nil cs ∙ e

  -- Where characters were typed that fit the buffer, at the serial port and the keyboard, `getchar`
  -- returns the first of them at its first poll, and the others wait.
  pub getchar-Typed :
      (rounds : ℕ) (s : Machine W × Cons) (c : ℕ) (cs : List ℕ)
      → Typed io receivers fuel s (c ∷ cs)
      → (s' : Machine W × Cons) × (getchar io fuel (suc rounds) s ≡ some (c, s'))
        × Typed io receivers fuel s' cs
  unfolding AreCalm
  getchar-Typed rounds s c cs t =
      let serial = serial-Took io receivers t.bytes t.scans t.shift s.0 t.machine in
      let keys = keys-Took io receivers [] t.scans t.shift serial.after t.calm serial.left in
      let shift = shift_after t.shift t.scans in
      let waiting = contents s.1 in
      let sizes = length-append (waiting ++ arrived t.bytes) (arrived (decoded t.shift t.scans)) in
      let sizes' = length-append waiting (arrived t.bytes) in
      let (cons', returns, valid, holds) =
        cons_getc-contents io fuel s.1 c cs serial.delivers keys.delivers t.machine.exists
          t.few_bytes (omega (arith, length-decoded t.shift t.scans, t.few_scans)) t.valid
          (omega (arith, sizes, sizes', ap length t.all, t.fits)) t.all in
      (
        (keys.after, cons'),
        getchar_first rounds c s (keys.after, cons') returns t.chars.0,
        record {
          bytes = [];
          scans = [];
          shift = shift;
          machine = keys.left;
          calm = omega arith;
          valid = valid;
          all = all_taken shift (contents cons') cs holds;
          few_bytes = omega (arith, t.few_bytes);
          few_scans = omega (arith, t.few_scans);
          fits = omega (arith, t.fits);
          chars = t.chars.1;
        },
      )

  -- `readline` and the monitor can use the console.
  abbrev pub console : (rounds : ℕ) → Terminal (getchar io fuel (suc rounds)) (cputchar io)
  console rounds = record {
    Waits = Typed io receivers fuel;
    gives = getchar-Typed rounds;
    quiet = cputchar-Typed io receivers fuel;
  }
