-- ===== src/Console/Devices/Getc.antt =====
-- `cons_getc` takes characters in the order in which the devices gave them.
use jos.Base.{
  ℕ, ◌+◌, ◌<◌, ◌≤◌, ◌≡◌, ◌≢◌, refl, sym, ap, ◌∙◌, true, some, List, ◌∷◌, ◌++◌, arith, length,
  length-append,
}
use mathlib.Core.List.{head-eq_of_cons-eq, tail-eq_of_cons-eq}
use jos.Ports.{Ports}
use jos.Console.Buffer.{Cons, get, cons_intr}
use jos.Console.Buffer.Queue.{IsValid, count, contents, length-contents, get-contents, get-IsValid}
use jos.Console.Buffer.Drain.{arrived, Delivers, cons_intr-Drained}
use jos.Console.Output.{Machine}
use jos.Console.Devices.{serial_proc_data, kbd_proc_data, serial_intr, kbd_intr, cons_getc}

module _ {W : Type 0} (io : Ports W) where
  serial_intr_on :
      (fuel : ℕ) (s : Machine W) (cons : Cons)
      → s.serial_exists ≡ true
      → serial_intr io fuel (s, cons) ≡ cons_intr (serial_proc_data io) fuel s cons
  unfolding serial_intr
  serial_intr_on fuel s cons exists = rw exists refl

  cons_getc_run :
      (fuel : ℕ) (s t u : Machine W) (cons c1 c2 : Cons)
      → s.serial_exists ≡ true
      → cons_intr (serial_proc_data io) fuel s cons ≡ some (t, c1)
      → cons_intr (kbd_proc_data io) fuel t c1 ≡ some (u, c2)
      → cons_getc io fuel (s, cons) ≡ some ((get c2).0, (u, (get c2).1))
  unfolding cons_getc kbd_intr
  cons_getc_run fuel s t u cons c1 c2 exists e f = rw (serial_intr_on fuel s cons exists, e, f) refl

  -- Where the serial port and then the keyboard have finitely many values to give, and they fit the
  -- buffer beside what waits there, `cons_getc` returns the first character of all of them: those
  -- that waited, then those of the serial port, then those of the keyboard. The rest waits.
  pub cons_getc-contents :
      (fuel : ℕ) {s t u : Machine W} {cs ks : List ℕ} (cons : Cons) (c : ℕ) (rest : List ℕ)
      → Delivers (serial_proc_data io) s cs t
      → Delivers (kbd_proc_data io) t ks u
      → s.serial_exists ≡ true
      → length cs < fuel
      → length ks < fuel
      → IsValid cons
      → length (contents cons) + length (arrived cs) + length (arrived ks) ≤ 511
      → contents cons ++ arrived cs ++ arrived ks ≡ c ∷ rest
      → (cons' : Cons) × (cons_getc io fuel (s, cons) ≡ some (c, (u, cons')))
        × IsValid cons'
        × (contents cons' ≡ rest)
  cons_getc-contents fuel {s} {t} {u} {cs} {ks} cons c rest serial keys exists f g valid room
        waiting =
      let d =
        cons_intr-Drained (serial_proc_data io) serial fuel cons f valid
          (omega (arith, length-contents cons)) in
      let size : length (contents d.after) ≡ length (contents cons) + length (arrived cs) =
        ap length d.holds ∙ length-append (contents cons) (arrived cs) in
      let e =
        cons_intr-Drained (kbd_proc_data io) keys fuel d.after g d.valid
          (omega (arith, size, length-contents d.after)) in
      let all : contents e.after ≡ c ∷ rest =
        e.holds ∙ ap (λ x. x ++ arrived ks) d.holds ∙ waiting in
      let some_wait : count e.after ≢ 0 = omega (arith, length-contents e.after, ap length all) in
      let both = sym (get-contents e.valid some_wait) ∙ all in
      let after = (get e.after).1 in
      (
        after,
        cons_getc_run fuel s t u cons d.after e.after exists d.returns e.returns
            ∙ (ap (λ (x : ℕ). some (x, (u, after))) (head-eq_of_cons-eq both)),
        get-IsValid e.valid,
        tail-eq_of_cons-eq both,
      )
