-- ===== src/Console/Events/Sound.antt =====
-- Each function of the console keeps the machine and the input buffer sound.
use mathlib.Core.Path.{subst}
use jos.Base.{
  ℕ, zero, suc, ◌<◌, ◌≡◌, ◌⊎◌, refl, Bool, true, false, Option, none, some, List, arith, Bool-cases,
  inl, inr, ◌==◌, bit_and, ◌>>=◌, if◌then◌else◌,
}
use jos.Ports.{Ports, inb}
use jos.Printf.Format.{codes, emit}
use jos.Printf.Format.Emits.{emit-Ok}
use jos.Console.Buffer.{Cons, put, get, cons_intr}
use jos.Console.Buffer.Queue
use jos.Console.Buffer.Queue.{initial-IsValid, put-IsValid, get-IsValid}
use jos.Console.Buffer.Drain.{cons_intr_stop, cons_intr_more}
use jos.Console.Screen.{with_attribute}
use jos.Console.Screen.Bounds
use jos.Console.Screen.Bounds.{cga_putc-IsValid}
use jos.Console.Keyboard.{decode}
use jos.Console.Keyboard.Shift.{decode_bounds}
use jos.Console.Output.{Machine, display_putc, send, cons_blank, five_blanks, cons_putc}
use jos.Console.Output.Refine.{cons_putc-cga_putc}
use jos.Console.Devices.{
  kbstatp, kbdatap, serial_proc_data, kbd_proc_data, reboot, serial_intr, kbd_intr, cons_getc,
  getchar,
}

module _ {W : Type 0} (io : Ports W) where
  -- What must hold of the machine.
  pub record IsSound (s : Machine W) : Type 0 where
    pub screen : Bounds.IsValid s.screen
    pub flags : s.shift < 128

  five_blanks-shift : (s : Machine W) → (five_blanks io s).shift ≡ s.shift
  unfolding five_blanks cons_blank display_putc send with_attribute
  five_blanks-shift s = refl

  cons_putc-shift : (c : ℕ) (s : Machine W) → (cons_putc io c s).shift ≡ s.shift
  unfolding cons_putc display_putc send
  cons_putc-shift c s = elim (Bool-cases (bit_and (with_attribute c) 0xff == 0x09)) [
    | inl e ↦ rw e (five_blanks-shift (send io c s))
    | inr e ↦ rw e refl
  ]

  pub cons_putc-IsSound : (c : ℕ) (s : Machine W) → IsSound s → IsSound (cons_putc io c s)
  cons_putc-IsSound c s v = record {
    screen = rw (cons_putc-cga_putc io c s) (cga_putc-IsValid c v.screen);
    flags = rw (cons_putc-shift c s) v.flags;
  }

  pub emit-IsSound : (cs : List ℕ) (s : Machine W) → IsSound s → IsSound (emit (cons_putc io) cs s)
  emit-IsSound cs s v = emit-Ok (cons_putc io) IsSound cons_putc-IsSound cs s v

  reboot-IsSound : (s : Machine W) → IsSound s → IsSound (reboot io s)
  unfolding reboot
  reboot-IsSound s v =
      let w = emit-IsSound (codes "Rebooting!\n") s v in
      record { screen = w.screen; flags = w.flags }

  serial_proc_data-IsSound : (s : Machine W) → IsSound s → IsSound (serial_proc_data io s).1
  unfolding serial_proc_data
  serial_proc_data-IsSound s v = ground arith

  kbd_proc_data-IsSound : (s : Machine W) → IsSound s → IsSound (kbd_proc_data io s).1
  unfolding kbd_proc_data
  kbd_proc_data-IsSound s v =
      let w = (inb io kbstatp s.devices).1 in
      let code = (inb io kbdatap w).0 in
      let d = decode s.shift code in
      let bounds = decode_bounds s.shift code v.flags (omega arith) in
      let shift : d.shift < 128 = ground arith in
      let pressed = record s { devices = (inb io kbdatap w).1; shift = d.shift } in
      let sound : IsSound pressed = record { screen = v.screen; flags = shift } in
      elim (Bool-cases (bit_and (inb io kbstatp s.devices).0 0x01 == 0)) [
        | inl e ↦ rw e (record { screen = v.screen; flags = v.flags })
        | inr e ↦ elim (Bool-cases (d.reboot)) [
          | inl f ↦ rw (e, f) (reboot-IsSound pressed sound)
          | inr f ↦ rw (e, f) sound
        ]
      ]

  -- The machine and the buffer after an interrupt, if it ends.
  abbrev pub Keeps : Option (Machine W × Cons) → Type 0
  Keeps none = 0 < 1
  Keeps (some (s, cons)) = IsSound s × Queue.IsValid cons

  proc-cases : (r : Option ℕ × Machine W) → (r ≡ (none, r.1)) ⊎ ((c : ℕ) × (r ≡ (some c, r.1)))
  proc-cases (none, s) = inl refl
  proc-cases (some c, s) = inr (c, refl)

  cons_intr-Keeps :
      (proc : Machine W → Option ℕ × Machine W)
      → ((s : Machine W) → IsSound s → IsSound (proc s).1)
      → (fuel : ℕ) (s : Machine W) (cons : Cons) → IsSound s
      → Queue.IsValid cons
      → Keeps (cons_intr proc fuel s cons)
  cons_intr-Keeps proc keep zero s cons v q = unfold cons_intr in omega arith
  cons_intr-Keeps proc keep (suc fuel) s cons v q = elim (proc-cases (proc s)) [
    | inl e ↦ rw (cons_intr_stop proc fuel cons e) (keep s v, q)
    | inr (c, e) ↦
        rw (cons_intr_more proc fuel c cons e)
          (cons_intr-Keeps proc keep fuel (proc s).1 (put c cons) (keep s v) (put-IsValid c q))
  ]

  either :
      (b : Bool) (x y : Option (Machine W × Cons)) → Keeps x → Keeps y → Keeps (if b then x else y)
  either true x y k l = k
  either false x y k l = l

  pub serial_intr-Keeps :
      (fuel : ℕ) (s : Machine W) (cons : Cons)
      → IsSound s
      → Queue.IsValid cons
      → Keeps (serial_intr io fuel (s, cons))
  unfolding serial_intr
  serial_intr-Keeps fuel s cons v q =
      either (s.serial_exists) _ _
        (cons_intr-Keeps (serial_proc_data io) serial_proc_data-IsSound fuel s cons v q) (v, q)

  pub kbd_intr-Keeps :
      (fuel : ℕ) (s : Machine W) (cons : Cons)
      → IsSound s
      → Queue.IsValid cons
      → Keeps (kbd_intr io fuel (s, cons))
  unfolding kbd_intr
  kbd_intr-Keeps fuel s cons v q =
      cons_intr-Keeps (kbd_proc_data io) kbd_proc_data-IsSound fuel s cons v q

  -- The same behind a character that is returned.
  abbrev pub KeepsWith : Option (ℕ × (Machine W × Cons)) → Type 0
  KeepsWith none = 0 < 1
  KeepsWith (some (c, s)) = Keeps (some s)

  get_from :
      (r : Option (Machine W × Cons))
      → Keeps r
      → KeepsWith (r >>= λ (t, cons). some ((get cons).0, (t, (get cons).1)))
  get_from none k = k
  get_from (some (t, cons)) k = (k.0, get-IsValid k.1)

  poll_keyboard :
      (fuel : ℕ) (r : Option (Machine W × Cons))
      → Keeps r
      → KeepsWith (
          r >>= λ polled.
          kbd_intr io fuel polled >>= λ (t, cons). some ((get cons).0, (t, (get cons).1)))
  poll_keyboard fuel none k = k
  poll_keyboard fuel (some (t, cons)) k =
      get_from (kbd_intr io fuel (t, cons)) (kbd_intr-Keeps fuel t cons k.0 k.1)

  pub cons_getc-Keeps :
      (fuel : ℕ) (s : Machine W) (cons : Cons)
      → IsSound s
      → Queue.IsValid cons
      → KeepsWith (cons_getc io fuel (s, cons))
  unfolding cons_getc
  cons_getc-Keeps fuel s cons v q =
      poll_keyboard fuel (serial_intr io fuel (s, cons)) (serial_intr-Keeps fuel s cons v q)

  taken-cases :
      (r : Option (ℕ × (Machine W × Cons)))
      → (r ≡ none) ⊎ ((c : ℕ) × (s : Machine W × Cons) × (r ≡ some (c, s)))
  taken-cases none = inl refl
  taken-cases (some (c, s)) = inr (c, s, refl)

  pub getchar-Keeps :
      (fuel rounds : ℕ) (s : Machine W) (cons : Cons)
      → IsSound s
      → Queue.IsValid cons
      → KeepsWith (getchar io fuel rounds (s, cons))
  unfolding getchar
  getchar-Keeps fuel zero s cons v q = omega arith
  getchar-Keeps fuel (suc rounds) s cons v q =
      let polled = cons_getc-Keeps fuel s cons v q in
      elim (taken-cases (cons_getc io fuel (s, cons))) [
        | inl e ↦ rw (getchar, e) (omega arith)
        | inr (c, s', e) ↦
            let sound : KeepsWith (some (c, s')) = subst KeepsWith e polled in
            elim (Bool-cases (c == 0)) [
              | inl f ↦ rw (getchar, e, f) (getchar-Keeps fuel rounds s'.0 s'.1 sound.0 sound.1)
              | inr f ↦ rw (getchar, e, f) sound
            ]
      ]
