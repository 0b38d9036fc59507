-- ===== src/Console/Devices.antt =====
-- Console input of kern/console.c, and the initialisation of the devices. `fuel` bounds how many
-- values a device gives to one interrupt.
pub mod Getc
use jos.Base.{
  ℕ, zero, suc, ◌+◌, ◌*◌, ◌/◌, ◌^◌, Bool, true, false, not, Option, none, some, List, bit_and,
  bit_or, ◌==◌, if◌then◌else◌, ◌>>=◌,
}
use jos.Base.Bits.{◌<<<◌}
use jos.Ports.{Ports, inb, outb}
use jos.Printf.Format.{codes, emit}
use jos.Console.Buffer.{Cons, get, cons_intr}
use jos.Console.Screen.{Screen, u16}
use jos.Console.Keyboard.{decode}
use jos.Console.Output.{Machine, com1, com_lsr, cons_putc}

abbrev pub kbstatp : ℕ
kbstatp = 0x64

abbrev pub kbdatap : ℕ
kbdatap = 0x60

abbrev pub mono_base : ℕ
mono_base = 0x3b4

abbrev pub cga_base : ℕ
cga_base = 0x3d4

module _ {W : Type 0} (io : Ports W) where
  -- `none` is -1
  unfoldable pub serial_proc_data : Machine W → Option ℕ × Machine W
  serial_proc_data s =
      let (status, w) = inb io (com1 + com_lsr) s.devices in
      let (c, w') = inb io com1 w in
      if bit_and status 0x01 == 0
      then (none, record s { devices = w })
      else (some c, record s { devices = w' })

  -- the reboot that Ctrl-Alt-Del asks for: a message without escapes, and a port write
  unfoldable pub reboot : Machine W → Machine W
  reboot s =
      let s' = emit (cons_putc io) (codes "Rebooting!\n") s in
      record s' { devices = outb io 0x92 0x3 s'.devices }

  unfoldable pub kbd_proc_data : Machine W → Option ℕ × Machine W
  kbd_proc_data s =
      let (status, w) = inb io kbstatp s.devices in
      let (code, w') = inb io kbdatap w in
      let d = decode s.shift code in
      let s' = record s { devices = w'; shift = d.shift } in
      if bit_and status 0x01 == 0
      then (none, record s { devices = w })
      else (some d.char, if d.reboot then reboot s' else s')

  unfoldable pub serial_intr : ℕ → Machine W × Cons → Option (Machine W × Cons)
  serial_intr fuel (s, cons) =
      if s.serial_exists then cons_intr serial_proc_data fuel s cons else some (s, cons)

  unfoldable pub kbd_intr : ℕ → Machine W × Cons → Option (Machine W × Cons)
  kbd_intr fuel (s, cons) = cons_intr kbd_proc_data fuel s cons

  unfoldable pub cons_getc : ℕ → Machine W × Cons → Option (ℕ × (Machine W × Cons))
  cons_getc fuel s = do
    polled ← serial_intr fuel s
    (t, cons) ← kbd_intr fuel polled
    some ((get cons).0, (t, (get cons).1))

  -- `while ((c = cons_getc()) == 0)`, with `rounds` polls
  unfoldable pub getchar : ℕ → ℕ → Machine W × Cons → Option (ℕ × (Machine W × Cons))
  getchar fuel zero s = none
  getchar fuel (suc rounds) s = elim (cons_getc fuel s) [
    | none ↦ none
    | some (c, s') ↦ elim (c == 0) [ true ↦ getchar fuel rounds s' | false ↦ some (c, s') ]
  ]

  unfoldable pub serial_init : Machine W → Machine W
  serial_init s =
      let w1 = outb io (com1 + 2) 0 s.devices in
      let w2 = outb io com1 (115200 / 9600) (outb io (com1 + 3) 0x80 w1) in
      let w3 = outb io (com1 + 3) 0x03 (outb io (com1 + 1) 0 w2) in
      let w4 = outb io (com1 + 1) 0x01 (outb io (com1 + 4) 0 w3) in
      let (status, w5) = inb io (com1 + com_lsr) w4 in
      record s {
        serial_exists = not (status == 0xff);
        devices = (inb io com1 (inb io (com1 + 2) w5).1).1;
      }

  -- `cga_init`: `colour` tells whether the memory at CGA_BUF kept the 0xA55A that was written; `cga`
  -- and `mono` are what the two video memories hold.
  unfoldable pub cga_init : Bool → List ℕ → List ℕ → Machine W → Machine W
  cga_init colour cga mono s =
      let addr = if colour then cga_base else mono_base in
      let (high, w1) = inb io (addr + 1) (outb io addr 14 s.devices) in
      let (low, w2) = inb io (addr + 1) (outb io addr 15 w1) in
      record s {
        devices = w2;
        addr_6845 = addr;
        screen = record {
          crt_buf = if colour then cga else mono;
          crt_pos = u16 (bit_or (high <<< 8) low);
        };
      }

  unfoldable pub cons_init : Bool → List ℕ → List ℕ → Machine W → Machine W
  cons_init colour cga mono s =
      let s' = serial_init (cga_init colour cga mono s) in
      if s'.serial_exists
      then s'
      else emit (cons_putc io) (codes "Serial port does not exist!\n") s'
