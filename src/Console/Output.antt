-- ===== src/Console/Output.antt =====
-- Console output of kern/console.c: the serial port, the parallel port, the cursor of the display,
-- and `cons_putc`, which writes to all three.
pub mod Refine
pub mod Sent
pub mod Text
use jos.Base.{ℕ, zero, suc, ◌+◌, ◌/◌, ◌^◌, Bool, bit_and, ◌==◌, if◌then◌else◌}
use jos.Base.Bits.{◌>>>◌}
use jos.Ports.{Ports, inb, outb}
use jos.Console.Screen.{Screen, with_attribute, dispatch, scroll}

abbrev pub com1 : ℕ
com1 = 0x3f8

abbrev pub com_lsr : ℕ
com_lsr = 5

abbrev pub com_lsr_txrdy : ℕ
com_lsr_txrdy = 0x20

-- The devices, and the static variables of the console but for `cons`.
pub record Machine (W : Type 0) : Type 0 where
  pub devices : W
  pub screen : Screen
  pub addr_6845 : ℕ
  pub serial_exists : Bool
  pub shift : ℕ

module _ {W : Type 0} (io : Ports W) where
  unfoldable pub delay : W → W
  delay w =
      let w1 = (inb io 0x84 w).1 in
      let w2 = (inb io 0x84 w1).1 in let w3 = (inb io 0x84 w2).1 in (inb io 0x84 w3).1

  -- `for (i = 0; !(inb(port) & mask) && i < 12800; i++) delay();`, with `12800 - i` rounds left
  unfoldable pub poll : ℕ → ℕ → ℕ → W → W
  poll port mask zero w = (inb io port w).1
  poll port mask (suc left) w =
      let (status, w') = inb io port w in
      let rest = poll port mask left (delay w') in if bit_and status mask == 0 then rest else w'

  unfoldable pub serial_putc : ℕ → W → W
  serial_putc c w = outb io com1 c (poll (com1 + com_lsr) com_lsr_txrdy 12800 w)

  unfoldable pub lpt_putc : ℕ → W → W
  lpt_putc c w =
      let w1 = outb io 0x378 c (poll 0x379 0x80 12800 w) in
      outb io 0x37a 0x08 (outb io 0x37a 0x0d w1)

  -- "move that little blinky thing"
  unfoldable pub move_cursor : ℕ → ℕ → W → W
  move_cursor addr pos w =
      let w1 = outb io (addr + 1) (pos >>> 8) (outb io addr 14 w) in
      outb io (addr + 1) pos (outb io addr 15 w1)

  -- `cga_putc`; `tab` is what its five calls of `cons_putc(' ')` do
  unfoldable pub display_putc : (Machine W → Machine W) → ℕ → Machine W → Machine W
  display_putc tab c s =
      let s' =
        if bit_and (with_attribute c) 0xff == 0x09
        then tab s
        else record s { screen = dispatch (λ t. t) (with_attribute c) s.screen } in
      let t = scroll s'.screen in
      record s' { screen = t; devices = move_cursor s'.addr_6845 t.crt_pos s'.devices }

  -- `serial_putc(c); lpt_putc(c);`
  unfoldable pub send : ℕ → Machine W → Machine W
  send c s = record s { devices = lpt_putc c (serial_putc c s.devices) }

  -- `cons_putc(' ')`, which does not reach the `tab` of `cga_putc`
  unfoldable pub cons_blank : Machine W → Machine W
  cons_blank s = display_putc (λ t. t) 0x20 (send 0x20 s)

  unfoldable pub five_blanks : Machine W → Machine W
  five_blanks s = cons_blank (cons_blank (cons_blank (cons_blank (cons_blank s))))

  unfoldable pub cons_putc : ℕ → Machine W → Machine W
  cons_putc c s = display_putc five_blanks c (send c s)
