-- ===== src/Console/Typing/Kept.antt =====
-- Printing a character takes nothing of what was typed.
use jos.Base.{ℕ, zero, suc, ◌+◌, ◌≡◌, ◌⊎◌, ◌==◌, refl, List, arith, Bool-cases, inl, inr, bit_and}
use jos.Base.Bits.{◌>>>◌}
use jos.Ports.{Ports, inb, outb}
use jos.Console.Buffer.{Cons}
use jos.Console.Screen.{with_attribute, dispatch, scroll}
use jos.Console.Devices.{mono_base, cga_base}
use jos.Console.Output.{
  com1, com_lsr, com_lsr_txrdy, Machine, delay, poll, serial_putc, lpt_putc, move_cursor,
  display_putc, send, cons_blank, five_blanks, cons_putc,
}
use jos.Console.Typing.{cputchar, Receivers, IsOutput, Ready, Typed}

module _ {W : Type 0} (io : Ports W) (receivers : Receivers io) where
  open receivers use {Holds, reads, writes}

  module _ (bytes scans : List ℕ) where
    abbrev Here : W → Type 0
    Here w = Holds w bytes scans

    write : (port v : ℕ) (w : W) → IsOutput port → Here w → Here (outb io port v w)
    write port v w out h = writes port v w bytes scans out h

    delay-Here : (w : W) → Here w → Here (delay io w)
    unfolding delay
    delay-Here w h =
        let read =
          λ (v : W) (here : Here v). reads 0x84 v bytes scans (omega arith) (omega arith) here in
        read _ (read _ (read _ (read w h)))

    poll-Here :
        (port mask left : ℕ) (w : W)
        → (port ≡ 0x3fd) ⊎ (port ≡ 0x379)
        → Here w
        → Here (poll io port mask left w)
    unfolding poll
    poll-Here port mask zero w status h = reads port w bytes scans (omega arith) (omega arith) h
    poll-Here port mask (suc left) w status h =
        let read = reads port w bytes scans (omega arith) (omega arith) h in
        elim (Bool-cases (bit_and (inb io port w).0 mask == 0)) [
          | inl e ↦ rw e (poll-Here port mask left _ status (delay-Here _ read))
          | inr e ↦ rw e read
        ]

    serial_putc-Here : (c : ℕ) (w : W) → Here w → Here (serial_putc io c w)
    unfolding serial_putc
    serial_putc-Here c w h =
        write com1 c _ (inl refl) (poll-Here (com1 + com_lsr) com_lsr_txrdy 12800 w (inl refl) h)

    lpt_putc-Here : (c : ℕ) (w : W) → Here w → Here (lpt_putc io c w)
    unfolding lpt_putc
    lpt_putc-Here c w h = write 0x37a 0x08 _ (omega arith) (
        write 0x37a 0x0d _ (omega arith)
          (write 0x378 c _ (omega arith) (poll-Here 0x379 0x80 12800 w (inr refl) h)))

    move_cursor-Here :
        (addr pos : ℕ) (w : W)
        → (addr ≡ mono_base) ⊎ (addr ≡ cga_base)
        → Here w
        → Here (move_cursor io addr pos w)
    unfolding move_cursor
    move_cursor-Here addr pos w crt h = write (addr + 1) pos _ (omega arith) (
        write addr 15 _ (omega arith)
          (write (addr + 1) (pos >>> 8) _ (omega arith) (write addr 14 w (omega arith) h)))

    module _ (shift : ℕ) where
      abbrev Stays : Machine W → Type 0
      Stays = Ready io receivers bytes scans shift

      send-Ready : (c : ℕ) (s : Machine W) → Stays s → Stays (send io c s)
      unfolding send
      send-Ready c s r = record {
        holds = lpt_putc-Here c _ (serial_putc-Here c s.devices r.holds);
        exists = r.exists;
        same_shift = r.same_shift;
        crt_port = r.crt_port;
      }

      -- The end of `cga_putc`: the display scrolls, and the cursor moves.
      abbrev finish : Machine W → Machine W
      finish t = record t {
        screen = scroll t.screen;
        devices = move_cursor io t.addr_6845 (scroll t.screen).crt_pos t.devices;
      }

      finish-Ready : (t : Machine W) → Stays t → Stays (finish t)
      finish-Ready t h = record {
        holds = move_cursor-Here t.addr_6845 _ t.devices h.crt_port h.holds;
        exists = h.exists;
        same_shift = h.same_shift;
        crt_port = h.crt_port;
      }

      display_putc-Ready :
          (tab : Machine W → Machine W) (c : ℕ) (s : Machine W)
          → ((t : Machine W) → Stays t → Stays (tab t))
          → Stays s
          → Stays (display_putc io tab c s)
      unfolding display_putc
      display_putc-Ready tab c s keep r =
          elim (Bool-cases (bit_and (with_attribute c) 0xff == 0x09)) [
            | inl e ↦ rw e (finish-Ready (tab s) (keep s r))
            | inr e ↦ rw e (
                finish-Ready (record s { screen = dispatch (λ t. t) (with_attribute c) s.screen })
                  (record {
                    holds = r.holds;
                    exists = r.exists;
                    same_shift = r.same_shift;
                    crt_port = r.crt_port;
                  }))
          ]

      cons_blank-Ready : (s : Machine W) → Stays s → Stays (cons_blank io s)
      unfolding cons_blank
      cons_blank-Ready s r =
          display_putc-Ready (λ t. t) 0x20 (send io 0x20 s) (λ t h. h) (send-Ready 0x20 s r)

      five_blanks-Ready : (s : Machine W) → Stays s → Stays (five_blanks io s)
      unfolding five_blanks
      five_blanks-Ready s r =
          let blank = cons_blank-Ready in blank _ (blank _ (blank _ (blank _ (blank s r))))

      cons_putc-Ready : (c : ℕ) (s : Machine W) → Stays s → Stays (cons_putc io c s)
      unfolding cons_putc
      cons_putc-Ready c s r =
          display_putc-Ready (five_blanks io) c (send io c s) five_blanks-Ready (send-Ready c s r)

  -- Printing a character leaves what was typed.
  pub cputchar-Typed :
      (fuel c : ℕ) (s : Machine W × Cons) (cs : List ℕ)
      → Typed io receivers fuel s cs
      → Typed io receivers fuel (cputchar io c s) cs
  cputchar-Typed fuel c s cs t = record {
    bytes = t.bytes;
    scans = t.scans;
    shift = t.shift;
    machine = cons_putc-Ready t.bytes t.scans t.shift c s.0 t.machine;
    calm = t.calm;
    valid = t.valid;
    all = t.all;
    few_bytes = t.few_bytes;
    few_scans = t.few_scans;
    fits = t.fits;
    chars = t.chars;
  }
