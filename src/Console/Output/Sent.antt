-- ===== src/Console/Output/Sent.antt =====
-- What `cons_putc` sends to the serial and the parallel port.
use mathlib.Core.List.{append_assoc, append-nil}
use jos.Base.{
  ℕ, zero, suc, ◌+◌, ◌%◌, ◌^◌, ◌≡◌, ◌≢◌, ◌<◌, ◌⊎◌, refl, sym, ap, ◌∙◌, arith, Bool-cases, inl, inr,
  ◌==◌, bit_and, if◌then◌else◌, List, [], ◌∷◌, ◌++◌, replicate,
}
use jos.Base.Bits.{◌>>>◌}
use jos.Ports.{Ports, inb, outb}
use jos.Console.Screen.{with_attribute}
use jos.Console.Screen.Layout.{attribute_facts}
use jos.Console.Output.{
  com1, Machine, delay, poll, serial_putc, lpt_putc, move_cursor, display_putc, send, cons_blank,
  five_blanks, cons_putc,
}

-- A device behind a port that takes bytes: `sent` are those it was given.
pub record Line {W : Type 0} (io : Ports W) (line : ℕ) : Type 0 where
  pub sent : W → List ℕ
  pub takes : (v : ℕ) (w : W) → sent (outb io line v w) ≡ sent w ++ ((v % 2 ^ 8) ∷ [])
  pub others : (port v : ℕ) (w : W) → port ≢ line → sent (outb io port v w) ≡ sent w
  pub reads : (port : ℕ) (w : W) → sent (inb io port w).1 ≡ sent w

-- The two ports that characters are written to.
abbrev pub IsOutput : ℕ → Type 0
IsOutput line = (line ≡ com1) ⊎ (line ≡ 0x378)

abbrev pub IsCrt : ℕ → Type 0
IsCrt addr = (addr ≡ 0x3d4) ⊎ (addr ≡ 0x3b4)

module _ {W : Type 0} (io : Ports W) (line : ℕ) (device : Line io line)
    (output : IsOutput line) where
  open device use {sent, takes, others, reads}

  delay-sent : (w : W) → sent (delay io w) ≡ sent w
  unfolding delay
  delay-sent w = reads 0x84 _ ∙ reads 0x84 _ ∙ reads 0x84 _ ∙ reads 0x84 w

  poll-sent : (port mask left : ℕ) (w : W) → sent (poll io port mask left w) ≡ sent w
  unfolding poll
  poll-sent port mask zero w = reads port w
  poll-sent port mask (suc left) w = elim (Bool-cases (bit_and (inb io port w).0 mask == 0)) [
    | inl t ↦
        rw t (poll-sent port mask left (delay io (inb io port w).1) ∙ delay-sent _ ∙ reads port w)
    | inr t ↦ rw t (reads port w)
  ]

  takes_at :
      (port v : ℕ) (w : W) → port ≡ line → sent (outb io port v w) ≡ sent w ++ ((v % 2 ^ 8) ∷ [])
  takes_at port v w e = rw e (takes v w)

  send-sent :
      (c : ℕ) (s : Machine W) → sent (send io c s).devices ≡ sent s.devices ++ ((c % 2 ^ 8) ∷ [])
  unfolding send serial_putc lpt_putc
  send-sent c s = elim output [
    | inl serial ↦
        others 0x37a 0x08 _ (omega arith)
        ∙ others 0x37a 0x0d _ (omega arith)
        ∙ others 0x378 c _ (omega arith)
        ∙ poll-sent 0x379 0x80 12800 _
        ∙ takes_at com1 c _ (sym serial)
        ∙ ap (λ t. t ++ ((c % 2 ^ 8) ∷ [])) (poll-sent _ _ 12800 s.devices)
    | inr printer ↦
        others 0x37a 0x08 _ (omega arith)
        ∙ others 0x37a 0x0d _ (omega arith)
        ∙ takes_at 0x378 c _ (sym printer)
        ∙ ap (λ t. t ++ ((c % 2 ^ 8) ∷ []))
            (poll-sent 0x379 0x80 12800 _
              ∙ others com1 c _ (omega arith)
              ∙ poll-sent _ _ 12800 s.devices)
  ]

  move_cursor-sent : (addr pos : ℕ) (w : W) → IsCrt addr → sent (move_cursor io addr pos w) ≡ sent w
  unfolding move_cursor
  move_cursor-sent addr pos w crt =
      others (addr + 1) pos _ (omega arith)
      ∙ others addr 15 _ (omega arith)
      ∙ others (addr + 1) (pos >>> 8) _ (omega arith)
      ∙ others addr 14 w (omega arith)

  -- `display_putc` with a `tab` that sends `more`.
  display_putc-sent :
      (t : Machine W → Machine W) (more : List ℕ) (c : ℕ) (s : Machine W)
      → IsCrt s.addr_6845
      → (t s).addr_6845 ≡ s.addr_6845
      → sent (t s).devices ≡ sent s.devices ++ more
      → sent (display_putc io t c s).devices
        ≡ sent s.devices ++ (if bit_and (with_attribute c) 0xff == 0x09 then more else [])
  unfolding display_putc
  display_putc-sent t more c s crt same tabs =
      elim (Bool-cases (bit_and (with_attribute c) 0xff == 0x09)) [
        | inl e ↦ rw (e, same) (move_cursor-sent s.addr_6845 _ _ crt ∙ tabs)
        | inr e ↦ rw e (move_cursor-sent s.addr_6845 _ _ crt ∙ sym (append-nil _))
      ]

  cons_blank-addr_6845 : (s : Machine W) → (cons_blank io s).addr_6845 ≡ s.addr_6845
  unfolding cons_blank display_putc send with_attribute
  cons_blank-addr_6845 s = refl

  cons_blank-sent :
      (s : Machine W)
      → IsCrt s.addr_6845
      → sent (cons_blank io s).devices ≡ sent s.devices ++ (0x20 ∷ [])
  unfolding cons_blank with_attribute send
  cons_blank-sent s crt =
      display_putc-sent (λ t. t) [] 0x20 (send io 0x20 s) crt refl (sym (append-nil _))
      ∙ append-nil _
      ∙ send-sent 0x20 s

  -- One more blank, behind those that lead from `s` to `t`.
  cons_blank-again :
      (s t : Machine W) (more : List ℕ)
      → IsCrt t.addr_6845
      → sent t.devices ≡ sent s.devices ++ more
      → IsCrt (cons_blank io t).addr_6845
        × (sent (cons_blank io t).devices ≡ sent s.devices ++ (more ++ (0x20 ∷ [])))
  cons_blank-again s t more crt e = (
    rw (cons_blank-addr_6845 t) crt,
    cons_blank-sent t crt ∙ ap (λ u. u ++ (0x20 ∷ [])) e ∙ append_assoc _ more _,
  )

  five_blanks-sent :
      (s : Machine W)
      → IsCrt s.addr_6845
      → sent (five_blanks io s).devices ≡ sent s.devices ++ replicate 5 0x20
  unfolding five_blanks
  five_blanks-sent s crt =
      let (crt1, e1) = cons_blank-again s s [] crt (sym (append-nil _)) in
      let (crt2, e2) = cons_blank-again s _ _ crt1 e1 in
      let (crt3, e3) = cons_blank-again s _ _ crt2 e2 in
      let (crt4, e4) = cons_blank-again s _ _ crt3 e3 in (cons_blank-again s _ _ crt4 e4).1

  five_blanks-addr_6845 : (s : Machine W) → (five_blanks io s).addr_6845 ≡ s.addr_6845
  unfolding five_blanks
  five_blanks-addr_6845 s =
      let same = cons_blank-addr_6845 in same _ ∙ same _ ∙ same _ ∙ same _ ∙ same s

  send-addr_6845 : (c : ℕ) (s : Machine W) → (send io c s).addr_6845 ≡ s.addr_6845
  unfolding send
  send-addr_6845 c s = refl

  low_byte : (c : ℕ) → c < 256 → bit_and (with_attribute c) 0xff ≡ c
  low_byte c small = rw (attribute_facts c small).0 (attribute_facts c small).1

  -- Whatever the devices answer, `cons_putc` sends a character to the serial port and to the
  -- parallel port once, and a tab is followed by five blanks.
  pub cons_putc-sent :
      (c : ℕ) (s : Machine W)
      → c < 256
      → IsCrt s.addr_6845
      → sent (cons_putc io c s).devices
        ≡ sent s.devices ++ (c ∷ (if c == 0x09 then replicate 5 0x20 else []))
  unfolding cons_putc
  cons_putc-sent c s small crt =
      let s' = send io c s in
      let crt' : IsCrt s'.addr_6845 = rw (send-addr_6845 c s) crt in
      let whole : c % 2 ^ 8 ≡ c = omega arith in
      display_putc-sent (five_blanks io) (replicate 5 0x20) c s' crt' (five_blanks-addr_6845 s')
        (five_blanks-sent s' crt')
      ∙ rw (low_byte c small, send-sent c s, whole) (append_assoc (sent s.devices) (c ∷ []) _)

  pub cons_putc-addr_6845 : (c : ℕ) (s : Machine W) → (cons_putc io c s).addr_6845 ≡ s.addr_6845
  unfolding cons_putc display_putc
  cons_putc-addr_6845 c s = elim (Bool-cases (bit_and (with_attribute c) 0xff == 0x09)) [
    | inl e ↦ rw e (five_blanks-addr_6845 (send io c s) ∙ send-addr_6845 c s)
    | inr e ↦ rw e (send-addr_6845 c s)
  ]
