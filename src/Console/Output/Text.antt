-- ===== src/Console/Output/Text.antt =====
-- What `cprintf` sends to the serial and the parallel port.
use mathlib.Core.List.{append-nil, append_assoc}
use jos.Base.{
  ℕ, ◌≡◌, ◌<◌, refl, sym, ap, ◌∙◌, ◌==◌, some, List, [], ◌∷◌, ◌++◌, replicate, if◌then◌else◌,
}
use jos.Memory.{Mem}
use jos.Ports.{Ports}
use jos.Printf.Format.{emit}
use jos.Printf.Format.Pieces.{Piece, formats, arguments, texts, ArePieces}
use jos.Printf.Format.Pieces.Printed.{cprintf-texts}
use jos.Printf.Cprintf.{cprintf}
use jos.Console.Output.{Machine, cons_putc}
use jos.Console.Output.Sent.{Line, IsOutput, IsCrt, cons_putc-sent, cons_putc-addr_6845}

-- The characters on the line: a tab is followed by five blanks.
unfoldable pub on_line : List ℕ → List ℕ
on_line [] = []
on_line (c ∷ cs) = (c ∷ (if c == 0x09 then replicate 5 0x20 else [])) ++ on_line cs

abbrev pub AreBytes : List ℕ → Type 0
AreBytes [] = 0 < 1
AreBytes (c ∷ cs) = (c < 256) × AreBytes cs

module _ {W : Type 0} (io : Ports W) (line : ℕ) (device : Line io line) (out : IsOutput line) where
  open device use {sent}

  emit-sent :
      (cs : List ℕ) (s : Machine W)
      → AreBytes cs
      → IsCrt s.addr_6845
      → sent (emit (cons_putc io) cs s).devices ≡ sent s.devices ++ on_line cs
  unfolding emit on_line
  emit-sent [] s bytes crt = sym (append-nil _)
  emit-sent (c ∷ cs) s bytes crt =
      let crt' : IsCrt (cons_putc io c s).addr_6845 =
        rw (cons_putc-addr_6845 io line device out c s) crt in
      emit-sent cs (cons_putc io c s) bytes.1 crt'
      ∙ ap (λ u. u ++ on_line cs) (cons_putc-sent io line device out c s bytes.0 crt)
      ∙ append_assoc (sent s.devices) _ (on_line cs)

  -- Where the format is made of pieces whose strings stand in memory, and their texts are bytes,
  -- `cprintf` on the console returns, and the serial port and the parallel port have each been sent
  -- the texts in order, with five blanks behind each tab, whatever the devices answer.
  pub cprintf-sent :
      (m : Mem) (fuel : ℕ) (ps : List Piece) (s : Machine W)
      → ArePieces m fuel ps
      → AreBytes (texts ps)
      → IsCrt s.addr_6845
      → (s' : Machine W) × (cprintf (cons_putc io) (λ _. m) fuel (formats ps) (arguments ps) s
          ≡ some s')
        × (sent s'.devices ≡ sent s.devices ++ on_line (texts ps))
  cprintf-sent m fuel ps s ok bytes crt = (
    emit (cons_putc io) (texts ps) s,
    cprintf-texts (cons_putc io) (λ _. m) fuel (λ c t. refl) ps s ok,
    emit-sent (texts ps) s bytes crt,
  )
