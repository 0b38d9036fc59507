-- ===== src/Init/Panics.antt =====
-- The first panic prints its message; a panic on the way prints nothing more.
use jos.Base.{ℕ, ◌≡◌, ◌≢◌, ◌<◌, ◌^◌, refl, true, false, not, ◌==◌, some, List, [], ◌∷◌, ◌++◌, arith}
use jos.Memory.{Mem}
use jos.Printf.Format.{codes, emit}
use jos.Printf.Format.Emits.{emit-append}
use jos.Printf.Format.Pieces.{
  Piece, literal, dec, str, formats, arguments, texts, IsPlain, IsPlaced, ArePieces,
}
use jos.Monitor.Commands.Prints.{print-shown}
use jos.Init.{Cpu, message, panic, warn}

module _ {W : Type 0} (cputchar : ℕ → W → W) (fuel : ℕ) (m : Mem) (file line : ℕ) (name : List ℕ)
    (placed : IsPlaced m fuel file name) (small : line < 2 ^ 32) (ps : List Piece)
    (ok : ArePieces m fuel ps) where
  -- The heading with the place, and the line of a panic or a warning.
  abbrev heading_pieces : List ℕ → List Piece
  heading_pieces heading =
      literal heading ∷ str file name ∷ literal (codes ":") ∷ dec line ∷ literal (codes ": ") ∷ []

  abbrev pub message_text : List ℕ → List ℕ
  message_text heading = texts (heading_pieces heading) ++ (texts ps ++ codes "\n")

  message-shown :
      (heading : List ℕ) (w : W)
      → IsPlain heading
      → message cputchar fuel
          (heading ++ codes "%s:%d: ")
          file
          line
          (formats ps)
          (arguments ps)
          (m, w)
        ≡ some (m, emit cputchar (message_text heading) w)
  unfolding message
  message-shown heading w plain =
      let a = texts (heading_pieces heading) in
      let b = texts ps in
      let w1 = emit cputchar a w in
      let w2 = emit cputchar b w1 in
      let first =
        print-shown cputchar fuel (heading_pieces heading) (m, w) (plain, (placed, omega arith)) in
      let second = print-shown cputchar fuel ps (m, w1) ok in
      let third = print-shown cputchar fuel (literal (codes "\n") ∷ []) (m, w2) (omega arith) in
      rw (message, first, second, third)
        (rw (emit-append cputchar a (b ++ codes "\n") w, emit-append cputchar b (codes "\n") w1)
          refl)

  -- `warn` prints the place and the message, and changes nothing else.
  pub warn-shown :
      (w : W)
      → warn cputchar fuel file line (formats ps) (arguments ps) (m, w)
        ≡ some (m, emit cputchar (message_text (codes "kernel warning at ")) w)
  unfolding warn
  warn-shown w = message-shown (codes "kernel warning at ") w (omega arith)

  -- The first panic prints the place and the message, and turns interrupts off; any panic after it
  -- prints nothing.
  pub panic_once :
      (fmt : ℕ) (cpu : Cpu) (w : W)
      → cpu.panicstr ≡ 0
      → fmt ≢ 0
      → (file' line' fmt' : ℕ) (text' args' : List ℕ)
      → (after : Cpu × (Mem × W)) × (panic cputchar fuel file line fmt
            (formats ps)
            (arguments ps)
            (cpu, (m, w))
          ≡ some after)
        × (after.0 ≡ record { panicstr = fmt; interrupts = false; direction = false })
        × (after.1 ≡ (m, emit cputchar (message_text (codes "kernel panic at ")) w))
        × (panic cputchar fuel file' line' fmt' text' args' after ≡ some after)
  unfolding panic
  panic_once fmt cpu w none_yet not_null file' line' fmt' text' args' =
      let first = message-shown (codes "kernel panic at ") w (omega arith) in
      let on : not (cpu.panicstr == 0) ≡ false = ground arith in
      let off : not (fmt == 0) ≡ true = ground arith in
      (
        (
          record { panicstr = fmt; interrupts = false; direction = false },
          (m, emit cputchar (message_text (codes "kernel panic at ")) w),
        ),
        rw (panic, on, first) refl,
        refl,
        refl,
        rw (panic, off) refl,
      )
