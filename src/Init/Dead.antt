-- ===== src/Init/Dead.antt =====
-- After a panic the monitor answers what is typed.
use jos.Base.{
  ℕ, ◌≡◌, ◌≢◌, ◌<◌, ◌^◌, refl, Option, some, List, [], length, true, false, not, ◌==◌, arith, ◌∙◌,
}
use jos.Memory.{Mem}
use jos.Printf.Format.{codes, emit}
use jos.Printf.Format.Emits.{emit-Ok}
use jos.Printf.Format.Pieces.{Piece, formats, arguments, ArePieces, IsPlaced}
use jos.Readline.Loop.{Terminal}
use jos.Monitor.Loop.{Kernel, Status, at_prompt}
use jos.Monitor.Loop.Session.{Environment, AreLines, Session, typed, welcome}
use jos.Monitor.Loop.Answers.{monitor-Serves}
use jos.Init.{Cpu, panic, panic_in_monitor}
use jos.Init.Panics.{message_text, panic_once}

-- The processor after a panic whose format stands at `fmt`.
abbrev pub dead_cpu : ℕ → Cpu
dead_cpu fmt = record { panicstr = fmt; interrupts = false; direction = false }

module _ {W : Type 0} (getchar : W → Option (ℕ × W)) (cputchar : ℕ → W → W) (fuel buf : ℕ)
    (k : Kernel) (trace : List ℕ) (terminal : Terminal getchar cputchar) where
  -- A panic ended in the processor state `dead`, and its monitor answered the lines in order.
  pub record Survives (ls : List (List ℕ × ℕ)) (rest : List ℕ) (dead : Cpu) (s : Mem × W)
      (result : Option (Cpu × (Status × (Mem × W)))) : Type 0 where
    pub last : Mem × W
    pub returns : result ≡ some (dead, (at_prompt, last))
    pub session : Session getchar cputchar fuel buf k trace ls s last
    pub waits : terminal.Waits last.1 rest

  module _ (m : Mem) (env : Environment fuel buf k trace m) (ls : List (List ℕ × ℕ)) (rest : List ℕ)
      (lines : AreLines fuel ls) where
    monitor-Survives :
        (file line fmt : ℕ) (text args : List ℕ) (s : Cpu × (Mem × W)) (dead : Cpu) (w : W)
        → panic cputchar fuel file line fmt text args s ≡ some (dead, (m, w))
        → terminal.Waits w (typed ls rest)
        → Survives ls rest dead
            (m, emit cputchar welcome w)
            (panic_in_monitor cputchar fuel getchar buf k (length ls) file line fmt text args s)
    unfolding panic_in_monitor
    monitor-Survives file line fmt text args s dead w panicked waits =
        let run =
          monitor-Serves getchar cputchar fuel buf k trace terminal ls rest m w env lines waits in
        record {
          last = run.last;
          returns = rw (panicked, run.returns) refl;
          session = run.session;
          waits = run.waits;
        }

    panic_silent :
        (file line fmt : ℕ) (text args : List ℕ) (cpu : Cpu) (w : W)
        → cpu.panicstr ≢ 0
        → panic cputchar fuel file line fmt text args (cpu, (m, w)) ≡ some (cpu, (m, w))
    unfolding panic
    panic_silent file line fmt text args cpu w before =
        let off : not (cpu.panicstr == 0) ≡ true = ground arith in rw (panic, off) refl

    -- Where memory holds what the monitor needs and the strings of the panic, and lines of ASCII
    -- characters have been typed, the first panic prints the place and the message and turns
    -- interrupts off, and its monitor answers the lines in order and is at its prompt again. So does a
    -- second panic, which prints no message of its own.
    pub panic-Survives :
        (file line fmt : ℕ) (name : List ℕ) (ps : List Piece) (cpu : Cpu) (w : W)
        (placed : IsPlaced m fuel file name) (small : line < 2 ^ 32) (ok : ArePieces m fuel ps)
        → cpu.panicstr ≡ 0
        → fmt ≢ 0
        → terminal.Waits w (typed ls rest)
        → (file' line' fmt' : ℕ) (text' args' : List ℕ)
        → let message =
            message_text cputchar fuel m file line name placed small ps ok
              (codes "kernel panic at ") in
          Survives ls rest
            (dead_cpu fmt)
            (m, emit cputchar welcome (emit cputchar message w))
            (panic_in_monitor cputchar fuel getchar buf k
              (length ls)
              file
              line
              fmt
              (formats ps)
              (arguments ps)
              (cpu, (m, w)))
          × Survives ls rest
              (dead_cpu fmt)
              (m, emit cputchar welcome w)
              (panic_in_monitor cputchar fuel getchar buf k
                (length ls)
                file'
                line'
                fmt'
                text'
                args'
                (dead_cpu fmt, (m, w)))
    panic-Survives file line fmt name ps cpu w placed small ok none_yet not_null waits file' line'
          fmt' text' args' =
        let message =
          message_text cputchar fuel m file line name placed small ps ok
            (codes "kernel panic at ") in
        let once =
          panic_once cputchar fuel m file line name placed small ps ok fmt cpu w none_yet not_null 0
            0 0 [] [] in
        let after_message =
          emit-Ok cputchar (λ u. terminal.Waits u (typed ls rest))
            (λ c u here. terminal.quiet c u (typed ls rest) here) message w waits in
        (
          monitor-Survives file line fmt (formats ps) (arguments ps) (cpu, (m, w)) (dead_cpu fmt)
              (emit cputchar message w) (once.1 ∙ (λ i. some (once.2 i, once.3 i))) after_message,
          monitor-Survives file' line' fmt' text' args' (dead_cpu fmt, (m, w)) (dead_cpu fmt) w
              (panic_silent file' line' fmt' text' args' (dead_cpu fmt) w not_null) waits,
        )
