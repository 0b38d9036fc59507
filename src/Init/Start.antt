-- ===== src/Init/Start.antt =====
-- The kernel starts, and answers what is typed.
use jos.Base.{ℕ, ◌≡◌, refl, sym, ◌∙◌, Option, List, [], ◌∷◌, ◌++◌, arith, length}
use mathlib.Core.Path.{subst}
use jos.Types.{sub32}
use jos.Memory.{Mem}
use jos.Block.{memset}
use jos.Printf.{printnum}
use jos.Printf.Format.{codes, emit}
use jos.Printf.Format.Emits.{emit-append, emit-Ok}
use jos.Printf.Format.Pieces.{literal, oct, numeral}
use jos.Readline.Loop.{Terminal}
use jos.Monitor.Commands.Prints.{print-shown}
use jos.Monitor.Loop.{Kernel, monitor}
use jos.Monitor.Loop.Session.{Environment, AreLines, Session, typed, welcome}
use jos.Monitor.Loop.Answers.{Serves, monitor-Serves}
use jos.Init.{start, i386_init}
use jos.Init.Nested.{entered, left, test_backtrace-nested}

-- What the kernel prints before its first prompt.
abbrev pub boot_text : List ℕ → List ℕ
boot_text trace =
    codes "6828 decimal is 15254 octal!\n"
    ++ ((entered 5 ++ ((codes "Stack backtrace\n" ++ trace) ++ left 5)) ++ welcome)

module _ {W : Type 0} (getchar : W → Option (ℕ × W)) (cputchar : ℕ → W → W) (fuel buf : ℕ)
    (k : Kernel) (first_trace trace : List ℕ) (cons_init : W → W) (edata end ebp : ℕ)
    (terminal : Terminal getchar cputchar) where
  -- Where the kernel's memory, once the BSS is cleared, holds what the monitor needs and a stack of
  -- frames for the first backtrace, and where lines of ASCII characters have been typed when the
  -- console is initialised, `i386_init` prints its greeting, traces the stack from within
  -- six calls of `test_backtrace`, and its monitor answers the lines in order and is at its prompt
  -- again.
  pub i386_init-Serves :
      (ls : List (List ℕ × ℕ)) (rest : List ℕ) (m : Mem) (w : W)
      → Environment fuel buf
          (record k { ebp = ebp })
          first_trace
          (memset m edata 0 (sub32 end edata))
      → Environment fuel buf k trace (memset m edata 0 (sub32 end edata))
      → AreLines fuel ls
      → terminal.Waits (cons_init w) (typed ls rest)
      → Serves getchar cputchar fuel buf k trace terminal ls rest
          (memset m edata 0 (sub32 end edata), emit cputchar (boot_text first_trace) (cons_init w))
          (i386_init cputchar fuel getchar cons_init buf k edata end ebp (length ls) (m, w))
  unfolding i386_init start numeral printnum
  i386_init-Serves ls rest m w first_env env lines waits =
      let m0 = memset m edata 0 (sub32 end edata) in
      let a = codes "6828 decimal is 15254 octal!\n" in
      let b = entered 5 ++ ((codes "Stack backtrace\n" ++ first_trace) ++ left 5) in
      let w1 = emit cputchar a (cons_init w) in
      let w2 = emit cputchar b w1 in
      let first =
        print-shown cputchar fuel
          (literal (codes "6828 decimal is ") ∷ oct 6828 ∷ literal (codes " octal!\n") ∷ [])
          (m0, cons_init w) (omega arith) in
      let nested =
        test_backtrace-nested cputchar fuel buf (record k { ebp = ebp }) first_trace m0 first_env 5
          w1 (omega arith) in
      let kept =
        emit-Ok cputchar (λ u. terminal.Waits u (typed ls rest))
          (λ c u here. terminal.quiet c u (typed ls rest) here) in
      let run =
        monitor-Serves getchar cputchar fuel buf k trace terminal ls rest m0 w2 env lines
          (kept b w1 (kept a (cons_init w) waits)) in
      let whole : emit cputchar welcome w2 ≡ emit cputchar (boot_text first_trace) (cons_init w) =
        sym (
          emit-append cputchar a (b ++ welcome) (cons_init w)
          ∙ emit-append cputchar b welcome w1) in
      let started : i386_init cputchar fuel getchar cons_init buf k edata end ebp (length ls) (m, w)
          ≡ monitor getchar cputchar fuel buf k (length ls) (m0, w2) =
        rw (i386_init, start, first, nested) refl in
      record {
        last = run.last;
        returns = started ∙ run.returns;
        session =
            subst (λ v. Session getchar cputchar fuel buf k trace ls (m0, v) run.last) whole
              run.session;
        waits = run.waits;
      }
