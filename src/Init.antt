-- ===== src/Init.antt =====
-- kern/init.c: the kernel's start, `panic` and `warn`. The state is memory with the terminal.
pub mod Nested
pub mod Panics
pub mod Start
pub mod Dead
use jos.Base.{
  ℕ, zero, suc, ◌+◌, ◌-◌, Bool, true, false, not, Option, none, some, List, [], ◌∷◌, ◌==◌, ◌>>=◌,
  if◌then◌else◌,
}
use jos.Types.{sub32}
use jos.Memory.{Mem}
use jos.Block.{memset}
use jos.Printf.Format.{codes}
use jos.Printf.Cprintf.{cprintf, vcprintf}
use jos.Monitor.Backtrace.{mon_backtrace}
use jos.Monitor.Commands.{put, memory, print}
use jos.Monitor.Loop.{Kernel, Status, at_prompt, panicked, monitor}

-- What `_panic` changes besides the terminal: `panicstr`, and the flags that `cli` and `cld` clear.
pub record Cpu : Type 0 where
  pub panicstr : ℕ
  pub interrupts : Bool
  pub direction : Bool

module _ {W : Type 0} (cputchar : ℕ → W → W) (fuel : ℕ) where
  -- the call of `cprintf` behind a recursive call that came back
  abbrev pub leave : ℕ → Option (Bool × (Mem × W)) → Option (Bool × (Mem × W))
  leave x none = none
  leave x (some (false, s)) = some (false, s)
  leave x (some (true, s)) =
      print cputchar fuel (codes "leaving test_backtrace %d\n") (x ∷ []) s >>= λ s'. some (true, s')

  -- `test_backtrace(x)` for an `x` that is not negative; `false` where a backtrace panics
  unfoldable pub test_backtrace : Kernel → ℕ → Mem × W → Option (Bool × (Mem × W))
  test_backtrace k zero s =
      elim (print cputchar fuel (codes "entering test_backtrace %d\n") (0 ∷ []) s) [
        | none ↦ none
        | some s' ↦ leave 0 (
            mon_backtrace (put cputchar fuel) (memory cputchar fuel) fuel k.table k.unknown_text
              k.rounds k.ebp s')
      ]
  test_backtrace k (suc x) s =
      elim (print cputchar fuel (codes "entering test_backtrace %d\n") (suc x ∷ []) s) [
        | none ↦ none
        | some s' ↦ leave (suc x) (test_backtrace k x s')
      ]

  -- the message of `_panic` and `_warn`: a heading with the place, and `fmt` with its arguments
  unfoldable pub message : List ℕ → ℕ → ℕ → List ℕ → List ℕ → Mem × W → Option (Mem × W)
  message heading file line fmt args s = do
    s1 ← print cputchar fuel heading (file ∷ line ∷ []) s
    s2 ← print cputchar fuel fmt args s1
    print cputchar fuel (codes "\n") [] s2

  -- `_panic(file, line, fmt, ...)` up to its loop; the text of the format stands at `fmt`
  unfoldable pub panic : ℕ → ℕ → ℕ → List ℕ → List ℕ → Cpu × (Mem × W) → Option (Cpu × (Mem × W))
  panic file line fmt text args (cpu, s) = if not (cpu.panicstr == 0) then some (cpu, s) else do
    s' ← message (codes "kernel panic at %s:%d: ") file line text args s
    some (record { panicstr = fmt; interrupts = false; direction = false }, s')

  -- `_warn(file, line, fmt, ...)`
  unfoldable pub warn : ℕ → ℕ → List ℕ → List ℕ → Mem × W → Option (Mem × W)
  warn file line text args s = message (codes "kernel warning at %s:%d: ") file line text args s

  -- `_panic` with the first monitor of its loop, up to `n` rounds of that
  module _ (getchar : W → Option (ℕ × W)) (buf : ℕ) (k : Kernel) where
    unfoldable pub panic_in_monitor :
        ℕ → ℕ → ℕ → ℕ → List ℕ → List ℕ → Cpu × (Mem × W) → Option (Cpu × (Status × (Mem × W)))
    panic_in_monitor n file line fmt text args s = do
      dead ← panic file line fmt text args s
      served ← monitor getchar cputchar fuel buf k n dead.1
      some (dead.0, served)

  -- `ebp` is what `read_ebp()` returns in the backtrace from here, and `k.ebp` in one that is typed.
  module _ (getchar : W → Option (ℕ × W)) (cons_init : W → W) (buf : ℕ) (k : Kernel)
      (edata end ebp : ℕ) where
    -- `i386_init` before its loop
    unfoldable pub start : Mem × W → Option (Bool × (Mem × W))
    start (m, w) = do
      s ←
          print cputchar fuel (codes "6828 decimal is %o octal!\n") (6828 ∷ [])
            (memset m edata 0 (sub32 end edata), cons_init w)
      test_backtrace (record k { ebp = ebp }) 5 s

    -- `i386_init`, up to `n` rounds of the first `monitor(NULL)`
    unfoldable pub i386_init : ℕ → Mem × W → Option (Status × (Mem × W))
    i386_init n s = elim (start s) [
      | none ↦ none
      | some (ok, s') ↦ elim ok [
        | true ↦ monitor getchar cputchar fuel buf k n s'
        | false ↦ some (panicked, s')
      ]
    ]
