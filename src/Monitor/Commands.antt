-- ===== src/Monitor/Commands.antt =====
-- The commands of kern/monitor.c, and what `runcmd` does with the line behind its parse. The state is
-- memory with the terminal, which `cputchar` changes.
pub mod Prints
use jos.Base.{
  ℕ, zero, suc, ◌+◌, ◌-◌, ◌*◌, ◌/◌, Bool, true, false, Option, none, some, List, [], ◌∷◌, ◌==◌,
  ◌>>=◌, map, if◌then◌else◌,
}
use jos.Types.{sub32, round_up}
use jos.Memlayout.{kernbase}
use jos.Memory.{Mem}
use jos.Printf.Flags.{negative}
use jos.Printf.Format.{codes}
use jos.Printf.Cprintf.{cprintf}
use jos.Kdebug.Info.{Table}
use jos.Monitor.{Request, nothing, refused, unknown, invoke, maxargs}
use jos.Monitor.Backtrace.{mon_backtrace}

-- `struct Command`, by the addresses of its strings; `func` is the index in `commands`
pub record Command : Type 0 where
  pub name : ℕ
  pub desc : ℕ

-- the symbols of the linker script that `mon_kerninfo` prints
pub record Symbols : Type 0 where
  pub start : ℕ
  pub entry : ℕ
  pub etext : ℕ
  pub edata : ℕ
  pub end : ℕ

-- `a / b` on `int`, for a positive `b`
unfoldable pub div_int : ℕ → ℕ → ℕ
div_int a b = if negative a then sub32 0 (sub32 0 a / b) else a / b

-- What a command ends with: a value as 32-bit word, or it does not return (`mon_backtrace` may
-- panic).
pub data Ending : Type 0 where
  returned : ℕ → Ending
  stopped : Ending

module _ {W : Type 0} (cputchar : ℕ → W → W) (fuel : ℕ) where
  -- `cputchar` and `cprintf` on memory with the terminal
  abbrev pub put : ℕ → Mem × W → Mem × W
  put c (m, w) = (m, cputchar c w)

  abbrev pub memory : Mem × W → Mem
  memory s = s.0

  abbrev pub print : List ℕ → List ℕ → Mem × W → Option (Mem × W)
  print = cprintf put memory fuel

  -- the loop of `mon_help`
  unfoldable pub mon_help : List Command → Mem × W → Option (Mem × W)
  mon_help [] s = some s
  mon_help (c ∷ commands) s = elim (print (codes "%s - %s\n") (c.name ∷ c.desc ∷ []) s) [
    | none ↦ none
    | some s' ↦ mon_help commands s'
  ]

  -- the line for a symbol that has a virtual and a physical address
  abbrev pub print_symbol : List ℕ → ℕ → Mem × W → Option (Mem × W)
  print_symbol fmt a = print fmt (a ∷ sub32 a kernbase ∷ [])

  unfoldable pub mon_kerninfo : Symbols → Mem × W → Option (Mem × W)
  mon_kerninfo k s = do
    s1 ← print (codes "Special kernel symbols:\n") [] s
    s2 ← print (codes "  _start                  %08x (phys)\n") (k.start ∷ []) s1
    s3 ← print_symbol (codes "  entry  %08x (virt)  %08x (phys)\n") (k.entry) s2
    s4 ← print_symbol (codes "  etext  %08x (virt)  %08x (phys)\n") (k.etext) s3
    s5 ← print_symbol (codes "  edata  %08x (virt)  %08x (phys)\n") (k.edata) s4
    s6 ← print_symbol (codes "  end    %08x (virt)  %08x (phys)\n") (k.end) s5
    print (codes "Kernel executable memory footprint: %dKB\n")
        (div_int (round_up (sub32 (k.end) (k.entry)) 1024) 1024 ∷ []) s6

  abbrev pub ends : ℕ → Option (Mem × W) → Option (Ending × (Mem × W))
  ends value none = none
  ends value (some s) = some (returned value, s)

  abbrev pub traced : Option (Bool × (Mem × W)) → Option (Ending × (Mem × W))
  traced none = none
  traced (some (true, s)) = some (returned 0, s)
  traced (some (false, s)) = some (stopped, s)

  -- The debug tables, the linker's symbols, the commands, and what `read_ebp()` returns in
  -- `mon_backtrace`, whose loop has as many rounds as `rounds` says.
  module _ (t : Table) (unknown_text : ℕ) (k : Symbols) (commands : List Command)
      (rounds ebp : ℕ) where
    -- `commands[i].func(argc, argv, tf)`
    unfoldable pub call : ℕ → Mem × W → Option (Ending × (Mem × W))
    call zero s = ends 0 (mon_help commands s)
    call (suc zero) s = ends 0 (mon_kerninfo k s)
    call (suc (suc i)) s = traced (mon_backtrace put memory fuel t unknown_text rounds ebp s)

    -- what `runcmd` does for the request that the line makes
    unfoldable pub answer : Request → Mem × W → Option (Ending × (Mem × W))
    answer nothing s = some (returned 0, s)
    answer refused s = ends 0 (print (codes "Too many arguments (max %d)\n") (maxargs ∷ []) s)
    answer (unknown argv0) s = ends 0 (print (codes "Unknown command '%s'\n") (argv0 ∷ []) s)
    answer (invoke i argv) s = call i s
