-- ===== src/Monitor/Loop.antt =====
-- `monitor` of kern/monitor.c: the loop that reads a line and runs it. The terminal is a parameter.
pub mod Session
pub mod Reply
pub mod Request
pub mod Answers
use jos.Base.{
  ℕ, zero, suc, Bool, true, false, Option, none, some, List, [], map, ◌>>=◌, if◌then◌else◌,
}
use jos.Memory.{Mem}
use jos.Printf.Flags.{negative}
use jos.Printf.Format.{codes}
use jos.Kdebug.Info.{Table}
use jos.Readline.{readline}
use jos.Monitor.{runcmd}
use jos.Monitor.Commands.{Command, Symbols, Ending, returned, stopped, print, answer}

-- Where the loop stands: at the prompt again, behind its `break`, or in a panic.
pub data Status : Type 0 where
  at_prompt left panicked : Status

-- What the monitor finds in the kernel: the debug tables with the address of "<unknown>", the
-- linker's symbols, `commands`, `%ebp`, and the address of "K> ". `rounds` is fuel for a backtrace.
pub record Kernel : Type 0 where
  pub table : Table
  pub unknown_text : ℕ
  pub symbols : Symbols
  pub commands : List Command
  pub rounds : ℕ
  pub ebp : ℕ
  pub prompt : ℕ

-- the test of `runcmd(buf, tf) < 0`
abbrev pub status_of : Ending → Status
status_of (returned value) = if negative value then left else at_prompt
status_of stopped = panicked

module _ {W : Type 0} (getchar : W → Option (ℕ × W)) (cputchar : ℕ → W → W) (fuel buf : ℕ)
    (k : Kernel) where
  -- `runcmd(buf, tf)`, with the command that it calls
  unfoldable pub run_line : ℕ → Mem × W → Option (Ending × (Mem × W))
  run_line p (m, w) = do
    parsed ← runcmd fuel (map (λ (c : Command). c.name) k.commands) m p
    answer cputchar fuel k.table k.unknown_text k.symbols k.commands k.rounds k.ebp parsed.1
        (parsed.0, w)

  -- what is done with the line that `readline` returns
  unfoldable pub handle : Option ℕ → Mem × W → Option (Status × (Mem × W))
  handle none s = some (at_prompt, s)
  handle (some p) s = run_line p s >>= λ done. some (status_of done.0, done.1)

  -- the body of `while (1)`
  unfoldable pub round : Mem × W → Option (Status × (Mem × W))
  round s = do
    read ← readline getchar cputchar fuel buf fuel (some k.prompt) s
    handle read.0 read.1

  -- so many rounds of the loop, unless it ends before
  unfoldable pub rounds : ℕ → Mem × W → Option (Status × (Mem × W))
  rounds zero s = some (at_prompt, s)
  rounds (suc n) s = elim (round s) [
    | none ↦ none
    | some (status, s') ↦ elim status [
      | at_prompt ↦ rounds n s'
      | left ↦ some (left, s')
      | panicked ↦ some (panicked, s')
    ]
  ]

  -- `monitor(tf)`, up to `n` rounds of its loop
  unfoldable pub monitor : ℕ → Mem × W → Option (Status × (Mem × W))
  monitor n s = do
    s1 ← print cputchar fuel (codes "Welcome to the JOS kernel monitor!\n") [] s
    s2 ← print cputchar fuel (codes "Type 'help' for a list of commands.\n") [] s1
    rounds n s2
