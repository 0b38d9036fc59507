-- ===== src/Monitor/Backtrace.antt =====
-- `mon_backtrace` of kern/monitor.c. What it prints with is a parameter, as is the memory that it
-- reads: the frames, the stabs table and the strings, which are not the console's own variables.
pub mod Text
pub mod Frames
pub mod User
use jos.Base.{
  ℕ, zero, suc, ◌+◌, ◌-◌, ◌*◌, Bool, true, false, Option, none, some, List, [], ◌∷◌, ◌==◌, ◌>>=◌,
  get_or,
}
use jos.Memory.{Mem}
use jos.Boot.{load32}
use jos.Printf.Format.{codes}
use jos.Printf.Cprintf.{cprintf}
use jos.Kdebug.Info.{
  Table, Eipdebuginfo, Outcome, user_address, not_found, found, out_of_table, debuginfo_eip,
}

module _ {S : Type 0} (cputchar : ℕ → S → S) (mem : S → Mem) (fuel : ℕ) where
  -- the loop over the five arguments, with the number that is left
  unfoldable pub print_args : ℕ → ℕ → ℕ → S → Option S
  print_args zero i ebp s = some s
  print_args (suc left) i ebp s =
      elim (cprintf cputchar mem fuel (codes "%08x ") (load32 (mem s) (ebp + 8 + 4 * i) ∷ []) s) [
        | none ↦ none
        | some s' ↦ print_args left (i + 1) ebp s'
      ]

  -- the line of a frame
  unfoldable pub print_frame : ℕ → S → Option S
  print_frame ebp s = do
    s1 ← cprintf cputchar mem fuel (codes "ebp %08x ") (ebp ∷ []) s
    s2 ← cprintf cputchar mem fuel (codes "eip %08x ") (load32 (mem s1) (ebp + 4) ∷ []) s1
    s3 ← cprintf cputchar mem fuel (codes "args ") [] s2
    s4 ← print_args 5 0 ebp s3
    cprintf cputchar mem fuel (codes "\n") [] s4

  module _ (t : Table) (unknown : ℕ) where
    -- what is done with the result of `debuginfo_eip`; `false` where that does not return
    unfoldable pub print_info : Outcome → S → Option (Bool × S)
    print_info user_address s = some (false, s)
    print_info out_of_table s = some (false, s)
    print_info (not_found info) s = some (true, s)
    print_info (found info) s =
        cprintf cputchar mem fuel (codes "%s:%d: %.*s+%d\n")
          (info.eip_file ∷ info.eip_line ∷ info.eip_fn_namelen ∷ info.eip_fn_name ∷ info.eip_line
            ∷ [])
          s
        >>= λ s'. some (true, s')

    unfoldable pub print_location : ℕ → S → Option (Bool × S)
    print_location eip s =
        debuginfo_eip t fuel (mem s) unknown eip >>= λ outcome. print_info outcome s

    -- the body of the loop behind the frame's line; `eip` is read behind the first two `cprintf`
    unfoldable pub finish_frame : Bool × S → Option (Bool × S)
    finish_frame (false, s) = some (false, s)
    finish_frame (true, s) = cprintf cputchar mem fuel (codes "\n") [] s >>= λ s'. some (true, s')

    unfoldable pub frame : ℕ → S → Option (Bool × S)
    frame ebp s = do
      s1 ← print_frame ebp s
      s2 ← print_location (load32 (mem s1) (ebp + 4)) s1
      finish_frame s2

    -- `while(ebp != 0)`, on fuel
    unfoldable pub frames : ℕ → ℕ → S → Option (Bool × S)
    frames zero ebp s = none
    frames (suc rounds) ebp s = elim (ebp == 0) [
      | true ↦ some (true, s)
      | false ↦ elim (frame ebp s) [
        | none ↦ none
        | some (go_on, s') ↦ elim go_on [
          | true ↦ frames rounds (load32 (mem s') ebp) s'
          | false ↦ some (false, s')
        ]
      ]
    ]

    -- `mon_backtrace`; `ebp` is what `read_ebp()` returns
    unfoldable pub mon_backtrace : ℕ → ℕ → S → Option (Bool × S)
    mon_backtrace rounds ebp s = do
      s1 ← cprintf cputchar mem fuel (codes "Stack backtrace\n") [] s
      frames rounds ebp s1
