-- ===== src/Tests/Init.antt =====
-- The kernel's start, and panics.
use jos.Base.{ℕ, ◌≡◌, refl, inl, true, false, some, List, [], ◌∷◌, ◌++◌, arith, get_or}
use jos.Memory.{SameOutside, within}
use jos.Block.{memset}
use jos.Block.Fill.{memset-filled}
use jos.Printf.{printnum}
use jos.Printf.Format.{codes, emit, vprintfmt, error_string}
use jos.Printf.Format.Pieces.{
  literal, hex, dec, oct, uns, low_hex, ptr, char, err, str, cut_str, null_str, percent, numeral,
}
use jos.Printf.Format.Pieces.Printed.{vprintfmt-texts}
use jos.Monitor.Backtrace.Text.{stack_text}
use jos.Monitor.Loop.Request.{Environment-same}
use jos.Monitor.Loop.Session.{Environment, welcome}
use jos.Monitor.Loop.Answers.{Serves}
use jos.Init.{Cpu, panic_in_monitor, test_backtrace, i386_init}
use jos.Init.Nested.{entered, left, test_backtrace-nested}
use jos.Init.Dead.{dead_cpu, Survives, panic-Survives}
use jos.Init.Start.{boot_text, i386_init-Serves}
use jos.Console.Devices.{getchar}
use jos.Console.Typing.{cputchar}
use jos.Console.Typing.Reader.{console}
use jos.Tests.Typing.{ports, received, start_console, machine, machine-Typed}
use jos.Tests.Session.{memory, kernel, environment, type_in, show, typing}

abbrev show_char : ℕ → List ℕ → List ℕ
show_char c s = s ++ (c ∷ [])

abbrev trace : List ℕ
trace = stack_text memory 0x1000 ([] ∷ [])

-- The BSS is the line buffer.
bss_same : SameOutside memory (memset memory 0x2000 0 0x400) 0x2000 1024
bss_same q h =
    let out : within 0x2000 0x400 q ≡ false = ground arith in
    rw (memset-filled memory 0x2000 0 0x400 q, out) refl

cleared : Environment 2048 0x2000 kernel trace (memset memory 0x2000 0 0x400)
cleared = Environment-same (memset memory 0x2000 0 0x400) bss_same environment

test_backtrace-nested_example :
    test_backtrace show 2048 kernel 5 (memory, ([], []))
    ≡ some (
      true,
      (memory, emit show (entered 5 ++ ((codes "Stack backtrace\n" ++ trace) ++ left 5)) ([], [])),
    )
test_backtrace-nested_example =
    test_backtrace-nested show 2048 0x2000 kernel trace memory environment 5 ([], []) (omega arith)

i386_init-Serves_example :
    Serves
      (getchar ports 64 1)
      (cputchar ports)
      2048
      0x2000
      kernel
      trace
      (console ports received 64 0)
      ((codes "help", 10) ∷ (codes "a", 10) ∷ [])
      []
      (
        memset memory 0x2000 0 0x400,
        emit (cputchar ports) (boot_text trace) (start_console machine),
      )
      (i386_init
        (cputchar ports)
        2048
        (getchar ports 64 1)
        start_console
        0x2000
        kernel
        0x2000
        0x2400
        0x1000
        2
        (memory, machine))
i386_init-Serves_example =
    i386_init-Serves (getchar ports 64 1) (cputchar ports) 2048 0x2000 kernel trace trace
      start_console 0x2000 0x2400 0x1000 (console ports received 64 0)
      ((codes "help", 10) ∷ (codes "a", 10) ∷ []) [] memory machine cleared cleared
      (
        omega arith,
        omega arith,
        inl refl,
        omega arith,
        (omega arith, omega arith, inl refl, omega arith, omega arith),
      )
      machine-Typed

abbrev running : Cpu
running = record { panicstr = 0; interrupts = true; direction = true }

panic-Survives_example :
    let input = codes "help" ++ (10 ∷ []) in
    let message = codes "kernel panic at help:7: bad 42\n" in
    Survives type_in show 2048 0x2000 kernel trace typing
      ((codes "help", 10) ∷ [])
      []
      (dead_cpu 0x280)
      (memory, emit show welcome (emit show message (input, [])))
      (panic_in_monitor show 2048 type_in 0x2000 kernel 1 0x140 7 0x280
        (codes "bad %d")
        (42 ∷ [])
        (running, (memory, (input, []))))
    × Survives type_in show 2048 0x2000 kernel trace typing
        ((codes "help", 10) ∷ [])
        []
        (dead_cpu 0x280)
        (memory, emit show welcome (input, []))
        (panic_in_monitor show 2048 type_in 0x2000 kernel 1 0x140 9 0x180
          (codes "%s")
          (0x140 ∷ [])
          (dead_cpu 0x280, (memory, (input, []))))
unfolding numeral printnum typing
panic-Survives_example =
    panic-Survives type_in show 2048 0x2000 kernel trace typing memory environment
      ((codes "help", 10) ∷ []) [] (omega arith, omega arith, inl refl, omega arith, omega arith)
      0x140 7 0x280 (codes "help") (literal (codes "bad ") ∷ dec 42 ∷ []) running
      (codes "help" ++ (10 ∷ []), [])
      (omega arith, omega arith, omega arith, omega arith, omega arith, omega arith) (omega arith)
      (omega arith) refl (omega arith) refl 0x140 9 0x180 (codes "%s") (0x140 ∷ [])

-- Every kind of piece at once.
vprintfmt-texts_example :
    vprintfmt show_char
      (λ _. memory)
      64
      (codes "%08x, %d, %o, %s, %.*s, %u, %x, %p, %c, %e, %e, %s, %%")
      (λ i.
        get_or
          (0xbeef ∷ 4294967254 ∷ 8 ∷ 0x140 ∷ 4 ∷ 0x1c0 ∷ 4294967254 ∷ 255 ∷ 0xf0100000 ∷ b'z'
            ∷ 4294967292 ∷ 99 ∷ 0 ∷ [])
          i
          0)
      []
    ≡ some (
        codes
          "0000beef, -42, 10, help, kern, 4294967254, ff, 0xf0100000, z, out of memory, error 99, (null), %")
unfolding numeral printnum emit error_string
vprintfmt-texts_example =
    let comma = literal (codes ", ") in
    vprintfmt-texts show_char (λ _. memory) 64 (λ _ _. refl)
      (hex 0xbeef
        ∷ comma
        ∷ dec 4294967254
        ∷ comma
        ∷ oct 8
        ∷ comma
        ∷ str 0x140 (codes "help")
        ∷ comma
        ∷ cut_str 4 0x1c0 (codes "kerninfo")
        ∷ comma
        ∷ uns 4294967254
        ∷ comma
        ∷ low_hex 255
        ∷ comma
        ∷ ptr 0xf0100000
        ∷ comma
        ∷ char b'z'
        ∷ comma
        ∷ err 4294967292
        ∷ comma
        ∷ err 99
        ∷ comma
        ∷ null_str
        ∷ comma
        ∷ percent
        ∷ [])
      [] (omega arith)
