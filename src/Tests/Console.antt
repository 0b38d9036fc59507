-- ===== src/Tests/Console.antt =====
-- The console.
use jos.Base.{ℕ, zero, suc, ◌≡◌, refl, Option, none, some, arith, [], ◌∷◌, replicate, set, bit_xor}
use jos.Console.Buffer.{Cons, consbufsize, put, cons_intr}
use jos.Console.Buffer.Queue.{IsValid, contents, contents-put_full}
use jos.Console.Buffer.Drain.{Delivers, stop, more, Drained, arrived, cons_intr-Drained}
use jos.Console.Screen.{Screen, cga_putc, crt_size, blank}
use jos.Console.Screen.Bounds
use jos.Console.Screen.Bounds.{cga_putc-IsValid}
use jos.Console.Screen.Layout.{cga_putc_newline, cga_putc_backspace}
use jos.Console.Keyboard.{decode, capslock}
use jos.Console.Keyboard.Case.{other_case, capslock-other_case}

abbrev fresh : Cons
fresh = record { buf = replicate consbufsize 0; rpos = 0; wpos = 0 }

abbrev waiting : Cons
waiting = record { buf = set (replicate consbufsize 0) 511 65; rpos = 511; wpos = 0 }

abbrev full : Cons
full = record { buf = replicate consbufsize 0; rpos = 1; wpos = 0 }

fresh-IsValid : IsValid fresh
fresh-IsValid = record { storage = refl; rpos_in = omega arith; wpos_in = omega arith }

waiting-IsValid : IsValid waiting
waiting-IsValid = record { storage = refl; rpos_in = omega arith; wpos_in = omega arith }

full-IsValid : IsValid full
full-IsValid = record { storage = refl; rpos_in = omega arith; wpos_in = omega arith }

contents-put_full_example : contents (put 66 full) ≡ []
contents-put_full_example = contents-put_full 66 full-IsValid (omega arith) refl

-- A device that has the values 3, 2 and 1 to give, and a 0 between them.
abbrev device : ℕ → Option ℕ × ℕ
device zero = (none, 0)
device (suc zero) = (some 104, 0)
device (suc (suc zero)) = (some 0, 1)
device (suc (suc (suc n))) = (some 105, suc (suc n))

delivers : Delivers device 3 (105 ∷ 0 ∷ 104 ∷ []) 0
delivers = more 105 refl (more 0 refl (more 104 refl (stop refl)))

cons_intr-Drained_example : Drained device 0 fresh (105 ∷ 0 ∷ 104 ∷ []) (cons_intr device 9 3 fresh)
unfolding arrived
cons_intr-Drained_example =
    cons_intr-Drained device delivers 9 fresh (omega arith) fresh-IsValid (omega arith)

-- "A" has been typed in the first cell.
abbrev typed : Screen
typed = record { crt_buf = set (replicate crt_size blank) 0 0x0741; crt_pos = 1 }

abbrev at_end : Screen
at_end = record { crt_buf = replicate crt_size blank; crt_pos = 1999 }

typed-IsValid : Bounds.IsValid typed
typed-IsValid = record { storage = refl; in_range = omega arith }

at_end-IsValid : Bounds.IsValid at_end
at_end-IsValid = record { storage = refl; in_range = omega arith }

cga_putc-IsValid_example : Bounds.IsValid (cga_putc 0x41 at_end)
cga_putc-IsValid_example = cga_putc-IsValid 0x41 at_end-IsValid

cga_putc_newline_example : cga_putc 0x0a typed ≡ record typed { crt_pos = 80 }
cga_putc_newline_example = cga_putc_newline typed typed-IsValid

cga_putc_backspace_example :
    cga_putc 0x08 (cga_putc 0x42 typed)
    ≡ record { crt_buf = set typed.crt_buf 1 blank; crt_pos = 1 }
cga_putc_backspace_example =
    cga_putc_backspace 0x42 typed (omega arith) refl typed-IsValid (omega arith)

capslock-other_case_example :
    (decode (bit_xor 0 capslock) 0x1e).char ≡ other_case (decode 0 0x1e).char
capslock-other_case_example = capslock-other_case 0 0x1e (omega arith) (omega arith)

types_a : (decode 0 0x1e).char ≡ b'a'
unfolding decode
types_a = refl
