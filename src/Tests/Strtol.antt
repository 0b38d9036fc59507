-- ===== src/Tests/Strtol.antt =====
-- Reading numbers.
use jos.Base.{◌-◌, ◌≡◌, refl, some, true, arith, get_or}
use jos.Memory.{Mem}
use jos.Types.{sub32}
use jos.Printf.{printnum}
use jos.Printf.Format.{codes}
use jos.Strtol.{strtol, skip_blanks, read_sign, read_prefix, read_digits, digit_of}
use jos.Strtol.RoundTrip.{strtol-printnum}

abbrev text : Mem
text a = get_or (codes "  -ff 0x1F,017 99") (a - 16) 0

reads_hex : strtol 20 text 22 0 ≡ some (26, 31)
unfolding strtol skip_blanks read_sign read_prefix read_digits digit_of
reads_hex = refl

reads_octal : strtol 20 text 27 0 ≡ some (30, 15)
unfolding strtol skip_blanks read_sign read_prefix read_digits digit_of
reads_octal = refl

reads_decimal : strtol 20 text 30 0 ≡ some (33, 99)
unfolding strtol skip_blanks read_sign read_prefix read_digits digit_of
reads_decimal = refl

abbrev minus_ff : Mem
minus_ff a = get_or (codes "  -ff") (a - 16) 0

printed_ff : printnum 64 255 16 0 b' ' ≡ some (codes "ff")
unfolding printnum
printed_ff = refl

strtol-printnum_example : strtol 10 minus_ff 16 16 ≡ some (21, sub32 0 255)
strtol-printnum_example =
    strtol-printnum 255 16 (omega arith) (omega arith) (omega arith) (codes "ff") printed_ff 10
      minus_ff 16 2 true (omega arith)
      (
        refl,
        omega arith,
        (refl, omega arith, (refl, omega arith, (refl, omega arith, (refl, omega arith, refl)))),
      )
