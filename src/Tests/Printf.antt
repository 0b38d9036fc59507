-- ===== src/Tests/Printf.antt =====
-- Formatted output.
use jos.Base.{
  ℕ, inl, ◌-◌, ◌≤◌, ◌≡◌, refl, Option, none, some, List, [], ◌∷◌, ◌++◌, arith, get_or, map,
}
use jos.Memory.{Mem, store}
use jos.Printf.{printnum, sprintputch}
use jos.Printf.Number.{Numeral, printnum-Numeral}
use jos.Printf.Flags.{flags}
use jos.Printf.Format.{codes, vprintfmt, emit}
use jos.Printf.Format.Emits.{Emits}
use jos.Printf.Format.Total.{vprintfmt-Emits}
use jos.Printf.Snprintf.{vsnprintf, snprintf}
use jos.Printf.Buffer.{Snprinted}
use jos.Printf.Buffer.Texts.{snprintf-texts}
use jos.Printf.Format.Pieces.{literal, dec, str, numeral}
use jos.Printf.Cprintf.{vcprintf, vcprintf_zero}

-- The characters that are printed, with "kernel" at 64 in memory.
abbrev kernel : Mem
kernel a = get_or (codes "kernel") (a - 64) 0

abbrev record_char : ℕ → List ℕ → List ℕ
record_char c s = s ++ (c ∷ [])

abbrev args : ℕ → ℕ
args i = get_or (42 ∷ 64 ∷ 255 ∷ 4294967295 ∷ 4294967293 ∷ 7 ∷ []) i 0

abbrev print : List ℕ → Option (List ℕ)
print fmt = vprintfmt record_char (λ _. kernel) 30 fmt args []

prints_numbers :
    print (codes "%05d %.9s: 0x%x %d, %e; %e%q")
    ≡ some (codes "00042 kernel: 0xff -1, invalid parameter; error 7%q")
unfolding vprintfmt flags printnum emit
prints_numbers = refl

pads_with_minus : print (codes "%-5d") ≡ some (codes "---42")
unfolding vprintfmt flags printnum emit
pads_with_minus = refl

printnum-Numeral_example : Numeral 255 16 4 48 (printnum 64 255 16 4 48)
printnum-Numeral_example =
    printnum-Numeral 64 255 16 4 48 (omega arith) (omega arith) (omega arith) (omega arith)

vprintfmt-Emits_example :
    Emits record_char [] (vprintfmt record_char (λ _ _. 0) 20 (codes "%s %08lx") args [])
vprintfmt-Emits_example =
    vprintfmt-Emits record_char (λ _ _. 0) 20 (λ _. 0 ≤ 0) (codes "%s %08lx") args (λ _. 0) []
      (λ _ _ ok. ok) (λ _. omega arith) (λ _ _ _. refl) (omega arith) (omega arith)

-- What `snprintf` leaves in a buffer of three bytes at 16, and what it returns.
abbrev printed_in : Option (Mem × ℕ) → List ℕ × ℕ
printed_in none = ([], 0)
printed_in (some (m, n)) = (map m (16 ∷ 17 ∷ 18 ∷ []), n)

snprintf_cuts :
    printed_in (snprintf 30 kernel 16 3 (codes "%cbc") (97 ∷ [])) ≡ (codes "ab" ++ (0 ∷ []), 3)
unfolding snprintf vsnprintf vprintfmt flags sprintputch store
snprintf_cuts = refl

snprintf-texts_example :
    (r : Mem × ℕ) × (snprintf 30 kernel 16 8 (codes "%s %d") (64 ∷ 420 ∷ []) ≡ some r)
    × Snprinted kernel 16 8 (codes "kernel 420") r
unfolding numeral printnum
snprintf-texts_example =
    snprintf-texts 30 kernel 16 8 (str 64 (codes "kernel") ∷ literal (codes " ") ∷ dec 420 ∷ [])
      (omega arith) (omega arith) (omega arith)
      (
        (omega arith, omega arith, omega arith, omega arith, omega arith, omega arith),
        (omega arith, (omega arith, omega arith)),
      )
      (inl (omega arith), omega arith)

vcprintf_zero_example :
    (cs : List ℕ) × (vcprintf record_char (λ _ _. 0) 20 (codes "%d") args []
      ≡ some (emit record_char cs [], 0))
vcprintf_zero_example =
    vcprintf_zero record_char (λ _ _. 0) 20 (λ _. 0 ≤ 0) (codes "%d") args (λ _. 0) []
      (λ _ _ ok. ok) (λ _. omega arith) (λ _ _ _. refl) (omega arith) (omega arith)
