-- ===== src/Console/Keyboard/Case.antt =====
-- Caps Lock.
use jos.Base.{
  ℕ, ◌+◌, ◌*◌, ◌/◌, ◌%◌, ◌<◌, ◌≡◌, refl, ◌∙◌, Bool, true, List, [], ◌∷◌, bit_xor, ◌==◌, ==_iff, ltb,
  if◌then◌else◌, arith,
}
use jos.Base.Bits.{all_below, all_below_sound}
use jos.Printf.Format.{codes}
use jos.Console.Keyboard.{decode, capslock, swap_case}

-- The partner of a character in two alphabets; one that is in neither has none.
abbrev partner : List ℕ → List ℕ → ℕ → ℕ
partner [] us c = c
partner (l ∷ ls) [] c = c
partner (l ∷ ls) (u ∷ us) c = if c == l then u else if c == u then l else partner ls us c

-- A letter in the other case; any other character is left as it is.
abbrev pub other_case : ℕ → ℕ
other_case = partner (codes "abcdefghijklmnopqrstuvwxyz") (codes "ABCDEFGHIJKLMNOPQRSTUVWXYZ")

swap_case_table : all_below 256 (λ c. swap_case c == other_case c) ≡ true
unfolding all_below swap_case
swap_case_table = refl

swap_case-other_case : (c : ℕ) → c < 256 → swap_case c ≡ other_case c
swap_case-other_case c h = (==_iff _ _).0 (all_below_sound 256 _ c swap_case_table h)

char_table : all_below 16384 (λ n. ltb (decode (n / 256) (n % 256)).char 256) ≡ true
unfolding all_below decode
char_table = refl

abbrev is_swapped : ℕ → ℕ → Bool
is_swapped s c = (decode (bit_xor s capslock) c).char == swap_case (decode s c).char

swapped_table : all_below 16384 (λ n. is_swapped (n / 256) (n % 256)) ≡ true
unfolding all_below decode
swapped_table = refl

-- The Caps Lock flag changes a letter that a key gives to the same letter in the other case, in every
-- state of the other modifiers, and changes no other character.
pub capslock-other_case :
    (s c : ℕ)
    → s < 64
    → c < 256
    → (decode (bit_xor s capslock) c).char ≡ other_case (decode s c).char
capslock-other_case s c hs hc =
    let n = 256 * s + c in
    let e : n / 256 ≡ s = omega arith in
    let f : n % 256 ≡ c = omega arith in
    let h = all_below_sound 16384 _ n swapped_table (omega arith) in
    let h' : is_swapped s c ≡ true = rw (e, f) at h in
    let b = all_below_sound 16384 _ n char_table (omega arith) in
    let b' : ltb (decode s c).char 256 ≡ true = rw (e, f) at b in
    (==_iff _ _).0 h' ∙ swap_case-other_case (decode s c).char (ground arith)
