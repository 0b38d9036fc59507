-- ===== src/Tests/Strings.antt =====
-- Strings.
use jos.Base.{◌≡◌, [], ◌∷◌, arith, get_or}
use jos.Memory.{Mem, SameOutside}
use jos.Memory.Text.{IsText}
use jos.Str.{strcat, strlcpy}
use jos.Str.Copy.{Wrote, strcat-Wrote}
use jos.Str.Bounded.{strlcpy_lem}

-- "ab" at 0 and "abc" at 8
abbrev texts : Mem
texts a = get_or (97 ∷ 98 ∷ 0 ∷ 1 ∷ 1 ∷ 1 ∷ 1 ∷ 1 ∷ 97 ∷ 98 ∷ 99 ∷ 0 ∷ []) a 0

ab-IsText : IsText texts 0 (97 ∷ 98 ∷ [])
ab-IsText = omega arith

abc-IsText : IsText texts 8 (97 ∷ 98 ∷ 99 ∷ [])
abc-IsText = omega arith

strcat-Wrote_example : Wrote texts 0 6 (97 ∷ 98 ∷ 97 ∷ 98 ∷ 99 ∷ []) (strcat 10 texts 0 8)
strcat-Wrote_example =
    strcat-Wrote 10 texts 0 8 (97 ∷ 98 ∷ []) (97 ∷ 98 ∷ 99 ∷ []) ab-IsText abc-IsText (omega arith)
      (omega arith) (omega arith)

strlcpy_lem_example :
    let r = strlcpy texts 3 8 3 in
    (r.1 ≡ 2) × IsText r.0 3 (97 ∷ 98 ∷ []) × SameOutside texts r.0 3 3
strlcpy_lem_example =
    strlcpy_lem texts 3 8 3 (97 ∷ 98 ∷ 99 ∷ []) (omega arith) abc-IsText (omega arith)
