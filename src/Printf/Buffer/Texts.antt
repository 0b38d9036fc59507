-- ===== src/Printf/Buffer/Texts.antt =====
-- What `snprintf` leaves in its buffer for a format that is made of pieces.
use jos.Base.{ℕ, ◌+◌, ◌^◌, ◌<◌, ◌≡◌, ◌≢◌, ◌∙◌, some, List, [], ◌∷◌, arith, length, get_or, ap}
use jos.Memory.{Mem, SameOutside, Apart}
use jos.Memory.Text.{IsText-frame}
use jos.Printf.{sprintputch}
use jos.Printf.Format.Pieces.{
  Piece, literal, hex, dec, oct, uns, low_hex, ptr, char, err, str, cut_str, null_str, percent,
  formats, arguments, texts, IsPlaced, ArePieces,
}
use jos.Printf.Format.Pieces.Printed.{vprintfmt-texts_on}
use jos.Printf.Snprintf.{snprintf, null_terminate, new_buffer}
use jos.Printf.Buffer.{
  Snprinted, Printing, sprintputch-Printing, new_buffer-Printing, null_terminate-Snprinted,
  vsnprintf_run,
}

-- The strings of the pieces lie outside the `n` bytes from `p` on.
abbrev pub AreApart : ℕ → ℕ → List Piece → Type 0
AreApart p n [] = 0 < 1
AreApart p n (str a cs ∷ ps) = Apart p n a (length cs + 1) × AreApart p n ps
AreApart p n (cut_str k a cs ∷ ps) = Apart p n a (length cs + 1) × AreApart p n ps
AreApart p n (q ∷ ps) = AreApart p n ps

module _ (m m' : Mem) (p n fuel : ℕ) (same : SameOutside m m' p n) where
  IsPlaced-kept :
      (a : ℕ) (cs : List ℕ)
      → Apart p n a (length cs + 1)
      → IsPlaced m fuel a cs
      → IsPlaced m' fuel a cs
  IsPlaced-kept a cs apart ok = (
    ok.0,
    ok.1,
    IsText-frame m m' a cs (λ q h k. same q (omega (arith, apart))) ok.2,
    ok.3,
    ok.4,
    ok.5,
  )

  ArePieces-kept : (ps : List Piece) → AreApart p n ps → ArePieces m fuel ps → ArePieces m' fuel ps
  ArePieces-kept [] apart ok = ok
  ArePieces-kept (str a cs ∷ ps) apart ok =
      (IsPlaced-kept a cs apart.0 ok.0, ArePieces-kept ps apart.1 ok.1)
  ArePieces-kept (cut_str k a cs ∷ ps) apart ok =
      ((ok.0.0, IsPlaced-kept a cs apart.0 ok.0.1), ArePieces-kept ps apart.1 ok.1)
  ArePieces-kept (literal cs ∷ ps) apart ok = (ok.0, ArePieces-kept ps apart ok.1)
  ArePieces-kept (hex x ∷ ps) apart ok = (ok.0, ArePieces-kept ps apart ok.1)
  ArePieces-kept (dec x ∷ ps) apart ok = (ok.0, ArePieces-kept ps apart ok.1)
  ArePieces-kept (oct x ∷ ps) apart ok = (ok.0, ArePieces-kept ps apart ok.1)
  ArePieces-kept (uns x ∷ ps) apart ok = (ok.0, ArePieces-kept ps apart ok.1)
  ArePieces-kept (low_hex x ∷ ps) apart ok = (ok.0, ArePieces-kept ps apart ok.1)
  ArePieces-kept (ptr x ∷ ps) apart ok = (ok.0, ArePieces-kept ps apart ok.1)
  ArePieces-kept (char x ∷ ps) apart ok = (ok.0, ArePieces-kept ps apart ok.1)
  ArePieces-kept (err x ∷ ps) apart ok = (ok.0, ArePieces-kept ps apart ok.1)
  ArePieces-kept (null_str ∷ ps) apart ok = (ok.0, ArePieces-kept ps apart ok.1)
  ArePieces-kept (percent ∷ ps) apart ok = (ok.0, ArePieces-kept ps apart ok.1)

-- For a buffer of `n` bytes, with `n` a positive `int`, and a format that is made of pieces whose
-- strings stand in memory outside the buffer, `snprintf` returns. It has written only to the buffer,
-- kept the first `n - 1` characters of the texts of the pieces, ended them with a 0, and returns how
-- many characters the texts have.
pub snprintf-texts :
    (fuel : ℕ) (m : Mem) (p n : ℕ) (ps : List Piece)
    → p ≢ 0
    → 0 < n
    → n < 2 ^ 31
    → ArePieces m fuel ps
    → AreApart p n ps
    → (r : Mem × ℕ) × (snprintf fuel m p n (formats ps) (arguments ps) ≡ some r)
      × Snprinted m p n (texts ps) r
unfolding snprintf
snprintf-texts fuel m p n ps not_null some_room small ok apart =
    let printed =
      vprintfmt-texts_on sprintputch (λ s. s.0) fuel (Printing m p n) (sprintputch-Printing m p n)
        ps (m, new_buffer p n) (new_buffer-Printing m p n some_room)
        (λ t h. ArePieces-kept m (t.0) p n fuel h.same ps apart ok) in
    let (r, ended, left) = null_terminate-Snprinted m p n (texts ps) some_room in
    (
      r,
      vsnprintf_run fuel m p n (formats ps) (λ i. get_or (arguments ps) i 0) not_null some_room
            small
          ∙ ap null_terminate printed
          ∙ ended,
      left,
    )
