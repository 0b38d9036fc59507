-- ===== src/Str/Length.antt =====
-- `strlen` and `strnlen`.
use jos.Base.{ℕ, zero, suc, ◌+◌, ◌<◌, ◌≡◌, ap, ◌∙◌, some, List, [], ◌∷◌, arith, length}
use Prim.Native.Nat.{min}
use jos.Memory.{Mem}
use jos.Memory.Text.{IsText}
use jos.Str.{strlen_loop, strlen, strnlen_loop, strnlen}

strlen_loop-length :
    (fuel : ℕ) (m : Mem) (s n : ℕ) (cs : List ℕ)
    → IsText m s cs
    → length cs < fuel
    → strlen_loop fuel m s n ≡ some (n + length cs)
unfolding strlen_loop
strlen_loop-length zero m s n cs t h = absurd (omega arith)
strlen_loop-length (suc fuel) m s n [] t h = ground arith
strlen_loop-length (suc fuel) m s n (c ∷ cs) t h =
    ground (arith, strlen_loop-length fuel m (s + 1) (n + 1) cs)

-- `strlen` counts the characters of a string.
pub strlen-length :
    (fuel : ℕ) (m : Mem) (s : ℕ) (cs : List ℕ)
    → IsText m s cs
    → length cs < fuel
    → strlen fuel m s ≡ some (length cs)
unfolding strlen
strlen-length fuel m s cs t h = strlen_loop-length fuel m s 0 cs t h ∙ ap some (omega arith)

strnlen_loop-min :
    (m : Mem) (s size n : ℕ) (cs : List ℕ)
    → IsText m s cs
    → strnlen_loop m s size n ≡ n + min size (length cs)
unfolding strnlen_loop
strnlen_loop-min m s zero n cs t = ground arith
strnlen_loop-min m s (suc size) n [] t = ground arith
strnlen_loop-min m s (suc size) n (c ∷ cs) t =
    ground (arith, strnlen_loop-min m (s + 1) size (n + 1) cs)

-- `strnlen` counts them up to `size`.
pub strnlen-min :
    (m : Mem) (s size : ℕ) (cs : List ℕ) → IsText m s cs → strnlen m s size ≡ min size (length cs)
unfolding strnlen
strnlen-min m s size cs t = strnlen_loop-min m s size 0 cs t ∙ ground arith
