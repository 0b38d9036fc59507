-- ===== src/Str/Copy.antt =====
-- `strcpy` and `strcat`.
use jos.Base.{
  ℕ, zero, suc, ◌+◌, ◌<◌, ◌≡◌, ◌≢◌, ◌∙◌, Option, some, List, [], ◌∷◌, ◌++◌, arith, true, false,
  length, ◌==◌,
}
use jos.Memory.{Mem, store, Apart, SameOutside}
use jos.Memory.Text.{IsText, IsText-frame, IsText-append}
use jos.Str.{strlen, strcpy, strcat}
use jos.Str.Length.{strlen-length}

-- The run returned, `text` stands at `p`, and the `n` bytes there are all that was written.
pub record Wrote (m : Mem) (p n : ℕ) (text : List ℕ) (result : Option Mem) : Type 0 where
  pub after : Mem
  pub returns : result ≡ some after
  pub holds : IsText after p text
  pub same : SameOutside m after p n

pub store-same : (m : Mem) (p v q : ℕ) → q ≢ p → store m p v q ≡ m q
unfolding store
store-same m p v q h = ground arith

pub store_self : (m : Mem) (p v : ℕ) → store m p v p ≡ v
unfolding store
store_self m p v = ground arith

strcpy_stop :
    (fuel : ℕ) (m : Mem) (d s : ℕ) → m s ≡ 0 → strcpy (suc fuel) m d s ≡ some (store m d (m s))
unfolding strcpy
strcpy_stop fuel m d s e = let t : (m s == 0) ≡ true = ground arith in rw t

strcpy_more :
    (fuel : ℕ) (m : Mem) (d s : ℕ)
    → m s ≢ 0
    → strcpy (suc fuel) m d s ≡ strcpy fuel (store m d (m s)) (d + 1) (s + 1)
unfolding strcpy
strcpy_more fuel m d s e = let t : (m s == 0) ≡ false = ground arith in rw t

-- Between blocks that do not overlap `strcpy` copies the string with its 0, and writes nothing else.
pub strcpy-Wrote :
    (fuel : ℕ) (m : Mem) (d s : ℕ) (cs : List ℕ)
    → IsText m s cs
    → length cs < fuel
    → Apart d (length cs + 1) s (length cs + 1)
    → Wrote m d (length cs + 1) cs (strcpy fuel m d s)
strcpy-Wrote zero m d s cs t f apart = absurd (omega arith)
strcpy-Wrote (suc fuel) m d s [] t f apart = record {
  after = store m d (m s);
  returns = strcpy_stop fuel m d s t;
  holds = store_self m d (m s) ∙ t;
  same = λ q h. store-same m d (m s) q (omega arith);
}
strcpy-Wrote (suc fuel) m d s (c ∷ cs) t f apart =
    let kept : IsText (store m d (m s)) (s + 1) cs =
      IsText-frame m (store m d (m s)) (s + 1) cs (λ q h k. store-same m d (m s) q (omega arith))
        t.2 in
    let rest =
      strcpy-Wrote fuel (store m d (m s)) (d + 1) (s + 1) cs kept (omega arith) (omega arith) in
    record {
      after = rest.after;
      returns = strcpy_more fuel m d s (omega (arith, t.1)) ∙ rest.returns;
      holds = (rest.same d (omega arith) ∙ store_self m d (m s) ∙ t.0, t.1, rest.holds);
      same = λ q h. rest.same q (omega arith) ∙ store-same m d (m s) q (omega arith);
    }

strcat_behind :
    (fuel : ℕ) (m : Mem) (d s n : ℕ)
    → strlen fuel m d ≡ some n
    → strcat fuel m d s ≡ strcpy fuel m (d + n) s
unfolding strcat
strcat_behind fuel m d s n e = rw e

-- `strcat` puts the second string behind the first, over its 0, where the room behind the first
-- string does not overlap the second.
pub strcat-Wrote :
    (fuel : ℕ) (m : Mem) (d s : ℕ) (xs ys : List ℕ)
    → IsText m d xs
    → IsText m s ys
    → length xs < fuel
    → length ys < fuel
    → Apart d (length xs + length ys + 1) s (length ys + 1)
    → Wrote m d (length xs + length ys + 1) (xs ++ ys) (strcat fuel m d s)
strcat-Wrote fuel m d s xs ys t u f g apart =
    let w = strcpy-Wrote fuel m (d + length xs) s ys u g (omega arith) in
    record {
      after = w.after;
      returns = strcat_behind fuel m d s (length xs) (strlen-length fuel m d xs t f) ∙ w.returns;
      holds = IsText-append m d xs ys t w.after (λ q h k. w.same q (omega arith)) w.holds;
      same = λ q h. w.same q (omega arith);
    }
