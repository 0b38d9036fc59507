-- ===== src/Printf/Cprintf.antt =====
-- kern/printf.c: `vcprintf` prints with `cputchar`, which is a parameter here, as is what it works on.
use jos.Base.{ℕ, ◌≡◌, ap, ◌∙◌, Option, some, refl, List, [], ◌∷◌, ◌+◌, ◌<◌, ◌≤◌, ◌>>=◌, get_or}
use jos.Memory.{Mem}
use jos.Types.{u32}
use jos.Printf.Format.{emit, vprintfmt}
use jos.Printf.Format.Total.{vprintfmt-Emits}

module _ {S : Type 0} (cputchar : ℕ → S → S) where
  -- `putch(ch, cnt)`: `*cnt++` moves its own copy of the pointer, and the counter stays.
  unfoldable pub putch : ℕ → S × ℕ → S × ℕ
  putch ch (s, cnt) = (cputchar ch s, cnt)

  -- `vcprintf(fmt, ap)`: the state and the counter that is returned
  unfoldable pub vcprintf : (S → Mem) → ℕ → List ℕ → (ℕ → ℕ) → S → Option (S × ℕ)
  vcprintf mem text_fuel fmt ap s = vprintfmt putch (λ t. mem t.0) text_fuel fmt ap (s, 0)

  -- `cprintf(fmt, ...)` with the arguments as words; the count is not used by any caller
  unfoldable pub cprintf : (S → Mem) → ℕ → List ℕ → List ℕ → S → Option S
  cprintf mem text_fuel fmt args s =
      vcprintf mem text_fuel fmt (λ i. get_or args i 0) s >>= λ r. some (r.0)

  pub emit-putch :
      (cs : List ℕ) (s : S) (cnt : ℕ) → emit putch cs (s, cnt) ≡ (emit cputchar cs s, cnt)
  unfolding emit putch
  emit-putch [] s cnt = refl
  emit-putch (c ∷ cs) s cnt = emit-putch cs (cputchar c s) cnt

-- Where `cputchar` keeps what is needed for it (`Ok`) that every argument, taken as an address, has a
-- 0 fewer than `fuel` bytes on, `vcprintf` prints characters with `cputchar` and returns 0, however
-- many they are.
pub vcprintf_zero :
    {S : Type 0} (cputchar : ℕ → S → S) (mem : S → Mem) (fuel : ℕ) (Ok : S → Type 0) (fmt : List ℕ)
    (args len : ℕ → ℕ) (s : S)
    → ((c : ℕ) (t : S) → Ok t → Ok (cputchar c t))
    → ((i : ℕ) → len i < fuel)
    → ((i : ℕ) (t : S) → Ok t → mem t (u32 (args i) + len i) ≡ 0)
    → 20 ≤ fuel
    → Ok s
    → (cs : List ℕ) × (vcprintf cputchar mem fuel fmt args s ≡ some (emit cputchar cs s, 0))
unfolding vcprintf putch
vcprintf_zero cputchar mem fuel Ok fmt args len s keep short ends room ok =
    let run =
      vprintfmt-Emits (putch cputchar) (λ t. mem t.0) fuel (λ t. Ok t.0) fmt args len (s, 0)
        (λ c t. keep c t.0) short (λ i t. ends i t.0) room ok in
    (run.printed, run.returns ∙ ap some (emit-putch cputchar run.printed s 0))
