-- ===== src/Str/Bounded.antt =====
-- `strncpy` and `strlcpy`.
use Prim.Native.Nat.{min}
use jos.Base.{
  ℕ, zero, suc, ◌+◌, ◌-◌, ◌<◌, ◌≡◌, ◌≢◌, ◌⊎◌, refl, ap, ◌∙◌, true, false, List, [], ◌∷◌, arith,
  length, take, get_or, ◌==◌, if◌then◌else◌,
}
use jos.Memory.{Mem, store, within, Apart, SameOutside}
use jos.Memory.Text.{IsText, IsText-frame}
use jos.Str.{strncpy, strlcpy_loop, strlcpy}
use jos.Str.Copy.{store-same, store_self}

-- A string that the byte at `d` is not in survives a store there.
kept :
    (m : Mem) (d v s : ℕ) (cs : List ℕ)
    → (d < s) ⊎ (s + length cs < d)
    → IsText m s cs
    → IsText (store m d v) s cs
kept m d v s cs away = IsText-frame m (store m d v) s cs (λ q h k. store-same m d v q (omega arith))

-- Memory after the string has been put into `size` bytes, cut off or filled up with zeros.
unfoldable pub padded : Mem → ℕ → ℕ → List ℕ → Mem
padded m d size cs q = if within d size q then get_or cs (q - d) 0 else m q

get_or-cons :
    (c : ℕ) (cs : List ℕ) (k : ℕ)
    → get_or (c ∷ cs) k 0 ≡ (if k == 0 then c else get_or cs (k - 1) 0)
get_or-cons c cs zero = refl
get_or-cons c cs (suc k) = let e : suc k - 1 ≡ k = omega arith in rw e (ground arith)

padded_nil :
    (m : Mem) (d size v q : ℕ)
    → v ≡ 0
    → padded (store m d v) (d + 1) size [] q ≡ padded m d (suc size) [] q
unfolding padded store
padded_nil m d size v q e = ground arith

padded_cons :
    (m : Mem) (d size c q : ℕ) (cs : List ℕ)
    → padded (store m d c) (d + 1) size cs q ≡ padded m d (suc size) (c ∷ cs) q
unfolding padded store
padded_cons m d size c q cs = ground (arith, get_or-cons c cs (q - d))

strncpy_at_end :
    (m : Mem) (d s size : ℕ)
    → m s ≡ 0
    → strncpy m d s (suc size) ≡ strncpy (store m d (m s)) (d + 1) s size
unfolding strncpy
strncpy_at_end m d s size e = let t : (m s == 0) ≡ true = ground arith in rw t

strncpy_inside :
    (m : Mem) (d s size : ℕ)
    → m s ≢ 0
    → strncpy m d s (suc size) ≡ strncpy (store m d (m s)) (d + 1) (s + 1) size
unfolding strncpy
strncpy_inside m d s size e = let t : (m s == 0) ≡ false = ground arith in rw t

-- `strncpy` writes exactly `size` bytes, the string cut off or filled up with zeros, where the
-- blocks do not overlap.
strncpy-padded :
    (m : Mem) (d s size : ℕ) (cs : List ℕ) (q : ℕ)
    → IsText m s cs
    → Apart d size s (length cs + 1)
    → strncpy m d s size q ≡ padded m d size cs q
strncpy-padded m d s zero cs q t apart = unfold strncpy padded in ground arith
strncpy-padded m d s (suc size) [] q t apart = rw (strncpy_at_end m d s size t) (
    strncpy-padded (store m d (m s)) (d + 1) s size [] q (kept m d (m s) s [] (omega arith) t)
      (omega arith)
    ∙ padded_nil m d size (m s) q t)
strncpy-padded m d s (suc size) (c ∷ cs) q t apart =
    rw (strncpy_inside m d s size (omega (arith, t.1, t.0))) (
      strncpy-padded (store m d (m s)) (d + 1) (s + 1) size cs q
        (kept m d (m s) (s + 1) cs (omega arith) t.2) (omega arith)
      ∙ padded_cons m d size (m s) q cs
      ∙ ap (λ x. padded m d (suc size) (x ∷ cs) q) t.0)

-- What `strlcpy` leaves: memory and the address of the 0.
record Ends (m : Mem) (d size : ℕ) (cs : List ℕ) (result : Mem × ℕ) : Type 0 where
  end : result.1 ≡ d + min size (length cs)
  holds : IsText result.0 d (take size cs)
  same : SameOutside m result.0 d (min size (length cs) + 1)

strlcpy_loop_more :
    (m : Mem) (d s size : ℕ)
    → m s ≢ 0
    → strlcpy_loop m d s (suc size) ≡ strlcpy_loop (store m d (m s)) (d + 1) (s + 1) size
unfolding strlcpy_loop
strlcpy_loop_more m d s size e = let t : (m s == 0) ≡ false = ground arith in rw t

strlcpy_loop_end :
    (m : Mem) (d s size : ℕ) → m s ≡ 0 → strlcpy_loop m d s (suc size) ≡ (store m d 0, d)
unfolding strlcpy_loop
strlcpy_loop_end m d s size e = let t : (m s == 0) ≡ true = ground arith in rw t

strlcpy_loop-Ends :
    (m : Mem) (d s size : ℕ) (cs : List ℕ)
    → IsText m s cs
    → Apart d (size + 1) s (length cs + 1)
    → Ends m d size cs (strlcpy_loop m d s size)
strlcpy_loop-Ends m d s zero cs t apart =
    unfold strlcpy_loop in
    record {
      end = omega arith;
      holds = store_self m d 0;
      same = λ q h. store-same m d 0 q (omega arith);
    }
strlcpy_loop-Ends m d s (suc size) [] t apart = rw (strlcpy_loop_end m d s size t) (record {
  end = omega arith;
  holds = store_self m d 0;
  same = λ q h. store-same m d 0 q (omega arith);
})
strlcpy_loop-Ends m d s (suc size) (c ∷ cs) t apart =
    let rest =
      strlcpy_loop-Ends (store m d (m s)) (d + 1) (s + 1) size cs
        (kept m d (m s) (s + 1) cs (omega arith) t.2) (omega arith) in
    rw (strlcpy_loop_more m d s size (omega (arith, t.1, t.0))) (record {
      end = omega (arith, rest.end);
      holds = (rest.same d (omega arith) ∙ store_self m d (m s) ∙ t.0, t.1, rest.holds);
      same = λ q h. rest.same q (omega arith) ∙ store-same m d (m s) q (omega arith);
    })

-- For a positive `size`, and a string that does not overlap the `size` bytes at `d`, `strlcpy` writes
-- the first `size - 1` characters of the string with a 0 behind them, inside the `size` bytes, and
-- returns how many characters those are.
pub strlcpy_lem :
    (m : Mem) (d s size : ℕ) (cs : List ℕ)
    → 0 < size
    → IsText m s cs
    → Apart d size s (length cs + 1)
    → let r = strlcpy m d s size in
      (r.1 ≡ min (size - 1) (length cs))
      × IsText r.0 d (take (size - 1) cs)
      × SameOutside m r.0 d size
unfolding strlcpy
strlcpy_lem m d s zero cs pos t apart = absurd (omega arith)
strlcpy_lem m d s (suc size) cs pos t apart =
    let e = strlcpy_loop-Ends m d s size cs t (omega arith) in
    let f : suc size - 1 ≡ size = omega arith in
    rw f (omega (arith, e.end), e.holds, λ q h. e.same q (omega arith))
