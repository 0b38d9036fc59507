-- ===== src/Block/Fill.antt =====
-- `memset` by words is `memset` by bytes.
use jos.Base.{
  ℕ, zero, suc, ◌+◌, ◌*◌, ◌/◌, ◌%◌, ◌^◌, ◌<◌, ◌≡◌, inl, inr, ap, ◌∙◌, ◌&&◌, arith, ◌==◌,
  if◌then◌else◌, Bool-cases,
}
use jos.Base.Bits.{bit_or_fields, bit_and_mask}
use jos.Memory.{Mem, store, within}
use jos.Block.{stosb, stosl, store32, spread, memset}

abbrev pub filled : Mem → ℕ → ℕ → ℕ → Mem
filled m p b n q = if within p n q then b else m q

stosb-filled :
    (count : ℕ) (m : Mem) (p a q : ℕ) → stosb count m p a q ≡ filled m p (a % 2 ^ 8) count q
unfolding stosb store
stosb-filled zero m p a q = ground arith
stosb-filled (suc count) m p a q =
    stosb-filled count (store m p (a % 2 ^ 8)) (p + 1) a q ∙ ground arith

spread-sum : (c : ℕ) → c < 256 → spread c ≡ c * 0x1010101
unfolding spread
spread-sum c h =
    let e : c * 2 ^ 24 + c * 2 ^ 16 ≡ (c * 2 ^ 8 + c) * 2 ^ 16 = omega arith in
    let f : (c * 2 ^ 8 + c) * 2 ^ 16 + c * 2 ^ 8 ≡ (c * 2 ^ 16 + c * 2 ^ 8 + c) * 2 ^ 8 =
      omega arith in
    rw
      (
        bit_or_fields 24 c (c * 2 ^ 16) (omega arith),
        e,
        bit_or_fields 16 (c * 2 ^ 8 + c) (c * 2 ^ 8) (omega arith),
        f,
        bit_or_fields 8 (c * 2 ^ 16 + c * 2 ^ 8 + c) c h,
      )
      (omega arith)

store32-filled : (m : Mem) (p c q : ℕ) → c < 256 → store32 m p (spread c) q ≡ filled m p c 4 q
unfolding store32
store32-filled m p c q h = ground (arith, spread-sum c h)

stosl-filled :
    (count : ℕ) (m : Mem) (p c q : ℕ)
    → c < 256
    → stosl count m p (spread c) q ≡ filled m p c (count * 4) q
unfolding stosl
stosl-filled zero m p c q h = ground arith
stosl-filled (suc count) m p c q h =
    stosl-filled count (store32 m p (spread c)) (p + 4) c q h
    ∙ ground (arith, store32-filled m p c q h)

-- `memset` puts the low byte of `c` into each of the `n` bytes from `v` on and changes nothing else,
-- whether it stores bytes or words.
pub memset-filled : (m : Mem) (v c n q : ℕ) → memset m v c n q ≡ filled m v (c % 2 ^ 8) n q
unfolding memset
memset-filled m v c n q = elim (Bool-cases (n == 0)) [
  | inl none ↦ rw none (ground arith)
  | inr some ↦ rw some (elim (Bool-cases (v % 4 == 0 && n % 4 == 0)) [
    | inl words ↦
        rw (words, bit_and_mask 8 c)
          (stosl-filled (n / 4) m v (c % 2 ^ 8) q (omega arith)
            ∙ ap (λ (i : ℕ). filled m v (c % 2 ^ 8) i q) (ground arith))
    | inr bytes ↦ rw bytes (stosb-filled n m v c q)
  ])
]
