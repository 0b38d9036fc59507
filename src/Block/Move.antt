-- ===== src/Block/Move.antt =====
-- `memmove` copies its source as it was, whichever way the blocks overlap.
use jos.Base.{
  ℕ, zero, suc, ◌+◌, ◌-◌, ◌*◌, ◌/◌, ◌%◌, ◌≤◌, ◌≡◌, ◌⊎◌, inl, inr, ap, ◌∙◌, ◌&&◌, arith, ◌==◌, ltb,
  if◌then◌else◌, Bool-cases,
}
use jos.Memory.{Mem, within}
use jos.Block.{movs, rep_up, rep_down, memmove}

-- Memory after the `n` bytes at `src` have been copied to `dst` in one go.
abbrev pub copied : Mem → ℕ → ℕ → ℕ → Mem
copied m dst src n q = if within dst n q then m (src + (q - dst)) else m q

-- One unit, and then the `w` bytes behind it.
movs-copied :
    (k w : ℕ) (m : Mem) (d s q : ℕ)
    → (d ≤ s) ⊎ (s + (k + w) ≤ d)
    → copied (movs k m d s) (d + k) (s + k) w q ≡ copied m d s (k + w) q
unfolding movs
movs-copied k w m d s q safe = ground arith

-- One unit behind `w` bytes, and then those.
movs-copied_last :
    (k w : ℕ) (m : Mem) (d s q : ℕ)
    → s ≤ d
    → copied (movs k m (d + w) (s + w)) d s w q ≡ copied m d s (w + k) q
unfolding movs
movs-copied_last k w m d s q safe = ground arith

-- Upwards it is safe to copy to a lower address, and between blocks that do not overlap.
rep_up-copied :
    (k count : ℕ) (m : Mem) (d s q : ℕ)
    → (d ≤ s) ⊎ (s + count * k ≤ d)
    → rep_up k count m d s q ≡ copied m d s (count * k) q
unfolding rep_up
rep_up-copied k zero m d s q safe = ground arith
rep_up-copied k (suc count) m d s q safe =
    rep_up-copied k count (movs k m d s) (d + k) (s + k) q (omega arith)
    ∙ movs-copied k (count * k) m d s q (omega arith)
    ∙ ap (λ (n : ℕ). copied m d s n q) (omega arith)

-- Downwards it is safe to copy to a higher address; the pointers start at the last unit.
rep_down-copied :
    (k count : ℕ) (m : Mem) (d s q : ℕ)
    → s ≤ d
    → rep_down k count m (d + count * k - k) (s + count * k - k) q ≡ copied m d s (count * k) q
unfolding rep_down
rep_down-copied k zero m d s q safe = ground arith
rep_down-copied k (suc count) m d s q safe =
    let e : (p : ℕ) → p + suc count * k - k ≡ p + count * k = λ p. omega arith in
    rw (e d, e s)
      (rep_down-copied k count (movs k m (d + count * k) (s + count * k)) d s q safe
        ∙ movs-copied_last k (count * k) m d s q safe
        ∙ ap (λ (n : ℕ). copied m d s n q) (omega arith))

-- The same by bytes, or by words where they divide the length.
module _ (m : Mem) (dst src n q : ℕ) where
  up-copied :
      (k count : ℕ)
      → count * k ≡ n
      → (dst ≤ src) ⊎ (src + n ≤ dst)
      → rep_up k count m dst src q ≡ copied m dst src n q
  up-copied k count e safe =
      rep_up-copied k count m dst src q (omega arith) ∙ ap (λ (i : ℕ). copied m dst src i q) e

  down-copied :
      (k count : ℕ)
      → count * k ≡ n
      → src ≤ dst
      → rep_down k count m (dst + n - k) (src + n - k) q ≡ copied m dst src n q
  down-copied k count e safe = rw (← e) (rep_down-copied k count m dst src q safe)

  -- `memmove` leaves at `dst` the `n` bytes that stood at `src`, also where the blocks overlap, and
  -- changes nothing else, in each of the four copying loops that it chooses from.
  pub memmove-copied : memmove m dst src n q ≡ copied m dst src n q
  unfolding memmove
  memmove-copied = elim (Bool-cases (ltb src dst && ltb dst (src + n))) [
    | inl down ↦
        rw down (elim (Bool-cases ((src + n) % 4 == 0 && (dst + n) % 4 == 0 && n % 4 == 0)) [
          | inl words ↦ rw words (down-copied 4 (n / 4) (ground arith) (ground arith))
          | inr bytes ↦ rw bytes (down-copied 1 n (omega arith) (ground arith))
        ])
    | inr up ↦ rw up (elim (Bool-cases (src % 4 == 0 && dst % 4 == 0 && n % 4 == 0)) [
      | inl words ↦ rw words (up-copied 4 (n / 4) (ground arith) (ground arith))
      | inr bytes ↦ rw bytes (up-copied 1 n (omega arith) (ground arith))
    ])
  ]
