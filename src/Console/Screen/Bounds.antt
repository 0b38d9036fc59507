-- ===== src/Console/Screen/Bounds.antt =====
-- The display never writes behind video memory.
use jos.Base.{
  ℕ, zero, suc, [], ◌∷◌, refl, set, ◌≤◌, ◌+◌, ◌-◌, ◌<◌, ◌≡◌, ◌∙◌, List, ◌++◌, arith, length, take,
  drop, replicate, length-set, length-append, length-take, length-drop, length-replicate, leb, ltb,
  ◌==◌, bit_and, Bool-cases, inl, inr,
}
use jos.Console.Screen.{
  crt_cols, crt_size, Screen, backspace, carriage_return, newline, write, scroll, dispatch,
  put_blank, tab, put_cell, cga_putc, with_attribute, blank,
}

pub record IsValid (s : Screen) : Type 0 where
  pub storage : length s.crt_buf ≡ crt_size
  pub in_range : s.crt_pos < crt_size

-- Between the `switch` and the scrolling `crt_pos` may lie one row too far.
pub record IsNearly (s : Screen) : Type 0 where
  pub storage : length s.crt_buf ≡ crt_size
  pub in_range : s.crt_pos < crt_size + crt_cols

pub IsNearly-of_IsValid : {s : Screen} → IsValid s → IsNearly s
IsNearly-of_IsValid v = record { storage = v.storage; in_range = omega (arith, v.in_range) }

-- Inside the array `put_cell` is `set`, and only there does it keep the length.
pub put_cell-set : (xs : List ℕ) (i v : ℕ) → i < length xs → put_cell xs i v ≡ set xs i v
put_cell-set [] i v h = absurd (omega arith)
put_cell-set (x ∷ xs) zero v h = refl
put_cell-set (x ∷ xs) (suc i) v h = rw (put_cell-set xs i v (omega arith))

length-put_cell : (xs : List ℕ) (i v : ℕ) → i < length xs → length (put_cell xs i v) ≡ length xs
length-put_cell xs i v h = rw (put_cell-set xs i v h) (length-set xs i v)

pub drop_all : (n : ℕ) (xs : List ℕ) → length xs ≤ n → drop n xs ≡ []
drop_all zero [] h = refl
drop_all zero (x ∷ xs) h = absurd (omega arith)
drop_all (suc n) [] h = refl
drop_all (suc n) (x ∷ xs) h = drop_all n xs (omega arith)

backspace-IsNearly : (c : ℕ) {s : Screen} → IsValid s → IsNearly (backspace c s)
unfolding backspace
backspace-IsNearly c {s} v = elim (Bool-cases (ltb 0 s.crt_pos)) [
  | inl back ↦ rw back (record {
    storage =
        length-put_cell s.crt_buf (s.crt_pos - 1) _ (omega (arith, v.storage, v.in_range))
        ∙ v.storage;
    in_range = omega (arith, v.in_range);
  })
  | inr home ↦ rw home (IsNearly-of_IsValid v)
]

newline-IsNearly : {s : Screen} → IsValid s → IsNearly (newline s)
unfolding newline
newline-IsNearly {s} v = ground arith

carriage_return-IsNearly : {s : Screen} → IsValid s → IsNearly (carriage_return s)
unfolding carriage_return
carriage_return-IsNearly {s} v = ground arith

write-IsNearly : (c : ℕ) {s : Screen} → IsValid s → IsNearly (write c s)
unfolding write
write-IsNearly c {s} v = record {
  storage =
      length-put_cell s.crt_buf s.crt_pos _ (omega (arith, v.storage, v.in_range)) ∙ v.storage;
  in_range = omega (arith, v.in_range);
}

length-scrolled :
    (buf : List ℕ)
    → length buf ≡ crt_size
    → length (
        take (crt_size - crt_cols) (drop crt_cols buf)
        ++ (replicate crt_cols blank ++ drop crt_size buf))
      ≡ crt_size
length-scrolled buf h = omega (
  arith,
  length-append (take (crt_size - crt_cols) (drop crt_cols buf))
      (replicate crt_cols blank ++ drop crt_size buf),
  length-append (replicate crt_cols blank) (drop crt_size buf),
  length-drop crt_size buf,
  length-take (crt_size - crt_cols) (drop crt_cols buf),
  length-drop crt_cols buf,
  length-replicate crt_cols blank,
)

scroll-IsValid : {s : Screen} → IsNearly s → IsValid (scroll s)
unfolding scroll
scroll-IsValid {s} v = elim (Bool-cases (leb crt_size s.crt_pos)) [
  | inl full ↦ rw full (record {
    storage = length-scrolled s.crt_buf v.storage;
    in_range = omega (arith, v.in_range);
  })
  | inr fits ↦ rw fits (record { storage = v.storage; in_range = ground arith })
]

dispatch-IsNearly :
    (t : Screen → Screen) (c : ℕ) {s : Screen}
    → IsValid s
    → IsNearly (t s)
    → IsNearly (dispatch t c s)
unfolding dispatch
dispatch-IsNearly t c {s} v keep = elim (Bool-cases (bit_and c 0xff == 0x08)) [
  | inl hit ↦ rw hit (backspace-IsNearly c v)
  | inr miss ↦ rw miss (elim (Bool-cases (bit_and c 0xff == 0x0a)) [
    | inl hit ↦ rw hit (newline-IsNearly v)
    | inr miss ↦ rw miss (elim (Bool-cases (bit_and c 0xff == 0x0d)) [
      | inl hit ↦ rw hit (carriage_return-IsNearly v)
      | inr miss ↦ rw miss (elim (Bool-cases (bit_and c 0xff == 0x09)) [
        | inl hit ↦ rw hit keep
        | inr miss ↦ rw miss (write-IsNearly c v)
      ])
    ])
  ])
]

put_blank-IsValid : {s : Screen} → IsValid s → IsValid (put_blank s)
unfolding put_blank
put_blank-IsValid v =
    scroll-IsValid (dispatch-IsNearly (λ s. s) (with_attribute 0x20) v (IsNearly-of_IsValid v))

tab-IsValid : {s : Screen} → IsValid s → IsValid (tab s)
tab-IsValid v =
    put_blank-IsValid
      (put_blank-IsValid (put_blank-IsValid (put_blank-IsValid (put_blank-IsValid v))))

-- For every character, `cga_putc` keeps the cursor inside the 25 rows of 80 columns, and the display
-- at its 2000 cells: a store behind them, in any of its branches, would leave a longer list.
pub cga_putc-IsValid : (c : ℕ) {s : Screen} → IsValid s → IsValid (cga_putc c s)
unfolding cga_putc
cga_putc-IsValid c v =
    scroll-IsValid
      (dispatch-IsNearly tab (with_attribute c) v (IsNearly-of_IsValid (tab-IsValid v)))
