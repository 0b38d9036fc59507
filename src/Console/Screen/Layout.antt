-- ===== src/Console/Screen/Layout.antt =====
-- What a character does to the display.
use jos.Base.{
  ℕ, ◌+◌, ◌-◌, ◌*◌, ◌/◌, ◌^◌, ◌<◌, ◌≤◌, ◌≡◌, refl, List, ◌++◌, arith, set-set, length, length-set,
  Bool-cases, inl, inr, ap, ◌∙◌, set, take, drop, replicate, bit_and, ◌==◌, if◌then◌else◌, Bool,
  true, false, ◌&&◌, ◌||◌, not, leb, ltb,
}
use jos.Base.Bits.{all_below, all_below_sound}
use jos.Console.Screen.{
  crt_cols, crt_size, blank, Screen, u16, backspace, newline, write, scroll, dispatch, put_blank,
  tab, cga_putc, with_attribute,
}
use jos.Console.Screen.Bounds.{IsValid, put_cell-set, drop_all}
use mathlib.Core.List.{append-nil}

-- The characters that `cga_putc` writes to the display.
abbrev pub is_plain : ℕ → Bool
is_plain c = not (c == 0x08 || c == 0x09 || c == 0x0a || c == 0x0d)

-- With its attribute, a byte keeps its code and is black on white.
attribute_table :
    all_below 256 (λ c. with_attribute c == c + 0x0700 && bit_and (c + 0x0700) 0xff == c) ≡ true
unfolding all_below with_attribute
attribute_table = refl

pub attribute_facts :
    (c : ℕ) → c < 256 → (with_attribute c ≡ c + 0x0700) × (bit_and (c + 0x0700) 0xff ≡ c)
attribute_facts c h = ground (arith, all_below_sound 256 _ c attribute_table h)

cga_putc-scroll : (c : ℕ) (s : Screen) → cga_putc c s ≡ scroll (dispatch tab (with_attribute c) s)
unfolding cga_putc
cga_putc-scroll c s = refl

-- The display after scrolling by one row.
abbrev pub scrolled : List ℕ → List ℕ
scrolled buf = take (crt_size - crt_cols) (drop crt_cols buf) ++ replicate crt_cols blank

scroll_fits : (s : Screen) → s.crt_pos < crt_size → scroll s ≡ s
unfolding scroll
scroll_fits s h = let e : leb crt_size s.crt_pos ≡ false = ground arith in rw e

scroll_full :
    (s : Screen)
    → length s.crt_buf ≡ crt_size
    → crt_size ≤ s.crt_pos
    → scroll s ≡ record { crt_buf = scrolled s.crt_buf; crt_pos = s.crt_pos - crt_cols }
unfolding scroll
scroll_full s size h =
    let e : leb crt_size s.crt_pos ≡ true = ground arith in
    rw (e, drop_all crt_size s.crt_buf (omega (arith, size)), append-nil (replicate crt_cols blank))
      refl

write_in_range :
    (c : ℕ) (s : Screen)
    → c < 2 ^ 16
    → IsValid s
    → write c s ≡ record { crt_buf = set s.crt_buf s.crt_pos c; crt_pos = s.crt_pos + 1 }
unfolding write
write_in_range c s hc v =
    let hs = v.in_range in
    let e : u16 c ≡ c = omega arith in
    let f : u16 (s.crt_pos + 1) ≡ s.crt_pos + 1 = omega arith in
    rw (e, f, put_cell-set s.crt_buf s.crt_pos c (omega (arith, v.storage, hs))) refl

newline_in_range :
    (s : Screen)
    → s.crt_pos < crt_size
    → newline s ≡ record s { crt_pos = (s.crt_pos / crt_cols + 1) * crt_cols }
unfolding newline
newline_in_range s h = ap (λ (n : ℕ). record s { crt_pos = n }) (omega arith)

module _ (c : ℕ) (small : c < 256) where
  pub putc_plain :
      (t : Screen → Screen) (s : Screen)
      → is_plain c ≡ true
      → dispatch t (with_attribute c) s ≡ write (c + 0x0700) s
  unfolding dispatch
  putc_plain t s plain =
      rw ((attribute_facts c small).0, (attribute_facts c small).1) (ground arith)

  module _ (s : Screen) (v : IsValid s) (plain : is_plain c ≡ true) where
    -- A plain character goes to the cursor's cell, black on white, and the cursor moves on.
    cga_putc_plain :
        s.crt_pos + 1 < crt_size
        → cga_putc c s
          ≡ record { crt_buf = set s.crt_buf s.crt_pos (c + 0x0700); crt_pos = s.crt_pos + 1 }
    cga_putc_plain room =
        rw
          (
            cga_putc-scroll c s,
            putc_plain tab s plain,
            write_in_range (c + 0x0700) s (omega arith) v,
          )
          (scroll_fits _ room)

    -- In the last cell it scrolls the display: the cursor goes to the start of a blank last row.
    cga_putc_last :
        s.crt_pos + 1 ≡ crt_size
        → cga_putc c s ≡ record {
          crt_buf = scrolled (set s.crt_buf s.crt_pos (c + 0x0700));
          crt_pos = crt_size - crt_cols;
        }
    cga_putc_last end =
        rw
          (
            cga_putc-scroll c s,
            putc_plain tab s plain,
            write_in_range (c + 0x0700) s (omega arith) v,
          )
          (scroll_full _ (length-set s.crt_buf s.crt_pos _ ∙ v.storage) (omega arith)
            ∙ ap
                (λ (n : ℕ). record {
                  crt_buf = scrolled (set s.crt_buf s.crt_pos (c + 0x0700));
                  crt_pos = n;
                })
                (omega arith))

-- `cga_putc(' ')` inside a tab is `cga_putc` itself.
pub put_blank-cga_putc : (s : Screen) → put_blank s ≡ cga_putc 0x20 s
unfolding put_blank cga_putc
put_blank-cga_putc s =
    rw (putc_plain 0x20 (omega arith) (λ s. s) s refl, putc_plain 0x20 (omega arith) tab s refl)

putc_newline : (s : Screen) → dispatch tab (with_attribute 0x0a) s ≡ newline s
unfolding dispatch with_attribute
putc_newline s = refl

putc_backspace : (s : Screen) → dispatch tab (with_attribute 0x08) s ≡ backspace 0x0708 s
unfolding dispatch with_attribute
putc_backspace s = refl

-- A line feed moves the cursor to the start of the next row; in the last row the display scrolls.
pub cga_putc_newline :
    (s : Screen)
    → IsValid s
    → cga_putc 0x0a s ≡ (
        if ltb s.crt_pos (crt_size - crt_cols)
        then record s { crt_pos = (s.crt_pos / crt_cols + 1) * crt_cols }
        else record { crt_buf = scrolled s.crt_buf; crt_pos = crt_size - crt_cols })
cga_putc_newline s v =
    rw (cga_putc-scroll 0x0a s, putc_newline s, newline_in_range s v.in_range)
      (elim (Bool-cases (ltb s.crt_pos (crt_size - crt_cols))) [
        | inl upper ↦ rw upper (scroll_fits _ (ground arith))
        | inr last ↦ rw last (
            scroll_full _ v.storage (ground arith)
            ∙ ap (λ (n : ℕ). record { crt_buf = scrolled s.crt_buf; crt_pos = n }) (ground arith))
      ])

backspace_typed :
    (buf : List ℕ) (pos : ℕ)
    → pos < length buf
    → backspace 0x0708 (record { crt_buf = buf; crt_pos = pos + 1 })
      ≡ record { crt_buf = set buf pos blank; crt_pos = pos }
unfolding backspace
backspace_typed buf pos h =
    let e : ltb 0 (pos + 1) ≡ true = ground arith in
    let f : pos + 1 - 1 ≡ pos = omega arith in rw (e, f, put_cell-set buf pos blank h) refl

-- Where the cursor is not on the last cell, a backspace takes a character below 256 away again that is
-- no backspace, tab, line feed or carriage return: the cursor is back, and the cell is blank.
pub cga_putc_backspace :
    (c : ℕ) (s : Screen)
    → c < 256
    → is_plain c ≡ true
    → IsValid s
    → s.crt_pos + 1 < crt_size
    → cga_putc 0x08 (cga_putc c s)
      ≡ record { crt_buf = set s.crt_buf s.crt_pos blank; crt_pos = s.crt_pos }
cga_putc_backspace c s small plain v room =
    rw (cga_putc_plain c small s v plain room, cga_putc-scroll 0x08 _, putc_backspace)
      (rw
        (
          backspace_typed (set s.crt_buf s.crt_pos (c + 0x0700)) s.crt_pos
              (omega (arith, length-set s.crt_buf s.crt_pos (c + 0x0700), v.storage, v.in_range)),
          set-set s.crt_buf s.crt_pos,
        )
        (scroll_fits _ v.in_range))
