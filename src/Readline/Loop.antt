-- ===== src/Readline/Loop.antt =====
-- `readline` returns the line that was edited.
use jos.Base.{
  ℕ, zero, suc, ◌+◌, ◌-◌, ◌%◌, ◌^◌, ◌≤◌, ◌<◌, ◌≡◌, ◌≢◌, ◌⊎◌, inl, inr, refl, ap, ◌∙◌, Bool, true,
  false, ◌&&◌, ◌||◌, Option, some, List, [], ◌∷◌, ◌++◌, arith, ◌==◌, ltb, leb, length,
  length-append, length-take, take, Bool-cases,
}
use jos.Memory.{Mem, store, SameOutside}
use jos.Memory.Text.{IsText}
use jos.Str.Copy.{store-same}
use jos.Types.{u32}
use jos.Printf.Format.{codes, emit}
use jos.Printf.Format.Emits.{emit-Ok}
use jos.Printf.Cprintf.{vcprintf_zero}
use jos.Readline.{buflen, erase, insert, enter, skipped, key, read_loop, readline}
use jos.Readline.Edit.{typed_char, edited, IsTyped, Shows, Shows-erase, Shows-insert, Shows-IsText}

-- A terminal: when it waits with what has been typed and not read, and that the characters are read
-- from it in order.
pub record Terminal {W : Type 0} (getchar : W → Option (ℕ × W)) (cputchar : ℕ → W → W)
    : Type 1 where
  pub Waits : W → List ℕ → Type 0
  pub gives :
      (w : W) (c : ℕ) (cs : List ℕ)
      → Waits w (c ∷ cs)
      → (w' : W) × (getchar w ≡ some (c, w')) × Waits w' cs
  pub quiet : (c : ℕ) (w : W) (cs : List ℕ) → Waits w cs → Waits (cputchar c w) cs

abbrev pub IsEnter : ℕ → Type 0
IsEnter c = (c ≡ 0x0a) ⊎ (c ≡ 0x0d)

abbrev pub erases : ℕ → List ℕ → Bool
erases c line = (c == 0x08 || c == 0x7f) && ltb 0 (length line)

abbrev pub inserts : ℕ → List ℕ → Bool
inserts c line = leb 0x20 c && ltb (length line) (buflen - 1)

inserts_facts :
    (c : ℕ) (line : List ℕ) → inserts c line ≡ true → (c ≢ 0) × (length line < buflen - 1)
inserts_facts c line t = (ground arith, ground arith)

module _ (c : ℕ) (line : List ℕ) (small : c < 256) where
  pub key_erase : erases c line ≡ true → key (length line) c ≡ erase
  unfolding key
  key_erase t = ground arith

  pub key_insert : erases c line ≡ false → inserts c line ≡ true → key (length line) c ≡ insert
  unfolding key
  key_insert t u = ground arith

  pub key_skipped :
      c ≢ 0x0a
      → c ≢ 0x0d
      → erases c line ≡ false
      → inserts c line ≡ false
      → key (length line) c ≡ skipped
  unfolding key
  key_skipped h k t u = ground arith

pub key_enter : (i c : ℕ) → IsEnter c → key i c ≡ enter
unfolding key
key_enter i c e = ground arith

module _ {W : Type 0} (getchar : W → Option (ℕ × W)) (cputchar : ℕ → W → W) (text_fuel buf : ℕ)
    (terminal : Terminal getchar cputchar) where
  open terminal use {Waits, gives, quiet}

  -- The line was read: it stands in the buffer, which is all that was written, and the rest of the
  -- input waits.
  pub record Reads (m : Mem) (line rest : List ℕ) (result : Option (Option ℕ × (Mem × W)))
      : Type 0 where
    pub after : Mem
    pub left : W
    pub returns : result ≡ some (some buf, (after, left))
    pub text : IsText after buf line
    pub same : SameOutside m after buf buflen
    pub waits : Waits left rest

  abbrev loop : ℕ → ℕ → Mem × W → Option (Option ℕ × (Mem × W))
  loop = read_loop getchar cputchar text_fuel buf

  module _ (fuel i : ℕ) (m : Mem) (w w' : W) (c : ℕ) (got : getchar w ≡ some (c, w')) where
    pub loop_erase :
        key i c ≡ erase → loop (suc fuel) i (m, w) ≡ loop fuel (i - 1) (m, cputchar 0x08 w')
    unfolding read_loop
    loop_erase k = rw (read_loop, got, k) refl

    pub loop_insert :
        key i c ≡ insert
        → loop (suc fuel) i (m, w)
          ≡ loop fuel (i + 1) (store m (buf + i) (c % 2 ^ 8), cputchar c w')
    unfolding read_loop
    loop_insert k = rw (read_loop, got, k) refl

    pub loop_skipped : key i c ≡ skipped → loop (suc fuel) i (m, w) ≡ loop fuel i (m, w')
    unfolding read_loop
    loop_skipped k = rw (read_loop, got, k) refl

    pub loop_enter :
        key i c ≡ enter
        → loop (suc fuel) i (m, w) ≡ some (some buf, (store m (buf + i) 0, cputchar 0x0a w'))
    unfolding read_loop
    loop_enter k = rw (read_loop, got, k) refl

  Reads-of_enter :
      (fuel : ℕ) (m : Mem) (w : W) (line : List ℕ) (end : ℕ) (rest : List ℕ)
      → Shows m buf line
      → IsEnter end
      → Waits w (end ∷ rest)
      → Reads m line rest (loop (suc fuel) (length line) (m, w))
  Reads-of_enter fuel m w line end rest s e typed =
      let (w', got, left) = gives w end rest typed in
      record {
        after = store m (buf + length line) 0;
        left = cputchar 0x0a w';
        returns = loop_enter fuel (length line) m w w' end got (key_enter (length line) end e);
        text = Shows-IsText m buf line s;
        same = λ q h. store-same m (buf + length line) 0 q (omega (arith, s.fits));
        waits = quiet 0x0a w' rest left;
      }

  module _ (line : List ℕ) (c : ℕ) (small : c < 256) where
    pub typed_char_erase : erases c line ≡ true → typed_char line c ≡ take (length line - 1) line
    unfolding typed_char
    typed_char_erase t = rw t refl

    pub typed_char_insert :
        erases c line ≡ false → inserts c line ≡ true → typed_char line c ≡ line ++ (c ∷ [])
    unfolding typed_char
    typed_char_insert t u = rw (t, u) refl

    pub typed_char_skipped :
        erases c line ≡ false → inserts c line ≡ false → typed_char line c ≡ line
    unfolding typed_char
    typed_char_skipped t u = rw (t, u) refl

  -- One round of the loop before the rest of the run, with memory `m'` after it.
  Reads-step :
      (m m' : Mem) (line rest : List ℕ) (r r' : Option (Option ℕ × (Mem × W)))
      → r ≡ r'
      → SameOutside m m' buf buflen
      → Reads m' line rest r'
      → Reads m line rest r
  Reads-step m m' line rest r r' e same run = record {
    after = run.after;
    left = run.left;
    returns = e ∙ run.returns;
    text = run.text;
    same = λ q h. run.same q h ∙ same q h;
    waits = run.waits;
  }

  pub read_loop-edited :
      (cs : List ℕ) (fuel : ℕ) (m : Mem) (w : W) (line : List ℕ) (end : ℕ) (rest : List ℕ)
      → Shows m buf line
      → IsTyped cs
      → IsEnter end
      → Waits w (cs ++ (end ∷ rest))
      → length cs < fuel
      → Reads m (edited line cs) rest (loop fuel (length line) (m, w))
  unfolding edited
  read_loop-edited cs zero m w line end rest s typed e waits f = absurd (omega arith)
  read_loop-edited [] (suc fuel) m w line end rest s typed e waits f =
      Reads-of_enter fuel m w line end rest s e waits
  read_loop-edited (c ∷ cs) (suc fuel) m w line end rest s typed e waits f =
      let (w', got, left) = gives w c (cs ++ (end ∷ rest)) waits in
      let small = typed.0 in
      let m' = store m (buf + length line) c in
      elim (Bool-cases (erases c line)) [
        | inl t ↦
            let line' = take (length line - 1) line in
            let size : length line - 1 ≡ length line' =
              omega (arith, length-take (length line - 1) line) in
            rw (typed_char_erase line c small t) (
              Reads-step m m _ rest _ _
                (loop_erase fuel (length line) m w w' c got (key_erase c line small t)
                  ∙ ap (λ (i : ℕ). loop fuel i (m, cputchar 0x08 w')) size)
                (λ q h. refl)
                (read_loop-edited cs fuel m (cputchar 0x08 w') line' end rest
                  (Shows-erase m buf line s) typed.3 e (quiet 0x08 w' (cs ++ (end ∷ rest)) left)
                  (omega arith)))
        | inr t ↦ elim (Bool-cases (inserts c line)) [
          | inl u ↦
              let line' = line ++ (c ∷ []) in
              let (char, room) = inserts_facts c line u in
              let size : length line + 1 ≡ length line' =
                omega (arith, length-append line (c ∷ [])) in
              let byte : c % 2 ^ 8 ≡ c = omega arith in
              rw (typed_char_insert line c small t u) (
                Reads-step m m' _ rest _ _
                  (loop_insert fuel (length line) m w w' c got (key_insert c line small t u)
                    ∙ rw (byte, size) refl)
                  (λ q h. store-same m (buf + length line) c q (omega arith))
                  (read_loop-edited cs fuel m' (cputchar c w') line' end rest
                    (Shows-insert m buf c line s char room) typed.3 e
                    (quiet c w' (cs ++ (end ∷ rest)) left) (omega arith)))
          | inr u ↦ rw (typed_char_skipped line c small t u) (
              Reads-step m m _ rest _ _
                (loop_skipped fuel (length line) m w w' c got
                  (key_skipped c line small typed.1 typed.2 t u))
                (λ q h. refl)
                (read_loop-edited cs fuel m w' line end rest s typed.3 e left (omega arith)))
        ]
      ]

  -- On a terminal on which characters and then a line end have been typed, `readline` returns its
  -- buffer with the line that editing leaves, as a string; it has written nothing outside the 1024
  -- bytes of the buffer.
  pub readline-edited :
      (cs : List ℕ) (fuel prompt len : ℕ) (m : Mem) (w : W) (end : ℕ) (rest : List ℕ)
      → IsTyped cs
      → IsEnter end
      → Waits w (cs ++ (end ∷ rest))
      → length cs < fuel
      → len < text_fuel
      → 20 ≤ text_fuel
      → m (u32 prompt + len) ≡ 0
      → Reads m
          (edited [] cs)
          rest
          (readline getchar cputchar text_fuel buf fuel (some prompt) (m, w))
  unfolding readline
  readline-edited cs fuel prompt len m w end rest typed e waits f g room zero_at =
      let (shown, prints) =
        vcprintf_zero cputchar (λ _. m) text_fuel (λ t. Waits t (cs ++ (end ∷ rest))) (codes "%s")
          (λ _. prompt) (λ _. len) w (λ c t here. quiet c t (cs ++ (end ∷ rest)) here) (λ _. g)
          (λ _ _ _. zero_at) room waits in
      let w' = emit cputchar shown w in
      let kept : Waits w' (cs ++ (end ∷ rest)) =
        emit-Ok cputchar (λ t. Waits t (cs ++ (end ∷ rest)))
          (λ c t here. quiet c t (cs ++ (end ∷ rest)) here) shown w waits in
      let empty : Shows m buf [] = record {
        chars = λ i h. absurd (omega arith);
        no_end = λ i h. absurd (omega arith);
        fits = omega arith;
      } in
      Reads-step m m (edited [] cs) rest _ _ (rw prints refl) (λ q h. refl)
        (read_loop-edited cs fuel m w' [] end rest empty typed e kept f)
