-- ===== src/Readline/Echo.antt =====
-- What `readline` shows: its prompt, and an echo of each key.
use jos.Base.{
  ℕ, zero, suc, ◌+◌, ◌-◌, ◌^◌, ◌%◌, ◌<◌, ◌≡◌, inl, inr, refl, sym, ap, ◌∙◌, Option, some, List, [],
  ◌∷◌, ◌++◌, arith, length, length-append, length-take, take, Bool-cases, if◌then◌else◌,
}
use mathlib.Core.List.{append-nil}
use jos.Memory.{Mem, store}
use jos.Printf.Format.{codes, emit}
use jos.Printf.Format.Emits.{emit-Ok}
use jos.Printf.Format.Pieces.{str, IsPlaced}
use jos.Printf.Format.Pieces.Printed.{vprintfmt-texts_args}
use jos.Printf.Cprintf.{vcprintf, putch, emit-putch}
use jos.Types.{u32}
use jos.Readline.{read_loop, readline}
use jos.Readline.Edit.{typed_char, edited, IsTyped, Shows}
use jos.Readline.Loop.{
  Terminal, IsEnter, Reads, erases, inserts, key_erase, key_insert, key_skipped, key_enter,
  loop_erase, loop_insert, loop_skipped, loop_enter, typed_char_erase, typed_char_insert,
  typed_char_skipped, read_loop-edited,
}

-- What is shown for a key while the line is `line`: a backspace where it takes a character away, the
-- character itself where it is added, and otherwise nothing.
abbrev pub echoed : List ℕ → ℕ → List ℕ
echoed line c = if erases c line then 0x08 ∷ [] else if inserts c line then c ∷ [] else []

module _ {W : Type 0} (getchar : W → Option (ℕ × W)) (cputchar : ℕ → W → W) where
  -- From the terminal `w` to `last` the keys `cs` and then `end` are read, one after the other, and
  -- all that is shown is the echo of each as it is read, and a line feed at the end.
  abbrev pub Echoes : List ℕ → List ℕ → ℕ → W → W → Type 0
  Echoes line [] end w last = (w' : W) × (getchar w ≡ some (end, w')) × (last ≡ cputchar 0x0a w')
  Echoes line (c ∷ cs) end w last =
      (w' : W) × (getchar w ≡ some (c, w'))
      × Echoes (typed_char line c) cs end (emit cputchar (echoed line c) w') last

  module _ (text_fuel buf : ℕ) (terminal : Terminal getchar cputchar) where
    open terminal use {Waits, gives, quiet}

    abbrev returned : Mem → W → Option (Option ℕ × (Mem × W))
    returned m w = some (some buf, (m, w))

    -- A run of the loop that ends in `last` with memory `m'`.
    abbrev Runs : ℕ → ℕ → Mem → W → Mem → W → Type 0
    Runs fuel i m w m' last =
        read_loop getchar cputchar text_fuel buf fuel i (m, w) ≡ returned m' last

    last_state : (a b : Mem) (w v : W) → returned a w ≡ returned b v → w ≡ v
    last_state a b w v e = cc

    read_loop-Echoes :
        (cs : List ℕ) (fuel : ℕ) (m : Mem) (w : W) (line : List ℕ) (end : ℕ) (rest : List ℕ)
        (m' : Mem) (last : W)
        → IsTyped cs
        → IsEnter end
        → Waits w (cs ++ (end ∷ rest))
        → length cs < fuel
        → Runs fuel (length line) m w m' last
        → Echoes line cs end w last
    unfolding emit
    read_loop-Echoes cs zero m w line end rest m' last typed e waits f run = absurd (omega arith)
    read_loop-Echoes [] (suc fuel) m w line end rest m' last typed e waits f run =
        let (w', got, left) = gives w end rest waits in
        let ended =
          loop_enter getchar cputchar text_fuel buf terminal fuel (length line) m w w' end got
            (key_enter (length line) end e) in
        (w', got, last_state m' _ last (cputchar 0x0a w') (sym run ∙ ended))
    read_loop-Echoes (c ∷ cs) (suc fuel) m w line end rest m' last typed e waits f run =
        let (w', got, left) = gives w c (cs ++ (end ∷ rest)) waits in
        let small = typed.0 in
        (
          w',
          got,
          elim (Bool-cases (erases c line)) [
            | inl t ↦
                let line' = take (length line - 1) line in
                let size : length line - 1 ≡ length line' =
                  omega (arith, length-take (length line - 1) line) in
                let step =
                  loop_erase getchar cputchar text_fuel buf terminal fuel (length line) m w w' c got
                    (key_erase c line small t) in
                rw (typed_char_erase getchar cputchar text_fuel buf terminal line c small t, t)
                  (read_loop-Echoes cs fuel m (cputchar 0x08 w') line' end rest m' last typed.3 e
                    (quiet 0x08 w' (cs ++ (end ∷ rest)) left) (omega arith)
                    (rw size at (sym step ∙ run)))
            | inr t ↦ elim (Bool-cases (inserts c line)) [
              | inl u ↦
                  let line' = line ++ (c ∷ []) in
                  let size : length line + 1 ≡ length line' =
                    omega (arith, length-append line (c ∷ [])) in
                  let step =
                    loop_insert getchar cputchar text_fuel buf terminal fuel (length line) m w w' c
                      got (key_insert c line small t u) in
                  rw
                    (
                      typed_char_insert getchar cputchar text_fuel buf terminal line c small t u,
                      t,
                      u,
                    )
                    (read_loop-Echoes cs fuel (store m (buf + length line) (c % 2 ^ 8))
                      (cputchar c w') line' end rest m' last typed.3 e
                      (quiet c w' (cs ++ (end ∷ rest)) left) (omega arith)
                      (rw size at (sym step ∙ run)))
              | inr u ↦
                  let step =
                    loop_skipped getchar cputchar text_fuel buf terminal fuel (length line) m w w' c
                      got (key_skipped c line small typed.1 typed.2 t u) in
                  rw
                    (
                      typed_char_skipped getchar cputchar text_fuel buf terminal line c small t u,
                      t,
                      u,
                    )
                    (read_loop-Echoes cs fuel m w' line end rest m' last typed.3 e left
                      (omega arith) (sym step ∙ run))
            ]
          ],
        )

    prompt_shown :
        (prompt : ℕ) (text : List ℕ) (m : Mem) (w : W)
        → IsPlaced m text_fuel prompt text
        → vcprintf cputchar (λ _. m) text_fuel (codes "%s") (λ _. prompt) w
          ≡ some (emit cputchar (text ++ []) w, 0)
    unfolding vcprintf
    prompt_shown prompt text m w placed =
        let word : u32 prompt ≡ prompt = omega (arith, placed.1) in
        vprintfmt-texts_args (putch cputchar) (λ _. m) text_fuel (λ _. 0 < 1) (λ _ _ ok. ok)
          (str prompt text ∷ []) (λ _. prompt) (w, 0) (omega arith) (λ _ _. (placed, omega arith))
          (word, omega arith)
        ∙ ap some (emit-putch cputchar (text ++ []) w 0)

    -- On a terminal on which characters and then a line end have been typed, with a prompt that stands
    -- in memory in plain ASCII, `readline` prints the prompt, and then for each key, as it is read, a
    -- backspace where it takes a character away, the character where it is added and otherwise
    -- nothing, and a line feed at the end. It returns its buffer with the line that editing leaves, as
    -- a string, and has written nothing outside the 1024 bytes of the buffer.
    pub readline-Echoes :
        (cs : List ℕ) (fuel prompt : ℕ) (text : List ℕ) (m : Mem) (w : W) (end : ℕ) (rest : List ℕ)
        → IsTyped cs
        → IsEnter end
        → Waits w (cs ++ (end ∷ rest))
        → length cs < fuel
        → IsPlaced m text_fuel prompt text
        → (m' : Mem) × (last : W) × (readline getchar cputchar text_fuel buf fuel
              (some prompt)
              (m, w)
            ≡ returned m' last)
          × Echoes [] cs end (emit cputchar text w) last
          × Reads getchar cputchar text_fuel buf terminal m (edited [] cs) rest (returned m' last)
    unfolding readline
    readline-Echoes cs fuel prompt text m w end rest typed e waits f placed =
        let w1 = emit cputchar text w in
        let kept : Waits w1 (cs ++ (end ∷ rest)) =
          emit-Ok cputchar (λ t. Waits t (cs ++ (end ∷ rest)))
            (λ c t here. quiet c t (cs ++ (end ∷ rest)) here) text w waits in
        let empty : Shows m buf [] = record {
          chars = λ i h. absurd (omega arith);
          no_end = λ i h. absurd (omega arith);
          fits = omega arith;
        } in
        let run =
          read_loop-edited getchar cputchar text_fuel buf terminal cs fuel m w1 [] end rest empty
            typed e kept f in
        (
          run.after,
          run.left,
          rw (prompt_shown prompt text m w placed, append-nil text) run.returns,
          read_loop-Echoes cs fuel m w1 [] end rest run.after run.left typed e kept f run.returns,
          record {
            after = run.after;
            left = run.left;
            returns = refl;
            text = run.text;
            same = run.same;
            waits = run.waits;
          },
        )
