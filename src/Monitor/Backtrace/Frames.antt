-- ===== src/Monitor/Backtrace/Frames.antt =====
-- What a backtrace prints.
use jos.Base.{
  ℕ, zero, suc, ◌+◌, ◌*◌, ◌≡◌, ◌<◌, ◌≤◌, ◌^◌, refl, sym, ◌∙◌, inl, inr, true, false, some, List, [],
  ◌∷◌, ◌++◌, ◌==◌, arith, length,
}
use jos.Memory.{Mem}
use jos.Boot.{load32}
use jos.Printf.Format.{codes, emit}
use jos.Printf.Format.Emits.{emit-append}
use jos.Kdebug.Info.{Table}
use jos.Monitor.Backtrace.{
  print_args, print_frame, print_info, print_location, finish_frame, frame, frames, mon_backtrace,
}
use jos.Monitor.Backtrace.Text.{
  hex8, args_text, frame_text, stack_text, place_pieces, IsPlace, IsStack,
}
use jos.Printf.Format.Pieces.{Piece, literal, hex, formats, arguments, texts, ArePieces}
use jos.Printf.Format.Pieces.Printed.{mem-emit, cprintf-texts}
use jos.Printf.Cprintf.{cprintf}
use mathlib.Core.Path.{subst}

-- The seven words of a frame.
abbrev pub IsFrame : Mem → ℕ → Type 0
IsFrame m ebp = (i : ℕ) → i < 28 → m (ebp + i) < 2 ^ 8

pub load32_small : (m : Mem) (ebp i : ℕ) → IsFrame m ebp → i + 3 < 28 → load32 m (ebp + i) < 2 ^ 32
load32_small m ebp i bytes h =
    let a = bytes i (omega arith) in
    let b = bytes (i + 1) (omega arith) in
    let c = bytes (i + 2) (omega arith) in
    let d = bytes (i + 3) (omega arith) in
    let e : (k : ℕ) → ebp + i + k ≡ ebp + (i + k) = λ k. omega arith in
    rw (e 1, e 2, e 3) (omega arith)

module _ {S : Type 0} (cputchar : ℕ → S → S) (mem : S → Mem) (fuel : ℕ)
    (quiet : (c : ℕ) (s : S) → mem (cputchar c s) ≡ mem s) (m : Mem) where
  pub mem_after : (cs : List ℕ) (s : S) → mem s ≡ m → mem (emit cputchar cs s) ≡ m
  mem_after cs s same = mem-emit cputchar mem quiet cs s ∙ same

  -- A `cprintf` in a state with the memory `m`.
  pub prints :
      (ps : List Piece) (s : S)
      → mem s ≡ m
      → ArePieces m fuel ps
      → cprintf cputchar mem fuel (formats ps) (arguments ps) s ≡ some (emit cputchar (texts ps) s)
  prints ps s same ok =
      cprintf-texts cputchar mem fuel quiet ps s (subst (λ n. ArePieces n fuel ps) (sym same) ok)

  print_args-emit :
      (left i ebp : ℕ) (s : S)
      → i + left ≤ 5
      → IsFrame m ebp
      → mem s ≡ m
      → print_args cputchar mem fuel left i ebp s ≡ some (emit cputchar (args_text left i m ebp) s)
  unfolding print_args emit
  print_args-emit zero i ebp s five frame_bytes same = refl
  print_args-emit (suc left) i ebp s five frame_bytes same =
      let word = load32 m (ebp + 8 + 4 * i) in
      let text = hex8 word ++ codes " " in
      let at : ebp + (8 + 4 * i) ≡ ebp + 8 + 4 * i = omega arith in
      let small : word < 2 ^ 32 =
        subst (λ (q : ℕ). load32 m q < 2 ^ 32) at
          (load32_small m ebp (8 + 4 * i) frame_bytes (omega arith)) in
      let first = prints (hex word ∷ literal (codes " ") ∷ []) s same (omega arith) in
      let rest =
        print_args-emit left (i + 1) ebp (emit cputchar text s) (omega arith) frame_bytes
          (mem_after text s same) in
      rw (print_args, same, first, rest, emit-append cputchar text (args_text left (i + 1) m ebp) s)
        refl

  pub print_frame-emit :
      (ebp : ℕ) (s : S)
      → ebp < 2 ^ 32
      → IsFrame m ebp
      → mem s ≡ m
      → print_frame cputchar mem fuel ebp s ≡ some (emit cputchar (frame_text m ebp) s)
  unfolding print_frame
  print_frame-emit ebp s small frame_bytes same =
      let eip = load32 m (ebp + 4) in
      let a = codes "ebp " ++ (hex8 ebp ++ codes " ") in
      let b = codes "eip " ++ (hex8 eip ++ codes " ") in
      let c = args_text 5 0 m ebp in
      let s1 = emit cputchar a s in
      let s2 = emit cputchar b s1 in
      let s3 = emit cputchar (codes "args ") s2 in
      let s4 = emit cputchar c s3 in
      let same1 : mem s1 ≡ m = mem_after a s same in
      let same2 : mem s2 ≡ m = mem_after b s1 same1 in
      let same3 : mem s3 ≡ m = mem_after (codes "args ") s2 same2 in
      let first : cprintf cputchar mem fuel (codes "ebp %08x ") (ebp ∷ []) s ≡ some s1 =
        prints (literal (codes "ebp ") ∷ hex ebp ∷ literal (codes " ") ∷ []) s same (omega arith) in
      let second : cprintf cputchar mem fuel (codes "eip %08x ") (eip ∷ []) s1 ≡ some s2 =
        prints (literal (codes "eip ") ∷ hex eip ∷ literal (codes " ") ∷ []) s1 same1
          (omega (arith, load32_small m ebp 4 frame_bytes (omega arith))) in
      let third : cprintf cputchar mem fuel (codes "args ") [] s2 ≡ some s3 =
        prints (literal (codes "args ") ∷ []) s2 same2 (omega arith) in
      let fourth : print_args cputchar mem fuel 5 0 ebp s3 ≡ some s4 =
        print_args-emit 5 0 ebp s3 (omega arith) frame_bytes same3 in
      let fifth = prints (literal (codes "\n") ∷ []) s4 (mem_after c s3 same3) (omega arith) in
      rw (first, same1, second, third, fourth, fifth)
        (rw
          (
            emit-append cputchar a (b ++ (codes "args " ++ (c ++ codes "\n"))) s,
            emit-append cputchar b (codes "args " ++ (c ++ codes "\n")) s1,
            emit-append cputchar (codes "args ") (c ++ codes "\n") s2,
            emit-append cputchar c (codes "\n") s3,
          )
          refl)

  module _ (t : Table) (unknown : ℕ) where
    print_location-emit :
        (eip : ℕ) (place : List ℕ) (s : S)
        → IsPlace m fuel t unknown eip place
        → mem s ≡ m
        → print_location cputchar mem fuel t unknown eip s ≡ some (true, emit cputchar place s)
    unfolding print_location print_info emit
    print_location-emit eip place s (inl (info, lookup, e)) same = rw (same, lookup, e) refl
    print_location-emit eip place s (inr (info, file, name, lookup, ok, e)) same =
        rw (same, lookup, prints (place_pieces info file name) s same ok, e) refl

    pub frame-emit :
        (ebp : ℕ) (text : List ℕ) (s : S)
        → ebp < 2 ^ 32
        → IsFrame m ebp
        → IsPlace m fuel t unknown (load32 m (ebp + 4)) text
        → mem s ≡ m
        → frame cputchar mem fuel t unknown ebp s
          ≡ some (true, emit cputchar (frame_text m ebp ++ (text ++ codes "\n")) s)
    unfolding frame finish_frame
    frame-emit ebp text s small frame_bytes place same =
        let s1 = emit cputchar (frame_text m ebp) s in
        let s2 = emit cputchar text s1 in
        let same1 : mem s1 ≡ m = mem_after (frame_text m ebp) s same in
        let located = print_location-emit (load32 m (ebp + 4)) text s1 place same1 in
        let last = prints (literal (codes "\n") ∷ []) s2 (mem_after text s1 same1) (omega arith) in
        rw (print_frame-emit ebp s small frame_bytes same, same1, located, last)
          (rw
            (
              emit-append cputchar (frame_text m ebp) (text ++ codes "\n") s,
              emit-append cputchar text (codes "\n") s1,
            )
            refl)

    frames-emit :
        (rounds ebp : ℕ) (places : List (List ℕ)) (s : S)
        → length places < rounds
        → ebp < 2 ^ 32
        → IsStack m fuel t unknown ebp places
        → mem s ≡ m
        → frames cputchar mem fuel t unknown rounds ebp s
          ≡ some (true, emit cputchar (stack_text m ebp places) s)
    unfolding frames emit
    frames-emit zero ebp places s fits small stack same = absurd (omega arith)
    frames-emit (suc rounds) ebp [] s fits small stack same =
        let end : (ebp == 0) ≡ true = ground arith in rw (frames, end) refl
    frames-emit (suc rounds) ebp (text ∷ places) s fits small stack same =
        let more : (ebp == 0) ≡ false = ground (arith, stack.0) in
        let printed = frame_text m ebp ++ (text ++ codes "\n") in
        let s1 = emit cputchar printed s in
        let same1 : mem s1 ≡ m = mem_after printed s same in
        let here : ebp + 0 ≡ ebp = omega arith in
        let next_small : load32 m ebp < 2 ^ 32 =
          subst (λ (q : ℕ). load32 m q < 2 ^ 32) here
            (load32_small m ebp 0 stack.1 (omega arith)) in
        let rest =
          frames-emit rounds (load32 m ebp) places s1 (omega arith) next_small stack.3 same1 in
        rw
          (
            frames,
            more,
            frame-emit ebp text s small stack.1 stack.2 same,
            same1,
            rest,
            emit-append cputchar printed (stack_text m (load32 m ebp) places) s,
          )
          refl

    -- Where printing leaves the memory that is traced as it is, and from `ebp` on stands a stack of
    -- frames with the places of their return addresses, `mon_backtrace` returns, within more rounds
    -- than there are frames. It has printed its title and, for each frame from the innermost to the
    -- last, the line with the frame's address, its return address and its five arguments, each as
    -- eight hexadecimal digits, then the place: the line with file, line and function that the
    -- lookup of the return address reports, or nothing where it fails.
    pub mon_backtrace-emit :
        (rounds ebp : ℕ) (places : List (List ℕ)) (s : S)
        → length places < rounds
        → ebp < 2 ^ 32
        → IsStack m fuel t unknown ebp places
        → mem s ≡ m
        → mon_backtrace cputchar mem fuel t unknown rounds ebp s
          ≡ some (true, emit cputchar (codes "Stack backtrace\n" ++ stack_text m ebp places) s)
    unfolding mon_backtrace
    mon_backtrace-emit rounds ebp places s fits small stack same =
        let title = codes "Stack backtrace\n" in
        let s1 = emit cputchar title s in
        let first = prints (literal title ∷ []) s same (omega arith) in
        let rest = frames-emit rounds ebp places s1 fits small stack (mem_after title s same) in
        rw (first, rest, emit-append cputchar title (stack_text m ebp places) s) refl
