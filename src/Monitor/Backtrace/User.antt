-- ===== src/Monitor/Backtrace/User.antt =====
-- A backtrace of a stack with a return address that is not the kernel's ends in a panic.
use mathlib.Core.Path.{subst}
use jos.Base.{
  ℕ, zero, suc, ◌+◌, ◌≡◌, ◌<◌, ◌^◌, refl, true, false, some, List, [], ◌∷◌, ◌++◌, ◌==◌, arith,
  length, ltb,
}
use jos.Memlayout.{ulim}
use jos.Memory.{Mem}
use jos.Boot.{load32}
use jos.Printf.Format.{codes, emit}
use jos.Printf.Format.Emits.{emit-append}
use jos.Printf.Format.Pieces.{literal}
use jos.Kdebug.Info.{Table, user_address, debuginfo_eip}
use jos.Monitor.Backtrace.{print_info, print_location, finish_frame, frame, frames, mon_backtrace}
use jos.Monitor.Backtrace.Text.{frame_text, user_stack_text, IsUserStack}
use jos.Monitor.Backtrace.Frames.{
  IsFrame, load32_small, mem_after, prints, print_frame-emit, frame-emit,
}

module _ {S : Type 0} (cputchar : ℕ → S → S) (mem : S → Mem) (fuel : ℕ)
    (quiet : (c : ℕ) (s : S) → mem (cputchar c s) ≡ mem s) (m : Mem) (t : Table) (unknown : ℕ) where
  lookup_user :
      (n : Mem) (eip : ℕ) → eip < ulim → debuginfo_eip t fuel n unknown eip ≡ some user_address
  unfolding debuginfo_eip
  lookup_user n eip below = let user : ltb eip ulim ≡ true = ground arith in rw user

  frame-stops :
      (ebp : ℕ) (s : S)
      → ebp < 2 ^ 32
      → IsFrame m ebp
      → load32 m (ebp + 4) < ulim
      → mem s ≡ m
      → frame cputchar mem fuel t unknown ebp s ≡ some (false, emit cputchar (frame_text m ebp) s)
  unfolding frame finish_frame print_location print_info
  frame-stops ebp s small bytes user same =
      let s1 = emit cputchar (frame_text m ebp) s in
      let same1 : mem s1 ≡ m = mem_after cputchar mem fuel quiet m (frame_text m ebp) s same in
      rw
        (
          print_frame-emit cputchar mem fuel quiet m ebp s small bytes same,
          same1,
          lookup_user m (load32 m (ebp + 4)) user,
        )
        refl

  frames-stop :
      (rounds ebp : ℕ) (places : List (List ℕ)) (s : S)
      → length places < rounds
      → ebp < 2 ^ 32
      → IsUserStack m fuel t unknown ebp places
      → mem s ≡ m
      → frames cputchar mem fuel t unknown rounds ebp s
        ≡ some (false, emit cputchar (user_stack_text m ebp places) s)
  unfolding frames
  frames-stop zero ebp places s fits small stack same = absurd (omega arith)
  frames-stop (suc rounds) ebp [] s fits small stack same =
      let more : (ebp == 0) ≡ false = ground (arith, stack.0) in
      rw (frames, more, frame-stops ebp s small stack.1 stack.2 same) refl
  frames-stop (suc rounds) ebp (place ∷ places) s fits small stack same =
      let more : (ebp == 0) ≡ false = ground (arith, stack.0) in
      let printed = frame_text m ebp ++ (place ++ codes "\n") in
      let s1 = emit cputchar printed s in
      let same1 : mem s1 ≡ m = mem_after cputchar mem fuel quiet m printed s same in
      let here : ebp + 0 ≡ ebp = omega arith in
      let next_small : load32 m ebp < 2 ^ 32 =
        subst (λ (q : ℕ). load32 m q < 2 ^ 32) here (load32_small m ebp 0 stack.1 (omega arith)) in
      let rest =
        frames-stop rounds (load32 m ebp) places s1 (omega arith) next_small stack.3 same1 in
      rw
        (
          frames,
          more,
          frame-emit cputchar mem fuel quiet m t unknown ebp place s small stack.1 stack.2 same,
          same1,
          rest,
          emit-append cputchar printed (user_stack_text m (load32 m ebp) places) s,
        )
        refl

  -- Where printing leaves the memory that is traced as it is, and the stack from `ebp` on has, behind
  -- frames with the places of their return addresses, a frame whose return address lies below ULIM,
  -- `mon_backtrace` prints its title and those frames, then the line of the last one, and panics.
  pub mon_backtrace-panics :
      (rounds ebp : ℕ) (places : List (List ℕ)) (s : S)
      → length places < rounds
      → ebp < 2 ^ 32
      → IsUserStack m fuel t unknown ebp places
      → mem s ≡ m
      → mon_backtrace cputchar mem fuel t unknown rounds ebp s
        ≡ some (false, emit cputchar (codes "Stack backtrace\n" ++ user_stack_text m ebp places) s)
  unfolding mon_backtrace
  mon_backtrace-panics rounds ebp places s fits small stack same =
      let title = codes "Stack backtrace\n" in
      let s1 = emit cputchar title s in
      let first = prints cputchar mem fuel quiet m (literal title ∷ []) s same (omega arith) in
      let rest =
        frames-stop rounds ebp places s1 fits small stack
          (mem_after cputchar mem fuel quiet m title s same) in
      rw (first, rest, emit-append cputchar title (user_stack_text m ebp places) s) refl
