-- ===== src/Init/Nested.antt =====
-- `test_backtrace` enters once for each level, traces the stack, and leaves in the opposite order.
use jos.Base.{
  ℕ, zero, suc, ◌≡◌, ◌<◌, ◌^◌, refl, sym, ap, ◌∙◌, true, some, List, [], ◌∷◌, ◌++◌, arith,
}
use jos.Memory.{Mem}
use jos.Printf.Format.{codes, emit}
use jos.Printf.Format.Emits.{emit-append}
use jos.Printf.Format.Pieces.{Piece, literal, dec, texts}
use jos.Monitor.Commands.Prints.{print-shown}
use jos.Monitor.Loop.{Kernel}
use jos.Monitor.Loop.Session.{Environment}
use jos.Monitor.Loop.Request.{backtrace-shown}
use jos.Init.{leave, test_backtrace}

abbrev enter_pieces : ℕ → List Piece
enter_pieces x = literal (codes "entering test_backtrace ") ∷ dec x ∷ literal (codes "\n") ∷ []

abbrev leave_pieces : ℕ → List Piece
leave_pieces x = literal (codes "leaving test_backtrace ") ∷ dec x ∷ literal (codes "\n") ∷ []

-- The lines for the levels from `x` down to 0, and from 0 up to `x`.
abbrev pub entered : ℕ → List ℕ
entered zero = texts (enter_pieces 0)
entered (suc x) = texts (enter_pieces (suc x)) ++ entered x

abbrev pub left : ℕ → List ℕ
left zero = texts (leave_pieces 0)
left (suc x) = left x ++ texts (leave_pieces (suc x))

module _ {W : Type 0} (cputchar : ℕ → W → W) (fuel buf : ℕ) (k : Kernel) (trace : List ℕ) (m : Mem)
    (env : Environment fuel buf k trace m) where
  abbrev traced : List ℕ
  traced = codes "Stack backtrace\n" ++ trace

  leave-shown :
      (x : ℕ) (w : W)
      → x < 2 ^ 32
      → leave cputchar fuel x (some (true, (m, w)))
        ≡ some (true, (m, emit cputchar (texts (leave_pieces x)) w))
  leave-shown x w small = rw (print-shown cputchar fuel (leave_pieces x) (m, w) (omega arith)) refl

  -- The parts of the text, printed one after the other.
  join :
      (a b c d e : List ℕ) (w : W)
      → emit cputchar e (emit cputchar (b ++ (c ++ d)) (emit cputchar a w))
        ≡ emit cputchar ((a ++ b) ++ (c ++ (d ++ e))) w
  join a b c d e w = sym (
      emit-append cputchar (a ++ b) (c ++ (d ++ e)) w
      ∙ ap (emit cputchar (c ++ (d ++ e))) (emit-append cputchar a b w)
      ∙ emit-append cputchar c (d ++ e) (emit cputchar b (emit cputchar a w))
      ∙ emit-append cputchar d e (emit cputchar c (emit cputchar b (emit cputchar a w)))
      ∙ ap (emit cputchar e) (
          sym (
            emit-append cputchar b (c ++ d) (emit cputchar a w)
            ∙ emit-append cputchar c d (emit cputchar b (emit cputchar a w)))))

  -- Where memory holds what the monitor needs, with a stack of frames, `test_backtrace(x)` prints that it enters the levels from `x`
  -- down to 0, then the backtrace of the stack, then that it leaves the levels from 0 up to `x`.
  pub test_backtrace-nested :
      (x : ℕ) (w : W)
      → x < 2 ^ 31
      → test_backtrace cputchar fuel k x (m, w)
        ≡ some (true, (m, emit cputchar (entered x ++ (traced ++ left x)) w))
  unfolding test_backtrace
  test_backtrace-nested zero w small =
      let a = entered 0 in
      let first = print-shown cputchar fuel (enter_pieces 0) (m, w) (omega arith) in
      let w1 = emit cputchar a w in
      let traces = backtrace-shown cputchar fuel buf k trace m env w1 in
      let last = leave-shown 0 (emit cputchar traced w1) (omega arith) in
      rw (test_backtrace, first, traces, last)
        (rw (emit-append cputchar a (traced ++ left 0) w, emit-append cputchar traced (left 0) w1)
          refl)
  test_backtrace-nested (suc x) w small =
      let a = texts (enter_pieces (suc x)) in
      let first = print-shown cputchar fuel (enter_pieces (suc x)) (m, w) (omega arith) in
      let w1 = emit cputchar a w in
      let inner = test_backtrace-nested x w1 (omega arith) in
      let w2 = emit cputchar (entered x ++ (traced ++ left x)) w1 in
      let last = leave-shown (suc x) w2 (omega arith) in
      rw (test_backtrace, first, inner, last)
        (ap (λ v. some (true, (m, v)))
          (join a (entered x) traced (left x) (texts (leave_pieces (suc x))) w))
