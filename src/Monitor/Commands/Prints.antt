-- ===== src/Monitor/Commands/Prints.antt =====
-- What the commands print.
use jos.Base.{
  ℕ, ◌+◌, ◌-◌, ◌*◌, ◌/◌, ◌%◌, ◌≡◌, ◌≤◌, ◌<◌, ◌^◌, refl, sym, ap, ◌∙◌, true, false, some, List, [],
  ◌∷◌, ◌++◌, arith,
}
use jos.Types.{sub32, u32, add32, round_up, round_down}
use jos.Memlayout.{kernbase}
use jos.Memory.{Mem}
use jos.Printf.Flags.{negative}
use jos.Printf.Format.{codes, emit}
use jos.Printf.Format.Emits.{emit-append}
use jos.Printf.Format.Pieces.{
  Piece, literal, hex, dec, str, formats, arguments, texts, IsPlain, IsPlaced, ArePieces,
}
use jos.Printf.Format.Pieces.Printed.{cprintf-texts}
use jos.Monitor.Commands.{
  Command, Symbols, div_int, put, memory, print, mon_help, print_symbol, mon_kerninfo,
}

-- The name and the description of each command, as they stand in `commands`.
abbrev pub command_texts : List (List ℕ × List ℕ)
command_texts =
    (codes "help", codes "Display this list of commands")
    ∷ (codes "kerninfo", codes "Display information about the kernel")
    ∷ (codes "backtrace", codes "Backtracing the stack")
    ∷ []

abbrev pub AreCommands : Mem → ℕ → List Command → List (List ℕ × List ℕ) → Type 0
AreCommands m fuel [] [] = true ≡ true
AreCommands m fuel [] (d ∷ ds) = true ≡ false
AreCommands m fuel (c ∷ cs) [] = true ≡ false
AreCommands m fuel (c ∷ cs) (d ∷ ds) =
    IsPlaced m fuel c.name d.0 × IsPlaced m fuel c.desc d.1 × AreCommands m fuel cs ds

abbrev help_pieces : Command → List ℕ × List ℕ → List Piece
help_pieces c d =
    str c.name d.0 ∷ literal (codes " - ") ∷ str c.desc d.1 ∷ literal (codes "\n") ∷ []

-- The lines of `mon_help`.
abbrev pub help_text : List (List ℕ × List ℕ) → List ℕ
help_text [] = []
help_text (d ∷ ds) = (d.0 ++ (codes " - " ++ (d.1 ++ codes "\n"))) ++ help_text ds

abbrev symbol_pieces : List ℕ → ℕ → List Piece
symbol_pieces name a =
    literal name
    ∷ hex a
    ∷ literal (codes " (virt)  ")
    ∷ hex (a - kernbase)
    ∷ literal (codes " (phys)\n")
    ∷ []

abbrev footprint_pieces : ℕ → List Piece
footprint_pieces kb =
    literal (codes "Kernel executable memory footprint: ") ∷ dec kb ∷ literal (codes "KB\n") ∷ []

abbrev start_pieces : ℕ → List Piece
start_pieces a =
    literal (codes "  _start                  ") ∷ hex a ∷ literal (codes " (phys)\n") ∷ []

-- The kernel's symbols lie where it is linked, and `_start` is a physical address.
pub record AreSymbols (k : Symbols) : Type 0 where
  pub start_small : k.start < 2 ^ 32
  pub entry_high : kernbase ≤ k.entry
  pub etext_high : kernbase ≤ k.etext
  pub edata_high : kernbase ≤ k.edata
  pub etext_small : k.etext < 2 ^ 32
  pub edata_small : k.edata < 2 ^ 32
  pub end_small : k.end < 2 ^ 32
  pub entry-le-end : k.entry ≤ k.end

-- The text of `mon_kerninfo`; the footprint is rounded up to KB.
abbrev pub kerninfo_text : Symbols → List ℕ
kerninfo_text k =
    codes "Special kernel symbols:\n"
    ++ (texts (start_pieces k.start)
        ++ (texts (symbol_pieces (codes "  entry  ") k.entry)
            ++ (texts (symbol_pieces (codes "  etext  ") k.etext)
                ++ (texts (symbol_pieces (codes "  edata  ") k.edata)
                    ++ (texts (symbol_pieces (codes "  end    ") k.end)
                        ++ texts (footprint_pieces ((k.end - k.entry + 1023) / 1024)))))))

footprint :
    (k : Symbols)
    → AreSymbols k
    → div_int (round_up (sub32 k.end k.entry) 1024) 1024 ≡ (k.end - k.entry + 1023) / 1024
unfolding div_int round_up round_down
footprint k h =
    let size : sub32 k.end k.entry ≡ k.end - k.entry = omega (arith, h.end_small, h.entry-le-end) in
    let n = k.end - k.entry in
    let bound : n < 2 ^ 28 = omega (arith, h.end_small, h.entry_high) in
    let up : u32 (sub32 (add32 n (u32 1024)) 1) - u32 (sub32 (add32 n (u32 1024)) 1) % u32 1024
        ≡ (n + 1023) / 1024 * 1024 =
      omega arith in
    let small : negative ((n + 1023) / 1024 * 1024) ≡ false = ground arith in
    rw (size, up, small) (omega arith)

module _ {W : Type 0} (cputchar : ℕ → W → W) (fuel : ℕ) where
  -- Characters on the terminal.
  abbrev pub shown : List ℕ → Mem × W → Mem × W
  shown cs s = (s.0, emit cputchar cs s.1)

  pub emit-put : (cs : List ℕ) (s : Mem × W) → emit (put cputchar fuel) cs s ≡ shown cs s
  unfolding emit
  emit-put [] s = refl
  emit-put (c ∷ cs) s = emit-put cs (put cputchar fuel c s)

  pub print-shown :
      (ps : List Piece) (s : Mem × W)
      → ArePieces s.0 fuel ps
      → print cputchar fuel (formats ps) (arguments ps) s ≡ some (shown (texts ps) s)
  print-shown ps s ok =
      cprintf-texts (put cputchar fuel) (memory cputchar fuel) fuel (λ c t. refl) ps s ok
      ∙ ap some (emit-put (texts ps) s)

  shown-append : (xs ys : List ℕ) (s : Mem × W) → shown (xs ++ ys) s ≡ shown ys (shown xs s)
  shown-append xs ys s = rw (emit-append cputchar xs ys s.1) refl

  -- `mon_help` prints a line for each command, with its name and its description.
  pub mon_help-shown :
      (commands : List Command) (ds : List (List ℕ × List ℕ)) (s : Mem × W)
      → AreCommands s.0 fuel commands ds
      → mon_help cputchar fuel commands s ≡ some (shown (help_text ds) s)
  unfolding mon_help emit
  mon_help-shown [] [] s h = refl
  mon_help-shown [] (d ∷ ds) s h = cc
  mon_help-shown (c ∷ commands) [] s h = cc
  mon_help-shown (c ∷ commands) (d ∷ ds) s h =
      let line = texts (help_pieces c d) in
      let now = print-shown (help_pieces c d) s (h.0, (omega arith, (h.1, omega arith))) in
      let rest = mon_help-shown commands ds (shown line s) h.2 in
      rw (mon_help, now, rest, emit-append cputchar line (help_text ds) s.1) refl

  print_symbol-shown :
      (name : List ℕ) (a : ℕ) (s : Mem × W)
      → IsPlain name
      → kernbase ≤ a
      → a < 2 ^ 32
      → print_symbol cputchar fuel (name ++ codes "%08x (virt)  %08x (phys)\n") a s
        ≡ some (shown (texts (symbol_pieces name a)) s)
  print_symbol-shown name a s plain high small =
      let low : sub32 a kernbase ≡ a - kernbase = omega arith in
      rw low (print-shown (symbol_pieces name a) s (plain, omega arith))

  -- Three texts, and the rest.
  shown-append3 :
      (a b c rest : List ℕ) (s : Mem × W)
      → shown rest (shown c (shown b (shown a s))) ≡ shown (a ++ (b ++ (c ++ rest))) s
  shown-append3 a b c rest s = sym (
      shown-append a (b ++ (c ++ rest)) s
      ∙ shown-append b (c ++ rest) (shown a s)
      ∙ shown-append c rest (shown b (shown a s)))

  -- `mon_kerninfo` prints the symbols, as eight hexadecimal digits each with their physical
  -- addresses, and how many KB the kernel takes, rounded up.
  pub mon_kerninfo-shown :
      (k : Symbols) (s : Mem × W)
      → AreSymbols k
      → mon_kerninfo cputchar fuel k s ≡ some (shown (kerninfo_text k) s)
  unfolding mon_kerninfo
  mon_kerninfo-shown k s h =
      let t0 = codes "Special kernel symbols:\n" in
      let t1 = texts (start_pieces k.start) in
      let t2 = texts (symbol_pieces (codes "  entry  ") k.entry) in
      let t3 = texts (symbol_pieces (codes "  etext  ") k.etext) in
      let t4 = texts (symbol_pieces (codes "  edata  ") k.edata) in
      let t5 = texts (symbol_pieces (codes "  end    ") k.end) in
      let kb = (k.end - k.entry + 1023) / 1024 in
      let t6 = texts (footprint_pieces kb) in
      let s1 = shown t0 s in
      let s2 = shown t1 s1 in
      let s3 = shown t2 s2 in
      let s4 = shown t3 s3 in
      let s5 = shown t4 s4 in
      let s6 = shown t5 s5 in
      let p0 = print-shown (literal t0 ∷ []) s (omega arith) in
      let p1 = print-shown (start_pieces k.start) s1 (omega (arith, h.start_small)) in
      let p2 =
        print_symbol-shown (codes "  entry  ") k.entry s2 (omega arith) h.entry_high
          (omega (arith, h.end_small, h.entry-le-end)) in
      let p3 =
        print_symbol-shown (codes "  etext  ") k.etext s3 (omega arith) h.etext_high
          h.etext_small in
      let p4 =
        print_symbol-shown (codes "  edata  ") k.edata s4 (omega arith) h.edata_high
          h.edata_small in
      let p5 =
        print_symbol-shown (codes "  end    ") k.end s5 (omega arith)
          (omega (arith, h.entry_high, h.entry-le-end)) h.end_small in
      let p6 = print-shown (footprint_pieces kb) s6 (omega (arith, h.end_small, h.entry_high)) in
      rw (p0, p1, p2, p3, p4, p5, footprint k h, p6)
        (ap some
          (shown-append3 t3 t4 t5 t6 s3 ∙ shown-append3 t0 t1 t2 (t3 ++ (t4 ++ (t5 ++ t6))) s))
