-- ===== src/Tests/Session.antt =====
-- A session with the monitor: three lines are typed.
use jos.Base.{
  ℕ, zero, suc, ◌≡◌, ◌≢◌, ◌≤◌, ◌<◌, ◌^◌, ◌+◌, ◌-◌, ◌/◌, ◌%◌, refl, sym, inl, inr, some, none,
  Option, List, [], ◌∷◌, ◌++◌, leb, if◌then◌else◌, arith, get_or, length,
}
use mathlib.Core.Path.{subst}
use jos.Boot.{load32}
use jos.Memory.{Mem, SameOutside}
use jos.Memory.Text.{IsText, IsText-frame}
use jos.Printf.Format.{codes, emit}
use jos.Printf.Format.Pieces.{IsPlaced}
use jos.Printf.Format.Strings.{IsAscii}
use jos.Kdebug.Info.{initial, debuginfo_eip}
use jos.Monitor.Backtrace.Text.{IsPlace, IsStack, stack_text}
use jos.Monitor.Commands.Prints.{command_texts, AreCommands}
use jos.Monitor.Loop.{Kernel, monitor}
use jos.Monitor.Loop.Session.{Environment, welcome}
use jos.Monitor.Loop.Answers.{Serves, monitor-Serves}
use jos.Readline.{buflen}
use jos.Readline.Loop.{Terminal}

-- The strings from 0x100 on, each at a multiple of 0x40, and a last frame at 0x1000 whose bytes are 0
-- or 0xf0; the line buffer is at 0x2000.
abbrev pub strings : List (List ℕ)
strings =
    codes "K> "
    ∷ codes "help"
    ∷ codes "Display this list of commands"
    ∷ codes "kerninfo"
    ∷ codes "Display information about the kernel"
    ∷ codes "backtrace"
    ∷ codes "Backtracing the stack"
    ∷ []

abbrev pub nth : List (List ℕ) → ℕ → List ℕ
nth [] i = []
nth (s ∷ ss) zero = s
nth (s ∷ ss) (suc i) = nth ss i

abbrev pub memory : Mem
memory a =
    if leb 0x1004 a
    then 0xf0
    else if leb 0x1000 a
    then 0
    else get_or (nth strings ((a - 0x100) / 0x40)) (a % 0x40) 0

abbrev pub kernel : Kernel
kernel = record {
  table = record {
    stabs = λ _. record { n_strx = 0; n_type = 0; n_other = 0; n_desc = 0; n_value = 0 };
    count = 0;
    stabstr = 0;
    stabstr_end = 0;
  };
  unknown_text = 0;
  symbols = record {
    start = 0x10000c;
    entry = 0xf010000c;
    etext = 0xf0101a75;
    edata = 0xf0112300;
    end = 0xf0112944;
  };
  commands =
      record { name = 0x140; desc = 0x180 }
      ∷ record { name = 0x1c0; desc = 0x200 }
      ∷ record { name = 0x240; desc = 0x280 }
      ∷ [];
  rounds = 5;
  ebp = 0x1000;
  prompt = 0x100;
}

module _ (m' : Mem) (same : SameOutside memory m' 0x2000 buflen) where
  kept : (a : ℕ) (cs : List ℕ) → a + length cs < 0x1000 → IsText memory a cs → IsText m' a cs
  kept a cs below t = IsText-frame memory m' a cs (λ q h k. same q (inl (omega arith))) t

  string-IsPlaced :
      (a : ℕ) (cs : List ℕ)
      → a ≢ 0
      → a + length cs < 0x1000
      → IsText memory a cs
      → IsAscii cs
      → length cs < 2048
      → IsPlaced m' 2048 a cs
  string-IsPlaced a cs not_null below t ascii short =
      (not_null, omega arith, kept a cs below t, ascii, short, omega arith)

  commands_placed : AreCommands m' 2048 kernel.commands command_texts
  commands_placed = (
    string-IsPlaced 0x140 (codes "help") (omega arith) (omega arith) (omega arith) (omega arith)
        (omega arith),
    string-IsPlaced 0x180 (codes "Display this list of commands") (omega arith) (omega arith)
        (omega arith) (omega arith) (omega arith),
    (
      string-IsPlaced 0x1c0 (codes "kerninfo") (omega arith) (omega arith) (omega arith)
          (omega arith) (omega arith),
      string-IsPlaced 0x200 (codes "Display information about the kernel") (omega arith)
          (omega arith) (omega arith) (omega arith) (omega arith),
      (
        string-IsPlaced 0x240 (codes "backtrace") (omega arith) (omega arith) (omega arith)
            (omega arith) (omega arith),
        string-IsPlaced 0x280 (codes "Backtracing the stack") (omega arith) (omega arith)
            (omega arith) (omega arith) (omega arith),
        refl,
      ),
    ),
  )

  byte_kept : (a : ℕ) → a < 0x2000 → m' a ≡ memory a
  byte_kept a below = same a (inl below)

  memory_high : (a : ℕ) → 0x1000 ≤ a → memory a < 2 ^ 8
  memory_high a h = ground arith

  word_kept : (a : ℕ) → a + 3 < 0x2000 → load32 m' a ≡ load32 memory a
  word_kept a below =
      let e0 = byte_kept a (omega arith) in
      let e1 = byte_kept (a + 1) (omega arith) in
      let e2 = byte_kept (a + 2) (omega arith) in
      let e3 = byte_kept (a + 3) (omega arith) in rw (e0, e1, e2, e3) refl

  nowhere : IsPlace m' 2048 kernel.table 0 0xf0f0f0f0 []
  unfolding debuginfo_eip
  nowhere = inl (initial 0 0xf0f0f0f0, refl, refl)

  one_frame :
      IsStack m' 2048 kernel.table 0 0x1000 ([] ∷ [])
      × (stack_text m' 0x1000 ([] ∷ []) ≡ stack_text memory 0x1000 ([] ∷ []))
  one_frame = (
    (
      omega arith,
      λ i h.
          let e = byte_kept (0x1000 + i) (omega arith) in
          rw e (memory_high (0x1000 + i) (omega arith)),
      subst (λ eip. IsPlace m' 2048 kernel.table 0 eip []) (sym (word_kept 0x1004 (omega arith)))
          nowhere,
      word_kept 0x1000 (omega arith),
    ),
    rw
        (
          word_kept 0x1004 (omega arith),
          word_kept 0x1008 (omega arith),
          word_kept 0x100c (omega arith),
          word_kept 0x1010 (omega arith),
          word_kept 0x1014 (omega arith),
          word_kept 0x1018 (omega arith),
        )
        refl,
  )

pub environment : Environment 2048 0x2000 kernel (stack_text memory 0x1000 ([] ∷ [])) memory
environment = record {
  prompt_len = 3;
  prompt_fuel = omega arith;
  prompt_ends = λ m' same. byte_kept m' same 0x103 (omega arith);
  placed = commands_placed;
  apart = (inl (omega arith), (inl (omega arith), (inl (omega arith), refl)));
  places = [] ∷ [];
  places_rounds = omega arith;
  stack = one_frame;
  ebp_small = omega arith;
  symbols = record {
    start_small = omega arith;
    entry_high = omega arith;
    etext_high = omega arith;
    edata_high = omega arith;
    etext_small = omega arith;
    edata_small = omega arith;
    end_small = omega arith;
    entry-le-end = omega arith;
  };
  fuel_room = omega arith;
  buf_pos = omega arith;
  buf_room = omega arith;
}

-- A terminal with what has been typed and what was shown.
abbrev pub type_in : List ℕ × List ℕ → Option (ℕ × (List ℕ × List ℕ))
type_in ([], out) = none
type_in (c ∷ cs, out) = some (c, (cs, out))

abbrev pub show : ℕ → List ℕ × List ℕ → List ℕ × List ℕ
show c (cs, out) = (cs, out ++ (c ∷ []))

pub gives_first :
    (w : List ℕ × List ℕ) (c : ℕ) (cs : List ℕ)
    → w.0 ≡ c ∷ cs
    → (w' : List ℕ × List ℕ) × (type_in w ≡ some (c, w')) × (w'.0 ≡ cs)
gives_first (typed_cs, out) c cs e = ((cs, out), rw e refl, refl)

unfoldable pub typing : Terminal type_in show
typing = record { Waits = λ w cs. w.0 ≡ cs; gives = gives_first; quiet = λ c w cs h. h }

abbrev pub keys : List ℕ
keys = codes "help" ++ (10 ∷ codes "kerninfo 1" ++ (10 ∷ codes "dance" ++ (13 ∷ [])))

monitor-Serves_example :
    Serves type_in show 2048 0x2000 kernel
      (stack_text memory 0x1000 ([] ∷ []))
      typing
      ((codes "help", 10) ∷ (codes "kerninfo 1", 10) ∷ (codes "dance", 13) ∷ [])
      []
      (memory, emit show welcome (keys, []))
      (monitor type_in show 2048 0x2000 kernel 3 (memory, (keys, [])))
unfolding typing
monitor-Serves_example =
    monitor-Serves type_in show 2048 0x2000 kernel (stack_text memory 0x1000 ([] ∷ [])) typing
      ((codes "help", 10) ∷ (codes "kerninfo 1", 10) ∷ (codes "dance", 13) ∷ []) [] memory
      (keys, []) environment
      (
        omega arith,
        omega arith,
        inl refl,
        omega arith,
        (
          omega arith,
          omega arith,
          inl refl,
          omega arith,
          (omega arith, omega arith, inr refl, omega arith, omega arith),
        ),
      )
      refl
