-- ===== src/Tests/Terminal.antt =====
-- Console devices, line input and the command interpreter.
use jos.Base.{
  ℕ, ◌+◌, ◌-◌, ◌≤◌, ◌<◌, ◌≡◌, ◌⊎◌, refl, inl, true, false, Option, none, some, List, [], ◌∷◌, ◌++◌,
  arith, get_or, replicate, ◌==◌, if◌then◌else◌, length, ltb,
}
use jos.Memory.{Mem}
use jos.Memory.Text.{IsText}
use jos.Ports.{Ports}
use jos.Printf.Format.{codes, emit}
use jos.Console.Screen.{Screen, crt_size, blank}
use jos.Console.Output.{Machine, cons_putc, com1}
use jos.Console.Output.Sent.{Line}
use jos.Console.Output.Text.{on_line, cprintf-sent}
use jos.Printf.{printnum}
use jos.Printf.Cprintf.{cprintf}
use jos.Printf.Format.Pieces.{literal, dec, numeral}
use jos.Readline.{readline}
use jos.Readline.Edit.{edited, typed_char}
use jos.Readline.Loop.{Terminal, Reads}
use jos.Readline.Echo.{Echoes, readline-Echoes}
use jos.Monitor.{runcmd, refused}
use jos.Monitor.Words.{words, split}
use jos.Monitor.Parse.{AreTexts, AreInside}
use jos.Monitor.Run.{answered, runcmd-answered, runcmd_refused}

-- A machine whose devices record the bytes that the serial port was given.
abbrev recorder : Ports (List ℕ)
recorder = record {
  read8 = λ port w. (0xff, w);
  read32 = λ port w. (0, w);
  write8 = λ port v w. if port == com1 then w ++ (v ∷ []) else w;
  write16 = λ port v w. w;
}

recorder-Line : Line recorder com1
recorder-Line = record {
  sent = λ w. w;
  takes = λ v w. refl;
  others = λ port v w h. let t : (port == com1) ≡ false = ground arith in rw t refl;
  reads = λ port w. refl;
}

abbrev empty_screen : Screen
empty_screen = record { crt_buf = replicate crt_size blank; crt_pos = 0 }

abbrev started : Machine (List ℕ)
started = record {
  devices = [];
  screen = empty_screen;
  addr_6845 = 0x3d4;
  serial_exists = true;
  shift = 0;
}

cprintf-sent_example :
    (s' : Machine (List ℕ)) × (cprintf
        (cons_putc recorder)
        (λ _ _. 0)
        20
        (codes "n:\t%d")
        (7 ∷ [])
        started
      ≡ some s')
    × (recorder-Line.sent s'.devices ≡ codes "n:\t     7")
unfolding recorder-Line on_line numeral printnum
cprintf-sent_example =
    cprintf-sent recorder com1 recorder-Line (inl refl) (λ _. 0) 20
      (literal (codes "n:\t") ∷ dec 7 ∷ []) started (omega arith) (omega arith) (inl refl)

-- A terminal with what has been typed and what was shown.
abbrev type_in : List ℕ × List ℕ → Option (ℕ × (List ℕ × List ℕ))
type_in ([], out) = none
type_in (c ∷ cs, out) = some (c, (cs, out))

abbrev show : ℕ → List ℕ × List ℕ → List ℕ × List ℕ
show c (cs, out) = (cs, out ++ (c ∷ []))

gives_first :
    (w : List ℕ × List ℕ) (c : ℕ) (cs : List ℕ)
    → w.0 ≡ c ∷ cs
    → (w' : List ℕ × List ℕ) × (type_in w ≡ some (c, w')) × (w'.0 ≡ cs)
gives_first (typed, out) c cs e = ((cs, out), rw e refl, refl)

typing : Terminal type_in show
typing = record { Waits = λ w cs. w.0 ≡ cs; gives = gives_first; quiet = λ c w cs h. h }

-- The prompt "K> " at 16.
abbrev prompt_memory : Mem
prompt_memory q = get_or (codes "K> ") (q - 16) 0

abbrev keys : List ℕ × List ℕ
keys = (104 ∷ 8 ∷ 105 ∷ 10 ∷ [], [])

readline-Echoes_example :
    (m' : Mem) × (last : List ℕ × List ℕ) × (readline type_in show 20 2048 9
        (some 16)
        (prompt_memory, keys)
      ≡ some (some 2048, (m', last)))
    × Echoes type_in show [] (104 ∷ 8 ∷ 105 ∷ []) 10 (emit show (codes "K> ") keys) last
    × Reads type_in show 20 2048 typing prompt_memory
        (edited [] (104 ∷ 8 ∷ 105 ∷ []))
        []
        (some (some 2048, (m', last)))
unfolding typing
readline-Echoes_example =
    readline-Echoes type_in show 20 2048 typing (104 ∷ 8 ∷ 105 ∷ []) 9 16 (codes "K> ")
      prompt_memory keys 10 [] (omega arith) (inl refl) refl (omega arith)
      (omega arith, omega arith, omega arith, omega arith, omega arith, omega arith)

edits : edited [] (104 ∷ 8 ∷ 105 ∷ []) ≡ 105 ∷ []
unfolding edited typed_char
edits = refl

-- Delete on an empty line is not taken as an erase.
delete_first : edited [] (0x7f ∷ []) ≡ 0x7f ∷ []
unfolding edited typed_char
delete_first = refl

-- The line " help me" at 16, and the name "help" at 0.
abbrev line_memory : Mem
line_memory a = if ltb a 16 then get_or (codes "help") a 0 else get_or (codes " help me") (a - 16) 0

line-IsText : IsText line_memory 16 (codes " help me")
line-IsText = omega arith

names-AreTexts : AreTexts line_memory (0 ∷ []) (codes "help" ∷ [])
names-AreTexts = (omega arith, refl)

few_words : length (words (codes " help me")) ≤ 15
unfolding split
few_words = omega arith

runcmd-answered_example :
    (m' : Mem) × (argv : List ℕ) × (runcmd 20 (0 ∷ []) line_memory 16
      ≡ some (m', answered (codes "help" ∷ []) (words (codes " help me")) argv))
    × AreTexts m' argv (words (codes " help me"))
    × AreInside 16 (16 + length (codes " help me")) argv
    × ((q : ℕ) → (q < 16) ⊎ (16 + length (codes " help me") ≤ q) → m' q ≡ line_memory q)
runcmd-answered_example =
    runcmd-answered 20 line_memory 16 (codes " help me") (0 ∷ []) (codes "help" ∷ []) line-IsText
      (omega arith) few_words names-AreTexts (inl (omega arith), refl)

two_words : words (codes " help me") ≡ codes "help" ∷ codes "me" ∷ []
unfolding split
two_words = refl

-- Sixteen words of one letter.
abbrev sixteen : List ℕ
sixteen = codes "a b c d e f g h i j k l m n o p"

many_words : 15 < length (words sixteen)
unfolding split
many_words = omega arith

runcmd_refused_example :
    (m' : Mem) × (runcmd 40 [] (λ a. get_or sixteen a 0) 0 ≡ some (m', refused))
    × ((q : ℕ) → (q < 0) ⊎ (0 + length sixteen ≤ q) → m' q ≡ get_or sixteen q 0)
runcmd_refused_example =
    runcmd_refused 40 (λ a. get_or sixteen a 0) 0 sixteen [] (omega arith) (omega arith) many_words
