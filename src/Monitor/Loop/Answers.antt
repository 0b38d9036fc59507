-- ===== src/Monitor/Loop/Answers.antt =====
-- `monitor` answers every line that is typed.
use jos.Base.{
  ℕ, ◌+◌, ◌≤◌, ◌<◌, ◌≡◌, ◌⊎◌, refl, true, false, Option, some, List, [], ◌∷◌, ◌++◌, map, length,
  leb, arith, dec_le,
}
use jos.Memory.{Mem, SameOutside}
use jos.Memory.Text.{IsText}
use jos.Printf.Format.{codes, emit}
use jos.Printf.Format.Emits.{emit-Ok, emit-append}
use jos.Printf.Format.Strings.{IsAscii}
use jos.Printf.Format.Pieces.{literal}
use jos.Readline.{buflen}
use jos.Readline.Edit.{edited, IsTyped}
use jos.Readline.Loop.{Terminal, IsEnter, readline-edited}
use jos.Monitor.Words.{words, length-first}
use jos.Monitor.Parse.{AreInside-mono}
use jos.Monitor.Run.{AreApart, runcmd-answered, runcmd_refused}
use jos.Monitor.Commands.{Command, returned}
use jos.Monitor.Commands.Prints.{command_texts, print-shown}
use jos.Monitor.Loop.{Kernel, Status, at_prompt, run_line, handle, round, rounds, monitor}
use jos.Monitor.Loop.Session.{
  names, reply, AreLines, typed, welcome, Environment, Answered, Session, done, line,
}
use jos.Monitor.Loop.Reply.{edited-IsAscii, edited_fits, first-IsAscii}
use jos.Monitor.Loop.Request.{
  SameOutside-trans, Environment-same, AreTexts-commands, refused-shown, answered-shown,
}

AreApart-mono :
    (p n n' : ℕ) (qs : List ℕ) (ws : List (List ℕ))
    → n ≤ n'
    → AreApart p n' qs ws
    → AreApart p n qs ws
AreApart-mono p n n' [] ws le h = refl
AreApart-mono p n n' (q ∷ qs) [] le h = refl
AreApart-mono p n n' (q ∷ qs) (w ∷ ws) le h =
    (omega (arith, h.0), AreApart-mono p n n' qs ws le h.1)

module _ {W : Type 0} (getchar : W → Option (ℕ × W)) (cputchar : ℕ → W → W) (fuel buf : ℕ)
    (k : Kernel) (trace : List ℕ) where
  -- The line in the buffer was run, its reply printed, and only the buffer written.
  record Runs (m : Mem) (w : W) (cs : List ℕ) : Type 0 where
    after : Mem
    returns :
        run_line getchar cputchar fuel buf k buf (m, w)
        ≡ some (returned 0, (after, emit cputchar (reply k.symbols trace (words cs)) w))
    same : SameOutside m after buf buflen

  module _ (m : Mem) (w : W) (cs : List ℕ) (env : Environment fuel buf k trace m)
      (t : IsText m buf cs) (ascii : IsAscii cs) (fits : length cs < buflen) where
    long_fuel : length cs < fuel
    long_fuel = omega (arith, env.fuel_room)

    widen :
        (m' : Mem)
        → ((q : ℕ) → (q < buf) ⊎ (buf + length cs ≤ q) → m' q ≡ m q)
        → SameOutside m m' buf buflen
    widen m' h q o = h q (omega arith)

    run_line_few : length (words cs) ≤ 15 → Runs m w cs
    unfolding run_line reply
    run_line_few few =
        let few_test : leb (length (words cs)) 15 ≡ true = ground arith in
        let commands = k.commands in
        let placed = env.placed m (λ q h. refl) in
        let (m', argv, parsed, texts, inside, kept) =
          runcmd-answered fuel m buf cs (map (λ (c : Command). c.name) commands) names t long_fuel
            few (AreTexts-commands m fuel commands command_texts placed)
            (AreApart-mono buf (length cs) buflen (map (λ (c : Command). c.name) commands) names
              (omega arith) env.apart) in
        let printed =
          answered-shown cputchar fuel buf k trace m' (Environment-same m' (widen m' kept) env)
            (words cs) argv w texts
            (AreInside-mono buf (buf + length cs) buf (buf + buflen) argv (omega arith)
              (omega arith) inside)
            (first-IsAscii cs ascii) (omega (arith, length-first cs)) in
        record { after = m'; returns = rw (parsed, printed, few_test) refl; same = widen m' kept }

    run_line_many : 15 < length (words cs) → Runs m w cs
    unfolding run_line reply
    run_line_many many =
        let many_test : leb (length (words cs)) 15 ≡ false = ground arith in
        let (m', parsed, kept) =
          runcmd_refused fuel m buf cs (map (λ (c : Command). c.name) k.commands) t long_fuel
            many in
        let printed =
          refused-shown cputchar fuel buf k trace m' (Environment-same m' (widen m' kept) env) w in
        record { after = m'; returns = rw (parsed, printed, many_test) refl; same = widen m' kept }

    run_line-Runs : Runs m w cs
    run_line-Runs = elim (dec_le (length (words cs)) 15) [
      | yes few ↦ run_line_few few
      | no many ↦ run_line_many (omega arith)
    ]

  module _ (terminal : Terminal getchar cputchar) where
    -- One round of the loop reads a line and answers it.
    record Replied (cs : List ℕ) (rest : List ℕ) (s : Mem × W) : Type 0 where
      next : Mem × W
      returns : round getchar cputchar fuel buf k s ≡ some (at_prompt, next)
      answered : Answered getchar cputchar fuel buf k trace cs s next
      waits : terminal.Waits next.1 rest

    round-Replied :
        (cs : List ℕ) (end : ℕ) (rest : List ℕ) (s : Mem × W)
        → Environment fuel buf k trace s.0
        → IsTyped cs
        → IsAscii cs
        → IsEnter end
        → length cs < fuel
        → terminal.Waits s.1 (cs ++ (end ∷ rest))
        → Replied cs rest s
    unfolding round handle
    round-Replied cs end rest s env typed_cs ascii enter long waits =
        let l = edited [] cs in
        let r =
          readline-edited getchar cputchar fuel buf terminal cs fuel k.prompt env.prompt_len s.0 s.1
            end rest typed_cs enter waits long env.prompt_fuel (omega (arith, env.fuel_room))
            (env.prompt_ends s.0 (λ q h. refl)) in
        let run =
          run_line-Runs r.after r.left l (Environment-same r.after r.same env) r.text
            (edited-IsAscii [] cs (omega arith) ascii) (edited_fits [] cs (omega arith)) in
        let text = reply k.symbols trace (words l) in
        record {
          next = (run.after, emit cputchar text r.left);
          returns = rw (r.returns, run.returns) refl;
          answered = record {
            read = (r.after, r.left);
            returns = r.returns;
            text = r.text;
            printed = refl;
            same = SameOutside-trans s.0 r.after run.after buf buflen r.same run.same;
          };
          waits =
              emit-Ok cputchar (λ u. terminal.Waits u rest)
                (λ c u here. terminal.quiet c u rest here) text r.left r.waits;
        }

    -- What the loop has done when it has answered so many lines.
    pub record Serves (ls : List (List ℕ × ℕ)) (rest : List ℕ) (s : Mem × W)
        (result : Option (Status × (Mem × W))) : Type 0 where
      pub last : Mem × W
      pub returns : result ≡ some (at_prompt, last)
      pub session : Session getchar cputchar fuel buf k trace ls s last
      pub waits : terminal.Waits last.1 rest

    rounds-Serves :
        (ls : List (List ℕ × ℕ)) (rest : List ℕ) (s : Mem × W)
        → Environment fuel buf k trace s.0
        → AreLines fuel ls
        → terminal.Waits s.1 (typed ls rest)
        → Serves ls rest s (rounds getchar cputchar fuel buf k (length ls) s)
    unfolding rounds
    rounds-Serves [] rest s env lines waits = record {
      last = s;
      returns = refl;
      session = done;
      waits = waits;
    }
    rounds-Serves ((cs, end) ∷ ls) rest s env lines waits =
        let r = round-Replied cs end (typed ls rest) s env lines.0 lines.1 lines.2 lines.3 waits in
        let later =
          rounds-Serves ls rest r.next (Environment-same r.next.0 r.answered.same env) lines.4
            r.waits in
        record {
          last = later.last;
          returns = rw (rounds, r.returns, later.returns) refl;
          session = line r.answered later.session;
          waits = later.waits;
        }

    -- Where the kernel's memory holds what the monitor needs, and lines of ASCII characters have been
    -- typed, `monitor` greets, reads the lines one after the other, prints for each the reply to its
    -- words, with nothing written but the line buffer, and is at its prompt again: no line ends it.
    pub monitor-Serves :
        (ls : List (List ℕ × ℕ)) (rest : List ℕ) (m : Mem) (w : W)
        → Environment fuel buf k trace m
        → AreLines fuel ls
        → terminal.Waits w (typed ls rest)
        → Serves ls rest
            (m, emit cputchar welcome w)
            (monitor getchar cputchar fuel buf k (length ls) (m, w))
    unfolding monitor
    monitor-Serves ls rest m w env lines waits =
        let a = codes "Welcome to the JOS kernel monitor!\n" in
        let b = codes "Type 'help' for a list of commands.\n" in
        let first_line = print-shown cputchar fuel (literal a ∷ []) (m, w) (omega arith) in
        let second_line =
          print-shown cputchar fuel (literal b ∷ []) (m, emit cputchar a w) (omega arith) in
        let greeted : emit cputchar welcome w ≡ emit cputchar b (emit cputchar a w) =
          emit-append cputchar a b w in
        let run =
          rounds-Serves ls rest (m, emit cputchar welcome w) env lines
            (emit-Ok cputchar (λ u. terminal.Waits u (typed ls rest))
              (λ c u here. terminal.quiet c u (typed ls rest) here) welcome w waits) in
        record {
          last = run.last;
          returns = rw (first_line, second_line, ← greeted) (run.returns);
          session = run.session;
          waits = run.waits;
        }
