-- ===== src/Monitor/Loop/Request.antt =====
-- What a request prints is the reply to the words of the line.
use jos.Base.{
  ℕ, zero, suc, ◌+◌, ◌≤◌, ◌<◌, ◌≡◌, ◌⊎◌, refl, ◌∙◌, inl, inr, true, Option, none, some, List, [],
  ◌∷◌, ◌++◌, map, length, arith,
}
use jos.Memory.{Mem, SameOutside}
use jos.Memory.Text.{IsText}
use jos.Printf.{printnum}
use jos.Printf.Format.{codes, emit}
use jos.Printf.Format.Strings.{IsAscii}
use jos.Printf.Format.Pieces.{literal, dec, str, numeral}
use jos.Readline.{buflen}
use jos.Monitor.{Request, refused, unknown, invoke}
use jos.Monitor.Words.{first}
use jos.Monitor.Parse.{AreTexts, AreInside}
use jos.Monitor.Run.{answered, position}
use jos.Monitor.Backtrace.{mon_backtrace}
use jos.Monitor.Backtrace.Frames.{mon_backtrace-emit}
use jos.Monitor.Commands.{Command, Ending, returned, put, memory, call, answer}
use jos.Monitor.Commands.Prints.{
  command_texts, AreCommands, emit-put, print-shown, mon_help-shown, mon_kerninfo-shown,
}
use jos.Monitor.Loop.{Kernel}
use jos.Monitor.Loop.Session.{names, reply_to, reply_first, Environment}

Option-cases {ℓ} : {A : Type ℓ} (o : Option A) → (o ≡ none) ⊎ ((a : A) × (o ≡ some a))
Option-cases none = inl refl
Option-cases (some a) = inr (a, refl)

-- An environment is kept where nothing but the buffer is written.
pub SameOutside-trans :
    (m m' m'' : Mem) (p n : ℕ)
    → SameOutside m m' p n
    → SameOutside m' m'' p n
    → SameOutside m m'' p n
SameOutside-trans m m' m'' p n h k q o = k q o ∙ h q o

pub Environment-same :
    {fuel buf : ℕ} {k : Kernel} {trace : List ℕ} {m : Mem} (m' : Mem)
    → SameOutside m m' buf buflen
    → Environment fuel buf k trace m
    → Environment fuel buf k trace m'
Environment-same {buf} {m} m' same env = record {
  prompt_len = env.prompt_len;
  prompt_fuel = env.prompt_fuel;
  prompt_ends = λ n h. env.prompt_ends n (SameOutside-trans m m' n buf buflen same h);
  placed = λ n h. env.placed n (SameOutside-trans m m' n buf buflen same h);
  apart = env.apart;
  places = env.places;
  places_rounds = env.places_rounds;
  stack = λ n h. env.stack n (SameOutside-trans m m' n buf buflen same h);
  ebp_small = env.ebp_small;
  symbols = env.symbols;
  fuel_room = env.fuel_room;
  buf_pos = env.buf_pos;
  buf_room = env.buf_room;
}

pub AreTexts-commands :
    (m : Mem) (fuel : ℕ) (commands : List Command) (ds : List (List ℕ × List ℕ))
    → AreCommands m fuel commands ds
    → AreTexts m (map (λ (c : Command). c.name) commands) (map (λ (d : List ℕ × List ℕ). d.0) ds)
AreTexts-commands m fuel [] [] h = refl
AreTexts-commands m fuel [] (d ∷ ds) h = h
AreTexts-commands m fuel (c ∷ cs) [] h = h
AreTexts-commands m fuel (c ∷ cs) (d ∷ ds) h = (h.0.2, AreTexts-commands m fuel cs ds h.2)

module _ {W : Type 0} (cputchar : ℕ → W → W) (fuel buf : ℕ) (k : Kernel) (trace : List ℕ) (m : Mem)
    (env : Environment fuel buf k trace m) where
  abbrev do_answer : Request → Mem × W → Option (Ending × (Mem × W))
  do_answer = answer cputchar fuel k.table k.unknown_text k.symbols k.commands k.rounds k.ebp

  abbrev replied : List ℕ → W → Option (Ending × (Mem × W))
  replied text w = some (returned 0, (m, emit cputchar text w))

  self : SameOutside m m buf buflen
  self q h = refl

  unknown-shown :
      (a : ℕ) (cs : List ℕ) (w : W)
      → buf ≤ a
      → a < buf + buflen
      → IsText m a cs
      → IsAscii cs
      → length cs < buflen
      → do_answer (unknown a) (m, w) ≡ replied (reply_to k.symbols trace cs none) w
  unfolding answer reply_to
  unknown-shown a cs w lo hi t ascii long =
      let printed =
        print-shown cputchar fuel
          (literal (codes "Unknown command '") ∷ str a cs ∷ literal (codes "'\n") ∷ []) (m, w)
          (
            omega arith,
            (
              (
                omega (arith, env.buf_pos),
                omega (arith, env.buf_room),
                t,
                ascii,
                omega (arith, env.fuel_room),
                omega arith,
              ),
              omega arith,
            ),
          ) in
      rw printed refl

  pub backtrace-shown :
      (w : W)
      → mon_backtrace
          (put cputchar fuel)
          (memory cputchar fuel)
          fuel
          k.table
          k.unknown_text
          k.rounds
          k.ebp
          (m, w)
        ≡ some (true, (m, emit cputchar (codes "Stack backtrace\n" ++ trace) w))
  backtrace-shown w =
      let stands = env.stack m self in
      let traced =
        mon_backtrace-emit (put cputchar fuel) (memory cputchar fuel) fuel (λ c s. refl) m k.table
          k.unknown_text k.rounds k.ebp env.places (m, w) env.places_rounds env.ebp_small stands.0
          refl in
      rw (traced, stands.1, emit-put cputchar fuel) refl

  call-shown :
      (i : ℕ) (cs : List ℕ) (argv : List ℕ) (w : W)
      → do_answer (invoke i argv) (m, w) ≡ replied (reply_to k.symbols trace cs (some i)) w
  unfolding answer call reply_to
  call-shown zero cs argv w =
      let printed =
        mon_help-shown cputchar fuel k.commands command_texts (m, w) (env.placed m self) in
      rw printed refl
  call-shown (suc zero) cs argv w =
      let printed = mon_kerninfo-shown cputchar fuel k.symbols (m, w) env.symbols in rw printed refl
  call-shown (suc (suc i)) cs argv w = rw (backtrace-shown w) refl

  pub refused-shown :
      (w : W) → do_answer refused (m, w) ≡ replied (codes "Too many arguments (max 16)\n") w
  unfolding answer numeral printnum
  refused-shown w =
      let printed =
        print-shown cputchar fuel
          (literal (codes "Too many arguments (max ") ∷ dec 16 ∷ literal (codes ")\n") ∷ []) (m, w)
          (omega arith) in
      rw printed refl

  pub answered-shown :
      (ws : List (List ℕ)) (argv : List ℕ) (w : W)
      → AreTexts m argv ws
      → AreInside buf (buf + buflen) argv
      → IsAscii (first ws)
      → length (first ws) < buflen
      → do_answer (answered names ws argv) (m, w) ≡ replied (reply_first k.symbols trace ws) w
  unfolding answered reply_first answer emit
  answered-shown [] argv w t inside ascii long = refl
  answered-shown (v ∷ ws) [] w t inside ascii long = cc
  answered-shown (v ∷ ws) (a ∷ argv) w t inside ascii long =
      elim (Option-cases (position 0 names v)) [
        | inl e ↦ rw e (unknown-shown a v w inside.0 inside.1 t.0 ascii long)
        | inr (i, e) ↦ rw e (call-shown i v (a ∷ argv) w)
      ]
