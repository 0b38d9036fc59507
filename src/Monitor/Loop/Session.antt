-- ===== src/Monitor/Loop/Session.antt =====
-- What the monitor should do: answer each line that is typed, in order.
use jos.Base.{
  ℕ, zero, suc, ◌+◌, ◌≤◌, ◌<◌, ◌≡◌, ◌^◌, Option, none, some, List, [], ◌∷◌, ◌++◌, map, length, leb,
  if◌then◌else◌,
}
use jos.Types.{u32}
use jos.Memory.{Mem, SameOutside}
use jos.Memory.Text.{IsText}
use jos.Printf.Format.{codes, emit}
use jos.Printf.Format.Strings.{IsAscii}
use jos.Readline.{buflen, readline}
use jos.Readline.Edit.{edited, IsTyped}
use jos.Readline.Loop.{IsEnter}
use jos.Monitor.Words.{words}
use jos.Monitor.Run.{position, AreApart}
use jos.Monitor.Backtrace.Text.{IsStack, stack_text}
use jos.Monitor.Commands.{Command, Symbols}
use jos.Monitor.Commands.Prints.{command_texts, AreCommands, help_text, AreSymbols, kerninfo_text}
use jos.Monitor.Loop.{Kernel}

-- The names of the commands.
abbrev pub names : List (List ℕ)
names = map (λ (d : List ℕ × List ℕ). d.0) command_texts

module _ (k : Symbols) (trace : List ℕ) where
  -- The text for the command at an index, or for an unknown word.
  unfoldable pub reply_to : List ℕ → Option ℕ → List ℕ
  reply_to w none = codes "Unknown command '" ++ (w ++ codes "'\n")
  reply_to w (some zero) = help_text command_texts
  reply_to w (some (suc zero)) = kerninfo_text k
  reply_to w (some (suc (suc i))) = codes "Stack backtrace\n" ++ trace

  unfoldable pub reply_first : List (List ℕ) → List ℕ
  reply_first [] = []
  reply_first (w ∷ ws) = reply_to w (position 0 names w)

  -- The text that answers a line with these words.
  unfoldable pub reply : List (List ℕ) → List ℕ
  reply ws = if leb (length ws) 15 then reply_first ws else codes "Too many arguments (max 16)\n"

abbrev pub welcome : List ℕ
welcome = codes "Welcome to the JOS kernel monitor!\nType 'help' for a list of commands.\n"

-- Lines that are typed: ASCII characters, and the character that ends the line.
abbrev pub AreLines : ℕ → List (List ℕ × ℕ) → Type 0
AreLines fuel [] = 0 < 1
AreLines fuel ((cs, end) ∷ ls) =
    IsTyped cs × IsAscii cs × IsEnter end × (length cs < fuel) × AreLines fuel ls

abbrev pub typed : List (List ℕ × ℕ) → List ℕ → List ℕ
typed [] rest = rest
typed ((cs, end) ∷ ls) rest = cs ++ (end ∷ typed ls rest)

-- What stands in the kernel's memory, whatever is in the buffer of `readline`: the prompt, the
-- strings of the commands, and a stack of frames whose backtrace is `trace`.
pub record Environment (fuel buf : ℕ) (k : Kernel) (trace : List ℕ) (m : Mem) : Type 0 where
  pub prompt_len : ℕ
  pub prompt_fuel : prompt_len < fuel
  pub prompt_ends : (m' : Mem) → SameOutside m m' buf buflen → m' (u32 k.prompt + prompt_len) ≡ 0
  pub placed :
      (m' : Mem) → SameOutside m m' buf buflen → AreCommands m' fuel k.commands command_texts
  pub apart : AreApart buf buflen (map (λ (c : Command). c.name) k.commands) names
  pub places : List (List ℕ)
  pub places_rounds : length places < k.rounds
  pub stack :
      (m' : Mem)
      → SameOutside m m' buf buflen
      → IsStack m' fuel k.table k.unknown_text k.ebp places × (stack_text m' k.ebp places ≡ trace)
  pub ebp_small : k.ebp < 2 ^ 32
  pub symbols : AreSymbols k.symbols
  pub fuel_room : buflen ≤ fuel
  pub buf_pos : 0 < buf
  pub buf_room : buf + buflen ≤ 2 ^ 32

module _ {W : Type 0} (getchar : W → Option (ℕ × W)) (cputchar : ℕ → W → W) (fuel buf : ℕ)
    (k : Kernel) (trace : List ℕ) where
  -- A line was read into the buffer; then its reply was printed, and nothing but the buffer was
  -- written.
  pub record Answered (cs : List ℕ) (s s' : Mem × W) : Type 0 where
    pub read : Mem × W
    pub returns : readline getchar cputchar fuel buf fuel (some k.prompt) s ≡ some (some buf, read)
    pub text : IsText read.0 buf (edited [] cs)
    pub printed : s'.1 ≡ emit cputchar (reply k.symbols trace (words (edited [] cs))) read.1
    pub same : SameOutside s.0 s'.0 buf buflen

  -- The lines were answered one after the other.
  pub data Session : List (List ℕ × ℕ) → Mem × W → Mem × W → Type 0 where
    done : {s : Mem × W} → Session [] s s
    line :
        {cs : List ℕ} {end : ℕ} {ls : List (List ℕ × ℕ)} {s s1 s2 : Mem × W}
        → Answered cs s s1
        → Session ls s1 s2
        → Session ((cs, end) ∷ ls) s s2
