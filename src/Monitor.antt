-- ===== src/Monitor.antt =====
-- kern/monitor.c: the command interpreter. A command line is a string in memory; loops that run to
-- its end have fuel.
pub mod Words
pub mod Scan
pub mod Parse
pub mod Run
pub mod Backtrace
pub mod Commands
pub mod Loop
use jos.Base.{
  ℕ, zero, suc, ◌+◌, ◌-◌, Bool, true, false, not, ◌&&◌, ◌||◌, Option, none, some, List, [], ◌∷◌,
  ◌++◌, ◌==◌, if◌then◌else◌, ◌>>=◌, length,
}
use jos.Base.Int.{ℤ, pos, negsuc}
use jos.Memory.{Mem, store}
use jos.Str.{strcmp}

abbrev pub maxargs : ℕ
maxargs = 16

-- `strchr(WHITESPACE, c)` for a character that is not 0
abbrev pub is_white : ℕ → Bool
is_white c = c == b'\t' || c == b'\r' || c == b'\n' || c == b' '

-- `while (*buf && strchr(WHITESPACE, *buf)) *buf++ = 0;`
unfoldable pub gobble : ℕ → Mem → ℕ → Option (Mem × ℕ)
gobble zero m buf = none
gobble (suc fuel) m buf =
    let rest = gobble fuel (store m buf 0) (buf + 1) in
    if not (m buf == 0) && is_white (m buf) then rest else some (m, buf)

-- `while (*buf && !strchr(WHITESPACE, *buf)) buf++;`
unfoldable pub scan_past : ℕ → Mem → ℕ → Option ℕ
scan_past zero m buf = none
scan_past (suc fuel) m buf =
    let rest = scan_past fuel m (buf + 1) in
    if not (m buf == 0) && not (is_white (m buf)) then rest else some buf

-- `d == 0` for an `int`
abbrev pub is_zero : ℤ → Bool
is_zero (pos n) = n == 0
is_zero (negsuc n) = false

-- `argv` with `argc` entries, or the line had too many
pub data Parsed : Type 0 where
  arguments : List ℕ → Parsed
  too_many : Parsed

-- The loop of `runcmd`, with the arguments that it has found.
unfoldable pub parse : ℕ → ℕ → Mem → ℕ → List ℕ → Option (Mem × Parsed)
parse fuel zero m buf argv = none
parse fuel (suc rounds) m buf argv = elim (gobble fuel m buf) [
  | none ↦ none
  | some (m', p) ↦ elim (m' p == 0) [
    | true ↦ some (m', arguments argv)
    | false ↦ elim (length argv == maxargs - 1) [
      | true ↦ some (m', too_many)
      | false ↦ elim (scan_past fuel m' p) [
        | none ↦ none
        | some next ↦ parse fuel rounds m' next (argv ++ (p ∷ []))
      ]
    ]
  ]
]

-- What `runcmd` goes on to do: nothing, or a message for too many arguments or for an unknown
-- command, or the call of `commands[i].func(argc, argv, tf)`.
pub data Request : Type 0 where
  nothing : Request
  refused : Request
  unknown : ℕ → Request
  invoke : ℕ → List ℕ → Request

-- The loop over `commands`, from the `i`-th one on; `names` are the pointers that are left.
unfoldable pub find_command : ℕ → Mem → ℕ → ℕ → List ℕ → Option (Option ℕ)
find_command fuel m argv0 i [] = some none
find_command fuel m argv0 i (name ∷ names) = elim (strcmp fuel m argv0 name) [
  | none ↦ none
  | some d ↦ elim (is_zero d) [
    | true ↦ some (some i)
    | false ↦ find_command fuel m argv0 (i + 1) names
  ]
]

abbrev pub request : ℕ → List ℕ → Option ℕ → Request
request argv0 argv none = unknown argv0
request argv0 argv (some i) = invoke i argv

-- `runcmd` behind the loop that parses
unfoldable pub lookup : ℕ → List ℕ → Mem × Parsed → Option (Mem × Request)
lookup fuel names (m, too_many) = some (m, refused)
lookup fuel names (m, arguments []) = some (m, nothing)
lookup fuel names (m, arguments (argv0 ∷ argv)) =
    find_command fuel m argv0 0 names >>= λ found. some (m, request argv0 (argv0 ∷ argv) found)

-- `runcmd(buf, tf)` up to what it calls
unfoldable pub runcmd : ℕ → List ℕ → Mem → ℕ → Option (Mem × Request)
runcmd fuel names m buf = parse fuel fuel m buf [] >>= lookup fuel names
