-- ===== src/Monitor/Backtrace/Text.antt =====
-- The text of a backtrace.
use jos.Base.{ℕ, zero, suc, ◌+◌, ◌*◌, ◌≡◌, ◌≢◌, ◌⊎◌, ◌<◌, ◌^◌, some, List, [], ◌∷◌, ◌++◌}
use jos.Memory.{Mem}
use jos.Boot.{load32}
use jos.Memlayout.{ulim}
use jos.Printf.Format.{codes}
use jos.Printf.Format.Pieces.{Piece, literal, dec, str, cut_str, numeral, texts, ArePieces}
use jos.Kdebug.Info.{Table, Eipdebuginfo, not_found, found, debuginfo_eip}

-- The eight hexadecimal digits of a word.
abbrev pub hex8 : ℕ → List ℕ
hex8 = numeral 16 8 b'0'

-- The text for the arguments from the `i`-th on, and the line of a frame.
abbrev pub args_text : ℕ → ℕ → Mem → ℕ → List ℕ
args_text zero i m ebp = []
args_text (suc left) i m ebp =
    (hex8 (load32 m (ebp + 8 + 4 * i)) ++ codes " ") ++ args_text left (i + 1) m ebp

abbrev pub frame_text : Mem → ℕ → List ℕ
frame_text m ebp =
    (codes "ebp " ++ (hex8 ebp ++ codes " "))
    ++ ((codes "eip " ++ (hex8 (load32 m (ebp + 4)) ++ codes " "))
        ++ (codes "args " ++ (args_text 5 0 m ebp ++ codes "\n")))

-- The text for a stack of frames, of which the lookups print `places`.
abbrev pub stack_text : Mem → ℕ → List (List ℕ) → List ℕ
stack_text m ebp [] = []
stack_text m ebp (place ∷ places) =
    (frame_text m ebp ++ (place ++ codes "\n")) ++ stack_text m (load32 m ebp) places

-- The line for a return address whose lookup succeeds, with the strings for its file and its
-- function.
abbrev pub place_pieces : Eipdebuginfo → List ℕ → List ℕ → List Piece
place_pieces info file name =
    str (info.eip_file) file
    ∷ literal (codes ":")
    ∷ dec (info.eip_line)
    ∷ literal (codes ": ")
    ∷ cut_str (info.eip_fn_namelen) (info.eip_fn_name) name
    ∷ literal (codes "+")
    ∷ dec (info.eip_line)
    ∷ literal (codes "\n")
    ∷ []

module _ (m : Mem) (fuel : ℕ) (t : Table) (unknown : ℕ) where
  -- What the lookup of a return address prints: nothing where it fails, and the line of its place
  -- where it succeeds, whose strings stand in memory.
  abbrev pub IsPlace : ℕ → List ℕ → Type 0
  IsPlace eip place =
      ((info : Eipdebuginfo) × (debuginfo_eip t fuel m unknown eip ≡ some (not_found info))
        × (place ≡ []))
      ⊎ ((info : Eipdebuginfo) × (file : List ℕ) × (name : List ℕ) × (debuginfo_eip t fuel m unknown
              eip
            ≡ some (found info))
          × ArePieces m fuel (place_pieces info file name)
          × (place ≡ texts (place_pieces info file name)))

  -- From `ebp` on stands a stack of frames of seven words, one for each of the places, which are
  -- those of the return addresses.
  abbrev pub IsStack : ℕ → List (List ℕ) → Type 0
  IsStack ebp [] = ebp ≡ 0
  IsStack ebp (place ∷ places) =
      (ebp ≢ 0)
      × ((i : ℕ) → i < 28 → m (ebp + i) < 2 ^ 8)
      × IsPlace (load32 m (ebp + 4)) place
      × IsStack (load32 m ebp) places

  -- From `ebp` on stand frames with their places, and then one whose return address is none of the
  -- kernel's.
  abbrev pub IsUserStack : ℕ → List (List ℕ) → Type 0
  IsUserStack ebp [] =
      (ebp ≢ 0) × ((i : ℕ) → i < 28 → m (ebp + i) < 2 ^ 8) × (load32 m (ebp + 4) < ulim)
  IsUserStack ebp (place ∷ places) =
      (ebp ≢ 0)
      × ((i : ℕ) → i < 28 → m (ebp + i) < 2 ^ 8)
      × IsPlace (load32 m (ebp + 4)) place
      × IsUserStack (load32 m ebp) places

-- The text for such a stack: the last frame has no place.
abbrev pub user_stack_text : Mem → ℕ → List (List ℕ) → List ℕ
user_stack_text m ebp [] = frame_text m ebp
user_stack_text m ebp (place ∷ places) =
    (frame_text m ebp ++ (place ++ codes "\n")) ++ user_stack_text m (load32 m ebp) places
