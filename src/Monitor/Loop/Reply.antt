-- ===== src/Monitor/Loop/Reply.antt =====
-- What is typed is ASCII, and so are its words.
use jos.Base.{
  ℕ, zero, suc, ◌-◌, ◌<◌, ◌&&◌, ◌||◌, ◌==◌, leb, ltb, List, [], ◌∷◌, ◌++◌, arith, length,
  length-append, length-take, take, Bool-cases, inl, inr,
}
use jos.Printf.Format.Strings.{IsAscii}
use jos.Readline.{buflen}
use jos.Readline.Edit.{typed_char, edited}
use jos.Monitor.{is_white}
use jos.Monitor.Words.{words, split, first}

IsAscii-take : (n : ℕ) (cs : List ℕ) → IsAscii cs → IsAscii (take n cs)
IsAscii-take zero cs h = omega arith
IsAscii-take (suc n) [] h = omega arith
IsAscii-take (suc n) (c ∷ cs) h = (h.0, IsAscii-take n cs h.1)

IsAscii-append : (cs : List ℕ) (c : ℕ) → IsAscii cs → c < 128 → IsAscii (cs ++ (c ∷ []))
IsAscii-append [] c h small = (small, omega arith)
IsAscii-append (x ∷ cs) c h small = (h.0, IsAscii-append cs c h.1 small)

module _ (line : List ℕ) (c : ℕ) where
  typed_char-IsAscii : IsAscii line → c < 128 → IsAscii (typed_char line c)
  unfolding typed_char
  typed_char-IsAscii h small = elim (Bool-cases ((c == 0x08 || c == 0x7f) && ltb 0 (length line))) [
    | inl t ↦ rw t (IsAscii-take (length line - 1) line h)
    | inr t ↦ elim (Bool-cases (leb 0x20 c && ltb (length line) (buflen - 1))) [
      | inl u ↦ rw (t, u) (IsAscii-append line c h small)
      | inr u ↦ rw (t, u) h
    ]
  ]

  typed_char_fits : length line < buflen → length (typed_char line c) < buflen
  unfolding typed_char
  typed_char_fits h =
      ground (arith, length-take (length line - 1) line, length-append line (c ∷ []))

pub edited-IsAscii : (line cs : List ℕ) → IsAscii line → IsAscii cs → IsAscii (edited line cs)
unfolding edited
edited-IsAscii line [] h k = h
edited-IsAscii line (c ∷ cs) h k =
    edited-IsAscii (typed_char line c) cs (typed_char-IsAscii line c h k.0) k.1

pub edited_fits : (line cs : List ℕ) → length line < buflen → length (edited line cs) < buflen
unfolding edited
edited_fits line [] h = h
edited_fits line (c ∷ cs) h = edited_fits (typed_char line c) cs (typed_char_fits line c h)

split-IsAscii : (cs : List ℕ) → IsAscii cs → IsAscii (split cs).0
unfolding split
split-IsAscii [] h = omega arith
split-IsAscii (c ∷ cs) h = elim (Bool-cases (is_white c)) [
  | inl white ↦ rw white (omega arith)
  | inr black ↦ rw black (h.0, split-IsAscii cs h.1)
]

pub first-IsAscii : (cs : List ℕ) → IsAscii cs → IsAscii (first (words cs))
unfolding split
first-IsAscii [] h = omega arith
first-IsAscii (c ∷ cs) h = elim (Bool-cases (is_white c)) [
  | inl white ↦ rw white (first-IsAscii cs h.1)
  | inr black ↦ rw black (h.0, split-IsAscii cs h.1)
]
