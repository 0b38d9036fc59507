-- ===== src/Tests/Backtrace.antt =====
-- The backtrace of a stack of two frames, one of them with a place.
use jos.Base.{
  ℕ, zero, suc, ◌≡◌, ◌<◌, ◌^◌, ◌-◌, ◌+◌, ◌==◌, refl, inl, inr, true, false, some, List, [], ◌∷◌,
  ◌++◌, leb, if◌then◌else◌, arith, get_or, Bool-cases,
}
use jos.Memory.{Mem}
use jos.Str.{strfind}
use jos.Printf.Format.{codes, emit}
use jos.Kdebug.{Stab, n_fun, n_sline, n_so, n_psym, stab_binsearch, round, scan, finish}
use jos.Kdebug.Info.{
  Table, Eipdebuginfo, initial, debuginfo_eip, after_file, after_function, in_function,
  fill_namelen, fill_function, fill_line, string_at, walk_back, count_args,
}
use jos.Monitor.Backtrace.{mon_backtrace}
use jos.Monitor.Backtrace.Text.{IsPlace, stack_text, user_stack_text, place_pieces}
use jos.Printf.Format.Pieces.{texts}
use jos.Monitor.Backtrace.Frames.{mon_backtrace-emit}
use jos.Monitor.Backtrace.User.{mon_backtrace-panics}

abbrev record_char : ℕ → List ℕ → List ℕ
record_char c s = s ++ (c ∷ [])

abbrev entry : ℕ → ℕ → ℕ → Stab
entry strx type val = record {
  n_strx = strx;
  n_type = type;
  n_other = 0;
  n_desc = 0;
  n_value = val;
}

abbrev nth : List Stab → ℕ → Stab
nth [] i = entry 0 0 0
nth (s ∷ ss) zero = s
nth (s ∷ ss) (suc i) = nth ss i

abbrev table : Table
table = record {
  stabs = nth (
      entry 0 0 0
      ∷ entry 1 n_so 0xf0100000
      ∷ entry 8 n_fun 0xf0100000
      ∷ entry 0 n_psym 8
      ∷ entry 0 n_sline 0
      ∷ entry 0 n_sline 8
      ∷ entry 1 n_so 0xf0200000
      ∷ []);
  count = 7;
  stabstr = 100;
  stabstr_end = 120;
}

-- The string table at 100; a frame at 300, which returns to 0xf0100009, and one at 400, which
-- returns to an address below the first file.
abbrev memory : Mem
memory a =
    if leb 400 a
    then get_or (0 ∷ 0 ∷ 0 ∷ 0 ∷ 0 ∷ 0 ∷ 0 ∷ 0xf0 ∷ []) (a - 400) 0
    else if leb 300 a
    then get_or (0x90 ∷ 1 ∷ 0 ∷ 0 ∷ 9 ∷ 0 ∷ 0x10 ∷ 0xf0 ∷ []) (a - 300) 0
    else if leb 200 a
    then get_or (codes "<unknown>") (a - 200) 0
    else get_or (0 ∷ codes "main.c" ++ (0 ∷ codes "main:F(0,1)")) (a - 100) 0

abbrev info : Eipdebuginfo
info = record {
  eip_file = 101;
  eip_line = 8;
  eip_fn_name = 108;
  eip_fn_namelen = 4;
  eip_fn_addr = 0xf0100000;
  eip_fn_narg = 1;
}

abbrev main_place : List ℕ
main_place = texts (place_pieces info (codes "main.c") (codes "main:F(0,1)"))

main-IsPlace : IsPlace memory 64 table 200 0xf0100009 main_place
unfolding debuginfo_eip stab_binsearch round scan finish after_file after_function in_function
    fill_namelen fill_function fill_line string_at walk_back count_args strfind
main-IsPlace = inr (info, codes "main.c", codes "main:F(0,1)", refl, omega arith, refl)

no-IsPlace : IsPlace memory 64 table 200 0xf0000000 []
unfolding debuginfo_eip stab_binsearch round scan finish after_file
no-IsPlace = inl (initial 200 0xf0000000, refl, refl)

abbrev AreBytes : List ℕ → Type 0
AreBytes [] = 0 < 1
AreBytes (c ∷ cs) = (c < 256) × AreBytes cs

get_or_byte : (cs : List ℕ) (i : ℕ) → AreBytes cs → get_or cs i 0 < 256
get_or_byte [] i h = omega arith
get_or_byte (c ∷ cs) zero h = h.0
get_or_byte (c ∷ cs) (suc i) h = get_or_byte cs i h.1

memory_bytes : (q : ℕ) → memory q < 2 ^ 8
memory_bytes q = elim (Bool-cases (leb 400 q)) [
  | inl t ↦ rw t (get_or_byte (0 ∷ 0 ∷ 0 ∷ 0 ∷ 0 ∷ 0 ∷ 0 ∷ 0xf0 ∷ []) (q - 400) (omega arith))
  | inr t ↦ elim (Bool-cases (leb 300 q)) [
    | inl u ↦
        rw (t, u)
          (get_or_byte (0x90 ∷ 1 ∷ 0 ∷ 0 ∷ 9 ∷ 0 ∷ 0x10 ∷ 0xf0 ∷ []) (q - 300) (omega arith))
    | inr u ↦ elim (Bool-cases (leb 200 q)) [
      | inl v ↦ rw (t, u, v) (get_or_byte (codes "<unknown>") (q - 200) (omega arith))
      | inr v ↦
          rw (t, u, v)
            (get_or_byte (0 ∷ codes "main.c" ++ (0 ∷ codes "main:F(0,1)")) (q - 100) (omega arith))
    ]
  ]
]

mon_backtrace-emit_example :
    mon_backtrace record_char (λ _. memory) 64 table 200 5 300 []
    ≡ some (
      true,
      emit record_char
          (codes "Stack backtrace\n" ++ stack_text memory 300 (main_place ∷ [] ∷ []))
          [],
    )
mon_backtrace-emit_example =
    mon_backtrace-emit record_char (λ _. memory) 64 (λ _ _. refl) memory table 200 5 300
      (main_place ∷ [] ∷ []) [] (omega arith) (omega arith)
      (
        omega arith,
        λ i _. memory_bytes (300 + i),
        main-IsPlace,
        (omega arith, λ i _. memory_bytes (400 + i), no-IsPlace, refl),
      )
      refl

-- The same memory, where the second frame returns to 0x00800020.
abbrev user_memory : Mem
user_memory a =
    if a == 404 then 0x20 else if a == 406 then 0x80 else if a == 407 then 0 else memory a

user_memory_bytes : (q : ℕ) → user_memory q < 2 ^ 8
user_memory_bytes q = let h = memory_bytes q in ground arith

user-IsPlace : IsPlace user_memory 64 table 200 0xf0100009 main_place
unfolding debuginfo_eip stab_binsearch round scan finish after_file after_function in_function
    fill_namelen fill_function fill_line string_at walk_back count_args strfind
user-IsPlace = inr (info, codes "main.c", codes "main:F(0,1)", refl, omega arith, refl)

mon_backtrace-panics_example :
    mon_backtrace record_char (λ _. user_memory) 64 table 200 5 300 []
    ≡ some (
      false,
      emit record_char
          (codes "Stack backtrace\n" ++ user_stack_text user_memory 300 (main_place ∷ []))
          [],
    )
mon_backtrace-panics_example =
    mon_backtrace-panics record_char (λ _. user_memory) 64 (λ _ _. refl) user_memory table 200 5 300
      (main_place ∷ []) [] (omega arith) (omega arith)
      (
        omega arith,
        λ i _. user_memory_bytes (300 + i),
        user-IsPlace,
        (omega arith, λ i _. user_memory_bytes (400 + i), omega arith),
      )
      refl
