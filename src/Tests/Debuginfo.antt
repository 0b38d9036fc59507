-- ===== src/Tests/Debuginfo.antt =====
-- What is reported of an address.
use jos.Base.{
  ℕ, zero, suc, ◌+◌, ◌-◌, ◌≡◌, refl, inl, inr, Bool, true, not, ◌&&◌, ◌||◌, some, arith, get_or,
  ◌==◌, ltb, leb, ◌⊎◌, List, [], ◌∷◌, ◌++◌, if◌then◌else◌, ◌<◌, ◌≤◌,
}
use jos.Base.Bits.{all_below, all_below_sound}
use jos.Memory.{Mem}
use jos.Printf.Format.{codes}
use jos.Kdebug.{Stab, n_fun, n_sline, n_so, n_psym, has_type}
use jos.Kdebug.Info.{Table, Eipdebuginfo, Outcome, found, debuginfo_eip}
use jos.Kdebug.Info.Name.{Readable, Reported, debuginfo_eip-Reported}
use jos.Kdebug.Info.Entry.{IsEntry}
use jos.Kdebug.Info.Found.{Located, LocatedInfo, debuginfo_eip-Located}

abbrev entry : ℕ → ℕ → ℕ → ℕ → Stab
entry strx type desc val = record {
  n_strx = strx;
  n_type = type;
  n_other = 0;
  n_desc = desc;
  n_value = val;
}

abbrev nth : List Stab → ℕ → Stab
nth [] i = entry 0 0 0 0
nth (s ∷ ss) zero = s
nth (s ∷ ss) (suc i) = nth ss i

abbrev stabs : ℕ → Stab
stabs = nth (
    entry 0 0 6 0
    ∷ entry 1 n_so 0 0xf0100000
    ∷ entry 8 n_fun 0 0xf0100000
    ∷ entry 0 n_psym 0 8
    ∷ entry 0 n_sline 12 0
    ∷ entry 0 n_sline 13 8
    ∷ entry 1 n_so 0 0xf0200000
    ∷ [])

-- The string table at 100, and "<unknown>" at 200.
abbrev strings : Mem
strings a =
    if leb 200 a
    then get_or (codes "<unknown>") (a - 200) 0
    else get_or (0 ∷ codes "main.c" ++ (0 ∷ codes "main:F(0,1)")) (a - 100) 0

abbrev table : Table
table = record { stabs = stabs; count = 7; stabstr = 100; stabstr_end = 120 }

-- What makes an entry the one that contains a key, as a test of every index.
abbrev in_order : ℕ → ℕ → Bool
in_order type end = all_below end (λ i. all_below end (λ j.
    not (has_type stabs type i && has_type stabs type j && leb i j)
    || leb (stabs i).n_value (stabs j).n_value))

abbrev each_fits : ℕ → ℕ → ℕ → ℕ → ℕ → Bool
each_fits type end key m next = all_below end (λ i.
    not (has_type stabs type i)
    || (not ((stabs i).n_value == key + 1)
        && (leb i m || (ltb key (stabs i).n_value && leb next i))))

abbrev entry_fits : ℕ → ℕ → ℕ → ℕ → ℕ → Bool
entry_fits type first end key m =
    leb first m && ltb m end && has_type stabs type m && leb (stabs m).n_value key

-- An entry that is the last of its type in the range.
fits-IsEntry :
    (type first end key m next : ℕ)
    → in_order type end ≡ true
    → each_fits type end key m next ≡ true
    → entry_fits type first end key m ≡ true
    → m < next
    → next ≤ end
    → (next ≡ end) ⊎ (has_type stabs type next ≡ true)
    → IsEntry stabs type first end key m next
fits-IsEntry type first end key m next order each fits gt le edge = record {
  sorted = λ i j p q r s t.
      let row = all_below_sound end _ i order (omega arith) in
      let cell = all_below_sound end _ j row r in ground arith;
  apart = λ i p q s e. let cell = all_below_sound end _ i each q in ground arith;
  contains = record {
    ge_left = ground arith;
    lt_right = ground arith;
    typed = ground arith;
    le_addr = ground arith;
    last = λ j p q s. let cell = all_below_sound end _ j each q in ground arith;
  };
  next_gt = gt;
  next_le = le;
  gap = λ i p q. let cell = all_below_sound end _ i each (omega arith) in ground arith;
  edge = edge;
}

file-IsEntry : IsEntry stabs n_so 0 7 0xf0100009 1 6
unfolding all_below
file-IsEntry =
    fits-IsEntry n_so 0 7 0xf0100009 1 6 refl refl refl (omega arith) (omega arith) (inr refl)

function-IsEntry : IsEntry stabs n_fun 1 6 0xf0100009 2 6
unfolding all_below
function-IsEntry =
    fits-IsEntry n_fun 1 6 0xf0100009 2 6 refl refl refl (omega arith) (omega arith) (inl refl)

line-IsEntry : IsEntry stabs n_sline 2 6 9 5 6
unfolding all_below
line-IsEntry = fits-IsEntry n_sline 2 6 9 5 6 refl refl refl (omega arith) (omega arith) (inl refl)

located : Located table 0xf0100009 1 6 2 6 5 6
located = record {
  file = file-IsEntry;
  not_first = omega arith;
  file_address = omega arith;
  function = function-IsEntry;
  line = line-IsEntry;
  kernel = omega arith;
  small = omega arith;
}

readable : Readable table 64 strings 200
readable = record {
  end_small = omega arith;
  unknown_small = omega arith;
  unknown_end = refl;
  unknown_fuel = omega arith;
  table_fuel = omega arith;
}

debuginfo_eip-Reported_example :
    (outcome : Outcome) × (debuginfo_eip table 64 strings 200 0xf0100009 ≡ some outcome)
    × Reported table 64 strings 200 outcome
debuginfo_eip-Reported_example = debuginfo_eip-Reported table 64 strings 200 readable 0xf0100009

debuginfo_eip-Located_example :
    (result : Eipdebuginfo) × (debuginfo_eip table 64 strings 200 0xf0100009 ≡ some (found result))
    × LocatedInfo table 200 1 6 2 6 5 result
debuginfo_eip-Located_example =
    debuginfo_eip-Located table 64 strings 200 0xf0100009 1 6 2 6 5 6 readable (omega arith) refl
      located
