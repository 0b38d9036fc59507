-- ===== src/Kdebug/Wrong.antt =====
-- Where `stab_binsearch` does not do what its comment says.
use jos.Base.{ℕ, zero, suc, ◌+◌, ◌<◌, ◌≡◌, some, arith}
use jos.Types.{u32_mod}
use jos.Kdebug.{Stab, n_sline, scan, round, finish, stab_binsearch}

abbrev line_at : ℕ → Stab
line_at a = record { n_strx = 0; n_type = n_sline; n_other = 0; n_desc = 0; n_value = a }

-- Two line entries one byte apart.
abbrev pub one_apart : ℕ → ℕ → Stab
one_apart a zero = line_at a
one_apart a (suc _) = line_at (a + 1)

-- Of two entries for `a` and `a + 1` the search for `a` returns the second: the exact match of the
-- first increments `addr`, and then the second matches exactly.
pub one_apart_overshoots :
    (a : ℕ)
    → a + 2 < u32_mod
    → stab_binsearch (one_apart a) n_sline 0 2 a ≡ some (record { left_succ = 2; right_succ = 2 })
unfolding stab_binsearch round scan finish
one_apart_overshoots a h = ground arith

-- A table that begins with another entry and then has one line entry.
abbrev pub one_line : ℕ → ℕ → Stab
one_line a zero = record (line_at 0) { n_type = 0 }
one_line a (suc _) = line_at a

-- An address below the only entry of the type is in no entry, but the search returns `left = 0` and
-- `right = 0`, and not the `left > right` that its comment promises.
none_below :
    (a addr : ℕ)
    → addr < a
    → stab_binsearch (one_line a) n_sline 0 2 addr ≡ some (record { left_succ = 1; right_succ = 1 })
unfolding stab_binsearch round scan finish
none_below a addr h = ground arith
