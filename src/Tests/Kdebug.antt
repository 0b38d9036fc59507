-- ===== src/Tests/Kdebug.antt =====
-- The stab search.
use jos.Base.{ℕ, zero, suc, ◌≡◌, refl, some, arith}
use jos.Kdebug.{Stab, Region, n_so, n_fun, n_sline, stab_binsearch, round, scan, finish}
use jos.Kdebug.Search.Invariant.{IsSorted, Lacks}
use jos.Kdebug.Search.Found.{Brackets, stab_binsearch-Brackets}
use jos.Kdebug.Search.Total.{stab_binsearch_total}
use jos.Kdebug.Wrong.{one_apart, one_apart_overshoots}

abbrev entry : ℕ → ℕ → Stab
entry t a = record { n_strx = 0; n_type = t; n_other = 0; n_desc = 0; n_value = a }

abbrev table : ℕ → Stab
table zero = entry 0 0
table (suc zero) = entry n_so 0x100
table (suc (suc zero)) = entry n_fun 0x104
table (suc (suc (suc zero))) = entry n_sline 2
table (suc (suc (suc (suc _)))) = entry n_so 0x120

search_hits : stab_binsearch table n_so 0 5 0x110 ≡ some (record { left_succ = 2; right_succ = 4 })
unfolding stab_binsearch round scan finish
search_hits = refl

search_last : stab_binsearch table n_so 0 5 0x130 ≡ some (record { left_succ = 5; right_succ = 5 })
unfolding stab_binsearch round scan finish
search_last = refl

sorted : IsSorted table n_fun 0 4
sorted zero j p q r s t = ground arith
sorted (suc zero) j p q r s t = ground arith
sorted (suc (suc zero)) zero p q r s t = ground arith
sorted (suc (suc zero)) (suc zero) p q r s t = ground arith
sorted (suc (suc zero)) (suc (suc zero)) p q r s t = omega arith
sorted (suc (suc zero)) (suc (suc (suc zero))) p q r s t = ground arith
sorted (suc (suc zero)) (suc (suc (suc (suc j)))) p q r s t = absurd (omega arith)
sorted (suc (suc (suc i))) j p q r s t = ground arith

apart : Lacks table n_fun 0 4 0x111
apart zero p q t = ground arith
apart (suc zero) p q t = ground arith
apart (suc (suc zero)) p q t = omega arith
apart (suc (suc (suc i))) p q t = ground arith

stab_binsearch-Brackets_example :
    (r : Region) × (stab_binsearch table n_fun 0 4 0x110 ≡ some r)
    × Brackets table n_fun 0 4 0x110 r
stab_binsearch-Brackets_example =
    stab_binsearch-Brackets table n_fun 0 4 0x110 sorted apart (omega arith) 2 (omega arith)
      (omega arith) refl (omega arith)

one_apart_overshoots_example :
    stab_binsearch (one_apart 7) n_sline 0 2 7 ≡ some (record { left_succ = 2; right_succ = 2 })
one_apart_overshoots_example = one_apart_overshoots 7 (omega arith)

stab_binsearch_total_example : (r : Region) × (stab_binsearch table n_fun 0 5 0x10f ≡ some r)
stab_binsearch_total_example = stab_binsearch_total table n_fun 0 5 0x10f
