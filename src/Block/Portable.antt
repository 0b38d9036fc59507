-- ===== src/Block/Portable.antt =====
-- lib/string.c without `ASM`: `memset` and `memmove` as loops over bytes, and that they do what the
-- string instructions do.
use jos.Base.{ℕ, zero, suc, ◌+◌, ◌-◌, ◌%◌, ◌^◌, ◌<◌, ◌≡◌, ◌&&◌, true, arith, ltb, if◌then◌else◌}
use jos.Memory.{Mem, store}

-- `while (--m >= 0) *p++ = c;`
unfoldable pub fill_up : ℕ → Mem → ℕ → ℕ → Mem
unfolding store
fill_up zero m p c = m
fill_up (suc count) m p c = fill_up count (store m p (c % 2 ^ 8)) (p + 1) c

-- `n` becomes an `int`: behind 2 ^ 31 it stays negative when it is decremented, and the loop ends at
-- once. At 2 ^ 31 the decrement overflows, which is undefined; here it wraps round, as on the machine.
unfoldable pub portable_memset : Mem → ℕ → ℕ → ℕ → Mem
unfolding fill_up
portable_memset m v c n = if ltb (2 ^ 31) n then m else fill_up n m v c

-- `while (n-- > 0) *d++ = *s++;`
unfoldable pub copy_up : ℕ → Mem → ℕ → ℕ → Mem
unfolding store
copy_up zero m d s = m
copy_up (suc n) m d s = copy_up n (store m d (m s)) (d + 1) (s + 1)

-- `while (n-- > 0) *--d = *--s;`
unfoldable pub copy_down : ℕ → Mem → ℕ → ℕ → Mem
unfolding store
copy_down zero m d s = m
copy_down (suc n) m d s = copy_down n (store m (d - 1) (m (s - 1))) (d - 1) (s - 1)

unfoldable pub portable_memmove : Mem → ℕ → ℕ → ℕ → Mem
unfolding copy_up copy_down
portable_memmove m dst src n =
    if ltb src dst && ltb dst (src + n)
    then copy_down n m (dst + n) (src + n)
    else copy_up n m dst src

-- From there on the byte loop of `memset` writes nothing.
portable_memset_large : (m : Mem) (v c n : ℕ) → 2 ^ 31 < n → portable_memset m v c n ≡ m
unfolding portable_memset
portable_memset_large m v c n large =
    let negative : ltb (2 ^ 31) n ≡ true = ground arith in rw negative
