-- ===== src/Str.antt =====
-- lib/string.c: the functions on strings. A loop that runs to the end of a string has fuel, and
-- returns `none` where the fuel runs out; one that counts `size` down recurs on it.
pub mod Length
pub mod Copy
pub mod Bounded
pub mod Order
pub mod Find
use jos.Base.{
  ℕ, zero, suc, ◌+◌, ◌-◌, Bool, not, ◌&&◌, ◌||◌, Option, none, some, ◌==◌, if◌then◌else◌,
}
use jos.Base.Int.{ℤ, pos, sub_ℕ}
use jos.Memory.{Mem, store}

strlen_loop : ℕ → Mem → ℕ → ℕ → Option ℕ
strlen_loop zero m s n = none
strlen_loop (suc fuel) m s n =
    let rest = strlen_loop fuel m (s + 1) (n + 1) in if m s == 0 then some n else rest

unfoldable pub strlen : ℕ → Mem → ℕ → Option ℕ
unfolding strlen_loop
strlen fuel m s = strlen_loop fuel m s 0

strnlen_loop : Mem → ℕ → ℕ → ℕ → ℕ
strnlen_loop m s zero n = n
strnlen_loop m s (suc size) n =
    let rest = strnlen_loop m (s + 1) size (n + 1) in if m s == 0 then n else rest

unfoldable pub strnlen : Mem → ℕ → ℕ → ℕ
unfolding strnlen_loop
strnlen m s size = strnlen_loop m s size 0

-- `strcpy`, which returns `dst`; the result here is memory
unfoldable pub strcpy : ℕ → Mem → ℕ → ℕ → Option Mem
unfolding store
strcpy zero m dst src = none
strcpy (suc fuel) m dst src =
    let m' = store m dst (m src) in
    let rest = strcpy fuel m' (dst + 1) (src + 1) in if m src == 0 then some m' else rest

copy_behind : ℕ → Mem → ℕ → ℕ → Option ℕ → Option Mem
copy_behind fuel m dst src none = none
copy_behind fuel m dst src (some len) = strcpy fuel m (dst + len) src

unfoldable pub strcat : ℕ → Mem → ℕ → ℕ → Option Mem
unfolding copy_behind
strcat fuel m dst src = copy_behind fuel m dst src (strlen fuel m dst)

-- the loop of `strncpy`: `size - i` rounds are left
unfoldable pub strncpy : Mem → ℕ → ℕ → ℕ → Mem
unfolding store
strncpy m dst src zero = m
strncpy m dst src (suc size) =
    strncpy (store m dst (m src)) (dst + 1) (if m src == 0 then src else src + 1) size

-- the loop of `strlcpy`, `size` being what `--size` leaves, and the 0 behind it: memory and `dst`
strlcpy_loop : Mem → ℕ → ℕ → ℕ → Mem × ℕ
unfolding store
strlcpy_loop m dst src zero = (store m dst 0, dst)
strlcpy_loop m dst src (suc size) =
    let rest = strlcpy_loop (store m dst (m src)) (dst + 1) (src + 1) size in
    if m src == 0 then (store m dst 0, dst) else rest

-- memory, and the length that is returned
unfoldable pub strlcpy : Mem → ℕ → ℕ → ℕ → Mem × ℕ
unfolding strlcpy_loop
strlcpy m dst src zero = (m, 0)
strlcpy m dst src (suc size) = let (m', end) = strlcpy_loop m dst src size in (m', end - dst)

unfoldable pub strcmp : ℕ → Mem → ℕ → ℕ → Option ℤ
strcmp zero m p q = none
strcmp (suc fuel) m p q =
    let rest = strcmp fuel m (p + 1) (q + 1) in
    if not (m p == 0) && m p == m q then rest else some (sub_ℕ (m p) (m q))

unfoldable pub strncmp : Mem → ℕ → ℕ → ℕ → ℤ
strncmp m p q zero = pos 0
strncmp m p q (suc n) =
    let rest = strncmp m (p + 1) (q + 1) n in
    if not (m p == 0) && m p == m q then rest else sub_ℕ (m p) (m q)

-- the pointer that is returned; the inner `none` is the null pointer
unfoldable pub strchr : ℕ → Mem → ℕ → ℕ → Option (Option ℕ)
strchr zero m s c = none
strchr (suc fuel) m s c =
    let rest = strchr fuel m (s + 1) c in
    if m s == 0 then some none else if m s == c then some (some s) else rest

unfoldable pub strfind : ℕ → Mem → ℕ → ℕ → Option ℕ
strfind zero m s c = none
strfind (suc fuel) m s c =
    let rest = strfind fuel m (s + 1) c in
    if m s == 0 then some s else if m s == c then some s else rest
