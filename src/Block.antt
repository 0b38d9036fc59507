-- ===== src/Block.antt =====
-- lib/string.c: the functions on blocks of memory. `memset` and `memmove` here are those under
-- `#if ASM`, with the string instructions of the x86 as functions on memory.
pub mod Move
pub mod Fill
pub mod Compare
pub mod Portable
use jos.Base.{
  ℕ, zero, suc, ◌+◌, ◌-◌, ◌*◌, ◌/◌, ◌%◌, ◌^◌, Bool, ◌&&◌, not, bit_or, bit_and, ◌==◌, ltb, leb,
  if◌then◌else◌,
}
use jos.Base.Int.{ℤ, pos, sub_ℕ}
use jos.Base.Bits.{◌<<<◌, ◌>>>◌}
use jos.Memory.{Mem, store, within}

-- `cld; rep stosb`: `count` times the low byte of `a`
unfoldable pub stosb : ℕ → Mem → ℕ → ℕ → Mem
stosb zero m edi a = m
stosb (suc count) m edi a = stosb count (store m edi (a % 2 ^ 8)) (edi + 1) a

-- one 32-bit store, the low byte first
unfoldable pub store32 : Mem → ℕ → ℕ → Mem
unfolding store
store32 m p a =
    store
      (store (store (store m p (a % 2 ^ 8)) (p + 1) ((a >>> 8) % 2 ^ 8)) (p + 2)
        ((a >>> 16) % 2 ^ 8))
      (p + 3) ((a >>> 24) % 2 ^ 8)

-- `cld; rep stosl`
unfoldable pub stosl : ℕ → Mem → ℕ → ℕ → Mem
stosl zero m edi a = m
stosl (suc count) m edi a = stosl count (store32 m edi a) (edi + 4) a

-- `(c<<24)|(c<<16)|(c<<8)|c`
unfoldable pub spread : ℕ → ℕ
spread c = bit_or (bit_or (bit_or (c <<< 24) (c <<< 16)) (c <<< 8)) c

unfoldable pub memset : Mem → ℕ → ℕ → ℕ → Mem
unfolding stosb stosl store32 spread
memset m v c n =
    if n == 0
    then m
    else if v % 4 == 0 && n % 4 == 0
    then stosl (n / 4) m v (spread (bit_and c 0xff))
    else stosb n m v c

-- `k` bytes are read at `esi` and then written at `edi`: one `movsb` (k = 1) or `movsl` (k = 4)
unfoldable pub movs : ℕ → Mem → ℕ → ℕ → Mem
movs k m edi esi q = if within edi k q then m (esi + (q - edi)) else m q

-- `cld; rep movs`
unfoldable pub rep_up : ℕ → ℕ → Mem → ℕ → ℕ → Mem
unfolding movs
rep_up k zero m edi esi = m
rep_up k (suc count) m edi esi = rep_up k count (movs k m edi esi) (edi + k) (esi + k)

-- `std; rep movs`; the pointers after the last round are not used
unfoldable pub rep_down : ℕ → ℕ → Mem → ℕ → ℕ → Mem
unfolding movs
rep_down k zero m edi esi = m
rep_down k (suc count) m edi esi = rep_down k count (movs k m edi esi) (edi - k) (esi - k)

unfoldable pub memmove : Mem → ℕ → ℕ → ℕ → Mem
unfolding rep_up rep_down
memmove m dst src n =
    if ltb src dst && ltb dst (src + n)
    then if (src + n) % 4 == 0 && (dst + n) % 4 == 0 && n % 4 == 0
      then rep_down 4 (n / 4) m (dst + n - 4) (src + n - 4)
      else rep_down 1 n m (dst + n - 1) (src + n - 1)
    else if src % 4 == 0 && dst % 4 == 0 && n % 4 == 0
    then rep_up 4 (n / 4) m dst src
    else rep_up 1 n m dst src

unfoldable pub memcpy : Mem → ℕ → ℕ → ℕ → Mem
unfolding memmove
memcpy m dst src n = memmove m dst src n

-- an `int` difference of two bytes
unfoldable pub memcmp : Mem → ℕ → ℕ → ℕ → ℤ
memcmp m s1 s2 zero = pos 0
memcmp m s1 s2 (suc n) =
    let rest = memcmp m (s1 + 1) (s2 + 1) n in if m s1 == m s2 then rest else sub_ℕ (m s1) (m s2)

unfoldable pub memfind : Mem → ℕ → ℕ → ℕ → ℕ
memfind m s c zero = s
memfind m s c (suc n) = let rest = memfind m (s + 1) c n in if m s == c % 2 ^ 8 then s else rest
