-- ===== src/Tests/Blocks.antt =====
-- Blocks of memory.
use jos.Base.{ℕ, ◌≡◌, refl, List, [], ◌∷◌, get_or, map}
use jos.Base.Int.{negsuc}
use jos.Memory.{Mem}
use jos.Block.Move.{copied, memmove-copied}
use jos.Block.Fill.{filled, memset-filled}
use jos.Block.Portable.{portable_memmove}
use jos.Block.{memset, memmove, memcmp, memfind}

abbrev bytes : Mem
bytes a = get_or (1 ∷ 2 ∷ 3 ∷ 4 ∷ 5 ∷ 6 ∷ 7 ∷ 8 ∷ 9 ∷ []) a 0

abbrev show : Mem → List ℕ
show m = map m (0 ∷ 1 ∷ 2 ∷ 3 ∷ 4 ∷ 5 ∷ 6 ∷ 7 ∷ 8 ∷ [])

moves_up : show (memmove bytes 4 0 4) ≡ 1 ∷ 2 ∷ 3 ∷ 4 ∷ 1 ∷ 2 ∷ 3 ∷ 4 ∷ 9 ∷ []
unfolding memmove
moves_up = refl

moves_overlapping : show (memmove bytes 2 1 5) ≡ 1 ∷ 2 ∷ 2 ∷ 3 ∷ 4 ∷ 5 ∷ 6 ∷ 8 ∷ 9 ∷ []
unfolding memmove
moves_overlapping = refl

sets_words : show (memset bytes 4 0x1ff 4) ≡ 1 ∷ 2 ∷ 3 ∷ 4 ∷ 255 ∷ 255 ∷ 255 ∷ 255 ∷ 9 ∷ []
unfolding memset
sets_words = refl

sets_bytes : show (memset bytes 5 0 2) ≡ 1 ∷ 2 ∷ 3 ∷ 4 ∷ 5 ∷ 0 ∷ 0 ∷ 8 ∷ 9 ∷ []
unfolding memset
sets_bytes = refl

compares : memcmp bytes 0 1 3 ≡ negsuc 0
unfolding memcmp
compares = refl

finds : memfind bytes 0 0x105 9 ≡ 4
unfolding memfind
finds = refl

memmove-copied_example : memmove bytes 2 1 5 4 ≡ copied bytes 2 1 5 4
memmove-copied_example = memmove-copied bytes 2 1 5 4

memset-filled_example : memset bytes 4 0x1ff 4 6 ≡ filled bytes 4 255 4 6
memset-filled_example = memset-filled bytes 4 0x1ff 4 6

portable_overlapping : show (portable_memmove bytes 2 1 5) ≡ show (memmove bytes 2 1 5)
unfolding portable_memmove memmove
portable_overlapping = refl
