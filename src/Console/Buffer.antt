-- ===== src/Console/Buffer.antt =====
-- `cons` of kern/console.c: the circular buffer between the device interrupts and `cons_getc`.
pub mod Queue
pub mod Drain
use jos.Base.{
  ℕ, zero, suc, ◌+◌, ◌%◌, ◌^◌, Bool, Option, none, some, List, ◌==◌, if◌then◌else◌, get_or, set,
  replicate,
}

abbrev pub consbufsize : ℕ
consbufsize = 512

pub record Cons : Type 0 where
  pub buf : List ℕ
  pub rpos : ℕ
  pub wpos : ℕ

-- The static buffer as the program starts with it.
unfoldable pub initial : Cons
initial = record { buf = replicate consbufsize 0; rpos = 0; wpos = 0 }

-- `pos++`, and back to the start at CONSBUFSIZE
abbrev pub advance : ℕ → ℕ
advance pos = if pos + 1 == consbufsize then 0 else pos + 1

-- The body of the loop in `cons_intr`, for the `c` that `proc` returned; the buffer holds bytes.
unfoldable pub put : ℕ → Cons → Cons
put c s =
    if c == 0 then s else record s { buf = set s.buf s.wpos (c % 2 ^ 8); wpos = advance s.wpos }

-- What `cons_getc` does after it has polled the devices.
unfoldable pub get : Cons → ℕ × Cons
get s =
    if s.rpos == s.wpos then (0, s) else (get_or s.buf s.rpos 0, record s { rpos = advance s.rpos })

-- `cons_intr(proc)`, on fuel. `proc` returns `none` for the C value -1, and its devices' next state.
module _ {W : Type 0} (proc : W → Option ℕ × W) where
  unfoldable pub cons_intr : ℕ → W → Cons → Option (W × Cons)
  cons_intr zero w s = none
  cons_intr (suc fuel) w s =
      let (c, w') = proc w in elim c [ none ↦ some (w', s) | some c ↦ cons_intr fuel w' (put c s) ]
