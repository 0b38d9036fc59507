-- ===== src/Printf/Snprintf.antt =====
-- `vsnprintf` of lib/printfmt.c, which prints into a buffer, and `snprintf`.
use jos.Base.{ℕ, ◌+◌, ◌-◌, ◌^◌, ◌||◌, Option, none, some, List, get_or, ◌==◌, if◌then◌else◌}
use jos.Memory.{Mem, store}
use jos.Printf.{Sprintbuf, sprintputch}
use jos.Printf.Flags.{negative}
use jos.Printf.Format.{vprintfmt}

-- `*b.buf = '\0'; return b.cnt;`
unfoldable pub null_terminate : Option (Mem × Sprintbuf) → Option (Mem × ℕ)
null_terminate none = none
null_terminate (some (m, b)) = some (store m b.buf 0, b.cnt)

-- -E_INVAL
abbrev pub minus_e_inval : ℕ
minus_e_inval = 2 ^ 32 - 3

abbrev pub new_buffer : ℕ → ℕ → Sprintbuf
new_buffer buf n = record { buf = buf; ebuf = buf + n - 1; cnt = 0 }

-- `vsnprintf(buf, n, fmt, ap)`: the memory, and the `int` that is returned. `n` is an `int`.
unfoldable pub vsnprintf : ℕ → Mem → ℕ → ℕ → List ℕ → (ℕ → ℕ) → Option (Mem × ℕ)
unfolding null_terminate
vsnprintf text_fuel m buf n fmt ap =
    let result = vprintfmt sprintputch (λ s. s.0) text_fuel fmt ap (m, new_buffer buf n) in
    if buf == 0 || n == 0 || negative n then some (m, minus_e_inval) else null_terminate result

-- `snprintf(buf, n, fmt, ...)` with the arguments as words
unfoldable pub snprintf : ℕ → Mem → ℕ → ℕ → List ℕ → List ℕ → Option (Mem × ℕ)
snprintf text_fuel m buf n fmt args = vsnprintf text_fuel m buf n fmt (λ i. get_or args i 0)
