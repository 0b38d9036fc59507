-- ===== src/Printf/Buffer.antt =====
-- The buffer of `vsnprintf`.
pub mod Texts
use jos.Base.{
  ℕ, zero, suc, ◌+◌, ◌-◌, ◌%◌, ◌^◌, ◌≤◌, ◌<◌, ◌≡◌, sym, ◌≢◌, ◌∙◌, ◌⊎◌, List, [], ◌∷◌, arith, ltb,
  true, false, length, get_or, refl, ap, dec_lt, some, false, ◌==◌, ◌||◌,
}
use Prim.Native.Nat.{min}
use jos.Memory.{Mem, store, SameOutside}
use jos.Str.Copy.{store-same, store_self}
use jos.Types.{u32}
use jos.Printf.{Sprintbuf, sprintputch}
use jos.Printf.Flags.{negative}
use jos.Printf.Format.{emit, vprintfmt}
use jos.Printf.Format.Total.{vprintfmt-Emits}
use jos.Printf.Snprintf.{vsnprintf, null_terminate, new_buffer}

-- After the characters `cs` with room for `room`: the first of them stand in the room, nothing else
-- is written, and all are counted.
record Sprinted (m : Mem) (p room cnt : ℕ) (cs : List ℕ) (after : Mem × Sprintbuf) : Type 0 where
  holds : (i : ℕ) → i < min room (length cs) → after.0 (p + i) ≡ get_or cs i 0 % 2 ^ 8
  same : SameOutside m after.0 p room
  end : after.1.buf ≡ p + min room (length cs)
  counted : after.1.cnt ≡ (cnt + length cs) % 2 ^ 32

sprintputch_room :
    (c : ℕ) (m : Mem) (b : Sprintbuf)
    → b.buf < b.ebuf
    → sprintputch c (m, b)
      ≡ (store m b.buf (c % 2 ^ 8), record b { buf = b.buf + 1; cnt = (b.cnt + 1) % 2 ^ 32 })
unfolding sprintputch
sprintputch_room c m b h = let t : ltb b.buf b.ebuf ≡ true = ground arith in rw t refl

sprintputch_full :
    (c : ℕ) (m : Mem) (b : Sprintbuf)
    → b.ebuf ≤ b.buf
    → sprintputch c (m, b) ≡ (m, record b { cnt = (b.cnt + 1) % 2 ^ 32 })
unfolding sprintputch
sprintputch_full c m b h = let t : ltb b.buf b.ebuf ≡ false = ground arith in rw t refl

held :
    (m' after : Mem) (p room c : ℕ) (cs : List ℕ)
    → ((i : ℕ) → i < min room (length cs) → after (p + 1 + i) ≡ get_or cs i 0 % 2 ^ 8)
    → SameOutside m' after (p + 1) room
    → m' p ≡ c % 2 ^ 8
    → (i : ℕ) → i < min (suc room) (length (c ∷ cs))
    → after (p + i) ≡ get_or (c ∷ cs) i 0 % 2 ^ 8
held m' after p room c cs rest same here zero h =
    let e : p + 0 ≡ p = omega arith in rw e (same p (omega arith) ∙ here)
held m' after p room c cs rest same here (suc i) h =
    let e : p + suc i ≡ p + 1 + i = omega arith in rw e (rest i (omega arith))

abbrev sprint : List ℕ → Mem × Sprintbuf → Mem × Sprintbuf
sprint cs s = emit sprintputch cs s

abbrev at : ℕ → ℕ → ℕ → Sprintbuf
at p end cnt = record { buf = p; ebuf = end; cnt = cnt }

sprint-Sprinted :
    (m : Mem) (p end room cnt : ℕ) (cs : List ℕ)
    → end ≡ p + room
    → cnt < 2 ^ 32
    → Sprinted m p room cnt cs (sprint cs (m, at p end cnt))
unfolding emit
sprint-Sprinted m p end room cnt [] e small = record {
  holds = λ i h. absurd (omega arith);
  same = λ q h. refl;
  end = omega arith;
  counted = omega arith;
}
sprint-Sprinted m p end zero cnt (c ∷ cs) e small =
    let rest = sprint-Sprinted m p end 0 ((cnt + 1) % 2 ^ 32) cs e (omega arith) in
    rw (sprintputch_full c m (at p end cnt) (omega arith)) record {
      holds = λ i h. absurd (omega arith);
      same = rest.same;
      end = omega (arith, rest.end);
      counted = omega (arith, rest.counted);
    }
sprint-Sprinted m p end (suc room) cnt (c ∷ cs) e small =
    let m' = store m p (c % 2 ^ 8) in
    let rest =
      sprint-Sprinted m' (p + 1) end room ((cnt + 1) % 2 ^ 32) cs (omega arith) (omega arith) in
    rw (sprintputch_room c m (at p end cnt) (omega arith)) record {
      holds = λ i h. held m' _ p room c cs rest.holds rest.same (store_self m p _) i h;
      same = λ q h. rest.same q (omega arith) ∙ store-same m p (c % 2 ^ 8) q (omega arith);
      end = omega (arith, rest.end);
      counted = omega (arith, rest.counted);
    }

-- What `vsnprintf` leaves and returns: the first `n - 1` of the characters as bytes, a 0 behind them,
-- nothing written outside the `n` bytes, and the number of all characters, as an `int`.
pub record Snprinted (m : Mem) (p n : ℕ) (cs : List ℕ) (after : Mem × ℕ) : Type 0 where
  pub holds : (i : ℕ) → i < min (n - 1) (length cs) → after.0 (p + i) ≡ get_or cs i 0 % 2 ^ 8
  pub ends : after.0 (p + min (n - 1) (length cs)) ≡ 0
  pub same : SameOutside m after.0 p n
  pub counted : after.1 ≡ length cs % 2 ^ 32

-- The state of `vsnprintf` while it prints: nothing is written outside the buffer, and the room is as
-- it was.
pub record Printing (m : Mem) (p n : ℕ) (s : Mem × Sprintbuf) : Type 0 where
  pub same : SameOutside m s.0 p n
  pub from : p ≤ s.1.buf
  pub up_to : s.1.ebuf ≡ p + n - 1

pub sprintputch-Printing :
    (m : Mem) (p n c : ℕ) (s : Mem × Sprintbuf)
    → Printing m p n s
    → Printing m p n (sprintputch c s)
sprintputch-Printing m p n c (m', b) ok = elim (dec_lt b.buf b.ebuf) [
  | yes h ↦ rw (sprintputch_room c m' b h) record {
    same = λ q out.
        store-same m' b.buf (c % 2 ^ 8) q (omega (arith, out, ok.from, ok.up_to)) ∙ ok.same q out;
    from = omega (arith, ok.from);
    up_to = ok.up_to;
  }
  | no h ↦
      rw (sprintputch_full c m' b (omega arith))
        record { same = ok.same; from = ok.from; up_to = ok.up_to }
]

pub new_buffer-Printing : (m : Mem) (p n : ℕ) → 0 < n → Printing m p n (m, new_buffer p n)
new_buffer-Printing m p n some_room = record {
  same = λ q out. refl;
  from = omega arith;
  up_to = omega arith;
}

pub null_terminate-Snprinted :
    (m : Mem) (p n : ℕ) (cs : List ℕ)
    → 0 < n
    → (r : Mem × ℕ) × (null_terminate (some (sprint cs (m, new_buffer p n))) ≡ some r)
      × Snprinted m p n cs r
unfolding null_terminate
null_terminate-Snprinted m p n cs some_room =
    let s = sprint-Sprinted m p (p + n - 1) (n - 1) 0 cs (omega arith) (omega arith) in
    (
      _,
      refl,
      record {
        holds = λ i h. store-same _ _ 0 _ (omega (arith, s.end)) ∙ s.holds i h;
        ends = rw (sym s.end) (store_self _ _ 0);
        same = λ q h. store-same _ _ 0 q (omega (arith, s.end)) ∙ s.same q (omega arith);
        counted = omega (arith, s.counted);
      },
    )

pub vsnprintf_run :
    (fuel : ℕ) (m : Mem) (p n : ℕ) (fmt : List ℕ) (args : ℕ → ℕ)
    → p ≢ 0
    → 0 < n
    → n < 2 ^ 31
    → vsnprintf fuel m p n fmt args
      ≡ null_terminate (vprintfmt sprintputch (λ s. s.0) fuel fmt args (m, new_buffer p n))
unfolding vsnprintf
vsnprintf_run fuel m p n fmt args h k l =
    let t : (p == 0 || n == 0 || negative n) ≡ false = ground arith in rw t refl
