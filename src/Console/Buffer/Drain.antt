-- ===== src/Console/Buffer/Drain.antt =====
-- An interrupt moves everything that a device has into the buffer.
use mathlib.Core.List.{append-nil, append_assoc}
use jos.Base.{
  ℕ, zero, suc, ◌+◌, ◌%◌, ◌^◌, ◌<◌, ◌≤◌, ◌≡◌, refl, sym, ◌∙◌, Option, none, some, List, [], ◌∷◌,
  ◌++◌, arith, ◌==◌, if◌then◌else◌, length, ℕ_discrete, true, false,
}
use jos.Console.Buffer.{Cons, put, cons_intr}
use jos.Console.Buffer.Queue.{IsValid, count, contents, put-IsValid, count-put, contents-put}

-- The characters among what `proc` returned: 0 is none, and the buffer holds bytes.
unfoldable pub arrived : List ℕ → List ℕ
arrived [] = []
arrived (c ∷ cs) = if c == 0 then arrived cs else (c % 2 ^ 8) ∷ arrived cs

put_nothing : (s : Cons) → put 0 s ≡ s
unfolding put
put_nothing s = refl

module _ {W : Type 0} (proc : W → Option ℕ × W) where
  -- From `w` the device returns the values `cs` and then -1, and is left in `w'`.
  pub data Delivers : W → List ℕ → W → Type 0 where
    stop : {w w' : W} → proc w ≡ (none, w') → Delivers w [] w'
    more :
        {w w₁ w' : W} {cs : List ℕ} (c : ℕ)
        → proc w ≡ (some c, w₁)
        → Delivers w₁ cs w'
        → Delivers w (c ∷ cs) w'

  pub record Drained (w' : W) (s : Cons) (cs : List ℕ) (result : Option (W × Cons)) : Type 0 where
    pub after : Cons
    pub returns : result ≡ some (w', after)
    pub valid : IsValid after
    pub holds : contents after ≡ contents s ++ arrived cs

  pub cons_intr_stop :
      (fuel : ℕ) {w w' : W} (s : Cons)
      → proc w ≡ (none, w')
      → cons_intr proc (suc fuel) w s ≡ some (w', s)
  unfolding cons_intr
  cons_intr_stop fuel s e = ground arith

  pub cons_intr_more :
      (fuel : ℕ) {w w₁ : W} (c : ℕ) (s : Cons)
      → proc w ≡ (some c, w₁)
      → cons_intr proc (suc fuel) w s ≡ cons_intr proc fuel w₁ (put c s)
  unfolding cons_intr
  cons_intr_more fuel c s e = ground arith

  -- Where the device has finitely many values to give and they fit the buffer beside what waits
  -- there, `cons_intr` returns, with the values that are not 0 queued in order.
  pub cons_intr-Drained :
      {w w' : W} {cs : List ℕ}
      → Delivers w cs w'
      → (fuel : ℕ) (s : Cons) → length cs < fuel
      → IsValid s
      → count s + length (arrived cs) ≤ 511
      → Drained w' s cs (cons_intr proc fuel w s)
  unfolding arrived
  cons_intr-Drained (stop e) zero s f v room = absurd (omega arith)
  cons_intr-Drained (stop e) (suc fuel) s f v room = record {
    after = s;
    returns = cons_intr_stop fuel s e;
    valid = v;
    holds = sym (append-nil _);
  }
  cons_intr-Drained (more c e rest) zero s f v room = absurd (omega arith)
  cons_intr-Drained (more {cs} c e rest) (suc fuel) s f v room = elim (ℕ_discrete c 0) [
    | yes nothing ↦
        let same : put c s ≡ s = rw nothing (put_nothing s) in
        let skip : (c == 0) ≡ true = ground arith in
        let d = cons_intr-Drained rest fuel s (omega arith) v (rw skip at room) in
        record {
          after = d.after;
          returns = cons_intr_more fuel c s e ∙ (rw same d.returns);
          valid = d.valid;
          holds = rw skip d.holds;
        }
    | no char ↦
        let keep : (c == 0) ≡ false = ground arith in
        let room' : count s + suc (length (arrived cs)) ≤ 511 = rw keep at room in
        let d =
          cons_intr-Drained rest fuel (put c s) (omega arith) (put-IsValid c v)
            (omega (arith, count-put c v char (omega arith))) in
        record {
          after = d.after;
          returns = cons_intr_more fuel c s e ∙ d.returns;
          valid = d.valid;
          holds =
              d.holds
              ∙ rw (keep, contents-put c v char (omega arith))
                  (append_assoc (contents s) ((c % 2 ^ 8) ∷ []) (arrived cs));
        }
  ]
