-- ===== src/Monitor/Scan.antt =====
-- The two inner loops of `runcmd`.
use jos.Base.{
  ℕ, zero, suc, ◌+◌, ◌≤◌, ◌<◌, ◌≡◌, ◌≢◌, ◌⊎◌, refl, ap, ◌∙◌, true, false, not, ◌&&◌, Bool-cases,
  inl, inr, ◌==◌, Option, some, List, [], ◌∷◌, ◌++◌, arith, length, ℕ_discrete,
}
use jos.Memory.{Mem, store}
use jos.Memory.Text.{IsText, IsText-frame}
use jos.Str.Copy.{store-same, store_self}
use jos.Monitor.{is_white, gobble, scan_past}
use jos.Monitor.Words.{words, StartsWord, EndsWord, NoWhite, words_white}

-- White space at `p` was overwritten, up to the text `rest`.
pub record Gobbled (m : Mem) (p : ℕ) (cs : List ℕ) (result : Option (Mem × ℕ)) : Type 0 where
  pub after : Mem
  pub n : ℕ
  pub rest : List ℕ
  pub returns : result ≡ some (after, p + n)
  pub text : IsText after (p + n) rest
  pub size : length cs ≡ n + length rest
  pub same_words : words cs ≡ words rest
  pub starts : StartsWord rest
  pub zeros : (q : ℕ) → p ≤ q → q < p + n → after q ≡ 0
  pub same : (q : ℕ) → (q < p) ⊎ (p + n ≤ q) → after q ≡ m q
  pub ends : EndsWord cs → after p ≡ 0

gobble_stop :
    (fuel : ℕ) (m : Mem) (p : ℕ)
    → (not (m p == 0) && is_white (m p)) ≡ false
    → gobble (suc fuel) m p ≡ some (m, p)
unfolding gobble
gobble_stop fuel m p t = rw t refl

gobble_more :
    (fuel : ℕ) (m : Mem) (p : ℕ)
    → (not (m p == 0) && is_white (m p)) ≡ true
    → gobble (suc fuel) m p ≡ gobble fuel (store m p 0) (p + 1)
unfolding gobble
gobble_more fuel m p t = rw t refl

white_at : (m : Mem) (p c : ℕ) → m p ≡ c → c ≢ 0 → (not (m p == 0) && is_white (m p)) ≡ is_white c
white_at m p c e char = let there : (m p == 0) ≡ false = ground arith in rw (there, e) refl

black_at :
    (m : Mem) (p c : ℕ)
    → m p ≡ c
    → c ≢ 0
    → (not (m p == 0) && not (is_white (m p))) ≡ not (is_white c)
black_at m p c e char = let there : (m p == 0) ≡ false = ground arith in rw (there, e) refl

Gobbled-none :
    (m : Mem) (p : ℕ) (cs : List ℕ) (r : Option (Mem × ℕ))
    → r ≡ some (m, p)
    → IsText m p cs
    → StartsWord cs
    → (EndsWord cs → m p ≡ 0)
    → Gobbled m p cs r
Gobbled-none m p cs r e t starts ends =
    let here : p + 0 ≡ p = omega arith in
    record {
      after = m;
      n = 0;
      rest = cs;
      returns = e ∙ rw here refl;
      text = rw here t;
      size = omega arith;
      same_words = refl;
      starts = starts;
      zeros = λ q h k. absurd (omega arith);
      same = λ q h. refl;
      ends = ends;
    }

pub gobble-Gobbled :
    (fuel : ℕ) (m : Mem) (p : ℕ) (cs : List ℕ)
    → IsText m p cs
    → length cs < fuel
    → Gobbled m p cs (gobble fuel m p)
gobble-Gobbled zero m p cs t f = absurd (omega arith)
gobble-Gobbled (suc fuel) m p [] t f =
    Gobbled-none m p [] _ (gobble_stop fuel m p (ground arith)) t refl (λ _. t)
gobble-Gobbled (suc fuel) m p (c ∷ cs) t f = elim (Bool-cases (is_white c)) [
  | inr black ↦
      Gobbled-none m p (c ∷ cs) _ (gobble_stop fuel m p (white_at m p c t.0 t.1 ∙ black)) t black
        (λ e. cc)
  | inl white ↦
      let m' = store m p 0 in
      let kept : IsText m' (p + 1) cs =
        IsText-frame m m' (p + 1) cs (λ q h k. store-same m p 0 q (omega arith)) t.2 in
      let rest = gobble-Gobbled fuel m' (p + 1) cs kept (omega arith) in
      let there : p + 1 + rest.n ≡ p + suc rest.n = omega arith in
      record {
        after = rest.after;
        n = suc rest.n;
        rest = rest.rest;
        returns =
            gobble_more fuel m p (white_at m p c t.0 t.1 ∙ white) ∙ rest.returns ∙ rw there refl;
        text = rw there at rest.text;
        size = omega (arith, rest.size);
        same_words = words_white c cs white ∙ rest.same_words;
        starts = rest.starts;
        zeros = λ q h k. elim (ℕ_discrete q p) [
          | yes e ↦ rw e (rest.same p (omega arith) ∙ store_self m p 0)
          | no ne ↦ rest.zeros q (omega arith) (omega arith)
        ];
        same = λ q h. rest.same q (omega arith) ∙ store-same m p 0 q (omega arith);
        ends = λ _. rest.same p (omega arith) ∙ store_self m p 0;
      }
]

-- The word `w` was passed, up to the text `rest`.
pub record Passed (m : Mem) (p : ℕ) (cs : List ℕ) (result : Option ℕ) : Type 0 where
  pub w : List ℕ
  pub rest : List ℕ
  pub returns : result ≡ some (p + length w)
  pub parts : cs ≡ w ++ rest
  pub black : NoWhite w
  pub ends : EndsWord rest
  pub text : IsText m (p + length w) rest

scan_past_stop :
    (fuel : ℕ) (m : Mem) (p : ℕ)
    → (not (m p == 0) && not (is_white (m p))) ≡ false
    → scan_past (suc fuel) m p ≡ some p
unfolding scan_past
scan_past_stop fuel m p t = rw t refl

scan_past_more :
    (fuel : ℕ) (m : Mem) (p : ℕ)
    → (not (m p == 0) && not (is_white (m p))) ≡ true
    → scan_past (suc fuel) m p ≡ scan_past fuel m (p + 1)
unfolding scan_past
scan_past_more fuel m p t = rw t refl

Passed-none :
    (m : Mem) (p : ℕ) (cs : List ℕ) (r : Option ℕ)
    → r ≡ some p
    → IsText m p cs
    → EndsWord cs
    → Passed m p cs r
Passed-none m p cs r e t ends =
    let here : p + 0 ≡ p = omega arith in
    record {
      w = [];
      rest = cs;
      returns = e ∙ rw here refl;
      parts = refl;
      black = refl;
      ends = ends;
      text = rw here t;
    }

pub scan_past-Passed :
    (fuel : ℕ) (m : Mem) (p : ℕ) (cs : List ℕ)
    → IsText m p cs
    → length cs < fuel
    → Passed m p cs (scan_past fuel m p)
scan_past-Passed zero m p cs t f = absurd (omega arith)
scan_past-Passed (suc fuel) m p [] t f =
    Passed-none m p [] _ (scan_past_stop fuel m p (ground arith)) t refl
scan_past-Passed (suc fuel) m p (c ∷ cs) t f = elim (Bool-cases (is_white c)) [
  | inl white ↦
      Passed-none m p (c ∷ cs) _ (scan_past_stop fuel m p (black_at m p c t.0 t.1 ∙ ap not white)) t
        white
  | inr black ↦
      let rest = scan_past-Passed fuel m (p + 1) cs t.2 (omega arith) in
      let there : p + 1 + length rest.w ≡ p + suc (length rest.w) = omega arith in
      record {
        w = c ∷ rest.w;
        rest = rest.rest;
        returns =
            scan_past_more fuel m p (black_at m p c t.0 t.1 ∙ ap not black)
            ∙ rest.returns
            ∙ rw there refl;
        parts = ap (λ (t : List ℕ). c ∷ t) rest.parts;
        black = (black, rest.black);
        ends = rest.ends;
        text = rw there at rest.text;
      }
]
