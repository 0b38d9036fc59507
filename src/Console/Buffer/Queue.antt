-- ===== src/Console/Buffer/Queue.antt =====
-- The buffer is a queue of at most 511 characters.
use jos.Base.{
  ℕ, zero, suc, ◌+◌, ◌-◌, ◌%◌, ◌^◌, ◌<◌, ◌≡◌, ◌≢◌, refl, ap, List, [], ◌∷◌, ◌++◌, arith, length,
  get_or, set, length-set, length-replicate,
}
use jos.Console.Buffer.{consbufsize, Cons, initial, advance, put, get}

pub record IsValid (s : Cons) : Type 0 where
  pub storage : length s.buf ≡ consbufsize
  pub rpos_in : s.rpos < consbufsize
  pub wpos_in : s.wpos < consbufsize

-- The number of characters that wait.
abbrev pub count : Cons → ℕ
count s = (s.wpos + consbufsize - s.rpos) % consbufsize

-- The `n` characters from index `r` on, going round at the end.
abbrev pub unread : List ℕ → ℕ → ℕ → List ℕ
unread buf r zero = []
unread buf r (suc n) = get_or buf r 0 ∷ unread buf (advance r) n

-- The characters that wait, the oldest first.
abbrev pub contents : Cons → List ℕ
contents s = unread s.buf s.rpos (count s)

get_or-set_self : (xs : List ℕ) (i v : ℕ) → i < length xs → get_or (set xs i v) i 0 ≡ v
get_or-set_self [] i v h = absurd (omega arith)
get_or-set_self (x ∷ xs) zero v h = refl
get_or-set_self (x ∷ xs) (suc i) v h = get_or-set_self xs i v (omega arith)

get_or-set_ne : (xs : List ℕ) (i j v : ℕ) → i ≢ j → get_or (set xs i v) j 0 ≡ get_or xs j 0
get_or-set_ne [] i j v h = refl
get_or-set_ne (x ∷ xs) zero zero v h = absurd (h refl)
get_or-set_ne (x ∷ xs) zero (suc j) v h = refl
get_or-set_ne (x ∷ xs) (suc i) zero v h = refl
get_or-set_ne (x ∷ xs) (suc i) (suc j) v h = get_or-set_ne xs i j v (λ e. h (ap suc e))

-- Writing at the index behind `n` characters adds one to them.
unread-set :
    (buf : List ℕ) (n r w c : ℕ)
    → r < consbufsize
    → n + 1 < consbufsize
    → w ≡ (r + n) % consbufsize
    → w < length buf
    → unread (set buf w c) r (suc n) ≡ unread buf r n ++ (c ∷ [])
unread-set buf zero r w c hr hn e hw =
    let e' : w ≡ r = omega arith in rw (← e', get_or-set_self buf w c hw)
unread-set buf (suc n) r w c hr hn e hw = rw (
  get_or-set_ne buf w r c (grind arith),
  unread-set buf n (advance r) w c (ground arith) (omega arith) (ground arith) hw,
)

length-unread : (buf : List ℕ) (r n : ℕ) → length (unread buf r n) ≡ n
length-unread buf r zero = refl
length-unread buf r (suc n) = ap suc (length-unread buf (advance r) n)

pub length-contents : (s : Cons) → length (contents s) ≡ count s
length-contents s = length-unread s.buf s.rpos (count s)

pub initial-IsValid : IsValid initial
unfolding initial
initial-IsValid = record {
  storage = length-replicate {A = ℕ} consbufsize 0;
  rpos_in = omega arith;
  wpos_in = omega arith;
}

-- `cons_intr` keeps the indices in range, also where the buffer overflows.
pub put-IsValid : (c : ℕ) {s : Cons} → IsValid s → IsValid (put c s)
unfolding put
put-IsValid c {s} v = ground (arith, length-set s.buf s.wpos (c % 256))

pub get-IsValid : {s : Cons} → IsValid s → IsValid (get s).1
unfolding get
get-IsValid v = ground arith

pub count-put :
    (c : ℕ) {s : Cons} → IsValid s → c ≢ 0 → count s < 511 → count (put c s) ≡ count s + 1
unfolding put
count-put c {s} v ne room = ground arith

put_waiting :
    (c : ℕ) (s : Cons)
    → c ≢ 0
    → put c s ≡ record s { buf = set s.buf s.wpos (c % 2 ^ 8); wpos = advance s.wpos }
unfolding put
put_waiting c s ne = ground arith

-- While fewer than 511 characters wait, a character that arrives is queued behind them, cut to a
-- byte.
pub contents-put :
    (c : ℕ) {s : Cons}
    → IsValid s
    → c ≢ 0
    → count s < 511
    → contents (put c s) ≡ contents s ++ ((c % 2 ^ 8) ∷ [])
contents-put c {s} v ne room =
    let e : count (put c s) ≡ suc (count s) = omega (arith, count-put c v ne room) in
    rw (put_waiting c s ne, rw (put_waiting c s ne) at e)
      (unread-set s.buf (count s) s.rpos s.wpos (c % 2 ^ 8) v.rpos_in (omega arith)
        (omega (arith, v.wpos_in, v.rpos_in)) (omega (arith, v.wpos_in, v.storage)))

count-put_full : (c : ℕ) {s : Cons} → IsValid s → c ≢ 0 → count s ≡ 511 → count (put c s) ≡ 0
unfolding put
count-put_full c {s} v ne full = ground arith

-- The 512th character that waits makes the buffer look empty: all of them are lost.
pub contents-put_full :
    (c : ℕ) {s : Cons} → IsValid s → c ≢ 0 → count s ≡ 511 → contents (put c s) ≡ []
contents-put_full c {s} v ne full = rw (count-put_full c v ne full)

unread_of_ne_zero :
    (buf : List ℕ) (r n : ℕ)
    → n ≢ 0
    → unread buf r n ≡ get_or buf r 0 ∷ unread buf (advance r) (n - 1)
unread_of_ne_zero buf r zero ne = absurd (ne refl)
unread_of_ne_zero buf r (suc n) ne = ap (λ k. unread buf r (suc k)) (omega arith)

get_waiting :
    (s : Cons) → count s ≢ 0 → get s ≡ (get_or s.buf s.rpos 0, record s { rpos = advance s.rpos })
unfolding get
get_waiting s ne = ground arith

count-advance :
    (s : Cons) → IsValid s → count s ≢ 0 → count (record s { rpos = advance s.rpos }) ≡ count s - 1
count-advance s v ne = ground arith

-- `cons_getc` takes the oldest character of the buffer.
pub get-contents :
    {s : Cons} → IsValid s → count s ≢ 0 → contents s ≡ (get s).0 ∷ contents (get s).1
get-contents {s} v ne =
    rw (get_waiting s ne, count-advance s v ne) (unread_of_ne_zero s.buf s.rpos (count s) ne)

-- With no character waiting it returns 0 and changes nothing.
pub get_empty : {s : Cons} → IsValid s → count s ≡ 0 → get s ≡ (0, s)
unfolding get
get_empty {s} v e = ground arith
