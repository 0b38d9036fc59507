-- ===== src/Boot/Segment.antt =====
-- `readseg` loads a segment of the kernel image.
use jos.Base.{
  ℕ, zero, suc, ◌+◌, ◌-◌, ◌*◌, ◌/◌, ◌%◌, ◌^◌, ◌≤◌, ◌<◌, ◌≡◌, ◌⊎◌, refl, ◌∙◌, true, false, some,
  arith, ltb, bit_and,
}
use jos.Base.Bits.{bit_and_field}
use jos.Types.{add32}
use jos.Memory.{Mem, within}
use jos.Ports.{Ports}
use jos.Boot.{sectsize, readsect, seg_loop, readseg}
use jos.Boot.Drive.{Drive}
use jos.Boot.Sector.{loaded, readsect-loaded}

-- The end of the last sector that bytes up to `end` touch.
abbrev pub sectors_end : ℕ → ℕ
sectors_end end = (end + (sectsize - 1)) / sectsize * sectsize

-- After `m`, `m'` holds the `count` bytes of the kernel image from `offset` on at `pa`, and differs
-- from `m` only in sectors that these bytes touch. The image starts at the second sector.
pub record Loaded (byte : ℕ → ℕ) (m m' : Mem) (pa count offset : ℕ) : Type 0 where
  pub image : (i : ℕ) → i < count → m' (pa + i) ≡ byte (sectsize + offset + i)
  pub same : (q : ℕ) → (q < pa - pa % sectsize) ⊎ (sectors_end (pa + count) ≤ q) → m' q ≡ m q

module _ {W : Type 0} (io : Ports W) (byte : ℕ → ℕ) (polls : ℕ) (drive : Drive io byte polls) where
  seg_loop_more :
      (rounds pa end_pa offset : ℕ) (s s' : Mem × W)
      → pa < end_pa
      → pa + 512 < 2 ^ 32
      → offset + 1 < 2 ^ 28
      → readsect io polls pa offset s ≡ some s'
      → seg_loop io polls (suc rounds) pa end_pa offset s
        ≡ seg_loop io polls rounds (pa + 512) end_pa (offset + 1) s'
  unfolding seg_loop
  seg_loop_more rounds pa end_pa offset s s' h a b e =
      let t : ltb pa end_pa ≡ true = ground arith in
      let p : add32 pa sectsize ≡ pa + 512 = omega arith in
      let o : add32 offset 1 ≡ offset + 1 = omega arith in rw (seg_loop, t, e, p, o) refl

  -- `n` is the number of sectors that are left.
  seg_loop-loaded :
      (n rounds pa end_pa offset : ℕ) (s : Mem × W)
      → n < rounds
      → end_pa ≤ pa + 512 * n
      → pa + 512 * n < end_pa + 512
      → pa + 512 * n < 2 ^ 32
      → offset + n < 2 ^ 28
      → (s' : Mem × W) × (seg_loop io polls rounds pa end_pa offset s ≡ some s')
        × ((q : ℕ) → s'.0 q ≡ loaded byte s.0 pa (512 * n) (512 * offset) q)
  unfolding seg_loop
  seg_loop-loaded n zero pa end_pa offset s h a b c d = absurd (omega arith)
  seg_loop-loaded zero (suc rounds) pa end_pa offset s h a b c d =
      let t : ltb pa end_pa ≡ false = ground arith in (s, rw (seg_loop, t) refl, λ q. ground arith)
  seg_loop-loaded (suc n) (suc rounds) pa end_pa offset s h a b c d =
      let (s', e, first) = readsect-loaded io byte polls drive pa offset s (omega arith) in
      let (s'', f, rest) =
        seg_loop-loaded n rounds (pa + 512) end_pa (offset + 1) s' (omega arith) (omega arith)
          (omega arith) (omega arith) (omega arith) in
      (
        s'',
        seg_loop_more rounds pa end_pa offset s s' (omega arith) (omega arith) (omega arith) e ∙ f,
        λ q. rest q ∙ ground (arith, first q),
      )

  readseg_run :
      (pa count offset : ℕ) (s : Mem × W)
      → pa + count < 2 ^ 32
      → readseg io polls pa count offset s
        ≡ seg_loop io polls
            (count / sectsize + 3)
            (pa / 512 * 512)
            (pa + count)
            (offset / sectsize + 1)
            s
  unfolding readseg
  readseg_run pa count offset s fits =
      let e : bit_and pa 0xfffffe00 ≡ pa / 512 * 512 = bit_and_field 9 23 pa ∙ omega arith in
      let f : add32 pa count ≡ pa + count = omega arith in rw (e, f) refl

  -- What the sectors hold, by the bytes of the segment.
  loaded_in :
      (m : Mem) (pa count offset i : ℕ)
      → i < count
      → pa % 512 ≡ offset % 512
      → loaded byte m
          (pa / 512 * 512)
          (512 * ((pa % 512 + count + 511) / 512))
          (512 * (offset / 512 + 1))
          (pa + i)
        ≡ byte (512 + offset + i)
  loaded_in m pa count offset i h aligned =
      let down = pa / 512 * 512 in
      let t : within down (512 * ((pa % 512 + count + 511) / 512)) (pa + i) ≡ true = ground arith in
      let e : 512 * (offset / 512 + 1) + (pa + i - down) ≡ 512 + offset + i = omega arith in
      rw (t, e) refl

  loaded_out :
      (m : Mem) (pa count offset q : ℕ)
      → (q < pa - pa % 512) ⊎ (sectors_end (pa + count) ≤ q)
      → loaded byte m
          (pa / 512 * 512)
          (512 * ((pa % 512 + count + 511) / 512))
          (512 * (offset / 512 + 1))
          q
        ≡ m q
  loaded_out m pa count offset q h =
      let down = pa / 512 * 512 in
      let t : within down (512 * ((pa % 512 + count + 511) / 512)) q ≡ false = ground arith in
      rw t refl

  -- Where the segment ends before the last sector of the address space, and lies at the same place
  -- within its sectors in memory and in the image, `readseg` returns, and has loaded it.
  pub readseg-Loaded :
      (pa count offset : ℕ) (s : Mem × W)
      → pa + count + sectsize ≤ 2 ^ 32
      → offset < 2 ^ 32
      → pa % sectsize ≡ offset % sectsize
      → (s' : Mem × W) × (readseg io polls pa count offset s ≡ some s')
        × Loaded byte s.0 s'.0 pa count offset
  readseg-Loaded pa count offset s fits small aligned =
      let down = pa / 512 * 512 in
      let n = (pa % 512 + count + 511) / 512 in
      let (s', returns, holds) =
        seg_loop-loaded n (count / sectsize + 3) down (pa + count) (offset / sectsize + 1) s
          (omega arith) (omega arith) (omega arith) (omega arith) (omega arith) in
      (
        s',
        readseg_run pa count offset s (omega arith) ∙ returns,
        record {
          image = λ i h. holds (pa + i) ∙ loaded_in s.0 pa count offset i h aligned;
          same = λ q h. holds q ∙ loaded_out s.0 pa count offset q h;
        },
      )
