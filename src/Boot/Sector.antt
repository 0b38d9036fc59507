-- ===== src/Boot/Sector.antt =====
-- `readsect` reads a sector.
use jos.Base.{
  ℕ, zero, suc, ◌+◌, ◌-◌, ◌*◌, ◌/◌, ◌%◌, ◌^◌, ◌<◌, ◌≡◌, refl, ap, ◌∙◌, true, false, some, arith,
  ◌==◌, bit_and, bit_or, if◌then◌else◌, ℕ_discrete, ==_iff,
}
use jos.Base.Bits.{◌>>>◌, all_below, all_below_sound}
use jos.Memory.{Mem, store, within}
use jos.Block.{store32}
use jos.Ports.{Ports, inb, outb, insl}
use jos.Boot.{wait_loop, waitdisk, request, readsect}
use jos.Boot.Drive.{Drive, word_at, words_at, lba}

-- The memory in which the `n` bytes from `dst` on are those of the disk from `a` on.
abbrev pub loaded : (ℕ → ℕ) → Mem → ℕ → ℕ → ℕ → Mem
loaded byte m dst n a q = if within dst n q then byte (a + (q - dst)) else m q

nibble_table : all_below 16 (λ x. bit_or x 0xe0 == 0xe0 + x) ≡ true
unfolding all_below
nibble_table = refl

bit_or-mode : (x : ℕ) → x < 16 → bit_or x 0xe0 ≡ 0xe0 + x
bit_or-mode x h = (==_iff _ _).0 (all_below_sound 16 _ x nibble_table h)

module _ {W : Type 0} (io : Ports W) (byte : ℕ → ℕ) (polls : ℕ) (drive : Drive io byte polls) where
  wait_loop-returns :
      (fuel : ℕ) (w : W)
      → drive.delay w < fuel
      → (w' : W) × (wait_loop io polls fuel w ≡ some w')
        × (drive.delay w' ≡ 0)
        × (drive.queue w' ≡ drive.queue w)
  unfolding wait_loop
  wait_loop-returns zero w lt = absurd (omega arith)
  wait_loop-returns (suc fuel) w lt =
      let w' = (inb io 0x1f7 w).1 in
      elim (ℕ_discrete (drive.delay w) 0) [
        | yes now ↦
            let t : (bit_and (inb io 0x1f7 w).0 0xc0 == 0x40) ≡ true =
              ground (arith, drive.is_ready w now) in
            (w', rw t refl, drive.stays_ready w now, drive.status_queue w)
        | no later ↦
            let left = drive.delay w - 1 in
            let e : drive.delay w ≡ suc left = omega arith in
            let t : (bit_and (inb io 0x1f7 w).0 0xc0 == 0x40) ≡ false =
              ground (arith, drive.is_busy w left e) in
            let (w'', returns, ready, same) =
              wait_loop-returns fuel w' (omega (arith, drive.goes_on w left e)) in
            (w'', rw t returns, ready, same ∙ drive.status_queue w)
      ]

  store32-word :
      (m : Mem) (p a q : ℕ) → store32 m p (word_at byte a % 2 ^ 32) q ≡ loaded byte m p 4 a q
  unfolding store32 store
  store32-word m p a q = ground (
    arith,
    drive.byte_bound a,
    drive.byte_bound (a + 1),
    drive.byte_bound (a + 2),
    drive.byte_bound (a + 3),
  )

  insl-loaded :
      (n : ℕ) (m : Mem) (w : W) (dst a q : ℕ)
      → drive.delay w ≡ 0
      → drive.queue w ≡ words_at byte n a
      → (insl io 0x1f0 dst n (m, w)).0 q ≡ loaded byte m dst (4 * n) a q
  unfolding insl
  insl-loaded zero m w dst a q ready waits = ground arith
  insl-loaded (suc n) m w dst a q ready waits =
      let (word, queue, still) =
        drive.read_word w (word_at byte a) (words_at byte n (a + 4)) ready waits in
      let m' = store32 m dst (word_at byte a % 2 ^ 32) in
      rw (insl, word)
        (insl-loaded n m' _ (dst + 4) (a + 4) q still queue
          ∙ ground (arith, store32-word m dst a q))

  -- The registers name the sector when the command is written.
  request-queue :
      (offset : ℕ) (w : W)
      → offset < 2 ^ 28
      → drive.queue (request io polls offset w) ≡ words_at byte 128 (512 * offset)
  unfolding request
  request-queue offset w small =
      let w2 = outb io 0x1f2 1 w in
      let w3 = outb io 0x1f3 offset w2 in
      let w4 = outb io 0x1f4 (offset >>> 8) w3 in
      let w5 = outb io 0x1f5 (offset >>> 16) w4 in
      let top = bit_or (offset >>> 24) 0xe0 in
      let w6 = outb io 0x1f6 top w5 in
      let mode_bits : top ≡ 0xe0 + offset / 2 ^ 24 = bit_or-mode (offset / 2 ^ 24) (omega arith) in
      let count : drive.latch w6 0x1f2 ≡ 1 = omega (
        arith,
        drive.latch_outb 0x1f2 1 0x1f2 w refl,
        drive.latch_outb 0x1f3 offset 0x1f2 w2 refl,
        drive.latch_outb 0x1f4 (offset >>> 8) 0x1f2 w3 refl,
        drive.latch_outb 0x1f5 (offset >>> 16) 0x1f2 w4 refl,
        drive.latch_outb 0x1f6 top 0x1f2 w5 refl,
      ) in
      let mode : drive.latch w6 0x1f6 / 2 ^ 5 ≡ 7 =
        omega (arith, drive.latch_outb 0x1f6 top 0x1f6 w5 refl, mode_bits) in
      let address : lba (drive.latch w6) ≡ offset = omega (
        arith,
        mode_bits,
        drive.latch_outb 0x1f6 top 0x1f6 w5 refl,
        drive.latch_outb 0x1f5 (offset >>> 16) 0x1f5 w4 refl,
        drive.latch_outb 0x1f6 top 0x1f5 w5 refl,
        drive.latch_outb 0x1f4 (offset >>> 8) 0x1f4 w3 refl,
        drive.latch_outb 0x1f5 (offset >>> 16) 0x1f4 w4 refl,
        drive.latch_outb 0x1f6 top 0x1f4 w5 refl,
        drive.latch_outb 0x1f3 offset 0x1f3 w2 refl,
        drive.latch_outb 0x1f4 (offset >>> 8) 0x1f3 w3 refl,
        drive.latch_outb 0x1f5 (offset >>> 16) 0x1f3 w4 refl,
        drive.latch_outb 0x1f6 top 0x1f3 w5 refl,
      ) in
      drive.read_sector w6 count mode ∙ ap (λ (t : ℕ). words_at byte 128 (512 * t)) address

  -- For a sector number of 28 bits `readsect` returns, and the 512 bytes from `dst` on are those of
  -- the sector; nothing else is written.
  pub readsect-loaded :
      (dst offset : ℕ) (s : Mem × W)
      → offset < 2 ^ 28
      → (s' : Mem × W) × (readsect io polls dst offset s ≡ some s')
        × ((q : ℕ) → s'.0 q ≡ loaded byte s.0 dst 512 (512 * offset) q)
  unfolding readsect waitdisk
  readsect-loaded dst offset (m, w) small =
      let (idle, e, _, _) = wait_loop-returns polls w (drive.delay_bound w) in
      let asked = request io polls offset idle in
      let (ready, f, now, same) = wait_loop-returns polls asked (drive.delay_bound asked) in
      (
        insl io 0x1f0 dst 128 (m, ready),
        rw (e, f) refl,
        λ q.
            insl-loaded 128 m ready dst (512 * offset) q now
              (same ∙ request-queue offset idle small),
      )
