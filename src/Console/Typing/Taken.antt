-- ===== src/Console/Typing/Taken.antt =====
-- The interrupt routines take what the devices hold.
use jos.Base.{
  ℕ, suc, ◌+◌, ◌≡◌, refl, ap, ◌∙◌, false, Option, none, some, List, [], ◌∷◌, arith, length, bit_and,
}
use jos.Ports.{Ports, inb}
use jos.Console.Buffer.Drain.{Delivers, stop, more}
use jos.Console.Keyboard.{decode}
use jos.Console.Output.{com1, com_lsr, Machine}
use jos.Console.Devices.{kbstatp, kbdatap, serial_proc_data, kbd_proc_data}
use jos.Console.Typing.{Receivers, Ready, decoded, shift_after, AreCalm}

pub length-decoded : (shift : ℕ) (ks : List ℕ) → length (decoded shift ks) ≡ length ks
unfolding decoded
length-decoded shift [] = refl
length-decoded shift (k ∷ ks) = ap suc (length-decoded (decode shift k).shift ks)

module _ {W : Type 0} (io : Ports W) (receivers : Receivers io) where
  serial_none :
      (s : Machine W)
      → bit_and (inb io (com1 + com_lsr) s.devices).0 1 ≡ 0
      → serial_proc_data io s ≡ (none, record s { devices = (inb io (com1 + com_lsr) s.devices).1 })
  unfolding serial_proc_data
  serial_none s e = rw e refl

  serial_some :
      (s : Machine W)
      → bit_and (inb io (com1 + com_lsr) s.devices).0 1 ≡ 1
      → let r = inb io com1 (inb io (com1 + com_lsr) s.devices).1 in
        serial_proc_data io s ≡ (some r.0, record s { devices = r.1 })
  unfolding serial_proc_data
  serial_some s e = rw e refl

  key_none :
      (s : Machine W)
      → bit_and (inb io kbstatp s.devices).0 1 ≡ 0
      → kbd_proc_data io s ≡ (none, record s { devices = (inb io kbstatp s.devices).1 })
  unfolding kbd_proc_data
  key_none s e = rw e refl

  key_some :
      (s : Machine W)
      → let r = inb io kbdatap (inb io kbstatp s.devices).1 in
        let d = decode s.shift r.0 in
        bit_and (inb io kbstatp s.devices).0 1 ≡ 1
        → d.reboot ≡ false
        → kbd_proc_data io s ≡ (some d.char, record s { devices = r.1; shift = d.shift })
  unfolding kbd_proc_data
  key_some s e calm = rw (e, calm) refl

  -- The device delivered `values`, and its machine is ready with what is left.
  pub record Took (proc_data : Machine W → Option ℕ × Machine W) (s : Machine W) (values : List ℕ)
      (bytes scans : List ℕ) (shift : ℕ) : Type 0 where
    pub after : Machine W
    pub delivers : Delivers proc_data s values after
    pub left : Ready io receivers bytes scans shift after

  pub serial-Took :
      (bytes scans : List ℕ) (shift : ℕ) (s : Machine W)
      → Ready io receivers bytes scans shift s
      → Took (serial_proc_data io) s bytes [] scans shift
  serial-Took [] scans shift s r =
      let status = receivers.serial_status s.devices [] scans r.holds in
      let w = (inb io (com1 + com_lsr) s.devices).1 in
      record {
        after = record s { devices = w };
        delivers = stop (serial_none s status);
        left = record {
          holds =
              receivers.reads (com1 + com_lsr) s.devices [] scans (omega arith) (omega arith)
                r.holds;
          exists = r.exists;
          same_shift = r.same_shift;
          crt_port = r.crt_port;
        };
      }
  serial-Took (c ∷ cs) scans shift s r =
      let status = receivers.serial_status s.devices (c ∷ cs) scans r.holds in
      let w = (inb io (com1 + com_lsr) s.devices).1 in
      let held =
        receivers.reads (com1 + com_lsr) s.devices (c ∷ cs) scans (omega arith) (omega arith)
          r.holds in
      let (value, holds) = receivers.serial_data w c cs scans held in
      let later =
        serial-Took cs scans shift (record s { devices = (inb io com1 w).1 })
          (record {
            holds = holds;
            exists = r.exists;
            same_shift = r.same_shift;
            crt_port = r.crt_port;
          }) in
      record {
        after = later.after;
        delivers =
            more c
              (serial_some s status
                ∙ ap (λ (v : ℕ). (some v, record s { devices = (inb io com1 w).1 })) value)
              later.delivers;
        left = later.left;
      }

  pub keys-Took :
      (bytes scans : List ℕ) (shift : ℕ) (s : Machine W)
      → AreCalm shift scans
      → Ready io receivers bytes scans shift s
      → Took (kbd_proc_data io) s (decoded shift scans) bytes [] (shift_after shift scans)
  unfolding AreCalm decoded shift_after
  keys-Took bytes [] shift s calm r =
      let status = receivers.key_status s.devices bytes [] r.holds in
      let w = (inb io kbstatp s.devices).1 in
      record {
        after = record s { devices = w };
        delivers = stop (key_none s status);
        left = record {
          holds = receivers.reads kbstatp s.devices bytes [] (omega arith) (omega arith) r.holds;
          exists = r.exists;
          same_shift = r.same_shift;
          crt_port = r.crt_port;
        };
      }
  keys-Took bytes (k ∷ ks) shift s calm r =
      let status = receivers.key_status s.devices bytes (k ∷ ks) r.holds in
      let w = (inb io kbstatp s.devices).1 in
      let held =
        receivers.reads kbstatp s.devices bytes (k ∷ ks) (omega arith) (omega arith) r.holds in
      let (value, holds) = receivers.key_data w bytes k ks held in
      let d = decode shift k in
      let w' = (inb io kbdatap w).1 in
      let s' = record s { devices = w'; shift = d.shift } in
      let same : decode s.shift (inb io kbdatap w).0 ≡ d = rw (r.same_shift, value) refl in
      let gave : kbd_proc_data io s ≡ (some d.char, s') =
        key_some s status (rw same calm.0)
        ∙ ap (λ v. (some v.char, record s { devices = w'; shift = v.shift })) same in
      let later =
        keys-Took bytes ks d.shift s' calm.1
          (record { holds = holds; exists = r.exists; same_shift = refl; crt_port = r.crt_port }) in
      record { after = later.after; delivers = more d.char gave later.delivers; left = later.left }
