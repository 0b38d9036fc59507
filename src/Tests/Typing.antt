-- ===== src/Tests/Typing.antt =====
-- Devices that hold what was typed.
use jos.Base.{
  ℕ, ◌<◌, ◌≡◌, ◌≢◌, ◌%◌, ◌==◌, refl, inr, true, false, List, [], ◌∷◌, arith, some, if◌then◌else◌,
  bit_and, replicate,
}
use jos.Ports.{Ports, inb}
use jos.Printf.Format.{codes}
use jos.Console.Buffer.{Cons, initial}
use jos.Console.Buffer.Queue.{initial-IsValid}
use jos.Console.Buffer.Drain.{arrived}
use jos.Console.Screen.{crt_size, blank}
use jos.Console.Keyboard.{decode}
use jos.Console.Output.{Machine, com1}
use jos.Console.Devices.{kbdatap, serial_init, cga_init, cons_init, getchar}
use jos.Console.Typing.{Receivers, Typed, AreCalm, decoded, ready}
use jos.Console.Typing.Reader.{getchar-Typed}
use jos.Console.Typing.{cputchar}
use jos.Console.Screen.Bounds
use jos.Console.Events.{here, next, prints, devices, IsSafe}
use jos.Console.Events.Safe.{Reach-IsSafe}

abbrev head_of : List ℕ → ℕ
head_of [] = 0
head_of (x ∷ xs) = x

abbrev tail_of : List ℕ → List ℕ
tail_of [] = []
tail_of (x ∷ xs) = xs

-- The received bytes and the scan codes, behind the data and status registers.
abbrev pub ports : Ports (List ℕ × List ℕ)
ports = record {
  read8 = λ port w.
      if port == 0x3fd
      then (ready w.0, w)
      else if port == 0x3f8
      then (head_of w.0, (tail_of w.0, w.1))
      else if port == 0x64
      then (ready w.1, w)
      else if port == 0x60
      then (head_of w.1, (w.0, tail_of w.1))
      else (0, w);
  read32 = λ port w. (0, w);
  write8 = λ port v w. w;
  write16 = λ port v w. w;
}

abbrev AreBytes : List ℕ → Type 0
AreBytes [] = 0 < 1
AreBytes (c ∷ cs) = (c < 256) × AreBytes cs

abbrev Holds : List ℕ × List ℕ → List ℕ → List ℕ → Type 0
Holds w bytes scans = (w.0 ≡ bytes) × (w.1 ≡ scans) × AreBytes bytes × AreBytes scans

status_of : (bytes : List ℕ) → bit_and (ready bytes % 256) 1 ≡ ready bytes
status_of [] = refl
status_of (c ∷ cs) = refl

others_keep :
    (port : ℕ) (w : List ℕ × List ℕ) (bytes scans : List ℕ)
    → port ≢ com1
    → port ≢ kbdatap
    → Holds w bytes scans
    → Holds (inb ports port w).1 bytes scans
others_keep port w bytes scans a b h = ground arith

pub received : Receivers ports
received = record {
  Holds = Holds;
  serial_status = λ w bytes scans h. rw (h.0) (status_of bytes);
  key_status = λ w bytes scans h. rw (h.1) (status_of scans);
  serial_data = λ w c cs ks h. (rw (h.0) (omega arith), (rw (h.0) refl, h.1, h.2.1, h.3));
  key_data = λ w cs k ks h. (rw (h.1) (omega arith), (h.0, rw (h.1) refl, h.2, h.3.1));
  reads = others_keep;
  writes = λ port v w bytes scans out h. h;
}

-- The machine before the console is initialised.
abbrev pub powered : List ℕ → List ℕ → Machine (List ℕ × List ℕ)
powered bytes scans = record {
  devices = (bytes, scans);
  screen = record { crt_buf = []; crt_pos = 0 };
  addr_6845 = 0;
  serial_exists = false;
  shift = 0;
}

abbrev pub video_memory : List ℕ
video_memory = replicate crt_size blank

abbrev pub start_console : Machine (List ℕ × List ℕ) × Cons → Machine (List ℕ × List ℕ) × Cons
start_console (s, cons) = (cons_init ports true video_memory [] s, cons)

-- "help" and a line feed at the serial port, behind a byte that its initialisation drops, and the A
-- key and Enter, pressed and released.
abbrev pub machine : Machine (List ℕ × List ℕ) × Cons
machine = (powered (0 ∷ codes "help\n") (0x1e ∷ 0x9e ∷ 0x1c ∷ 0x9c ∷ []), initial)

pub machine-Typed : Typed ports received 64 (start_console machine) (codes "help\na\n")
unfolding received cons_init cga_init serial_init AreCalm decoded decode arrived initial
machine-Typed = record {
  bytes = codes "help\n";
  scans = 0x1e ∷ 0x9e ∷ 0x1c ∷ 0x9c ∷ [];
  shift = 0;
  machine = record {
    holds = (refl, refl, omega arith, omega arith);
    exists = refl;
    same_shift = refl;
    crt_port = inr refl;
  };
  calm = (refl, (refl, (refl, (refl, omega arith))));
  valid = initial-IsValid;
  all = refl;
  few_bytes = omega arith;
  few_scans = omega arith;
  fits = omega arith;
  chars = omega arith;
}

getchar-Typed_example :
    (s' : Machine (List ℕ × List ℕ) × Cons) × (getchar ports 64 1 (start_console machine)
      ≡ some (b'h', s'))
    × Typed ports received 64 s' (codes "elp\na\n")
getchar-Typed_example =
    getchar-Typed ports received 64 0 (start_console machine) b'h' (codes "elp\na\n") machine-Typed

display_found : Bounds.IsValid (cga_init ports true video_memory [] machine.0).screen
unfolding cga_init
display_found = record { storage = refl; in_range = omega arith }

-- A character is printed, the devices change, and another one is printed.
Reach-IsSafe_example :
    let s = cputchar ports 10 (start_console machine) in
    IsSafe (cputchar ports b'h' (record s.0 { devices = ([], []) }, s.1))
Reach-IsSafe_example =
    let s = cputchar ports 10 (start_console machine) in
    Reach-IsSafe ports true video_memory [] machine.0 display_found refl (
      next (next (next here (prints 10 (start_console machine))) (devices ([], []) s.0 s.1))
        (prints b'h' (record s.0 { devices = ([], []) }, s.1)))
