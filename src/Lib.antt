-- ===== src/Lib.antt =====
-- JOS, the 32-bit x86 teaching kernel: models of its C code and what they are proved to do.
--
-- Parts, and the files of the repository that they model:
--   Base        C arrays, Boolean tests, signed integers, and `&`, `|` and shifts as arithmetic.
--   Types       inc/types.h: the 32-bit arithmetic and the rounding macros.
--   Mmu         inc/mmu.h: linear addresses, page table entries, segment and gate descriptors;
--               Assembler is SEG of the assembly files.
--   Memlayout   inc/memlayout.h: the virtual memory map and the segment selectors.
--   EntryPgdir  kern/entrypgdir.c: the tables that are in force when paging is turned on. Rows holds
--               the 1024 rows as they are written; Walk is the x86 page walk, as a specification.
--   Kdebug      kern/kdebug.c and inc/stab.h: Search is `stab_binsearch`, Info `debuginfo_eip` with the
--               strings that it reads, and Wrong where the search and its comment differ.
--   Console     kern/console.c: Buffer is `cons` with `cons_intr` and `cons_getc`, Screen is `cga_putc`
--               on `crt_buf` and `crt_pos`, Keyboard is the decoding in `kbd_proc_data`, Output is
--               `cons_putc` with its port writes, Devices is `cons_getc` with its port reads, and
--               Typing makes of both the terminal that Readline and Monitor take as a parameter,
--               and Events is the order-free view: whatever is called, and whatever devices do.
--   Memory      bytes at addresses, and strings in memory.
--   Block, Str  lib/string.c: the functions on blocks of memory and on strings; Block/Portable is the
--               build without the string instructions.
--   Strtol      lib/string.c: `strtol`, which reads back what `printnum` prints.
--   Printf      lib/printfmt.c: Number is `printnum`, Flags reads the escapes of a format, Format is
--               `vprintfmt` over any `putch`, with Format/Pieces for what a format prints, piece by
--               piece; Snprintf is `vsnprintf`, which is Format with `sprintputch`, and
--               Buffer what it leaves in the buffer; Cprintf is
--               kern/printf.c.
--   Ports       inc/x86.h: the instructions that read and write I/O ports.
--   Boot        boot/main.c and inc/elf.h: Drive says what is relied on of the disk, Sector is
--               `readsect`, Segment `readseg`, Kernel `bootmain`.
--   Readline    lib/readline.c: Edit says what line editing is, Loop that `readline` does it,
--               Echo what it shows meanwhile.
--   Monitor     kern/monitor.c: Words are the words of a line, Scan and Parse the loops of `runcmd`, Run
--               the command that it finds; Backtrace is `mon_backtrace`, Commands the other commands and
--               the call of the one found, Loop is `monitor`, which joins Readline, `runcmd` and the
--               commands; Loop/Session says what a session at the monitor is.
--   Init        kern/init.c: `i386_init`, `test_backtrace`, `_panic` and `_warn`.
--   Tests       runs on small inputs, and the theorems at concrete inputs.
--
-- Conventions. A number of the C code is a natural number; where its type can wrap round, the
-- remainder is written out. An array is a list, or a function where the code has only a pointer to
-- it. A write through a pointer returns new memory. Functions of the C code keep their names, types
-- and constants are spelled in the style of these files. The instructions `rep stos` and `rep movs`
-- are functions on memory; devices are parameters.
--
-- Bounds and fuel. The functions on strings that run to a final 0 have fuel, and more fuel than the
-- string has characters is enough. `cons_intr` has fuel, and more than the device has values is
-- enough. `stab_binsearch` takes two rounds an entry and two more, which its measure shows to be
-- enough for every table. `printnum` has 64 rounds, one for each binary digit of its argument;
-- `vprintfmt` has a round for each character of the format, and fuel for the texts of `%s`, where more
-- than the longest text and 20 is enough.
--
-- The status of the drive is read at most `polls` times in `waitdisk`, which the hypothesis on the
-- drive makes enough; `readseg` has a round for each sector. `readline` has fuel for each character of
-- the input, `runcmd` for each character of the line. `monitor` runs for as many rounds as there are
-- lines, and a backtrace for more rounds than there are frames.
--
-- The commands and the kernel's start work on memory with the terminal, which printing changes and
-- memory not. The call stack is not written by the calls of the model: what `read_ebp()` returns, and
-- the frames that stand from there on, are assumed, for the first backtrace and for those of the
-- monitor. The debug tables, the linker's symbols and the strings of the kernel are likewise what
-- stands in memory, and each theorem says what it takes from them.
--
-- Not modelled: assembly, the build, `user/sendpage.c` (it calls a library that is not here), the
-- instructions of inc/x86.h that no code here uses, and the flag constants for later labs in
-- inc/mmu.h. The panic inside `debuginfo_eip` is an outcome, and `_panic` is modelled with the
-- first monitor that its loop enters.
pub mod Base
pub mod Types
pub mod Mmu
pub mod Memlayout
pub mod EntryPgdir
pub mod Kdebug
pub mod Console
pub mod Memory
pub mod Block
pub mod Str
pub mod Ports
pub mod Boot
pub mod Printf
pub mod Strtol
pub mod Readline
pub mod Monitor
pub mod Init
mod Tests
