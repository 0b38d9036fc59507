-- ===== src/Memlayout.antt =====
-- inc/memlayout.h: the regions of the address space, and the segment selectors.
use jos.Base.{ℕ, ◌+◌, ◌-◌, ◌*◌, ◌/◌}
use jos.Mmu.{pgsize, ptsize}

abbrev pub kernbase : ℕ
kernbase = 0xf0000000

abbrev pub kstacktop : ℕ
kstacktop = kernbase

abbrev pub mmiolim : ℕ
mmiolim = kstacktop - ptsize

abbrev pub mmiobase : ℕ
mmiobase = mmiolim - ptsize

abbrev pub ulim : ℕ
ulim = mmiobase

abbrev pub uvpt : ℕ
uvpt = ulim - ptsize

abbrev pub upages : ℕ
upages = uvpt - ptsize

abbrev pub uenvs : ℕ
uenvs = upages - ptsize

abbrev pub utop : ℕ
utop = uenvs

abbrev pub ustacktop : ℕ
ustacktop = utop - 2 * pgsize

abbrev pub utext : ℕ
utext = 2 * ptsize

abbrev pub uxstacktop : ℕ
uxstacktop = utop

abbrev pub utemp : ℕ
utemp = ptsize

abbrev pub pftemp : ℕ
pftemp = utemp + ptsize - pgsize

abbrev pub ustabdata : ℕ
ustabdata = ptsize / 2

abbrev pub iophysmem : ℕ
iophysmem = 0x0a0000

abbrev pub extphysmem : ℕ
extphysmem = 0x100000

abbrev pub kstksize : ℕ
kstksize = 8 * pgsize

abbrev pub kstkgap : ℕ
kstkgap = 8 * pgsize

-- the selectors of the global descriptor table
abbrev gd_kt : ℕ
gd_kt = 0x08

abbrev gd_kd : ℕ
gd_kd = 0x10

abbrev gd_ut : ℕ
gd_ut = 0x18

abbrev gd_ud : ℕ
gd_ud = 0x20

abbrev gd_tss0 : ℕ
gd_tss0 = 0x28
