-- ===== src/Hwm/Sysmem/Routes/AddressMap.antt =====
-- The address map of src/hwm: which device's registers stand at an address, and each handler of
-- src/hwm/xmhfhwm_{e1000,lapic,mem,txt,bios,vtd}.c at the addresses of other devices.
use uberspark.Base.{ℕ, ◌+◌, ◌/◌, ◌≡◌, ◌≢◌, refl, arith, Bool, false, ◌&&◌, ◌||◌}
use uberspark.Base.{Option, some, none, List, [], ◌∷◌, All, leb, ltb, ◌==◌, if◌then◌else◌}
use uberspark.Hwm.Obj.{Memory}
use uberspark.Hwm.Vtd.{Drhd}
use uberspark.Hwm.Vtd.Regs.{IsPlaced}
use uberspark.Hwm.Vtd.Laws.{read_unit-none, write_unit-none}
use uberspark.Hwm.Txt.{Txt}
use uberspark.Hwm.E1000.{E1000}
use uberspark.Hwm.E1000
use uberspark.Hwm.Txt
use uberspark.Hwm.Bios
use uberspark.Hwm.Mem
use uberspark.Hwm.Vtd
use uberspark.Hwm.Lapic

pub data Device : Type 0 where
  e1000 txt bios mem vtd lapic : Device

-- `from ≤ a < to`
abbrev pub within : ℕ → ℕ → ℕ → Bool
within from to a = leb from a && ltb a to

unfoldable pub owner : ℕ → Option Device
owner a =
    if within E1000.hwaddr_base (E1000.hwaddr_base + E1000.hwaddr_size) a
    then some Device.e1000
    else if within Txt.heapbase (Txt.heapbase + Txt.sizeof_heap) a
    then some Device.txt
    else if within Txt.priv_config_regs_base 0xfed4_0000 a || a == Txt.rlpwakeupaddr
    then some Device.txt
    else if within Bios.bda_base (Bios.bda_base + Bios.bda_size) a || a == Bios.vtddmartablebase
    then some Device.bios
    else if within 0 1020 a || within Mem.dataseg_base (Mem.dataseg_base + Mem.dataseg_size) a
    then some Device.mem
    else if within 0xfed4_0000 0xfee0_0000 a
    then some Device.vtd
    else if a == Lapic.reg_id_addr
    then some Device.lapic
    else none

pub e1000-read-none : (s : E1000) (a v : ℕ) → owner a ≢ some Device.e1000 → E1000.read s a v ≡ none
unfolding owner E1000.read
e1000-read-none s a v h = ground arith

pub e1000-write-none :
    (s : E1000) (a v : ℕ) → owner a ≢ some Device.e1000 → E1000.write s a v ≡ none
unfolding owner E1000.write
e1000-write-none s a v h = ground arith

pub txt-read-none : (s : Txt) (a : ℕ) → owner a ≢ some Device.txt → Txt.read s a ≡ none
unfolding owner Txt.read
txt-read-none s a h = ground arith

pub txt-write-none : (s : Txt) (a v : ℕ) → owner a ≢ some Device.txt → Txt.write s a v ≡ none
unfolding owner Txt.write
txt-write-none s a v h = ground arith

pub bios-read-none : (a : ℕ) → owner a ≢ some Device.bios → Bios.read a ≡ none
unfolding owner Bios.read
bios-read-none a h = ground arith

pub bios-write-false : (a : ℕ) → owner a ≢ some Device.bios → Bios.write a ≡ false
unfolding owner Bios.write
bios-write-false a h = ground arith

pub mem-read-none : (d : Memory) (a : ℕ) → owner a ≢ some Device.mem → Mem.read d a ≡ none
unfolding owner Mem.read
mem-read-none d a h = ground arith

pub mem-write-none : (d : Memory) (a v : ℕ) → owner a ≢ some Device.mem → Mem.write d a v ≡ none
unfolding owner Mem.write
mem-write-none d a v h = ground arith

pub lapic-read-none : (i a : ℕ) → owner a ≢ some Device.lapic → Lapic.read i a ≡ none
unfolding owner Lapic.read
lapic-read-none i a h = ground arith

off_page :
    (a : ℕ) (d : Drhd) → owner a ≢ some Device.vtd → IsPlaced d → a / 4096 ≢ d.regbaseaddr / 4096
unfolding owner
off_page a d h p = ground arith

pub vtd-read-none :
    (ds : List Drhd) (a : ℕ) → All IsPlaced ds → owner a ≢ some Device.vtd → Vtd.read ds a ≡ none
unfolding Vtd.read
vtd-read-none [] a p h = refl
vtd-read-none (d ∷ ds) a p h =
    rw (read_unit-none d a p.0 (off_page a d h p.0), Vtd.read) (vtd-read-none ds a p.1 h)

pub vtd-write-none :
    (ds : List Drhd) (a v : ℕ)
    → All IsPlaced ds
    → owner a ≢ some Device.vtd
    → Vtd.write ds a v ≡ none
unfolding Vtd.write
vtd-write-none [] a v p h = refl
vtd-write-none (d ∷ ds) a v p h =
    rw (write_unit-none d a v p.0 (off_page a d h p.0), Vtd.write)
      (rw (vtd-write-none ds a v p.1 h))
