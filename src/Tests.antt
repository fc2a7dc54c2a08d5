-- ===== src/Tests.antt =====
-- The theorems at concrete inputs: the platform that src/hwm/xmhfhwm_vtd.c initializes, with its two
-- remapping units.
mod Strings
mod Slab
mod Harness
mod Heap
mod Processor
mod Ranges
use uberspark.Base.{
  ℕ, ◌+◌, ◌≤◌, ◌<◌, ◌≢◌, ◌↔◌, inr, u32, All, ◌/◌, ◌%◌, ◌^◌, bit, inl, ◌≡◌, refl, arith, true, false,
  some, none, [], ◌∷◌,
}
use uberspark.Hwm.Obj.{Memory, load32, store32, memcpy}
use uberspark.Hwm.Obj.Laws.{load32-store32, load32-store32_ne, memcpy_lem}
use uberspark.Hwm.Txt.{Txt}
use uberspark.Hwm.Txt
use uberspark.Hwm.Vtd.{Drhd, write_gcmd, write_pmen, write_ccmd_hi, write_iotlb_hi}
use uberspark.Hwm.Vtd.Platform.{drhd0, drhd1}
use uberspark.Hwm.Vtd.Regs.{Reg, IsPlaced}
use uberspark.Hwm.Vtd.Laws.{
  IsSettled, gsts-write_gcmd, pmen-write_pmen, ccmd-write_ccmd_hi, iotlb-write_iotlb_hi,
}
use uberspark.Hwm.Sysmem.{Machine, sysmemread, sysmemwrite, read_asserts, write_asserts}
use uberspark.Hwm.Sysmem.Routes.{
  sysmemread-owner, sysmemwrite-owner, answer_read, answer_write, Device, owner, passes_read,
  passes_write,
}
use uberspark.Hwm.Sysmem.Routes.VtdUnit.{Reachable, at, sysmemread-addr_of, sysmemwrite-addr_of}
use uberspark.Driver.VtdReg.Laws.{handle}
use uberspark.Driver.Vtd.{
  enable_translation, disable_translation, disable_pmr, initialize, invalidatecaches,
  set_root_entry_table, supported, set_plm_base_and_limit, set_phm_base_and_limit,
}
use uberspark.Driver.Vtd.Run.{
  enable_translation_lem, disable_translation-clear, disable_translation-set, disable_pmr_lem,
  set_plm_base_and_limit_lem, set_phm_base_and_limit_lem,
}
use uberspark.Driver.Vtd.Setup.{initialize_lem, set_root_entry_table_lem}
use uberspark.Driver.Vtd.Invalidate.{invalidatecaches_lem}
use uberspark.Hwm.Call.{Call}
use uberspark.Hwm.Sysmem.Accesses.{Step, Reaches, Reaches-AllIsSettled}
use uberspark.Hwm.Sysmem.Transmit.{transmit_lem, eecd_lem}
use uberspark.Regs.Field.{get64}
use uberspark.Regs.VtdCap.{unpack_vtd_cap_reg}
use uberspark.Regs.TxtErrorcode.{
  pack_txt_errorcode, unpack_txt_errorcode, pack_txt_errorcode-unpack_txt_errorcode,
}

abbrev pub blank : Memory
blank a = 0

abbrev pub machine : Machine
machine = record {
  e1000 = record {
    tctl = 0;
    tdt = 0;
    tdh = 0;
    tdbah = 0;
    tdbal = 0;
    tdlen = 0;
    swsm = 0;
    eecd = 0;
    status_transmitting = false;
  };
  txt = record {
    heap = blank;
    heap_base_hi = 0;
    heap_base_lo = Txt.heapbase;
    heap_size_hi = 0;
    heap_size_lo = Txt.sizeof_heap;
    mle_join_hi = 0;
    mle_join_lo = 0;
    rlp_wakeup_addr = 0;
  };
  dataseg = blank;
  vtd = drhd0 ∷ drhd1 ∷ [];
  lapic_id = 0;
  obj = blank;
  calls = [];
}

drhd0-IsPlaced : IsPlaced drhd0
drhd0-IsPlaced = record {
  page = refl;
  from = omega arith;
  to = omega arith;
  iva = refl;
  iotlb = refl;
}

drhd1-IsPlaced : IsPlaced drhd1
drhd1-IsPlaced = record {
  page = refl;
  from = omega arith;
  to = omega arith;
  iva = refl;
  iotlb = refl;
}

-- The second unit, behind the first.
drhd1-Reachable : Reachable (drhd0 ∷ []) drhd1
drhd1-Reachable = (drhd1-IsPlaced, ((drhd0-IsPlaced, ground arith), tt))

abbrev with_unit : Drhd → Machine
with_unit d = at machine (drhd0 ∷ []) [] d

abbrev translating : Drhd
translating = record drhd1 { reg_gsts = 0x8000_0000 }

translating-Reachable : Reachable (drhd0 ∷ []) translating
translating-Reachable = (
  record { page = refl; from = omega arith; to = omega arith; iva = refl; iotlb = refl },
  ((drhd0-IsPlaced, ground arith), tt),
)

pub both-IsPlaced : All IsPlaced (drhd0 ∷ drhd1 ∷ [])
both-IsPlaced = (drhd0-IsPlaced, (drhd1-IsPlaced, tt))

invalidatecaches_example :
    invalidatecaches 1 (some (handle drhd1)) (with_unit drhd1)
    ≡ some (
      true,
      with_unit (record drhd1 {
        reg_ccmd_lo = 0;
        reg_ccmd_hi = 0x2800_0000;
        reg_iotlb_lo = 0;
        reg_iotlb_hi = 0x1200_0000;
      }),
    )
invalidatecaches_example = invalidatecaches_lem machine (drhd0 ∷ []) [] drhd1 drhd1-Reachable 0 refl

enable_translation_example :
    enable_translation 1 (some (handle drhd1)) (with_unit drhd1)
    ≡ some (with_unit (record drhd1 { reg_gcmd = 0x8000_0000; reg_gsts = 0x8000_0000 }))
enable_translation_example = enable_translation_lem machine (drhd0 ∷ []) [] drhd1 drhd1-Reachable 0

disable_translation-clear_example :
    disable_translation 1 (some (handle drhd1)) (with_unit drhd1) ≡ some (with_unit drhd1)
disable_translation-clear_example =
    disable_translation-clear machine (drhd0 ∷ []) [] drhd1 drhd1-Reachable 0 refl

disable_translation-set_example :
    disable_translation 1000 (some (handle translating)) (with_unit translating) ≡ none
disable_translation-set_example =
    disable_translation-set machine (drhd0 ∷ []) [] translating translating-Reachable 1000 refl

disable_pmr_example : disable_pmr 1 (some (handle drhd1)) (with_unit drhd1) ≡ some (with_unit drhd1)
disable_pmr_example = disable_pmr_lem machine (drhd0 ∷ []) [] drhd1 drhd1-Reachable 0

initialize_example :
    initialize (some (handle drhd1)) (with_unit drhd1)
    ≡ (true, with_unit (record drhd1 { reg_fectl = 0x8000_0000 }))
unfolding supported unpack_vtd_cap_reg get64
initialize_example = initialize_lem machine (drhd0 ∷ []) [] drhd1 drhd1-Reachable (omega arith)

set_root_entry_table_example :
    set_root_entry_table (some (handle drhd1)) 0x20_0000 (with_unit drhd1)
    ≡ (false, with_unit (record drhd1 { reg_rtaddr_lo = 0x20_0000; reg_gcmd = 0x4000_0000 }))
set_root_entry_table_example =
    set_root_entry_table_lem machine (drhd0 ∷ []) [] drhd1 drhd1-Reachable 0x20_0000

sysmemread-owner_example :
    (read_asserts machine 32 0xfed9_1008 ≡ passes_read machine (some Device.vtd) 32 0xfed9_1008)
    × (sysmemread machine 0xfed9_1008 ≡ answer_read machine (some Device.vtd) 0xfed9_1008)
unfolding owner
sysmemread-owner_example = sysmemread-owner machine 0xfed9_1008 both-IsPlaced 32

sysmemwrite-owner_example :
    (write_asserts machine 8 0xfed9_1018 5 ≡ passes_write machine (some Device.vtd) 8 0xfed9_1018 5)
    × (sysmemwrite machine 0xfed9_1018 5 ≡ answer_write machine (some Device.vtd) 0xfed9_1018 5)
unfolding owner
sysmemwrite-owner_example = sysmemwrite-owner machine 0xfed9_1018 both-IsPlaced 8 5

pack_txt_errorcode_example : pack_txt_errorcode (unpack_txt_errorcode 0x4000_0007) ≡ 3
pack_txt_errorcode_example = pack_txt_errorcode-unpack_txt_errorcode 0x4000_0007 (omega arith)

-- One write and one read of the second unit.
two_accesses :
    Reaches machine (sysmemread (sysmemwrite machine 0xfed9_1018 0x8000_0000) 0xfed9_101c).1
two_accesses =
    Reaches.next (Reaches.next Reaches.done (Step.writes 0xfed9_1018 0x8000_0000))
      (Step.reads 0xfed9_101c)

both-IsSettled : All IsSettled (drhd0 ∷ drhd1 ∷ [])
both-IsSettled = ((refl, refl, refl), ((refl, refl, refl), tt))

Reaches-AllIsSettled_example :
    All IsSettled (sysmemread (sysmemwrite machine 0xfed9_1018 0x8000_0000) 0xfed9_101c).1.vtd
Reaches-AllIsSettled_example =
    Reaches-AllIsSettled machine
      (sysmemread (sysmemwrite machine 0xfed9_1018 0x8000_0000) 0xfed9_101c).1 two_accesses
      both-IsSettled

abbrev sending : Machine
sending = record machine { e1000 = record machine.e1000 { tctl = 2; tdt = 3 } }
