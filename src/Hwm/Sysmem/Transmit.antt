-- ===== src/Hwm/Sysmem/Transmit.antt =====
-- src/hwm/xmhfhwm_e1000.c through src/hwm/xmhfhwm_cpu.c: what the driver of the network card sees of a
-- transmission and of a request for the EEPROM.
use uberspark.Base.{
  ℕ, ◌+◌, ◌/◌, ◌%◌, ◌^◌, ◌≡◌, refl, arith, u32, bit, has-cases, inl, inr, bit_or-pow, ◌∷◌, ◌++◌, [],
  false,
}
use uberspark.Hwm.Call.{Call}
use uberspark.Hwm.E1000.{hwaddr_base, tdt_off, tdh_off, eecd_off}
use uberspark.Hwm.E1000
use uberspark.Hwm.Sysmem.{Machine, sysmemread, sysmemwrite}

-- With TCTL.EN set in the network card, a write of the transmit tail is reported once, with the
-- old and the new tail, and the next read of the transmit head gives the low 32 bits of the new
-- tail and ends the transmission.
pub transmit_lem :
    (m : Machine) (v : ℕ)
    → bit m.e1000.tctl 1 ≡ 1
    → let r = sysmemread (sysmemwrite m (hwaddr_base + tdt_off) v) (hwaddr_base + tdh_off) in
      (r.0 ≡ u32 v)
      × (r.1.calls ≡ m.calls ++ Call.e1000_write_tdt m.e1000.tdt (u32 v) ∷ [])
      × (r.1.e1000.status_transmitting ≡ false)
unfolding sysmemread sysmemwrite E1000.read E1000.write E1000.write_tdt E1000.read_tdh
transmit_lem m v h = elim (has-cases 1 m.e1000.tctl) [
  | inl e ↦ rw (e.0) (refl, refl, refl)
  | inr e ↦ absurd (omega (arith, h, e.1))
]

-- A write to EECD of the network card with the request bit (bit 6) set is granted at once: the
-- next read has the grant bit (bit 7) set, the bits below it as written and the bits above it
-- those of the low 32 bits written.
pub eecd_lem :
    (m : Machine) (v : ℕ)
    → bit v 6 ≡ 1
    → let r = (sysmemread (sysmemwrite m (hwaddr_base + eecd_off) v) (hwaddr_base + eecd_off)).0 in
      (bit r 7 ≡ 1) × (r % 2 ^ 7 ≡ v % 2 ^ 7) × (r / 2 ^ 8 ≡ u32 v / 2 ^ 8)
unfolding sysmemread sysmemwrite E1000.read E1000.write E1000.write_eecd
eecd_lem m v h = elim (has-cases 6 (u32 v)) [
  | inl e ↦ rw (e.0) (omega (arith, bit_or-pow 7 (u32 v)))
  | inr e ↦ absurd (omega (arith, h, e.1))
]
