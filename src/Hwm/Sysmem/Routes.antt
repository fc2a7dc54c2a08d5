-- ===== src/Hwm/Sysmem/Routes.antt =====
-- The routing of src/hwm/xmhfhwm_cpu.c and an address map as its abstract view: what a single device
-- answers to an access.
pub mod AddressMap
pub mod VtdUnit
unfoldable pub use AddressMap.*
use uberspark.Base.{
  Bool, ◌==◌, ◌&&◌, ℕ, ◌≡◌, ◌≢◌, refl, arith, true, false, Option, some, none, All, ◌++◌,
}
use uberspark.Hwm.Vtd.Regs.{IsPlaced}
use uberspark.Hwm.E1000
use uberspark.Hwm.Txt
use uberspark.Hwm.Bios
use uberspark.Hwm.Mem
use uberspark.Hwm.Vtd
use uberspark.Hwm.Lapic
use uberspark.Hwm.Sysmem.{
  Machine, sysmemread, sysmemwrite, read_asserts, write_asserts, bios_write_size,
}

-- What one device answers to a read, and zero where it declines.
unfoldable pub answer_read : Machine → Option Device → ℕ → ℕ × Machine
answer_read m none a = (0, m)
answer_read m (some Device.e1000) a = elim (E1000.read m.e1000 a 0) [
  | some (v, s) ↦ (v, record m { e1000 = s })
  | none ↦ (0, m)
]
answer_read m (some Device.txt) a = elim (Txt.read m.txt a) [ some v ↦ (v, m) | none ↦ (0, m) ]
answer_read m (some Device.bios) a = elim (Bios.read a) [ some v ↦ (v, m) | none ↦ (0, m) ]
answer_read m (some Device.mem) a = elim (Mem.read m.dataseg a) [ some v ↦ (v, m) | none ↦ (0, m) ]
answer_read m (some Device.vtd) a = elim (Vtd.read m.vtd a) [ some v ↦ (v, m) | none ↦ (0, m) ]
answer_read m (some Device.lapic) a = elim (Lapic.read m.lapic_id a) [
  | some v ↦ (v, m)
  | none ↦ (0, m)
]

unfoldable pub answer_write : Machine → Option Device → ℕ → ℕ → Machine
answer_write m none a v = m
answer_write m (some Device.e1000) a v = elim (E1000.write m.e1000 a v) [
  | some (s, c) ↦ record m { e1000 = s; calls = m.calls ++ c }
  | none ↦ m
]
answer_write m (some Device.txt) a v = elim (Txt.write m.txt a v) [
  | some (s, c) ↦ record m { txt = s; calls = m.calls ++ c }
  | none ↦ m
]
answer_write m (some Device.bios) a v = m
answer_write m (some Device.mem) a v = elim (Mem.write m.dataseg a v) [
  | some d ↦ record m { dataseg = d }
  | none ↦ m
]
answer_write m (some Device.vtd) a v = elim (Vtd.write m.vtd a v) [
  | some ds ↦ record m { vtd = ds }
  | none ↦ m
]
answer_write m (some Device.lapic) a v = m

-- Whether an access of so many bits to one device meets its assertions; without a device, or if it
-- declines, none does.
unfoldable pub passes_read : Machine → Option Device → ℕ → ℕ → Bool
passes_read m none bits a = false
passes_read m (some Device.e1000) bits a = elim (E1000.read m.e1000 a 0) [
  | some r ↦ true
  | none ↦ false
]
passes_read m (some Device.txt) bits a = elim (Txt.read m.txt a) [
  | some v ↦ bits == 32
  | none ↦ false
]
passes_read m (some Device.bios) bits a = elim (Bios.read a) [ some v ↦ bits == 32 | none ↦ false ]
passes_read m (some Device.mem) bits a = elim (Mem.read m.dataseg a) [
  | some v ↦ bits == 32
  | none ↦ false
]
passes_read m (some Device.vtd) bits a = elim (Vtd.read m.vtd a) [
  | some v ↦ bits == 32
  | none ↦ false
]
passes_read m (some Device.lapic) bits a = elim (Lapic.read m.lapic_id a) [
  | some v ↦ bits == 32
  | none ↦ false
]

unfoldable pub passes_write : Machine → Option Device → ℕ → ℕ → ℕ → Bool
passes_write m none bits a v = false
passes_write m (some Device.e1000) bits a v = elim (E1000.write m.e1000 a v) [
  | some r ↦ true
  | none ↦ false
]
passes_write m (some Device.txt) bits a v = elim (Txt.write m.txt a v) [
  | some r ↦ bits == 32
  | none ↦ false
]
passes_write m (some Device.bios) bits a v = Bios.write a && bios_write_size bits a
passes_write m (some Device.mem) bits a v = elim (Mem.write m.dataseg a v) [
  | some d ↦ bits == 16
  | none ↦ false
]
passes_write m (some Device.vtd) bits a v = elim (Vtd.write m.vtd a v) [
  | some ds ↦ bits == 32
  | none ↦ false
]
passes_write m (some Device.lapic) bits a v = false

module _ (m : Machine) (a : ℕ) (placed : All IsPlaced m.vtd) where
  -- Once the owner is known, every other device declines.
  read_by : (o : Option Device) → owner a ≡ o → sysmemread m a ≡ answer_read m o a
  unfolding sysmemread answer_read
  read_by none e = ground (
    arith,
    e1000-read-none m.e1000 a 0,
    txt-read-none m.txt a,
    bios-read-none a,
    mem-read-none m.dataseg a,
    vtd-read-none m.vtd a placed,
    lapic-read-none m.lapic_id a,
  )
  read_by (some d) e = ground (
    arith,
    e1000-read-none m.e1000 a 0,
    txt-read-none m.txt a,
    bios-read-none a,
    mem-read-none m.dataseg a,
    vtd-read-none m.vtd a placed,
    lapic-read-none m.lapic_id a,
  )

  passed_read :
      (bits : ℕ) (o : Option Device) → owner a ≡ o → read_asserts m bits a ≡ passes_read m o bits a
  unfolding read_asserts passes_read
  passed_read bits none e = ground (
    arith,
    e1000-read-none m.e1000 a 0,
    txt-read-none m.txt a,
    bios-read-none a,
    mem-read-none m.dataseg a,
    vtd-read-none m.vtd a placed,
    lapic-read-none m.lapic_id a,
  )
  passed_read bits (some d) e = ground (
    arith,
    e1000-read-none m.e1000 a 0,
    txt-read-none m.txt a,
    bios-read-none a,
    mem-read-none m.dataseg a,
    vtd-read-none m.vtd a placed,
    lapic-read-none m.lapic_id a,
  )

  -- If all remapping units are placed, a read of system memory of so many bits meets the
  -- assertions on the device and the size exactly if the one device that the address map names for
  -- the address takes it and asserts no other size: with no such device, or if the device
  -- declines, it fails the assertion that ends the routing. The value and the new state are what
  -- the device answers, and past the failed assertion zero and the old state; the order in which
  -- the handlers are asked does not matter.
  pub sysmemread-owner :
      (bits : ℕ)
      → (read_asserts m bits a ≡ passes_read m (owner a) bits a)
        × (sysmemread m a ≡ answer_read m (owner a) a)
  sysmemread-owner bits = (passed_read bits (owner a) refl, read_by (owner a) refl)

  write_by : (v : ℕ) (o : Option Device) → owner a ≡ o → sysmemwrite m a v ≡ answer_write m o a v
  unfolding sysmemwrite answer_write Lapic.write
  write_by v none e = ground (
    arith,
    e1000-write-none m.e1000 a v,
    txt-write-none m.txt a v,
    bios-write-false a,
    mem-write-none m.dataseg a v,
    vtd-write-none m.vtd a v placed,
  )
  write_by v (some d) e = ground (
    arith,
    e1000-write-none m.e1000 a v,
    txt-write-none m.txt a v,
    bios-write-false a,
    mem-write-none m.dataseg a v,
    vtd-write-none m.vtd a v placed,
  )

  passed_write :
      (bits v : ℕ) (o : Option Device)
      → owner a ≡ o
      → write_asserts m bits a v ≡ passes_write m o bits a v
  unfolding write_asserts passes_write Lapic.write
  passed_write bits v none e = ground (
    arith,
    e1000-write-none m.e1000 a v,
    txt-write-none m.txt a v,
    bios-write-false a,
    mem-write-none m.dataseg a v,
    vtd-write-none m.vtd a v placed,
  )
  passed_write bits v (some d) e = ground (
    arith,
    e1000-write-none m.e1000 a v,
    txt-write-none m.txt a v,
    bios-write-false a,
    mem-write-none m.dataseg a v,
    vtd-write-none m.vtd a v placed,
  )

  -- If all remapping units are placed, a write of system memory of so many bits meets the
  -- assertions on the device and the size exactly if the one device that the address map names for
  -- the address takes it and asserts no other size: with no such device, or if the device
  -- declines, it fails the assertion that ends the routing. The new state is what the device makes
  -- of it, and past the failed assertion the old state.
  pub sysmemwrite-owner :
      (bits v : ℕ)
      → (write_asserts m bits a v ≡ passes_write m (owner a) bits a v)
        × (sysmemwrite m a v ≡ answer_write m (owner a) a v)
  sysmemwrite-owner bits v = (passed_write bits v (owner a) refl, write_by v (owner a) refl)
