-- ===== src/Hwm/Lapic.antt =====
-- src/hwm/xmhfhwm_lapic.c: the model of the local APIC, its identification register.
use uberspark.Base.{ℕ, ◌+◌, Option, none, some, ◌==◌, if◌then◌else◌}

abbrev pub mmio_apic_base : ℕ
mmio_apic_base = 0xfee0_0000

abbrev pub reg_id_addr : ℕ
reg_id_addr = mmio_apic_base + 0x20

-- `_impl_xmhfhwm_lapic_read`; the argument `reg_id` is `xmhfhwm_lapic_reg_id`.
unfoldable pub read : ℕ → ℕ → Option ℕ
read reg_id sysmemaddr = if sysmemaddr == reg_id_addr then some reg_id else none

-- `_impl_xmhfhwm_lapic_write` accepts no address.
unfoldable pub write : ℕ → ℕ → ℕ → Option ℕ
write reg_id sysmemaddr write_value = none
