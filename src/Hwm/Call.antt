-- ===== src/Hwm/Call.antt =====
-- The callbacks by which the hardware model reports an event to the verification driver of a
-- target (the `cbhwm_*` and `*_vdriver_*` functions that the headers of src/hwm/include declare). They
-- return nothing, so the model records each call with its arguments.
use uberspark.Base.{ℕ}

pub data Call : Type 0 where
  e1000_write_tdt : ℕ → ℕ → Call
  e1000_write_tdbah : ℕ → ℕ → Call
  e1000_write_tdbal : ℕ → ℕ → Call
  e1000_write_tdlen : ℕ → ℕ → Call
  txt_write_rlp_wakeup_addr : ℕ → ℕ → Call
  mem_copy_to_apbootstrap_codeseg : ℕ → Call
  apentry smpcommon sentinel slabep vhslabretaddr uhslabretaddr : Call
  cpu_vmwrite : ℕ → ℕ → Call
  writeesp : ℕ → ℕ → Call
  cpu_writecr3 : ℕ → ℕ → Call
