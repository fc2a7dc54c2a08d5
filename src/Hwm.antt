-- ===== src/Hwm.antt =====
-- The hardware model (directory hwm): one child for each modelled device.
pub mod Obj
pub mod Call
pub mod E1000
pub mod Lapic
pub mod Mem
pub mod Txt
pub mod Bios
pub mod Vtd
pub mod Sysmem
pub mod Cpu
