-- ===== src/Driver.antt =====
-- The hardware library, src/libs/libxmhfhw, run on the hardware model.
pub mod VtdReg
pub mod Vtd
pub mod Casm
pub mod Mtrr
pub mod TxtHeap
pub mod Acpi
pub mod Pci
pub mod Slab
pub mod Platform
