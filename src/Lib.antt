-- ===== src/Lib.antt =====
-- Verification of the C core of uberspark: the hardware model (src/hwm) and the hardware library
-- (src/libs/libxmhfhw) that runs on it.
--
-- The program. The hardware library drives the platform by reading and writing system memory. The
-- hardware model stands for the platform when the library is verified: each device is a few
-- registers in global variables with a read, a write and a copy handler, and
-- src/hwm/xmhfhwm_cpu.c asks the devices one after the other whether an address is theirs. The
-- remapping units of VT-d are the richest device, and the VT-d driver is the library's richest
-- client of it: it packs and unpacks registers by macros, writes them, and polls them until the
-- hardware says that it is done.
--
-- The files.
-- - Base: helpers. Base/Word has the fixed-width integers of C as native numbers with their wrap
--   written out, Base/Lists arrays as lists, Base/Bits the laws of `&` and `|` at variables.
-- - Regs: the bit fields of src/hwm/include/xmhfhwm_vtd.h and xmhfhwm_cpu.h. There is one file
--   for each register, with its record and its pack_* and unpack_* macros; Regs/Field has the one
--   line of a macro that handles one field, and the lemmas that a whole register is made of;
--   Regs/RoundTrip puts the registers together.
-- - Hwm: the devices. Hwm/Obj is memory with the copy loops, Hwm/Call the callbacks, and
--   Hwm/E1000, Hwm/Lapic, Hwm/Mem, Hwm/Txt, Hwm/Bios and Hwm/Vtd are
--   src/hwm/xmhfhwm_{e1000,lapic,mem,txt,bios,vtd}.c: `read`, `write` and `copy_*` in a device's
--   file are its `_impl_xmhfhwm_*_read`, `_write` and `_sysmemcopy`, and `none` is the result
--   false, with which the next device is asked. Hwm/Vtd/Regs names the registers of a unit, and
--   Hwm/Vtd/Routing finds a unit in the list.
-- - Hwm/Sysmem: the state of all devices, and sysmemread, sysmemwrite and sysmemcopy of
--   src/hwm/xmhfhwm_cpu.c. An ACSL assertion does not change what the code does, so these are
--   what it does whether an assertion holds or not; `read_asserts` and `write_asserts` are the
--   assertions that a device takes the access and on its size. Hwm/Sysmem/Routes has an address
--   map as the abstract view of the routing, and Hwm/Sysmem/Routes/VtdUnit the registers of one
--   unit through the routing. Hwm/Sysmem/Accesses has sequences of accesses as a step relation,
--   and Hwm/Sysmem/Transmit the network card as its driver sees it.
-- - Driver: src/libs/libxmhfhw. Driver/VtdReg is the access to one register, Driver/Vtd the
--   operations on a unit; Driver/Vtd/Run, Setup and Invalidate say what they do to the hardware
--   model.
-- - Hwm/Cpu: the processor of src/hwm/xmhfhwm_cpu.c, the state that xmhfhwm_cpu_gprs_* and the
--   other globals make. Hwm/Cpu/Moves, Stack, Alu, Msr, System and Sysmem have a function for
--   each `_impl_xmhfhwm_cpu_insn_*`, under its name without that prefix; Hwm/Cpu/Insn has the
--   instructions as data, with `exec` for the macros xmhfhwm_cpu_insn_* of
--   src/hwm/include/xmhfhwm_cpu.h, Hwm/Cpu/Jump the macros that leave a function or test a flag,
--   and Hwm/Cpu/Ranges is about the widths of the registers.
-- - Driver/Casm: the assembly functions src/libs/libxmhfhw/*.cS as lists of instructions
--   (`*_insns`) and as functions on the machine, and CASM_FUNCCALL. Driver/Casm/Sysmem, Msr,
--   Regs, Tables, Control, Vmx and Lock hold the functions, Driver/Casm/Frame the frame of a
--   call, and Calls, Writes, MsrCalls, Scan and LockLaws what calls of them do.
-- - Driver/Casm/Abi: the C calling convention as a typing of straight-line code. Abi has the
--   rules, an executable check; Abi/Slots, Rules, Registers and Soundness say what a shape means
--   and that each rule keeps it, and Abi/Convention is about a call.
-- - Driver/Casm/Harness: src/libs/libxmhfhw/verify/xmhfhw_casmfuncs_driver.c. Harness/Drivers has
--   a function for each drv_*, Harness/Main the sequence of `main`, without the calls that are
--   commented out; Harness/Laws and Calling are about one driver, RegisterDrivers, MemoryDrivers,
--   PortDrivers, Branches and Locking about those of the file, and Checks about `main`. The
--   results of framac_nondetu32() and the addresses of the C objects are parameters, and what a
--   driver stores in its local objects before the call is part of the memory that the theorems
--   are for.
-- - Driver/Mtrr: xmhfhw_cpu_mtrr*.c, over the two calls that read and write a model-specific
--   register; Driver/Mtrr/Cover is about the ranges that the bits of a number of pages give,
--   Words about the words that are written, and Mapping, RoundTrip and Validate are about the
--   functions.
-- - Driver/TxtHeap: xmhfhw_cpu_txt*.c, the TXT registers and the heap; Driver/TxtHeap/Parts is
--   about the heap and Registers about the registers. Driver/Acpi: xmhfhw_sysmem_getacpirsdp.c,
--   and Driver/Acpi/Search what the search finds on the hardware model. Driver/Pci:
--   xmhfhw_pci_*.c, with Driver/Pci/Address about the encoded address and Driver/Pci/Bus about
--   the accesses. Driver/Casm/Ports is about calls of inl and outl.
-- - Driver/Platform: xmhfhw_keyb_reboot.c, xmhfhw_pit_udelay.c and xmhfhw_lapic_*.c;
--   Driver/Platform/Polling is about the loops that poll a port, Driver/Platform/Lapic about the
--   local APIC.
-- - Driver/Slab: the stubs of verified slabs, src/libs/libxmhfgeec/xmhfgeec_slabstubs_vft.cS,
--   over the code of the slab as a parameter; Driver/Slab/Answers is about the answers to calls,
--   Driver/Slab/Entry about the whole stub, and Driver/Slab/Harness is the harness
--   xmhfgeec_slabstubs_vft_driver.c with its slab that does nothing.
-- - Libc: src/libs/libxmhfc, the copies, comparisons and scans over byte memory; Libc/Strings has
--   the functions that run to the end of a string, with their laws in Libc/Strings/Laws.
-- - Tests: the theorems at concrete inputs; Tests/Processor for the processor and the assembly
--   functions, Tests/Ranges for the memory types, Tests/Heap for the TXT heap and the ACPI
--   search, Tests/Strings for the copies and scans, Tests/Harness for the calling convention and
--   the harness, Tests/Slab for the slab stubs.
--
-- Bounds and fuel. A register is a number below the power of two that a hypothesis names where it
-- is needed. The polling loops of the driver run on fuel, the number of polls: a fuel of one is
-- enough wherever a theorem says that an operation returns, for every larger fuel it returns the
-- same, and where an operation never returns the theorem is for every fuel. The loop of
-- set_mem_type runs on 21 rounds, one for each bit of a number of pages below 2 ^ 20 and one that
-- finds no pages left, and it is proved to return. The lock of spin_lock runs on rounds: the
-- theorems are for every number of them. The string functions without a limit run on one round
-- for each byte, and one more than the place of the string's end is enough. The loops of the ACPI
-- search run on rounds too, and 65 of them are enough on the hardware model.
--
-- Not modelled: in the VT-d driver and in Hwm/Sysmem an access to memory is its effect on system
-- memory; Driver/Casm/Calls and Writes are about the assembly functions that make it. The sizes
-- of accesses decide no result and are read by the assertions alone; the assertions that a copy
-- has a device and that its range in the object is valid, and the one in the check of the
-- extents, whose value is the result of the check, are left out. The size accessor of the fourth
-- part of the TXT heap is left out, because it calls its assembly function without CASM_FUNCCALL.
-- The processor model has no memory-type registers, so the calls that the MTRR driver makes are
-- parameters. The accessors that read cpuid through pointers are left out. src/libs/libxmhfcrypto
-- is a copy of LibTomCrypt and src/libs/libxmhfdebug/subr_prf.c one of the BSD printf. The OCaml
-- and shell tools are no part of the core.
pub mod Base
pub mod Hwm
pub mod Regs
pub mod Driver
pub mod Libc
mod Tests
