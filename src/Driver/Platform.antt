-- ===== src/Driver/Platform.antt =====
-- src/libs/libxmhfhw/xmhfhw_{keyb_reboot,pit_udelay,lapic_isbsp,lapic_getid}.c: the keyboard controller, the
-- timer and the local APIC. Each loop that polls a port runs on fuel, one round for each poll.
pub mod Polling
pub mod Lapic
use uberspark.Base.{
  ℕ, zero, suc, ◌+◌, ◌*◌, ◌/◌, Bool, bit_and, bit_or, has, u8, u32, ◌>>◌, ltb, if◌then◌else◌,
  Option, none, some, [], ◌∷◌,
}
use mathlib.Core.Option
use uberspark.Hwm.Cpu.{Cpu, msr_apic_base}
use uberspark.Driver.Casm.{casm_funccall}
use uberspark.Driver.Casm.Msr.{inb, outb, rdmsr64}
use uberspark.Driver.Casm.Sysmem.{sysmemaccess_readu32}
use uberspark.Driver.Pci.{read_port, write_port}

-- The loop of the reboot: the controller is asked until it has taken its input.
unfoldable pub flush_input : ℕ → Cpu → Option Cpu
flush_input zero s = none
flush_input (suc fuel) s =
    let flush = read_port inb 0x64 s in
    let rest = flush_input fuel flush.1 in if has (u8 flush.0) 0x02 then rest else some flush.1

-- The state before `HALT()`, which does not return.
unfoldable pub reboot : ℕ → Cpu → Option Cpu
reboot fuel s = Option.map (write_port outb 0xFE 0x64) (flush_input fuel s)

-- The loop of the delay: it calls inb without CASM_FUNCCALL.
unfoldable pub wait_latch : ℕ → Cpu → Option Cpu
wait_latch zero s = none
wait_latch (suc fuel) s =
    let status = inb s in
    let rest = wait_latch fuel status.1 in if has status.0 0x20 then some status.1 else rest

-- The value for the latch register of channel 2.
unfoldable pub latchregval : ℕ → ℕ
latchregval usecs = u32 (1193182 / 1000000 * (if ltb 0xD68461C0 usecs then 0xD68461C0 else usecs))

-- Channel 2 as one-shot, with its latch.
unfoldable pub program_channel : ℕ → Cpu → Cpu
program_channel usecs s =
    let val = read_port inb 0x61 s in
    let enabled = write_port outb (bit_or (bit_and (u8 val.0) 0x0d) 0x01) 0x61 val.1 in
    let one_shot = write_port outb 0xB0 0x43 enabled in
    let low = write_port outb (u8 (latchregval usecs)) 0x42 one_shot in
    write_port outb (u8 (latchregval usecs >> 8)) 0x42 low

unfoldable pub disable_channel : Cpu → Cpu
disable_channel s =
    let val = read_port inb 0x61 s in write_port outb (bit_and (u8 val.0) 0x0c) 0x61 val.1

unfoldable pub udelay : ℕ → ℕ → Cpu → Option Cpu
udelay fuel usecs s = Option.map disable_channel (wait_latch fuel (program_channel usecs s))

-- The two accesses to the local APIC: the flag in its base register, and its identification.
unfoldable pub isbsp : Cpu → Bool × Cpu
isbsp s =
    let msr_value = casm_funccall (msr_apic_base ∷ []) (λ t. (rdmsr64 t).1) s in
    (has (u32 msr_value.0) 0x100, msr_value.1)

unfoldable pub getcpulapicid : Cpu → ℕ × Cpu
getcpulapicid s =
    let msr_value = casm_funccall (msr_apic_base ∷ []) (λ t. (rdmsr64 t).1) s in
    let lapic_reg = u32 (bit_and (u32 msr_value.0) 0xFFFF_F000 + 0x20) in
    let lapic_id = casm_funccall (lapic_reg ∷ []) (λ t. (sysmemaccess_readu32 t).1) msr_value.1 in
    (u32 lapic_id.0 >> 24, lapic_id.1)
