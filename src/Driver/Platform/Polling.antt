-- ===== src/Driver/Platform/Polling.antt =====
-- The keyboard controller and the timer on the hardware model, which answers every port with zero bytes.
use uberspark.Base.{ℕ, zero, suc, ◌≡◌, refl, ap, has, u8, false, none, some}
use mathlib.Core.Option
use uberspark.Hwm.Cpu.{Cpu}
use uberspark.Hwm.Cpu.Insn.{run, exec}
use uberspark.Driver.Casm.{casm_call, casm_funccall, param_teardown}
use uberspark.Driver.Casm.Msr.{inb, outb}
use uberspark.Driver.Pci.{read_port, write_port}
use uberspark.Driver.Platform.{flush_input, reboot, wait_latch, program_channel, udelay}

inb-zero : (s : Cpu) → (inb s).0 ≡ 0
unfolding inb run exec
inb-zero s = refl

read_port-inb : (port : ℕ) (s : Cpu) → (read_port inb port s).0 ≡ 0
unfolding read_port casm_funccall casm_call param_teardown inb run exec
read_port-inb port s = refl

-- On the hardware model the reboot finds the controller ready at once, whatever the state, and writes
-- the reset command to it.
pub reboot_lem :
    (fuel : ℕ) (s : Cpu)
    → reboot (suc fuel) s ≡ some (write_port outb 0xFE 0x64 (read_port inb 0x64 s).1)
unfolding reboot flush_input
reboot_lem fuel s =
    let ready : has (u8 (read_port inb 0x64 s).0) 0x02 ≡ false =
      ap (λ (v : ℕ). has (u8 v) 0x02) (read_port-inb 0x64 s) in
    rw (ready) refl

wait_latch-none : (fuel : ℕ) (s : Cpu) → wait_latch fuel s ≡ none
unfolding wait_latch
wait_latch-none zero s = refl
wait_latch-none (suc fuel) s =
    let clear : has (inb s).0 0x20 ≡ false = ap (λ (v : ℕ). has v 0x20) (inb-zero s) in
    rw (clear) (wait_latch-none fuel (inb s).1)

-- On the hardware model a delay never ends, whatever its length, the state and the number of
-- polls.
pub udelay-none : (fuel usecs : ℕ) (s : Cpu) → udelay fuel usecs s ≡ none
unfolding udelay
udelay-none fuel usecs s = ap (Option.map _) (wait_latch-none fuel (program_channel usecs s))
