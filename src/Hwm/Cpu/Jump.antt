-- ===== src/Hwm/Cpu/Jump.antt =====
-- src/hwm/include/xmhfhwm_cpu.h: the tests of the conditional jumps, the returns, and the jumps that
-- leave the code under verification, each of which reports to the verification driver and halts.
use uberspark.Base.{ℕ, ◌+◌, u32, Bool, has, not, ◌&&◌}
use uberspark.Hwm.Call.{Call}
use uberspark.Hwm.Cpu.{Cpu, load, report, edx_eax, eflags_cf, eflags_zf}
use uberspark.Hwm.Cpu.System

abbrev pub jc : Cpu → Bool
jc s = has s.eflags eflags_cf

abbrev pub jnc : Cpu → Bool
jnc s = not (has s.eflags eflags_cf)

abbrev pub jz : Cpu → Bool
jz s = has s.eflags eflags_zf

abbrev pub jnz : Cpu → Bool
jnz s = not (has s.eflags eflags_zf)

abbrev pub je : Cpu → Bool
je s = has s.eflags eflags_zf

abbrev pub jbe : Cpu → Bool
jbe s = has s.eflags eflags_zf && has s.eflags eflags_cf

abbrev pub ja : Cpu → Bool
ja s = not (has s.eflags eflags_zf) && not (has s.eflags eflags_cf)

abbrev pub ret : Cpu → Cpu
ret s = record s { eip = load s s.esp; esp = u32 (s.esp + 4) }

abbrev pub retu32 : Cpu → ℕ × Cpu
retu32 s = (s.eax, ret s)

abbrev pub retu64 : Cpu → ℕ × Cpu
retu64 s = (edx_eax s, ret s)

abbrev pub lret : Cpu → Cpu
lret s = record s {
  eip = load s s.esp;
  cs_selector = load s (u32 (s.esp + 4));
  esp = u32 (u32 (s.esp + 4) + 4);
}

abbrev pub jmpapentry : Cpu → Cpu
jmpapentry s = System.hlt (report s Call.apentry)

abbrev pub jmpsmpcommon : Cpu → Cpu
jmpsmpcommon s = System.hlt (report s Call.smpcommon)

abbrev pub jmpsentinel : Cpu → Cpu
jmpsentinel s = System.hlt (report s Call.sentinel)

abbrev pub jmpslabep : Cpu → Cpu
jmpslabep s = System.hlt (report (record s { eip = s.eax }) Call.slabep)

abbrev pub jmpvhslabretaddr : Cpu → Cpu
jmpvhslabretaddr s = System.hlt (report (ret s) Call.vhslabretaddr)

abbrev pub jmpuhslabretaddr : Cpu → Cpu
jmpuhslabretaddr s = System.hlt (report (record s { eip = s.edx; esp = s.ecx }) Call.uhslabretaddr)
