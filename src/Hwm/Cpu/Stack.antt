-- ===== src/Hwm/Cpu/Stack.antt =====
-- src/hwm/xmhfhwm_cpu.c: the instructions on the stack pointer and the stack.
use uberspark.Base.{ℕ, u32, sub32, ◌+◌}
use uberspark.Hwm.Cpu.{Cpu, load, push, set_esp}

abbrev pub addl_imm_esp : ℕ → Cpu → Cpu
addl_imm_esp value s = set_esp s (u32 (s.esp + value))

abbrev pub movl_meax_esp : ℕ → Cpu → Cpu
movl_meax_esp index s = set_esp s (load s (u32 (s.eax + index)))

abbrev pub subl_imm_esp : ℕ → Cpu → Cpu
subl_imm_esp value s = set_esp s (sub32 s.esp (u32 value))

abbrev pub movl_edx_esp : Cpu → Cpu
movl_edx_esp s = set_esp s s.edx

abbrev pub movl_eax_esp : Cpu → Cpu
movl_eax_esp s = set_esp s s.eax

abbrev pub pushl_mesp : ℕ → Cpu → Cpu
pushl_mesp index s = push s (load s (u32 (s.esp + index)))

abbrev pub pushl_mem : ℕ → Cpu → Cpu
pushl_mem value s = push s value

abbrev pub pushl_esi : Cpu → Cpu
pushl_esi s = push s s.esi

abbrev pub pushl_ebx : Cpu → Cpu
pushl_ebx s = push s s.ebx

abbrev pub popl_eax : Cpu → Cpu
popl_eax s = record s { eax = load s s.esp; esp = u32 (s.esp + 4) }

abbrev pub popl_esi : Cpu → Cpu
popl_esi s = record s { esi = load s s.esp; esp = u32 (s.esp + 4) }

abbrev pub popl_ebx : Cpu → Cpu
popl_ebx s = record s { ebx = load s s.esp; esp = u32 (s.esp + 4) }

abbrev pub popl_edx : Cpu → Cpu
popl_edx s = record s { edx = load s s.esp; esp = u32 (s.esp + 4) }

abbrev pub addl_eax_esp : Cpu → Cpu
addl_eax_esp s = record s { esp = u32 (s.esp + s.eax) }

abbrev pub movl_imm_esp : ℕ → Cpu → Cpu
movl_imm_esp value s = record s { esp = u32 value }

abbrev pub pushfl : Cpu → Cpu
pushfl s = push s s.eflags

abbrev pub popfl : Cpu → Cpu
popfl s = record s { eflags = load s s.esp; esp = u32 (s.esp + 4) }

abbrev pub pushl_edi : Cpu → Cpu
pushl_edi s = push s s.edi

abbrev pub popl_edi : Cpu → Cpu
popl_edi s = record s { edi = load s s.esp; esp = u32 (s.esp + 4) }

abbrev pub pushl_ebp : Cpu → Cpu
pushl_ebp s = push s s.ebp

abbrev pub pushl_eax : Cpu → Cpu
pushl_eax s = push s s.eax

abbrev pub pushl_edx : Cpu → Cpu
pushl_edx s = push s s.edx

abbrev pub pushl_esp : Cpu → Cpu
pushl_esp s = push s s.esp

abbrev pub pushl_imm : ℕ → Cpu → Cpu
pushl_imm value s = push s value

abbrev pub pushl_ecx : Cpu → Cpu
pushl_ecx s = push s s.ecx

abbrev pub popl_ebp : Cpu → Cpu
popl_ebp s = record s { ebp = load s s.esp; esp = u32 (s.esp + 4) }

abbrev pub pushal : Cpu → Cpu
pushal s =
    pushl_edi
      (pushl_esi (pushl_ebp (pushl_imm s.esp (pushl_ebx (pushl_edx (pushl_ecx (pushl_eax s)))))))

abbrev pub popl_mem : Cpu → ℕ × Cpu
popl_mem s = (load s s.esp, record s { esp = u32 (s.esp + 4) })
