-- ===== src/Hwm/Cpu/Moves.antt =====
-- src/hwm/xmhfhwm_cpu.c: moves between registers, from memory and to memory. An index is the 32-bit
-- pattern of the signed displacement.
use uberspark.Base.{ℕ, u16, u32, bit_and, bit_or, ◌+◌}
use uberspark.Hwm.Cpu.{Cpu, load, load_u16, store}

abbrev pub movl_mesp_eax : ℕ → Cpu → Cpu
movl_mesp_eax index s = record s { eax = load s (u32 (s.esp + index)) }

abbrev pub movl_mesp_ebx : ℕ → Cpu → Cpu
movl_mesp_ebx index s = record s { ebx = load s (u32 (s.esp + index)) }

abbrev pub movl_mesp_ecx : ℕ → Cpu → Cpu
movl_mesp_ecx index s = record s { ecx = load s (u32 (s.esp + index)) }

abbrev pub movl_mesp_edx : ℕ → Cpu → Cpu
movl_mesp_edx index s = record s { edx = load s (u32 (s.esp + index)) }

abbrev pub movl_eax_ebx : Cpu → Cpu
movl_eax_ebx s = record s { ebx = s.eax }

abbrev pub movl_eax_edi : Cpu → Cpu
movl_eax_edi s = record s { edi = s.eax }

abbrev pub movl_imm_meax : ℕ → ℕ → Cpu → Cpu
movl_imm_meax value index s = store s (u32 (s.eax + index)) value

abbrev pub movl_meax_edx : ℕ → Cpu → Cpu
movl_meax_edx index s = record s { edx = load s (u32 (s.eax + index)) }

abbrev pub movl_meax_edi : ℕ → Cpu → Cpu
movl_meax_edi index s = record s { edi = load s (u32 (s.eax + index)) }

abbrev pub movl_meax_esi : ℕ → Cpu → Cpu
movl_meax_esi index s = record s { esi = load s (u32 (s.eax + index)) }

abbrev pub movl_meax_ebp : ℕ → Cpu → Cpu
movl_meax_ebp index s = record s { ebp = load s (u32 (s.eax + index)) }

abbrev pub movl_meax_ebx : ℕ → Cpu → Cpu
movl_meax_ebx index s = record s { ebx = load s (u32 (s.eax + index)) }

abbrev pub movl_meax_eax : ℕ → Cpu → Cpu
movl_meax_eax index s = record s { eax = load s (u32 (s.eax + index)) }

abbrev pub movl_meax_ecx : ℕ → Cpu → Cpu
movl_meax_ecx index s = record s { ecx = load s (u32 (s.eax + index)) }

abbrev pub movl_ecx_meax : ℕ → Cpu → Cpu
movl_ecx_meax index s = store s (u32 (s.eax + index)) s.ecx

abbrev pub movl_edx_meax : ℕ → Cpu → Cpu
movl_edx_meax index s = store s (u32 (s.eax + index)) s.edx

abbrev pub movl_mebx_ebx : ℕ → Cpu → Cpu
movl_mebx_ebx index s = record s { ebx = load s (u32 (s.ebx + index)) }

abbrev pub movl_mecx_ecx : ℕ → Cpu → Cpu
movl_mecx_ecx index s = record s { ecx = load s (u32 (s.ecx + index)) }

abbrev pub movl_medx_edx : ℕ → Cpu → Cpu
movl_medx_edx index s = record s { edx = load s (u32 (s.edx + index)) }

abbrev pub movl_mesp_esi : ℕ → Cpu → Cpu
movl_mesp_esi index s = record s { esi = load s (u32 (s.esp + index)) }

abbrev pub movl_ebx_mesi : ℕ → Cpu → Cpu
movl_ebx_mesi index s = store s (u32 (s.esi + index)) s.ebx

abbrev pub movl_ecx_mesi : ℕ → Cpu → Cpu
movl_ecx_mesi index s = store s (u32 (s.esi + index)) s.ecx

abbrev pub movl_mecx_eax : ℕ → Cpu → Cpu
movl_mecx_eax index s = record s { eax = load s (u32 (s.ecx + index)) }

abbrev pub movl_mecx_edx : ℕ → Cpu → Cpu
movl_mecx_edx index s = record s { edx = load s (u32 (s.ecx + index)) }

abbrev pub movl_edx_ecx : Cpu → Cpu
movl_edx_ecx s = record s { ecx = s.edx }

abbrev pub movl_eax_ecx : Cpu → Cpu
movl_eax_ecx s = record s { ecx = s.eax }

abbrev pub movl_eax_mesp : ℕ → Cpu → Cpu
movl_eax_mesp index s = store s (u32 (s.esp + index)) s.eax

abbrev pub movl_imm_mesp : ℕ → ℕ → Cpu → Cpu
movl_imm_mesp value index s = store s (u32 (s.esp + index)) value

abbrev pub movw_mesp_ax : ℕ → Cpu → Cpu
movw_mesp_ax index s = record s {
  eax = bit_or (bit_and s.eax 0xFFFF0000) (load_u16 s (u32 (s.esp + index)));
}

abbrev pub movl_imm_eax : ℕ → Cpu → Cpu
movl_imm_eax value s = record s { eax = u32 value }

abbrev pub movl_imm_esi : ℕ → Cpu → Cpu
movl_imm_esi value s = record s { esi = u32 value }

abbrev pub movl_imm_edi : ℕ → Cpu → Cpu
movl_imm_edi value s = record s { edi = u32 value }

abbrev pub movl_imm_ecx : ℕ → Cpu → Cpu
movl_imm_ecx value s = record s { ecx = u32 value }

abbrev pub movl_imm_edx : ℕ → Cpu → Cpu
movl_imm_edx value s = record s { edx = u32 value }

abbrev pub movl_imm_ebx : ℕ → Cpu → Cpu
movl_imm_ebx value s = record s { ebx = u32 value }

abbrev pub movl_esp_eax : Cpu → Cpu
movl_esp_eax s = record s { eax = s.esp }

abbrev pub movl_esp_ecx : Cpu → Cpu
movl_esp_ecx s = record s { ecx = s.esp }

abbrev pub movl_mesp_edi : ℕ → Cpu → Cpu
movl_mesp_edi index s = record s { edi = load s (u32 (s.esp + index)) }

abbrev pub movl_esp_edx : Cpu → Cpu
movl_esp_edx s = record s { edx = s.esp }

abbrev pub movw_imm_ax : ℕ → Cpu → Cpu
movw_imm_ax value s = record s { eax = bit_or (bit_and s.eax 0xFFFF0000) (u16 value) }
