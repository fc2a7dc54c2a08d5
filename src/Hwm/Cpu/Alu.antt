-- ===== src/Hwm/Cpu/Alu.antt =====
-- src/hwm/xmhfhwm_cpu.c: arithmetic, bit tests and flags.
use uberspark.Base.{
  ℕ, u32, sub32, bit_and, bit_or, has, clear, ◌<<◌, ◌>>◌, ◌==◌, if◌then◌else◌, ◌+◌, ◌*◌, zero, suc,
  Option, some, none, ◌^◌,
}
use mathlib.Core.Option
use uberspark.Hwm.Cpu.{Cpu, load, store, eflags_cf, eflags_zf, eflags_df}

abbrev pub cmpl_imm_meax : ℕ → ℕ → Cpu → Cpu
cmpl_imm_meax value index s =
    if sub32 (load s (u32 (s.eax + index))) (u32 value) == 0
    then record s { eflags = bit_or s.eflags eflags_zf }
    else s

abbrev pub xorl_eax_eax : Cpu → Cpu
xorl_eax_eax s = record s { eax = 0 }

abbrev pub xorl_edx_edx : Cpu → Cpu
xorl_edx_edx s = record s { edx = 0 }

abbrev pub addl_eax_ecx : Cpu → Cpu
addl_eax_ecx s = record s { ecx = u32 (s.ecx + s.eax) }

abbrev pub addl_imm_ecx : ℕ → Cpu → Cpu
addl_imm_ecx value s = record s { ecx = u32 (s.ecx + value) }

abbrev pub addl_imm_eax : ℕ → Cpu → Cpu
addl_imm_eax value s = record s { eax = u32 (s.eax + value) }

abbrev pub andl_imm_edx : ℕ → Cpu → Cpu
andl_imm_edx value s = record s { edx = bit_and s.edx value }

abbrev pub andl_imm_ecx : ℕ → Cpu → Cpu
andl_imm_ecx value s = record s { ecx = bit_and s.ecx value }

abbrev pub shl_imm_ecx : ℕ → Cpu → Cpu
shl_imm_ecx value s = record s { ecx = u32 (s.ecx << value) }

abbrev pub orl_imm_eax : ℕ → Cpu → Cpu
orl_imm_eax value s = record s { eax = bit_or s.eax (u32 value) }

abbrev pub shr_imm_eax : ℕ → Cpu → Cpu
shr_imm_eax value s = record s { eax = s.eax >> value }

abbrev pub orl_ecx_eax : Cpu → Cpu
orl_ecx_eax s = record s { eax = bit_or s.eax s.ecx }

abbrev pub orl_edx_eax : Cpu → Cpu
orl_edx_eax s = record s { eax = bit_or s.eax s.edx }

abbrev pub btl_imm_mecx : ℕ → ℕ → Cpu → Cpu
btl_imm_mecx value index s =
    if has (load s (u32 (s.ecx + index))) (1 << value)
    then record s { eflags = bit_or s.eflags eflags_cf }
    else record s { eflags = clear s.eflags eflags_cf }

abbrev pub btrl_imm_mecx : ℕ → ℕ → Cpu → Cpu
btrl_imm_mecx value index s =
    let word = load s (u32 (s.ecx + index)) in
    if has word (1 << value)
    then store (record s { eflags = bit_or s.eflags eflags_cf }) (u32 (s.ecx + index))
        (clear word (1 << value))
    else record s { eflags = clear s.eflags eflags_cf }

abbrev pub btsl_imm_mecx : ℕ → ℕ → Cpu → Cpu
btsl_imm_mecx value index s =
    let word = load s (u32 (s.ecx + index)) in
    if has word (1 << value)
    then record s { eflags = bit_or s.eflags eflags_cf }
    else store (record s { eflags = clear s.eflags eflags_cf }) (u32 (s.ecx + index))
        (bit_or word (1 << value))

abbrev pub cld : Cpu → Cpu
cld s = record s { eflags = clear s.eflags eflags_df }

abbrev pub andl_imm_eax : ℕ → Cpu → Cpu
andl_imm_eax value s = record s { eax = bit_and s.eax value }

abbrev pub mull_ecx : Cpu → Cpu
mull_ecx s = record s { eax = u32 (s.eax * s.ecx) }

abbrev pub addl_ecx_eax : Cpu → Cpu
addl_ecx_eax s = record s { eax = u32 (s.eax + s.ecx) }

-- The loop of `bsrl_mesp_eax` over the places i - 1, ..., 0. Its counter is unsigned, so after place
-- 0 it goes on with shifts that C does not define: there the model has no result.
unfoldable pub highest : ℕ → ℕ → Option ℕ
highest value zero = none
highest value (suc i) = if has value (2 ^ i) then some i else highest value i

unfoldable pub bsrl_mesp_eax : ℕ → Cpu → Option Cpu
bsrl_mesp_eax index s =
    Option.map (λ i. record s { eax = i }) (highest (load s (u32 (s.esp + index))) 32)
