-- ===== src/Driver/Casm/Abi.antt =====
-- The C calling convention of the assembly functions src/libs/libxmhfhw/*.cS, as a typing of straight-line
-- code: a shape says what the registers that a caller relies on and the words of the stack hold, and
-- the rule of an instruction takes a shape to the next. Code that a rule does not cover has no type.
pub mod Slots
pub mod Rules
pub mod Registers
pub mod Soundness
pub mod Convention
use uberspark.Base.{
  ℕ, zero, suc, ◌%◌, ◌/◌, ◌==◌, if◌then◌else◌, Option, none, some, List, [], ◌∷◌, get_or, set, ◌&&◌,
  leb, ltb, ◌-◌, ◌+◌, ◌++◌, replicate, length,
}
use uberspark.Hwm.Cpu.Insn.{Insn}

-- What a register or a word of the stack holds: the value that a register had on entry, the return
-- address, a pointer to a word that is not of the stack, or anything.
pub data Ty : Type 0 where
  saved_ebx saved_esi saved_edi return_address away any : Ty

-- `room` is how many more words the stack can take, and `slots` are the words from the top on.
pub record Shape : Type 0 where
  pub ebx : Ty
  pub esi : Ty
  pub edi : Ty
  pub ecx : Ty
  pub room : ℕ
  pub slots : List Ty

-- The shape when a function is entered with parameters of these types, and when it has returned.
abbrev pub entered : ℕ → List Ty → Shape
entered room params = record {
  ebx = Ty.saved_ebx;
  esi = Ty.saved_esi;
  edi = Ty.saved_edi;
  ecx = Ty.any;
  room = room;
  slots = Ty.return_address ∷ params;
}

abbrev pub slot : Shape → ℕ → Ty
slot sh index = if index % 4 == 0 then get_or sh.slots (index / 4) Ty.any else Ty.any

abbrev pub push_within : ℕ → Ty → Shape → Option Shape
push_within zero ty sh = none
push_within (suc n) ty sh = some (record sh { room = n; slots = ty ∷ sh.slots })

abbrev pub push : Ty → Shape → Option Shape
push ty sh = push_within sh.room ty sh

-- A pop, with what becomes of the registers.
abbrev pub pop_of : List Ty → (Ty → Shape → Shape) → Shape → Option Shape
pop_of [] into sh = none
pop_of (ty ∷ tys) into sh = some (into ty (record sh { room = suc sh.room; slots = tys }))

abbrev pub pop : (Ty → Shape → Shape) → Shape → Option Shape
pop into sh = pop_of sh.slots into sh

abbrev pub into_ebx : Ty → Shape → Shape
into_ebx ty sh = record sh { ebx = ty }

abbrev pub into_esi : Ty → Shape → Shape
into_esi ty sh = record sh { esi = ty }

abbrev pub into_edi : Ty → Shape → Shape
into_edi ty sh = record sh { edi = ty }

abbrev pub drop : Ty → Shape → Shape
drop ty sh = sh

abbrev pub skip : ℕ → List Ty → List Ty
skip zero tys = tys
skip (suc n) [] = []
skip (suc n) (ty ∷ tys) = skip n tys

-- The word of the stack at the index is overwritten.
abbrev pub overwrite : ℕ → Shape → Option Shape
overwrite index sh =
    if (index % 4 == 0) && ltb (index / 4) (length sh.slots)
    then some (record sh { slots = set sh.slots (index / 4) Ty.any })
    else none

-- A store through a pointer.
abbrev pub through : Ty → ℕ → Shape → Option Shape
through Ty.away zero sh = some sh
through _ _ sh = none

-- The first two words of the stack are overwritten, in whole or in part.
abbrev pub two_of : List Ty → Shape → Option Shape
two_of [] sh = none
two_of (_ ∷ []) sh = none
two_of (_ ∷ _ ∷ tys) sh = some (record sh { slots = Ty.any ∷ Ty.any ∷ tys })

abbrev pub overwrite_two : Shape → Option Shape
overwrite_two sh = two_of sh.slots sh

-- The stack pointer goes down or up by so many bytes.
abbrev pub reserve : ℕ → Shape → Option Shape
reserve bytes sh =
    if (bytes % 4 == 0) && leb (bytes / 4) sh.room
    then some
        (record sh { room = sh.room - bytes / 4; slots = replicate (bytes / 4) Ty.any ++ sh.slots })
    else none

abbrev pub release : ℕ → Shape → Option Shape
release bytes sh =
    if (bytes % 4 == 0) && leb (bytes / 4) (length sh.slots)
    then some (record sh { room = sh.room + bytes / 4; slots = skip (bytes / 4) sh.slots })
    else none

-- The rule of each instruction.
unfoldable pub step : Insn → Shape → Option Shape
step Insn.xorl_eax_eax sh = some sh
step Insn.xorl_edx_edx sh = some sh
step Insn.inb_dx_al sh = some sh
step Insn.inl_dx_eax sh = some sh
step Insn.inw_dx_ax sh = some sh
step Insn.outb_al_dx sh = some sh
step Insn.outl_eax_dx sh = some sh
step Insn.outw_ax_dx sh = some sh
step Insn.wrmsr sh = some sh
step Insn.rdmsr sh = some sh
step Insn.rdtsc sh = some sh
step Insn.xgetbv sh = some sh
step Insn.xsetbv sh = some sh
step Insn.hlt sh = some sh
step Insn.cli sh = some sh
step Insn.sti sh = some sh
step Insn.cld sh = some sh
step Insn.str_ax sh = some sh
step Insn.ltr_ax sh = some sh
step Insn.pause sh = some sh
step Insn.lock sh = some sh
step Insn.movl_cr0_eax sh = some sh
step Insn.movl_cr2_eax sh = some sh
step Insn.movl_cr3_eax sh = some sh
step Insn.movl_cr4_eax sh = some sh
step Insn.movl_cs_eax sh = some sh
step Insn.movl_ds_eax sh = some sh
step Insn.movl_es_eax sh = some sh
step Insn.movl_fs_eax sh = some sh
step Insn.movl_gs_eax sh = some sh
step Insn.movl_ss_eax sh = some sh
step Insn.vmwrite_eax_ecx sh = some sh
step Insn.vmread_ecx_eax sh = some sh
step Insn.wbinvd sh = some sh
step Insn.movl_eax_cr0 sh = some sh
step Insn.movl_eax_cr3 sh = some sh
step Insn.movl_eax_cr4 sh = some sh
step Insn.movw_ax_ds sh = some sh
step Insn.movw_ds_ax sh = some sh
step Insn.movw_ax_es sh = some sh
step Insn.movw_ax_fs sh = some sh
step Insn.movw_ax_gs sh = some sh
step Insn.movw_ax_ss sh = some sh
step Insn.movl_esp_eax sh = some sh
step Insn.orl_ecx_eax sh = some sh
step Insn.orl_edx_eax sh = some sh
step (Insn.movl_mesp_eax k) sh = some sh
step (Insn.movl_mesp_edx k) sh = some sh
step (Insn.movl_imm_eax k) sh = some sh
step (Insn.movl_imm_edx k) sh = some sh
step (Insn.invept_mesp_edx k) sh = some sh
step (Insn.invvpid_mesp_edx k) sh = some sh
step (Insn.invvpid_mesp_ecx k) sh = some sh
step (Insn.lgdt_mecx k) sh = some sh
step (Insn.lidt_mecx k) sh = some sh
step (Insn.vmxon_mesp k) sh = some sh
step (Insn.vmclear_mesp k) sh = some sh
step (Insn.vmptrld_mesp k) sh = some sh
step (Insn.movl_mesi_eax k) sh = some sh
step (Insn.movl_mesi_edx k) sh = some sh
step (Insn.movl_eax_mesi k) sh = some sh
step (Insn.movl_edx_mesi k) sh = some sh
step (Insn.movb_al_mesi k) sh = some sh
step (Insn.movw_ax_mesi k) sh = some sh
step (Insn.andl_imm_eax k) sh = some sh
step (Insn.andl_imm_edx k) sh = some sh
step (Insn.orl_imm_eax k) sh = some sh
step (Insn.shr_imm_eax k) sh = some sh
step (Insn.movl_mecx_eax k) sh = some sh
step (Insn.movl_mecx_edx k) sh = some sh
step (Insn.btl_imm_mecx v k) sh = some sh
step (Insn.movl_meax_eax k) sh = some sh
step (Insn.movl_medx_edx k) sh = some sh
step Insn.getsec sh = some sh
step (Insn.movl_mecx_ecx k) sh = some (record sh { ecx = Ty.any })
step (Insn.movl_mebx_ebx k) sh = some (record sh { ebx = Ty.any })
step Insn.movl_eax_ecx sh = some (record sh { ecx = Ty.any })
step Insn.movl_edx_ecx sh = some (record sh { ecx = Ty.any })
step Insn.addl_eax_ecx sh = some (record sh { ecx = Ty.any })
step (Insn.addl_imm_ecx k) sh = some (record sh { ecx = Ty.any })
step (Insn.andl_imm_ecx k) sh = some (record sh { ecx = Ty.any })
step (Insn.shl_imm_ecx k) sh = some (record sh { ecx = Ty.any })
step Insn.cpuid sh = some (record sh { ebx = Ty.any; ecx = Ty.any })
step (Insn.movl_mesp_ebx k) sh = some (record sh { ebx = slot sh k })
step (Insn.movl_mesp_esi k) sh = some (record sh { esi = slot sh k })
step (Insn.movl_mesp_edi k) sh = some (record sh { edi = slot sh k })
step (Insn.movl_mesp_ecx k) sh = some (record sh { ecx = slot sh k })
step Insn.pushl_ebx sh = push sh.ebx sh
step Insn.pushl_esi sh = push sh.esi sh
step Insn.pushl_edi sh = push sh.edi sh
step Insn.pushl_eax sh = push Ty.any sh
step Insn.pushfl sh = push Ty.any sh
step (Insn.pushl_mesp k) sh = push Ty.any sh
step Insn.popl_ebx sh = pop into_ebx sh
step Insn.popl_esi sh = pop into_esi sh
step Insn.popl_edi sh = pop into_edi sh
step Insn.popl_eax sh = pop drop sh
step Insn.popl_edx sh = pop drop sh
step Insn.popfl sh = pop drop sh
step (Insn.subl_imm_esp k) sh = reserve k sh
step (Insn.addl_imm_esp k) sh = release k sh
step (Insn.movl_eax_mesp k) sh = overwrite k sh
step (Insn.movl_imm_mesp v k) sh = overwrite k sh
step (Insn.sgdt_mesp zero) sh = overwrite_two sh
step (Insn.sidt_mesp zero) sh = overwrite_two sh
step (Insn.movl_ebx_mesi k) sh = through sh.esi k sh
step (Insn.movl_ecx_mesi k) sh = through sh.esi k sh
step (Insn.btrl_imm_mecx v k) sh = through sh.ecx k sh
step (Insn.btsl_imm_mecx v k) sh = through sh.ecx k sh
step _ sh = none

-- The shape after straight-line code.
unfoldable pub check : List Insn → Shape → Option Shape
check [] sh = some sh
check (i ∷ is) sh = elim (step i sh) [ none ↦ none | some sh' ↦ check is sh' ]
