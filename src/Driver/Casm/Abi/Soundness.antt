-- ===== src/Driver/Casm/Abi/Soundness.antt =====
-- The typing is sound: an instruction that has a rule takes a state of one shape to a state of the next.
use uberspark.Base.{
  ℕ, zero, ◌+◌, ◌^◌, ◌≤◌, ◌<◌, ◌≡◌, arith, u32, bit_and, refl, ◌⊎◌, subst, Option-cases, inl, inr,
  Bool-cases, has, ◌<<◌, clear, bit_or, ◌==◌, none, some, List, [], ◌∷◌,
}
use uberspark.Hwm.Obj.{Memory, store16, store32}
use uberspark.Hwm.Cpu.{Cpu, load}
use uberspark.Hwm.Cpu.Insn.{Insn, exec, run}
use uberspark.Hwm.Cpu.Ranges.{exec-InRange}
use uberspark.Driver.Casm.Frame.{some-eq, read-obj, write-obj}
use uberspark.Driver.Casm.Abi.{Ty, Shape, slot, step, check}
use uberspark.Driver.Casm.Abi.Slots.{Entry}
use uberspark.Driver.Casm.Abi.Rules.{
  Holds, HoldsAfter, push-Fits, overwrite-Fits, through-Fits, reserve-Fits, release-Fits, two-Fits,
  unchanged-Fits,
}
use uberspark.Driver.Casm.Abi.Registers.{
  slot-Has, pop-Fits, pop_ebx-Fits, pop_esi-Fits, pop_edi-Fits, into_ebx-Fits, into_esi-Fits,
  into_edi-Fits, into_ecx-Fits, forget-Fits,
}

-- What sgdt and sidt store at the stack pointer is within two words.
table-bytes :
    (m : Memory) (p q limit base a : ℕ)
    → (q ≡ p + 2) ⊎ (q ≡ p + 4)
    → (a < p) ⊎ (p + 8 ≤ a)
    → p + 8 ≤ 2 ^ 32
    → store32 (store16 m (u32 (p + 0)) limit) (u32 q) base a ≡ m a
unfolding store16 store32
table-bytes m p q limit base a at l g = ground arith

exec-Holds :
    (f : Entry) (i : Insn) (sh : Shape) (s : Cpu)
    → Holds f sh s
    → HoldsAfter f (step i sh) (exec i s)
unfolding step exec
exec-Holds f Insn.xorl_eax_eax sh s h = (exec-InRange Insn.xorl_eax_eax s h.0, h.1)
exec-Holds f Insn.xorl_edx_edx sh s h = (exec-InRange Insn.xorl_edx_edx s h.0, h.1)
exec-Holds f Insn.inb_dx_al sh s h = (exec-InRange Insn.inb_dx_al s h.0, h.1)
exec-Holds f Insn.inl_dx_eax sh s h = (exec-InRange Insn.inl_dx_eax s h.0, h.1)
exec-Holds f Insn.inw_dx_ax sh s h = (exec-InRange Insn.inw_dx_ax s h.0, h.1)
exec-Holds f Insn.outb_al_dx sh s h = (exec-InRange Insn.outb_al_dx s h.0, h.1)
exec-Holds f Insn.outl_eax_dx sh s h = (exec-InRange Insn.outl_eax_dx s h.0, ground (arith, h.1))
exec-Holds f Insn.outw_ax_dx sh s h = (exec-InRange Insn.outw_ax_dx s h.0, h.1)
exec-Holds f Insn.wrmsr sh s h = (exec-InRange Insn.wrmsr s h.0, ground (arith, h.1))
exec-Holds f Insn.rdmsr sh s h = (exec-InRange Insn.rdmsr s h.0, ground (arith, h.1))
exec-Holds f Insn.rdtsc sh s h = (exec-InRange Insn.rdtsc s h.0, h.1)
exec-Holds f Insn.xgetbv sh s h = (exec-InRange Insn.xgetbv s h.0, ground (arith, h.1))
exec-Holds f Insn.xsetbv sh s h = (exec-InRange Insn.xsetbv s h.0, ground (arith, h.1))
exec-Holds f Insn.hlt sh s h = (exec-InRange Insn.hlt s h.0, h.1)
exec-Holds f Insn.cli sh s h = (exec-InRange Insn.cli s h.0, h.1)
exec-Holds f Insn.sti sh s h = (exec-InRange Insn.sti s h.0, h.1)
exec-Holds f Insn.cld sh s h = (exec-InRange Insn.cld s h.0, h.1)
exec-Holds f Insn.str_ax sh s h = (exec-InRange Insn.str_ax s h.0, h.1)
exec-Holds f Insn.ltr_ax sh s h = (exec-InRange Insn.ltr_ax s h.0, h.1)
exec-Holds f Insn.pause sh s h = (exec-InRange Insn.pause s h.0, h.1)
exec-Holds f Insn.lock sh s h = (exec-InRange Insn.lock s h.0, h.1)
exec-Holds f Insn.movl_cr0_eax sh s h = (exec-InRange Insn.movl_cr0_eax s h.0, h.1)
exec-Holds f Insn.movl_cr2_eax sh s h = (exec-InRange Insn.movl_cr2_eax s h.0, h.1)
exec-Holds f Insn.movl_cr3_eax sh s h = (exec-InRange Insn.movl_cr3_eax s h.0, h.1)
exec-Holds f Insn.movl_cr4_eax sh s h = (exec-InRange Insn.movl_cr4_eax s h.0, h.1)
exec-Holds f Insn.movl_cs_eax sh s h = (exec-InRange Insn.movl_cs_eax s h.0, h.1)
exec-Holds f Insn.movl_ds_eax sh s h = (exec-InRange Insn.movl_ds_eax s h.0, h.1)
exec-Holds f Insn.movl_es_eax sh s h = (exec-InRange Insn.movl_es_eax s h.0, h.1)
exec-Holds f Insn.movl_fs_eax sh s h = (exec-InRange Insn.movl_fs_eax s h.0, h.1)
exec-Holds f Insn.movl_gs_eax sh s h = (exec-InRange Insn.movl_gs_eax s h.0, h.1)
exec-Holds f Insn.movl_ss_eax sh s h = (exec-InRange Insn.movl_ss_eax s h.0, h.1)
exec-Holds f Insn.vmwrite_eax_ecx sh s h =
    (exec-InRange Insn.vmwrite_eax_ecx s h.0, ground (arith, h.1))
exec-Holds f Insn.vmread_ecx_eax sh s h =
    (exec-InRange Insn.vmread_ecx_eax s h.0, ground (arith, h.1))
exec-Holds f Insn.wbinvd sh s h = (exec-InRange Insn.wbinvd s h.0, h.1)
exec-Holds f Insn.movl_eax_cr0 sh s h = (exec-InRange Insn.movl_eax_cr0 s h.0, h.1)
exec-Holds f Insn.movl_eax_cr3 sh s h = (exec-InRange Insn.movl_eax_cr3 s h.0, h.1)
exec-Holds f Insn.movl_eax_cr4 sh s h = (exec-InRange Insn.movl_eax_cr4 s h.0, h.1)
exec-Holds f Insn.movw_ax_ds sh s h = (exec-InRange Insn.movw_ax_ds s h.0, h.1)
exec-Holds f Insn.movw_ds_ax sh s h = (exec-InRange Insn.movw_ds_ax s h.0, h.1)
exec-Holds f Insn.movw_ax_es sh s h = (exec-InRange Insn.movw_ax_es s h.0, h.1)
exec-Holds f Insn.movw_ax_fs sh s h = (exec-InRange Insn.movw_ax_fs s h.0, h.1)
exec-Holds f Insn.movw_ax_gs sh s h = (exec-InRange Insn.movw_ax_gs s h.0, h.1)
exec-Holds f Insn.movw_ax_ss sh s h = (exec-InRange Insn.movw_ax_ss s h.0, h.1)
exec-Holds f Insn.movl_esp_eax sh s h = (exec-InRange Insn.movl_esp_eax s h.0, h.1)
exec-Holds f Insn.orl_ecx_eax sh s h = (exec-InRange Insn.orl_ecx_eax s h.0, h.1)
exec-Holds f Insn.orl_edx_eax sh s h = (exec-InRange Insn.orl_edx_eax s h.0, h.1)
exec-Holds f (Insn.movl_mesp_eax k) sh s h = (exec-InRange (Insn.movl_mesp_eax k) s h.0, h.1)
exec-Holds f (Insn.movl_mesp_edx k) sh s h = (exec-InRange (Insn.movl_mesp_edx k) s h.0, h.1)
exec-Holds f (Insn.movl_imm_eax k) sh s h = (exec-InRange (Insn.movl_imm_eax k) s h.0, h.1)
exec-Holds f (Insn.movl_imm_edx k) sh s h = (exec-InRange (Insn.movl_imm_edx k) s h.0, h.1)
exec-Holds f (Insn.invept_mesp_edx k) sh s h = (exec-InRange (Insn.invept_mesp_edx k) s h.0, h.1)
exec-Holds f (Insn.invvpid_mesp_edx k) sh s h = (exec-InRange (Insn.invvpid_mesp_edx k) s h.0, h.1)
exec-Holds f (Insn.invvpid_mesp_ecx k) sh s h = (exec-InRange (Insn.invvpid_mesp_ecx k) s h.0, h.1)
exec-Holds f (Insn.lgdt_mecx k) sh s h = (exec-InRange (Insn.lgdt_mecx k) s h.0, h.1)
exec-Holds f (Insn.lidt_mecx k) sh s h = (exec-InRange (Insn.lidt_mecx k) s h.0, h.1)
exec-Holds f (Insn.vmxon_mesp k) sh s h =
    (exec-InRange (Insn.vmxon_mesp k) s h.0, ground (arith, h.1))
exec-Holds f (Insn.vmclear_mesp k) sh s h =
    (exec-InRange (Insn.vmclear_mesp k) s h.0, ground (arith, h.1))
exec-Holds f (Insn.vmptrld_mesp k) sh s h =
    (exec-InRange (Insn.vmptrld_mesp k) s h.0, ground (arith, h.1))
exec-Holds f (Insn.movl_mesi_eax k) sh s h =
    (exec-InRange (Insn.movl_mesi_eax k) s h.0, rw (read-obj s.machine (u32 (s.esi + k))) (h.1))
exec-Holds f (Insn.movl_mesi_edx k) sh s h =
    (exec-InRange (Insn.movl_mesi_edx k) s h.0, rw (read-obj s.machine (u32 (s.esi + k))) (h.1))
exec-Holds f (Insn.movl_eax_mesi k) sh s h = (
  exec-InRange (Insn.movl_eax_mesi k) s h.0,
  rw (write-obj s.machine (u32 (s.esi + k)) s.eax) (h.1),
)
exec-Holds f (Insn.movl_edx_mesi k) sh s h = (
  exec-InRange (Insn.movl_edx_mesi k) s h.0,
  rw (write-obj s.machine (u32 (s.esi + k)) s.edx) (h.1),
)
exec-Holds f (Insn.movb_al_mesi k) sh s h = (
  exec-InRange (Insn.movb_al_mesi k) s h.0,
  rw (write-obj s.machine (u32 (s.esi + k)) (bit_and s.eax 0x000000FF)) (h.1),
)
exec-Holds f (Insn.movw_ax_mesi k) sh s h = (
  exec-InRange (Insn.movw_ax_mesi k) s h.0,
  rw (write-obj s.machine (u32 (s.esi + k)) (bit_and s.eax 0x0000FFFF)) (h.1),
)
exec-Holds f (Insn.andl_imm_eax k) sh s h = (exec-InRange (Insn.andl_imm_eax k) s h.0, h.1)
exec-Holds f (Insn.andl_imm_edx k) sh s h = (exec-InRange (Insn.andl_imm_edx k) s h.0, h.1)
exec-Holds f (Insn.orl_imm_eax k) sh s h = (exec-InRange (Insn.orl_imm_eax k) s h.0, h.1)
exec-Holds f (Insn.shr_imm_eax k) sh s h = (exec-InRange (Insn.shr_imm_eax k) s h.0, h.1)
exec-Holds f (Insn.movl_mecx_eax k) sh s h = (exec-InRange (Insn.movl_mecx_eax k) s h.0, h.1)
exec-Holds f (Insn.movl_mecx_edx k) sh s h = (exec-InRange (Insn.movl_mecx_edx k) s h.0, h.1)
exec-Holds f (Insn.btl_imm_mecx v k) sh s h =
    (exec-InRange (Insn.btl_imm_mecx v k) s h.0, ground (arith, h.1))
exec-Holds f (Insn.movl_meax_eax k) sh s h = (exec-InRange (Insn.movl_meax_eax k) s h.0, h.1)
exec-Holds f (Insn.movl_medx_edx k) sh s h = (exec-InRange (Insn.movl_medx_edx k) s h.0, h.1)
exec-Holds f Insn.getsec sh s h = (exec-InRange Insn.getsec s h.0, ground (arith, h.1))
exec-Holds f (Insn.movl_mecx_ecx k) sh s h =
    (exec-InRange (Insn.movl_mecx_ecx k) s h.0, into_ecx-Fits h.1 Ty.any _ tt)
exec-Holds f (Insn.movl_mebx_ebx k) sh s h =
    (exec-InRange (Insn.movl_mebx_ebx k) s h.0, into_ebx-Fits h.1 Ty.any _ tt)
exec-Holds f Insn.movl_eax_ecx sh s h =
    (exec-InRange Insn.movl_eax_ecx s h.0, into_ecx-Fits h.1 Ty.any _ tt)
exec-Holds f Insn.movl_edx_ecx sh s h =
    (exec-InRange Insn.movl_edx_ecx s h.0, into_ecx-Fits h.1 Ty.any _ tt)
exec-Holds f Insn.addl_eax_ecx sh s h =
    (exec-InRange Insn.addl_eax_ecx s h.0, into_ecx-Fits h.1 Ty.any _ tt)
exec-Holds f (Insn.addl_imm_ecx k) sh s h =
    (exec-InRange (Insn.addl_imm_ecx k) s h.0, into_ecx-Fits h.1 Ty.any _ tt)
exec-Holds f (Insn.andl_imm_ecx k) sh s h =
    (exec-InRange (Insn.andl_imm_ecx k) s h.0, into_ecx-Fits h.1 Ty.any _ tt)
exec-Holds f (Insn.shl_imm_ecx k) sh s h =
    (exec-InRange (Insn.shl_imm_ecx k) s h.0, into_ecx-Fits h.1 Ty.any _ tt)
exec-Holds f Insn.cpuid sh s h = (
  exec-InRange Insn.cpuid s h.0,
  elim (Bool-cases (s.eax == 0)) [
    | inl e ↦ rw (e) (forget-Fits h.1 _ _)
    | inr e ↦ elim (Bool-cases (s.eax == 1)) [
      | inl g ↦ rw (e, g) (forget-Fits h.1 s.ebx _)
      | inr g ↦ rw (e, g) (forget-Fits h.1 _ s.ecx)
    ]
  ],
)
exec-Holds f (Insn.movl_mesp_ebx k) sh s h =
    (exec-InRange (Insn.movl_mesp_ebx k) s h.0, into_ebx-Fits h.1 (slot sh k) _ (slot-Has h.1 k))
exec-Holds f (Insn.movl_mesp_esi k) sh s h =
    (exec-InRange (Insn.movl_mesp_esi k) s h.0, into_esi-Fits h.1 (slot sh k) _ (slot-Has h.1 k))
exec-Holds f (Insn.movl_mesp_edi k) sh s h =
    (exec-InRange (Insn.movl_mesp_edi k) s h.0, into_edi-Fits h.1 (slot sh k) _ (slot-Has h.1 k))
exec-Holds f (Insn.movl_mesp_ecx k) sh s h =
    (exec-InRange (Insn.movl_mesp_ecx k) s h.0, into_ecx-Fits h.1 (slot sh k) _ (slot-Has h.1 k))
exec-Holds f Insn.pushl_ebx sh s h = (
  exec-InRange Insn.pushl_ebx s h.0,
  push-Fits h.1 sh.ebx s.ebx sh.room refl h.0.ebx_u32 h.1.ebx_fits,
)
exec-Holds f Insn.pushl_esi sh s h = (
  exec-InRange Insn.pushl_esi s h.0,
  push-Fits h.1 sh.esi s.esi sh.room refl h.0.esi_u32 h.1.esi_fits,
)
exec-Holds f Insn.pushl_edi sh s h = (
  exec-InRange Insn.pushl_edi s h.0,
  push-Fits h.1 sh.edi s.edi sh.room refl h.0.edi_u32 h.1.edi_fits,
)
exec-Holds f Insn.pushl_eax sh s h =
    (exec-InRange Insn.pushl_eax s h.0, push-Fits h.1 Ty.any s.eax sh.room refl h.0.eax_u32 tt)
exec-Holds f Insn.pushfl sh s h =
    (exec-InRange Insn.pushfl s h.0, push-Fits h.1 Ty.any s.eflags sh.room refl h.0.eflags_u32 tt)
exec-Holds f (Insn.pushl_mesp k) sh s h = (
  exec-InRange (Insn.pushl_mesp k) s h.0,
  push-Fits h.1 Ty.any (load s (u32 (s.esp + k))) sh.room refl (omega arith) tt,
)
exec-Holds f Insn.popl_ebx sh s h =
    (exec-InRange Insn.popl_ebx s h.0, pop_ebx-Fits h.1 sh.slots refl)
exec-Holds f Insn.popl_esi sh s h =
    (exec-InRange Insn.popl_esi s h.0, pop_esi-Fits h.1 sh.slots refl)
exec-Holds f Insn.popl_edi sh s h =
    (exec-InRange Insn.popl_edi s h.0, pop_edi-Fits h.1 sh.slots refl)
exec-Holds f Insn.popl_eax sh s h = (exec-InRange Insn.popl_eax s h.0, pop-Fits h.1 sh.slots refl)
exec-Holds f Insn.popl_edx sh s h = (exec-InRange Insn.popl_edx s h.0, pop-Fits h.1 sh.slots refl)
exec-Holds f Insn.popfl sh s h = (exec-InRange Insn.popfl s h.0, pop-Fits h.1 sh.slots refl)
exec-Holds f (Insn.subl_imm_esp k) sh s h =
    (exec-InRange (Insn.subl_imm_esp k) s h.0, reserve-Fits h.1 k)
exec-Holds f (Insn.addl_imm_esp k) sh s h =
    (exec-InRange (Insn.addl_imm_esp k) s h.0, release-Fits h.1 k)
exec-Holds f (Insn.movl_eax_mesp k) sh s h =
    (exec-InRange (Insn.movl_eax_mesp k) s h.0, overwrite-Fits h.1 k s.eax)
exec-Holds f (Insn.movl_imm_mesp v k) sh s h =
    (exec-InRange (Insn.movl_imm_mesp v k) s h.0, overwrite-Fits h.1 k v)
exec-Holds f (Insn.sgdt_mesp zero) sh s h = (
  exec-InRange (Insn.sgdt_mesp zero) s h.0,
  two-Fits h.1 _ sh.slots refl (λ a l g.
      table-bytes s.machine.obj s.esp (s.esp + 0 + 2) s.gdtr_limit s.gdtr_base a (inl (omega arith))
        l g),
)
exec-Holds f (Insn.sidt_mesp zero) sh s h = (
  exec-InRange (Insn.sidt_mesp zero) s h.0,
  two-Fits h.1 _ sh.slots refl (λ a l g.
      table-bytes s.machine.obj s.esp (s.esp + 0 + 4) s.idtr_limit s.idtr_base a (inr (omega arith))
        l g),
)
exec-Holds f (Insn.movl_ebx_mesi k) sh s h =
    (exec-InRange (Insn.movl_ebx_mesi k) s h.0, through-Fits h.1 sh.esi k s.esi s.ebx h.1.esi_fits)
exec-Holds f (Insn.movl_ecx_mesi k) sh s h =
    (exec-InRange (Insn.movl_ecx_mesi k) s h.0, through-Fits h.1 sh.esi k s.esi s.ecx h.1.esi_fits)
exec-Holds f (Insn.btrl_imm_mecx v k) sh s h = (
  exec-InRange (Insn.btrl_imm_mecx v k) s h.0,
  elim (Bool-cases (has (load s (u32 (s.ecx + k))) (1 << v))) [
    | inl e ↦
        rw (e)
          (through-Fits h.1 sh.ecx k s.ecx (clear (load s (u32 (s.ecx + k))) (1 << v)) h.1.ecx_fits)
    | inr e ↦ rw (e) (unchanged-Fits h.1 sh.ecx k)
  ],
)
exec-Holds f (Insn.btsl_imm_mecx v k) sh s h = (
  exec-InRange (Insn.btsl_imm_mecx v k) s h.0,
  elim (Bool-cases (has (load s (u32 (s.ecx + k))) (1 << v))) [
    | inl e ↦ rw (e) (unchanged-Fits h.1 sh.ecx k)
    | inr e ↦
        rw (e) (
          through-Fits h.1 sh.ecx k s.ecx (bit_or (load s (u32 (s.ecx + k))) (1 << v)) h.1.ecx_fits)
  ],
)
exec-Holds f i sh s h = (exec-InRange i s h.0, tt)

-- Straight-line code that has a shape after it leaves a state of that shape: if the state before has the
-- shape that the check starts from, then every register that the shape names and every word of the
-- stack holds what the shape says when the code has run.
pub check-Holds :
    (f : Entry) (is : List Insn) (sh sh' : Shape) (s : Cpu)
    → check is sh ≡ some sh'
    → Holds f sh s
    → Holds f sh' (run is s)
unfolding check run
check-Holds f [] sh sh' s e h = subst (λ t. Holds f t s) (some-eq e) h
check-Holds f (i ∷ is) sh sh' s e h = elim (Option-cases (step i sh)) [
  | inl g ↦ let none_eq : none ≡ some sh' = rw (check, g) at e in cc
  | inr (t, g) ↦
      check-Holds f is t sh' (exec i s) (rw (check, g) at e)
        (subst (λ o. HoldsAfter f o (exec i s)) g (exec-Holds f i sh s h))
]
