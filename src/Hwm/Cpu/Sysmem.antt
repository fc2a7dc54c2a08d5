-- ===== src/Hwm/Cpu/Sysmem.antt =====
-- src/hwm/xmhfhwm_cpu.c: the moves to and from system memory through esi, and the string copies.
use uberspark.Base.{
  ℕ, u32, bit_and, has, if◌then◌else◌, ◌+◌, Bool, true, false, ◌&&◌, leb, List, [], ◌∷◌,
}
use uberspark.Hwm.Sysmem.{sysmemread, sysmemwrite, sysmemcopy, SysmemCopy}
use uberspark.Hwm.Obj.{memcpy_within}
use uberspark.Hwm.Cpu.{Cpu, PhysmemExtent, eflags_df}

abbrev pub movl_mesi_eax : ℕ → Cpu → Cpu
movl_mesi_eax index s =
    let r = sysmemread s.machine (u32 (s.esi + index)) in record s { eax = u32 r.0; machine = r.1 }

abbrev pub movl_mesi_edx : ℕ → Cpu → Cpu
movl_mesi_edx index s =
    let r = sysmemread s.machine (u32 (s.esi + index)) in record s { edx = u32 r.0; machine = r.1 }

abbrev pub movl_eax_mesi : ℕ → Cpu → Cpu
movl_eax_mesi index s = record s { machine = sysmemwrite s.machine (u32 (s.esi + index)) s.eax }

abbrev pub movl_edx_mesi : ℕ → Cpu → Cpu
movl_edx_mesi index s = record s { machine = sysmemwrite s.machine (u32 (s.esi + index)) s.edx }

abbrev pub movb_al_mesi : ℕ → Cpu → Cpu
movb_al_mesi index s = record s {
  machine = sysmemwrite s.machine (u32 (s.esi + index)) (bit_and s.eax 0x000000FF);
}

abbrev pub movw_ax_mesi : ℕ → Cpu → Cpu
movw_ax_mesi index s = record s {
  machine = sysmemwrite s.machine (u32 (s.esi + index)) (bit_and s.eax 0x0000FFFF);
}

-- `xmhfhwm_sysmemaccess_checkextents`: does some extent hold the range? The end is a uint32_t. The source
-- asserts the result; where that fails, the code goes on with the result false.
unfoldable pub checkextents : List PhysmemExtent → ℕ → ℕ → Bool
checkextents [] addr size = false
checkextents (e ∷ es) addr size =
    if leb e.addr_start addr && leb (u32 (addr + size)) e.addr_end
    then true
    else checkextents es addr size

-- A copy onto system memory is left unspecified by the source; the object keeps its bytes.
abbrev pub rep_movsb : Cpu → Cpu
rep_movsb s =
    if has s.eflags eflags_df
    then s
    else let o =
        if checkextents s.extents s.edi s.ecx
        then s.machine.obj
        else memcpy_within s.ecx s.machine.obj s.edi s.esi in
      record s {
        machine = record s.machine { obj = o };
        edi = u32 (s.edi + s.ecx);
        esi = u32 (s.esi + s.ecx);
      }

abbrev pub rep_movsb_sysmem : SysmemCopy → Cpu → Cpu
rep_movsb_sysmem t s = if has s.eflags eflags_df then s else record s {
  machine = sysmemcopy t s.machine s.edi s.esi s.ecx;
  edi = u32 (s.edi + s.ecx);
  esi = u32 (s.esi + s.ecx);
}
