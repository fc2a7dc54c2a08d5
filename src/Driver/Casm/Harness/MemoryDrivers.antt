-- ===== src/Driver/Casm/Harness/MemoryDrivers.antt =====
-- The harness: the drivers of the functions on system memory, descriptor tables and cpuid, each of which conforms.
use uberspark.Base.{◌⨾◌, ℕ, ◌⊎◌, ◌+◌, ◌^◌, ◌≤◌, ◌<◌, refl, arith, [], ◌∷◌, u8, u16}
use uberspark.Driver.Casm.Abi.{Ty, check, step}
use uberspark.Driver.Casm.Abi.Convention.{obeys}
use uberspark.Driver.Casm.Abi.Slots.{IsAway}
use uberspark.Driver.Casm.Harness.Laws.{Conforms, frame}
use uberspark.Driver.Casm.Harness.Drivers
use uberspark.Driver.Casm.Msr.{cpu_cpuid, cpu_cpuid_insns, cpu_getsec, cpu_getsec_insns}
use uberspark.Driver.Casm.Sysmem.{
  sysmemaccess_readu16, sysmemaccess_readu16_insns, sysmemaccess_readu32,
  sysmemaccess_readu32_insns, sysmemaccess_readu64, sysmemaccess_readu64_insns, sysmemaccess_readu8,
  sysmemaccess_readu8_insns, sysmemaccess_writeu16, sysmemaccess_writeu16_insns,
  sysmemaccess_writeu32, sysmemaccess_writeu32_insns, sysmemaccess_writeu64,
  sysmemaccess_writeu64_insns, sysmemaccess_writeu8, sysmemaccess_writeu8_insns,
}
use uberspark.Driver.Casm.Tables.{
  cpu_load_gdt, cpu_load_gdt_insns, cpu_load_idt, cpu_load_idt_insns, cpu_load_tr,
  cpu_load_tr_insns, getgdtbase, getgdtbase_insns, getidtbase, getidtbase_insns, gettssbase,
  gettssbase_insns,
}
use uberspark.Driver.Casm.Harness.Calling.{calling-Conforms}

-- The stack of the harness from lo up, with room for a call.
module _ (watched lo top : ℕ) (out : (watched < lo) ⊎ (top ≤ watched)) (space : lo + 64 ≤ top) where
  pub drv_cpuid-Conforms :
      (op : ℕ) (eax : ℕ) (ebx : ℕ) (ecx : ℕ) (edx : ℕ)
      → op < 2 ^ 32
      → IsAway (frame watched 0 lo top) eax
      → IsAway (frame watched 0 lo top) ebx
      → IsAway (frame watched 0 lo top) ecx
      → IsAway (frame watched 0 lo top) edx
      → Conforms watched top (Drivers.drv_cpuid op eax ebx ecx edx)
  unfolding obeys check step cpu_cpuid
  drv_cpuid-Conforms op eax ebx ecx edx h1 h2 h3 h4 h5 =
      calling-Conforms watched lo top (op ∷ eax ∷ ebx ∷ ecx ∷ edx ∷ [])
        (Ty.any ∷ Ty.away ∷ Ty.away ∷ Ty.away ∷ Ty.away ∷ []) cpu_cpuid cpu_cpuid_insns out space
        (omega arith) refl
        (λ byte. (
          h1,
          (
            tt,
            (
              omega (arith, h2.1.0),
              (
                h2,
                (
                  omega (arith, h3.1.0),
                  (h3, (omega (arith, h4.1.0), (h4, (omega (arith, h5.1.0), (h5, tt))))),
                ),
              ),
            ),
          ),
        ))
        refl (λ s. refl)

  pub drv_getgdtbase-Conforms : Conforms watched top (Drivers.drv_getgdtbase)
  unfolding obeys check step getgdtbase
  drv_getgdtbase-Conforms =
      calling-Conforms watched lo top (0 ∷ []) (Ty.any ∷ []) (λ s. (getgdtbase s).1)
        getgdtbase_insns out space (omega arith) refl (λ byte. (omega arith, (tt, tt))) refl
        (λ s. refl)

  pub drv_getidtbase-Conforms : Conforms watched top (Drivers.drv_getidtbase)
  unfolding obeys check step getidtbase
  drv_getidtbase-Conforms =
      calling-Conforms watched lo top (0 ∷ []) (Ty.any ∷ []) (λ s. (getidtbase s).1)
        getidtbase_insns out space (omega arith) refl (λ byte. (omega arith, (tt, tt))) refl
        (λ s. refl)

  pub drv_getsec-Conforms :
      (eax : ℕ) (ebx : ℕ) (ecx : ℕ) (edx : ℕ)
      → IsAway (frame watched 0 lo top) eax
      → IsAway (frame watched 0 lo top) ebx
      → IsAway (frame watched 0 lo top) ecx
      → IsAway (frame watched 0 lo top) edx
      → Conforms watched top (Drivers.drv_getsec eax ebx ecx edx)
  unfolding obeys check step cpu_getsec
  drv_getsec-Conforms eax ebx ecx edx h1 h2 h3 h4 =
      calling-Conforms watched lo top (eax ∷ ebx ∷ ecx ∷ edx ∷ [])
        (Ty.away ∷ Ty.away ∷ Ty.away ∷ Ty.away ∷ []) cpu_getsec cpu_getsec_insns out space
        (omega arith) refl
        (λ byte. (
          omega (arith, h1.1.0),
          (
            h1,
            (
              omega (arith, h2.1.0),
              (h2, (omega (arith, h3.1.0), (h3, (omega (arith, h4.1.0), (h4, tt))))),
            ),
          ),
        ))
        refl (λ s. refl)

  pub drv_gettssbase-Conforms : Conforms watched top (Drivers.drv_gettssbase)
  unfolding obeys check step gettssbase
  drv_gettssbase-Conforms =
      calling-Conforms watched lo top (0 ∷ []) (Ty.any ∷ []) (λ s. (gettssbase s).1)
        gettssbase_insns out space (omega arith) refl (λ byte. (omega arith, (tt, tt))) refl
        (λ s. refl)

  pub drv_loadgdt-Conforms :
      (gdtdesc : ℕ) → gdtdesc < 2 ^ 32 → Conforms watched top (Drivers.drv_loadgdt gdtdesc)
  unfolding obeys check step cpu_load_gdt
  drv_loadgdt-Conforms gdtdesc h1 =
      calling-Conforms watched lo top (gdtdesc ∷ []) (Ty.any ∷ []) cpu_load_gdt cpu_load_gdt_insns
        out space (omega arith) refl (λ byte. h1 ⨾ tt ⨾ tt) refl (λ s. refl)

  pub drv_loadidt-Conforms :
      (idtdesc : ℕ) → idtdesc < 2 ^ 32 → Conforms watched top (Drivers.drv_loadidt idtdesc)
  unfolding obeys check step cpu_load_idt
  drv_loadidt-Conforms idtdesc h1 =
      calling-Conforms watched lo top (idtdesc ∷ []) (Ty.any ∷ []) cpu_load_idt cpu_load_idt_insns
        out space (omega arith) refl (λ byte. h1 ⨾ tt ⨾ tt) refl (λ s. refl)

  pub drv_loadtr-Conforms : Conforms watched top (Drivers.drv_loadtr)
  unfolding obeys check step cpu_load_tr
  drv_loadtr-Conforms =
      calling-Conforms watched lo top (0 ∷ []) (Ty.any ∷ []) cpu_load_tr cpu_load_tr_insns out space
        (omega arith) refl (λ byte. (omega arith) ⨾ tt ⨾ tt) refl (λ s. refl)

  pub drv_sysmemaccess_readu8-Conforms :
      (sysmem_dst : ℕ)
      → sysmem_dst < 2 ^ 32
      → Conforms watched top (Drivers.drv_sysmemaccess_readu8 sysmem_dst)
  unfolding obeys check step sysmemaccess_readu8
  drv_sysmemaccess_readu8-Conforms sysmem_dst h1 =
      calling-Conforms watched lo top (sysmem_dst ∷ []) (Ty.any ∷ [])
        (λ s. (sysmemaccess_readu8 s).1) sysmemaccess_readu8_insns out space (omega arith) refl
        (λ byte. h1 ⨾ tt ⨾ tt) refl (λ s. refl)

  pub drv_sysmemaccess_readu16-Conforms :
      (sysmem_dst : ℕ)
      → sysmem_dst < 2 ^ 32
      → Conforms watched top (Drivers.drv_sysmemaccess_readu16 sysmem_dst)
  unfolding obeys check step sysmemaccess_readu16
  drv_sysmemaccess_readu16-Conforms sysmem_dst h1 =
      calling-Conforms watched lo top (sysmem_dst ∷ []) (Ty.any ∷ [])
        (λ s. (sysmemaccess_readu16 s).1) sysmemaccess_readu16_insns out space (omega arith) refl
        (λ byte. h1 ⨾ tt ⨾ tt) refl (λ s. refl)

  pub drv_sysmemaccess_readu32-Conforms :
      (sysmem_dst : ℕ)
      → sysmem_dst < 2 ^ 32
      → Conforms watched top (Drivers.drv_sysmemaccess_readu32 sysmem_dst)
  unfolding obeys check step sysmemaccess_readu32
  drv_sysmemaccess_readu32-Conforms sysmem_dst h1 =
      calling-Conforms watched lo top (sysmem_dst ∷ []) (Ty.any ∷ [])
        (λ s. (sysmemaccess_readu32 s).1) sysmemaccess_readu32_insns out space (omega arith) refl
        (λ byte. h1 ⨾ tt ⨾ tt) refl (λ s. refl)

  pub drv_sysmemaccess_readu64-Conforms :
      (sysmem_dst : ℕ)
      → sysmem_dst < 2 ^ 32
      → Conforms watched top (Drivers.drv_sysmemaccess_readu64 sysmem_dst)
  unfolding obeys check step sysmemaccess_readu64
  drv_sysmemaccess_readu64-Conforms sysmem_dst h1 =
      calling-Conforms watched lo top (sysmem_dst ∷ []) (Ty.any ∷ [])
        (λ s. (sysmemaccess_readu64 s).1) sysmemaccess_readu64_insns out space (omega arith) refl
        (λ byte. h1 ⨾ tt ⨾ tt) refl (λ s. refl)

  pub drv_sysmemaccess_writeu8-Conforms :
      (sysmem_dst : ℕ) (n : ℕ)
      → sysmem_dst < 2 ^ 32
      → Conforms watched top (Drivers.drv_sysmemaccess_writeu8 sysmem_dst n)
  unfolding obeys check step sysmemaccess_writeu8
  drv_sysmemaccess_writeu8-Conforms sysmem_dst n h1 =
      calling-Conforms watched lo top (sysmem_dst ∷ (u8 n) ∷ []) (Ty.any ∷ Ty.any ∷ [])
        sysmemaccess_writeu8 sysmemaccess_writeu8_insns out space (omega arith) refl
        (λ byte. h1 ⨾ tt ⨾ (omega arith) ⨾ tt ⨾ tt) refl (λ s. refl)

  pub drv_sysmemaccess_writeu16-Conforms :
      (sysmem_dst : ℕ) (n : ℕ)
      → sysmem_dst < 2 ^ 32
      → Conforms watched top (Drivers.drv_sysmemaccess_writeu16 sysmem_dst n)
  unfolding obeys check step sysmemaccess_writeu16
  drv_sysmemaccess_writeu16-Conforms sysmem_dst n h1 =
      calling-Conforms watched lo top (sysmem_dst ∷ (u16 n) ∷ []) (Ty.any ∷ Ty.any ∷ [])
        sysmemaccess_writeu16 sysmemaccess_writeu16_insns out space (omega arith) refl
        (λ byte. h1 ⨾ tt ⨾ (omega arith) ⨾ tt ⨾ tt) refl (λ s. refl)

  pub drv_sysmemaccess_writeu32-Conforms :
      (sysmem_dst : ℕ) (n : ℕ)
      → sysmem_dst < 2 ^ 32
      → n < 2 ^ 32
      → Conforms watched top (Drivers.drv_sysmemaccess_writeu32 sysmem_dst n)
  unfolding obeys check step sysmemaccess_writeu32
  drv_sysmemaccess_writeu32-Conforms sysmem_dst n h1 h2 =
      calling-Conforms watched lo top (sysmem_dst ∷ n ∷ []) (Ty.any ∷ Ty.any ∷ [])
        sysmemaccess_writeu32 sysmemaccess_writeu32_insns out space (omega arith) refl
        (λ byte. h1 ⨾ tt ⨾ h2 ⨾ tt ⨾ tt) refl (λ s. refl)

  pub drv_sysmemaccess_writeu64-Conforms :
      (sysmem_dst : ℕ) (val_lo : ℕ) (val_hi : ℕ)
      → sysmem_dst < 2 ^ 32
      → val_lo < 2 ^ 32
      → val_hi < 2 ^ 32
      → Conforms watched top (Drivers.drv_sysmemaccess_writeu64 sysmem_dst val_lo val_hi)
  unfolding obeys check step sysmemaccess_writeu64
  drv_sysmemaccess_writeu64-Conforms sysmem_dst val_lo val_hi h1 h2 h3 =
      calling-Conforms watched lo top (sysmem_dst ∷ val_lo ∷ val_hi ∷ [])
        (Ty.any ∷ Ty.any ∷ Ty.any ∷ []) sysmemaccess_writeu64 sysmemaccess_writeu64_insns out space
        (omega arith) refl (λ byte. h1 ⨾ tt ⨾ h2 ⨾ tt ⨾ h3 ⨾ tt ⨾ tt) refl (λ s. refl)
