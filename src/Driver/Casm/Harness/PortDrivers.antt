-- ===== src/Driver/Casm/Harness/PortDrivers.antt =====
-- The harness: the drivers of the functions on ports, model-specific registers and single instructions, each of which conforms.
use uberspark.Base.{◌⨾◌, ℕ, ◌⊎◌, ◌+◌, ◌^◌, ◌≤◌, ◌<◌, refl, arith, [], ◌∷◌}
use uberspark.Driver.Casm.Abi.{Ty, check, step}
use uberspark.Driver.Casm.Abi.Convention.{obeys}
use uberspark.Driver.Casm.Harness.Laws.{Conforms}
use uberspark.Driver.Casm.Harness.Drivers
use uberspark.Driver.Casm.Control.{
  cpu_disable_intr, cpu_disable_intr_insns, cpu_relax, cpu_relax_insns, enable_intr,
  enable_intr_insns, vmread, vmread_insns, vmwrite, vmwrite_insns, wbinvd, wbinvd_insns,
}
use uberspark.Driver.Casm.Msr.{
  inb, inb_insns, inl, inl_insns, inw, inw_insns, outb, outb_insns, outl, outl_insns, outw,
  outw_insns, rdmsr64, rdmsr64_insns, rdtsc64, rdtsc64_insns, wrmsr64, wrmsr64_insns, xgetbv,
  xgetbv_insns, xsetbv, xsetbv_insns,
}
use uberspark.Driver.Casm.Harness.Calling.{calling-Conforms}

-- The stack of the harness from lo up, with room for a call.
module _ (watched lo top : ℕ) (out : (watched < lo) ⊎ (top ≤ watched)) (space : lo + 64 ≤ top) where
  pub drv_disableintr-Conforms : Conforms watched top (Drivers.drv_disableintr)
  unfolding obeys check step cpu_disable_intr
  drv_disableintr-Conforms =
      calling-Conforms watched lo top (0 ∷ []) (Ty.any ∷ []) cpu_disable_intr cpu_disable_intr_insns
        out space (omega arith) refl (λ byte. (omega arith) ⨾ tt ⨾ tt) refl (λ s. refl)

  pub drv_enableintr-Conforms : Conforms watched top (Drivers.drv_enableintr)
  unfolding obeys check step enable_intr
  drv_enableintr-Conforms =
      calling-Conforms watched lo top (0 ∷ []) (Ty.any ∷ []) enable_intr enable_intr_insns out space
        (omega arith) refl (λ byte. (omega arith) ⨾ tt ⨾ tt) refl (λ s. refl)

  pub drv_inb-Conforms : (port : ℕ) → port < 2 ^ 32 → Conforms watched top (Drivers.drv_inb port)
  unfolding obeys check step inb
  drv_inb-Conforms port h1 =
      calling-Conforms watched lo top (port ∷ []) (Ty.any ∷ []) (λ s. (inb s).1) inb_insns out space
        (omega arith) refl (λ byte. h1 ⨾ tt ⨾ tt) refl (λ s. refl)

  pub drv_inl-Conforms : (port : ℕ) → port < 2 ^ 32 → Conforms watched top (Drivers.drv_inl port)
  unfolding obeys check step inl
  drv_inl-Conforms port h1 =
      calling-Conforms watched lo top (port ∷ []) (Ty.any ∷ []) (λ s. (inl s).1) inl_insns out space
        (omega arith) refl (λ byte. h1 ⨾ tt ⨾ tt) refl (λ s. refl)

  pub drv_inw-Conforms : (port : ℕ) → port < 2 ^ 32 → Conforms watched top (Drivers.drv_inw port)
  unfolding obeys check step inw
  drv_inw-Conforms port h1 =
      calling-Conforms watched lo top (port ∷ []) (Ty.any ∷ []) (λ s. (inw s).1) inw_insns out space
        (omega arith) refl (λ byte. h1 ⨾ tt ⨾ tt) refl (λ s. refl)

  pub drv_outb-Conforms :
      (value : ℕ) (port : ℕ)
      → value < 2 ^ 32
      → port < 2 ^ 32
      → Conforms watched top (Drivers.drv_outb value port)
  unfolding obeys check step outb
  drv_outb-Conforms value port h1 h2 =
      calling-Conforms watched lo top (value ∷ port ∷ []) (Ty.any ∷ Ty.any ∷ []) outb outb_insns out
        space (omega arith) refl (λ byte. h1 ⨾ tt ⨾ h2 ⨾ tt ⨾ tt) refl (λ s. refl)

  pub drv_outl-Conforms :
      (value : ℕ) (port : ℕ)
      → value < 2 ^ 32
      → port < 2 ^ 32
      → Conforms watched top (Drivers.drv_outl value port)
  unfolding obeys check step outl
  drv_outl-Conforms value port h1 h2 =
      calling-Conforms watched lo top (value ∷ port ∷ []) (Ty.any ∷ Ty.any ∷ []) outl outl_insns out
        space (omega arith) refl (λ byte. h1 ⨾ tt ⨾ h2 ⨾ tt ⨾ tt) refl (λ s. refl)

  pub drv_outw-Conforms :
      (value : ℕ) (port : ℕ)
      → value < 2 ^ 32
      → port < 2 ^ 32
      → Conforms watched top (Drivers.drv_outw value port)
  unfolding obeys check step outw
  drv_outw-Conforms value port h1 h2 =
      calling-Conforms watched lo top (value ∷ port ∷ []) (Ty.any ∷ Ty.any ∷ []) outw outw_insns out
        space (omega arith) refl (λ byte. h1 ⨾ tt ⨾ h2 ⨾ tt ⨾ tt) refl (λ s. refl)

  pub drv_pause-Conforms : Conforms watched top (Drivers.drv_pause)
  unfolding obeys check step cpu_relax
  drv_pause-Conforms =
      calling-Conforms watched lo top (0 ∷ []) (Ty.any ∷ []) cpu_relax cpu_relax_insns out space
        (omega arith) refl (λ byte. (omega arith) ⨾ tt ⨾ tt) refl (λ s. refl)

  pub drv_rdmsr-Conforms : (msr : ℕ) → msr < 2 ^ 32 → Conforms watched top (Drivers.drv_rdmsr msr)
  unfolding obeys check step rdmsr64
  drv_rdmsr-Conforms msr h1 =
      calling-Conforms watched lo top (msr ∷ []) (Ty.any ∷ []) (λ s. (rdmsr64 s).1) rdmsr64_insns
        out space (omega arith) refl (λ byte. h1 ⨾ tt ⨾ tt) refl (λ s. refl)

  pub drv_rdtsc-Conforms : Conforms watched top (Drivers.drv_rdtsc)
  unfolding obeys check step rdtsc64
  drv_rdtsc-Conforms =
      calling-Conforms watched lo top (0 ∷ []) (Ty.any ∷ []) (λ s. (rdtsc64 s).1) rdtsc64_insns out
        space (omega arith) refl (λ byte. (omega arith) ⨾ tt ⨾ tt) refl (λ s. refl)

  pub drv_vmread-Conforms :
      (encoding : ℕ) → encoding < 2 ^ 32 → Conforms watched top (Drivers.drv_vmread encoding)
  unfolding obeys check step vmread
  drv_vmread-Conforms encoding h1 =
      calling-Conforms watched lo top (encoding ∷ []) (Ty.any ∷ []) (λ s. (vmread s).1) vmread_insns
        out space (omega arith) refl (λ byte. h1 ⨾ tt ⨾ tt) refl (λ s. refl)

  pub drv_vmwrite-Conforms :
      (encoding : ℕ) (value : ℕ)
      → encoding < 2 ^ 32
      → value < 2 ^ 32
      → Conforms watched top (Drivers.drv_vmwrite encoding value)
  unfolding obeys check step vmwrite
  drv_vmwrite-Conforms encoding value h1 h2 =
      calling-Conforms watched lo top (encoding ∷ value ∷ []) (Ty.any ∷ Ty.any ∷ []) vmwrite
        vmwrite_insns out space (omega arith) refl (λ byte. (h1, (tt, (h2, (tt, tt))))) refl
        (λ s. refl)

  pub drv_wbinvd-Conforms : Conforms watched top (Drivers.drv_wbinvd)
  unfolding obeys check step wbinvd
  drv_wbinvd-Conforms =
      calling-Conforms watched lo top (0 ∷ []) (Ty.any ∷ []) wbinvd wbinvd_insns out space
        (omega arith) refl (λ byte. (omega arith) ⨾ tt ⨾ tt) refl (λ s. refl)

  pub drv_wrmsr-Conforms :
      (n1 : ℕ) (n2 : ℕ) (n3 : ℕ)
      → n1 < 2 ^ 32
      → n2 < 2 ^ 32
      → n3 < 2 ^ 32
      → Conforms watched top (Drivers.drv_wrmsr n1 n2 n3)
  unfolding obeys check step wrmsr64
  drv_wrmsr-Conforms n1 n2 n3 h1 h2 h3 =
      calling-Conforms watched lo top (n1 ∷ n2 ∷ n3 ∷ []) (Ty.any ∷ Ty.any ∷ Ty.any ∷ []) wrmsr64
        wrmsr64_insns out space (omega arith) refl (λ byte. (h1, (tt, (h2, (tt, (h3, (tt, tt)))))))
        refl (λ s. refl)

  pub drv_xgetbv-Conforms : Conforms watched top (Drivers.drv_xgetbv)
  unfolding obeys check step xgetbv
  drv_xgetbv-Conforms =
      calling-Conforms watched lo top (1 ∷ []) (Ty.any ∷ []) (λ s. (xgetbv s).1) xgetbv_insns out
        space (omega arith) refl (λ byte. (omega arith) ⨾ tt ⨾ tt) refl (λ s. refl)

  pub drv_xsetbv-Conforms :
      (n2 : ℕ) (n3 : ℕ)
      → n2 < 2 ^ 32
      → n3 < 2 ^ 32
      → Conforms watched top (Drivers.drv_xsetbv n2 n3)
  unfolding obeys check step xsetbv
  drv_xsetbv-Conforms n2 n3 h1 h2 =
      calling-Conforms watched lo top (1 ∷ n2 ∷ n3 ∷ []) (Ty.any ∷ Ty.any ∷ Ty.any ∷ []) xsetbv
        xsetbv_insns out space (omega arith) refl
        (λ byte. (omega arith) ⨾ tt ⨾ h1 ⨾ tt ⨾ h2 ⨾ tt ⨾ tt) refl (λ s. refl)
