-- ===== src/Driver/Casm/Harness/RegisterDrivers.antt =====
-- The harness: the drivers of the functions that read and write control, segment and flag registers, each of which conforms.
use uberspark.Base.{◌⨾◌, ℕ, ◌⊎◌, ◌+◌, ◌^◌, ◌≤◌, ◌<◌, refl, arith, [], ◌∷◌}
use uberspark.Driver.Casm.Abi.{Ty, check, step}
use uberspark.Driver.Casm.Abi.Convention.{obeys}
use uberspark.Driver.Casm.Harness.Laws.{Conforms}
use uberspark.Driver.Casm.Harness.Drivers
use uberspark.Driver.Casm.Regs.{
  read_cr0, read_cr0_insns, read_cr2, read_cr2_insns, read_cr3, read_cr3_insns, read_cr4,
  read_cr4_insns, read_eflags, read_eflags_insns, read_esp, read_esp_insns, read_rsp,
  read_rsp_insns, read_segreg_cs, read_segreg_cs_insns, read_segreg_ds, read_segreg_ds_insns,
  read_segreg_es, read_segreg_es_insns, read_segreg_fs, read_segreg_fs_insns, read_segreg_gs,
  read_segreg_gs_insns, read_segreg_ss, read_segreg_ss_insns, read_tr_sel, read_tr_sel_insns,
  write_cr0, write_cr0_insns, write_cr3, write_cr3_insns, write_cr4, write_cr4_insns, write_eflags,
  write_eflags_insns,
}
use uberspark.Driver.Casm.Harness.Calling.{calling-Conforms}

-- The stack of the harness from lo up, with room for a call.
module _ (watched lo top : ℕ) (out : (watched < lo) ⊎ (top ≤ watched)) (space : lo + 64 ≤ top) where
  pub drv_readcr0-Conforms : Conforms watched top (Drivers.drv_readcr0)
  unfolding obeys check step read_cr0
  drv_readcr0-Conforms =
      calling-Conforms watched lo top (0 ∷ []) (Ty.any ∷ []) (λ s. (read_cr0 s).1) read_cr0_insns
        out space (omega arith) refl (λ byte. (omega arith) ⨾ tt ⨾ tt) refl (λ s. refl)

  pub drv_readcr2-Conforms : Conforms watched top (Drivers.drv_readcr2)
  unfolding obeys check step read_cr2
  drv_readcr2-Conforms =
      calling-Conforms watched lo top (0 ∷ []) (Ty.any ∷ []) (λ s. (read_cr2 s).1) read_cr2_insns
        out space (omega arith) refl (λ byte. (omega arith) ⨾ tt ⨾ tt) refl (λ s. refl)

  pub drv_readcr3-Conforms : Conforms watched top (Drivers.drv_readcr3)
  unfolding obeys check step read_cr3
  drv_readcr3-Conforms =
      calling-Conforms watched lo top (0 ∷ []) (Ty.any ∷ []) (λ s. (read_cr3 s).1) read_cr3_insns
        out space (omega arith) refl (λ byte. (omega arith) ⨾ tt ⨾ tt) refl (λ s. refl)

  pub drv_readcr4-Conforms : Conforms watched top (Drivers.drv_readcr4)
  unfolding obeys check step read_cr4
  drv_readcr4-Conforms =
      calling-Conforms watched lo top (0 ∷ []) (Ty.any ∷ []) (λ s. (read_cr4 s).1) read_cr4_insns
        out space (omega arith) refl (λ byte. (omega arith) ⨾ tt ⨾ tt) refl (λ s. refl)

  pub drv_readcs-Conforms : Conforms watched top (Drivers.drv_readcs)
  unfolding obeys check step read_segreg_cs
  drv_readcs-Conforms =
      calling-Conforms watched lo top (0 ∷ []) (Ty.any ∷ []) (λ s. (read_segreg_cs s).1)
        read_segreg_cs_insns out space (omega arith) refl (λ byte. (omega arith, (tt, tt))) refl
        (λ s. refl)

  pub drv_readds-Conforms : Conforms watched top (Drivers.drv_readds)
  unfolding obeys check step read_segreg_ds
  drv_readds-Conforms =
      calling-Conforms watched lo top (0 ∷ []) (Ty.any ∷ []) (λ s. (read_segreg_ds s).1)
        read_segreg_ds_insns out space (omega arith) refl (λ byte. (omega arith, (tt, tt))) refl
        (λ s. refl)

  pub drv_reades-Conforms : Conforms watched top (Drivers.drv_reades)
  unfolding obeys check step read_segreg_es
  drv_reades-Conforms =
      calling-Conforms watched lo top (0 ∷ []) (Ty.any ∷ []) (λ s. (read_segreg_es s).1)
        read_segreg_es_insns out space (omega arith) refl (λ byte. (omega arith, (tt, tt))) refl
        (λ s. refl)

  pub drv_readfs-Conforms : Conforms watched top (Drivers.drv_readfs)
  unfolding obeys check step read_segreg_fs
  drv_readfs-Conforms =
      calling-Conforms watched lo top (0 ∷ []) (Ty.any ∷ []) (λ s. (read_segreg_fs s).1)
        read_segreg_fs_insns out space (omega arith) refl (λ byte. (omega arith, (tt, tt))) refl
        (λ s. refl)

  pub drv_readgs-Conforms : Conforms watched top (Drivers.drv_readgs)
  unfolding obeys check step read_segreg_gs
  drv_readgs-Conforms =
      calling-Conforms watched lo top (0 ∷ []) (Ty.any ∷ []) (λ s. (read_segreg_gs s).1)
        read_segreg_gs_insns out space (omega arith) refl (λ byte. (omega arith, (tt, tt))) refl
        (λ s. refl)

  pub drv_readss-Conforms : Conforms watched top (Drivers.drv_readss)
  unfolding obeys check step read_segreg_ss
  drv_readss-Conforms =
      calling-Conforms watched lo top (0 ∷ []) (Ty.any ∷ []) (λ s. (read_segreg_ss s).1)
        read_segreg_ss_insns out space (omega arith) refl (λ byte. (omega arith, (tt, tt))) refl
        (λ s. refl)

  pub drv_readeflags-Conforms : Conforms watched top (Drivers.drv_readeflags)
  unfolding obeys check step read_eflags
  drv_readeflags-Conforms =
      calling-Conforms watched lo top (0 ∷ []) (Ty.any ∷ []) (λ s. (read_eflags s).1)
        read_eflags_insns out space (omega arith) refl (λ byte. (omega arith, (tt, tt))) refl
        (λ s. refl)

  pub drv_readesp-Conforms : Conforms watched top (Drivers.drv_readesp)
  unfolding obeys check step read_esp
  drv_readesp-Conforms =
      calling-Conforms watched lo top (0 ∷ []) (Ty.any ∷ []) (λ s. (read_esp s).1) read_esp_insns
        out space (omega arith) refl (λ byte. (omega arith) ⨾ tt ⨾ tt) refl (λ s. refl)

  pub drv_readrsp-Conforms : Conforms watched top (Drivers.drv_readrsp)
  unfolding obeys check step read_rsp
  drv_readrsp-Conforms =
      calling-Conforms watched lo top (0 ∷ []) (Ty.any ∷ []) (λ s. (read_rsp s).1) read_rsp_insns
        out space (omega arith) refl (λ byte. (omega arith) ⨾ tt ⨾ tt) refl (λ s. refl)

  pub drv_readtr-Conforms : Conforms watched top (Drivers.drv_readtr)
  unfolding obeys check step read_tr_sel
  drv_readtr-Conforms =
      calling-Conforms watched lo top (0 ∷ []) (Ty.any ∷ []) (λ s. (read_tr_sel s).1)
        read_tr_sel_insns out space (omega arith) refl (λ byte. (omega arith, (tt, tt))) refl
        (λ s. refl)

  pub drv_writecr0-Conforms :
      (value : ℕ) → value < 2 ^ 32 → Conforms watched top (Drivers.drv_writecr0 value)
  unfolding obeys check step write_cr0
  drv_writecr0-Conforms value h1 =
      calling-Conforms watched lo top (value ∷ []) (Ty.any ∷ []) write_cr0 write_cr0_insns out space
        (omega arith) refl (λ byte. h1 ⨾ tt ⨾ tt) refl (λ s. refl)

  pub drv_writecr3-Conforms :
      (value : ℕ) → value < 2 ^ 32 → Conforms watched top (Drivers.drv_writecr3 value)
  unfolding obeys check step write_cr3
  drv_writecr3-Conforms value h1 =
      calling-Conforms watched lo top (value ∷ []) (Ty.any ∷ []) write_cr3 write_cr3_insns out space
        (omega arith) refl (λ byte. h1 ⨾ tt ⨾ tt) refl (λ s. refl)

  pub drv_writecr4-Conforms :
      (value : ℕ) → value < 2 ^ 32 → Conforms watched top (Drivers.drv_writecr4 value)
  unfolding obeys check step write_cr4
  drv_writecr4-Conforms value h1 =
      calling-Conforms watched lo top (value ∷ []) (Ty.any ∷ []) write_cr4 write_cr4_insns out space
        (omega arith) refl (λ byte. h1 ⨾ tt ⨾ tt) refl (λ s. refl)

  pub drv_writeeflags-Conforms :
      (value : ℕ) → value < 2 ^ 32 → Conforms watched top (Drivers.drv_writeeflags value)
  unfolding obeys check step write_eflags
  drv_writeeflags-Conforms value h1 =
      calling-Conforms watched lo top (value ∷ []) (Ty.any ∷ []) write_eflags write_eflags_insns out
        space (omega arith) refl (λ byte. h1 ⨾ tt ⨾ tt) refl (λ s. refl)
