-- ===== src/Driver/TxtHeap/Registers.antt =====
-- src/libs/libxmhfhw/xmhfhw_cpu_txt{read,write}{pub,priv}cr.c and xmhfhw_cpu_txtislaunched.c on the
-- registers of src/hwm/xmhfhwm_txt.c.
use uberspark.Base.{ℕ, ◌+◌, ◌^◌, ◌≡◌, refl, ◌∙◌, arith, false, some, u32, u64, ◌<◌, ◌≤◌, All}
use uberspark.Hwm.Txt.{txtcr_mle_join, pub_config_regs_base}
use uberspark.Hwm.Txt
use uberspark.Hwm.E1000
use uberspark.Hwm.Vtd.Regs.{IsPlaced}
use uberspark.Hwm.Sysmem.{Machine, sysmemread, sysmemwrite, read_asserts, write_asserts}
use uberspark.Hwm.Sysmem.Routes.{
  sysmemread-owner, sysmemwrite-owner, answer_read, answer_write, passes_read, passes_write,
}
use uberspark.Hwm.Sysmem.Routes.AddressMap.{owner, Device}
use uberspark.Regs.TxtSts.{unpack_txt_sts}
use uberspark.Regs.Field.{get64}
use uberspark.Driver.VtdReg.{readu64, writeu64}
use uberspark.Driver.TxtHeap.{
  read_pub_config_reg, read_priv_config_reg, write_pub_config_reg, write_priv_config_reg,
  txt_is_launched, txtcr_sts,
}

-- What is written to MLE.JOIN through the private TXT registers is read back through them, in 64
-- bits.
pub read_priv_config_reg-write_priv_config_reg :
    (m : Machine) (v : ℕ)
    → (read_priv_config_reg (write_priv_config_reg m txtcr_mle_join v) txtcr_mle_join).0 ≡ u64 v
unfolding read_priv_config_reg write_priv_config_reg readu64 writeu64 sysmemread sysmemwrite
    E1000.read E1000.write Txt.read Txt.write
read_priv_config_reg-write_priv_config_reg m v = omega arith

module _ (m : Machine) (placed : All IsPlaced m.vtd) where
  owned : (a : ℕ) → pub_config_regs_base ≤ a → a < 0xfed4_0000 → owner a ≡ some Device.txt
  unfolding owner
  owned a l h = ground arith

  write-owned : (a v : ℕ) → pub_config_regs_base ≤ a → a < 0xfed4_0000 → sysmemwrite m a v ≡ m
  unfolding answer_write Txt.write
  write-owned a v l h = (sysmemwrite-owner m a placed 32 v).1 ∙ rw (owned a l h) (ground arith)

  read-sts :
      (a : ℕ) → pub_config_regs_base ≤ a → a < pub_config_regs_base + 8 → sysmemread m a ≡ (0, m)
  unfolding answer_read Txt.read
  read-sts a l h =
      (sysmemread-owner m a placed 32).1 ∙ rw (owned a l (omega (arith, h))) (ground arith)

  write_public : (reg v : ℕ) → reg + 4 < 2 ^ 16 → write_pub_config_reg m reg v ≡ m
  unfolding write_pub_config_reg writeu64
  write_public reg v h =
      rw (write-owned (u32 (pub_config_regs_base + reg)) _ (omega arith) (omega arith))
        (write-owned _ _ (omega arith) (omega arith))

  launched : txt_is_launched m ≡ (false, m)
  unfolding txt_is_launched read_pub_config_reg readu64 unpack_txt_sts get64
  launched =
      rw
        (
          read-sts pub_config_regs_base (omega arith) (omega arith),
          read-sts (pub_config_regs_base + 4) (omega arith) (omega arith),
        )
        refl

  refused_read :
      (a : ℕ)
      → pub_config_regs_base ≤ a
      → a < pub_config_regs_base + 8
      → read_asserts m 32 a ≡ false
  unfolding passes_read Txt.read
  refused_read a l h =
      (sysmemread-owner m a placed 32).0 ∙ rw (owned a l (omega (arith, h))) (ground arith)

  refused_write :
      (a v : ℕ) → pub_config_regs_base ≤ a → a < 0xfed4_0000 → write_asserts m 32 a v ≡ false
  unfolding passes_write Txt.write
  refused_write a v l h = (sysmemwrite-owner m a placed 32 v).0 ∙ rw (owned a l h) (ground arith)

  -- If all remapping units are placed, the hardware model has no TXT.STS and no public TXT
  -- register that can be written: the two reads of `txt_is_launched` and each write of 32 bits at
  -- a public register fail the assertion that a device takes the access. Past that assertion,
  -- `txt_is_launched` returns false and changes nothing, and a write of a public register changes
  -- nothing.
  pub txt_is_launched_lem :
      (reg v : ℕ)
      → reg + 4 < 2 ^ 16
      → (read_asserts m 32 (pub_config_regs_base + txtcr_sts) ≡ false)
        × (read_asserts m 32 (pub_config_regs_base + txtcr_sts + 4) ≡ false)
        × (write_asserts m 32 (pub_config_regs_base + reg) v ≡ false)
        × (txt_is_launched m ≡ (false, m))
        × (write_pub_config_reg m reg v ≡ m)
  txt_is_launched_lem reg v h = (
    refused_read _ (omega arith) (omega arith),
    refused_read _ (omega arith) (omega arith),
    refused_write _ v (omega arith) (omega arith),
    launched,
    write_public reg v h,
  )
