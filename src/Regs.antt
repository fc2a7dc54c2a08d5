-- ===== src/Regs.antt =====
-- The bit fields of hardware registers that src/hwm/include/xmhfhwm_vtd.h and xmhfhwm_cpu.h pack and
-- unpack by macros: one child for each register.
pub mod Field
pub mod RoundTrip
pub mod VtdCap
pub mod VtdEcap
pub mod VtdGcmd
pub mod VtdGsts
pub mod VtdRtaddr
pub mod VtdCcmd
pub mod VtdIotlb
pub mod VtdFectl
pub mod VtdPmen
pub mod MtrrCap
pub mod MtrrDefType
pub mod MtrrPhysbase
pub mod MtrrPhysmask
pub mod TxtErrorcode
pub mod TxtEsts
pub mod TxtE2sts
pub mod TxtSts
pub mod TxtDidvid
pub mod TxtVerFsbifEmif
pub mod TxtErrorcodeSw
pub mod AcmodError
pub mod Capabilities
