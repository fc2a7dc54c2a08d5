-- ===== src/Driver/Casm/Lock.antt =====
-- src/libs/libxmhfhw/xmhfhw_cpu_spinlock.cS and xmhfhw_cpu_spinunlock.cS: the lock is free while bit 0 of
-- its word is set. The loop runs on fuel, one round for each jump back to its label.
use uberspark.Base.{ℕ, zero, suc, [], ◌∷◌, Option, some, none, true, false}
use uberspark.Hwm.Cpu.{Cpu}
use uberspark.Hwm.Cpu.Insn.{Insn, run}
use uberspark.Hwm.Cpu.Jump.{jnc, ret}

-- One round from the label on, after the first test and after the second: each may jump back.
unfoldable pub round : (Cpu → Option Cpu) → Cpu → Cpu → Option Cpu
round again t u = elim (jnc t) [
  | true ↦ again t
  | false ↦ elim (jnc u) [ true ↦ again u | false ↦ some (ret u) ]
]

unfoldable pub tested : Cpu → Cpu
tested s = run (Insn.btl_imm_mecx 0x0 0x0 ∷ []) s

unfoldable pub locked : Cpu → Cpu
locked s = run (Insn.lock ∷ Insn.btrl_imm_mecx 0x0 0x0 ∷ []) s

unfoldable pub splock : ℕ → Cpu → Option Cpu
splock zero s = none
splock (suc fuel) s = round (splock fuel) (tested s) (locked (tested s))

unfoldable pub spin_lock : ℕ → Cpu → Option Cpu
spin_lock fuel s = splock fuel (run (Insn.movl_mesp_ecx 0x4 ∷ []) s)

unfoldable pub spin_unlock : Cpu → Cpu
spin_unlock s = ret (run (Insn.movl_mesp_ecx 0x4 ∷ Insn.btsl_imm_mecx 0x0 0x0 ∷ []) s)
