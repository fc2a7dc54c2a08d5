-- ===== src/Hwm/Sysmem/Routes/VtdUnit.antt =====
-- The registers of one remapping unit as the routing of src/hwm/xmhfhwm_cpu.c reaches them: the
-- unit `d` stands between the units `pre` and `post`.
use uberspark.Base.{ℕ, ◌≡◌, ◌≢◌, arith, u32, Option, some, List, ◌∷◌, ◌++◌}
use uberspark.Hwm.Vtd.{Drhd}
use uberspark.Hwm.Vtd.Regs.{Reg, addr_of, get, put, IsPlaced}
use uberspark.Hwm.Vtd.Laws.{put-IsPlaced, put-regbaseaddr}
use uberspark.Hwm.Vtd.Routing.{page_of, Elsewhere, read-addr_of, write-addr_of}
use uberspark.Hwm.Sysmem.{Machine, sysmemread, sysmemwrite}
use uberspark.Hwm.Sysmem.Routes.AddressMap.{Device, owner, e1000-read-none, e1000-write-none}
use uberspark.Hwm.Sysmem.Routes.AddressMap.{txt-read-none, txt-write-none, bios-read-none}
use uberspark.Hwm.Sysmem.Routes.AddressMap.{bios-write-false, mem-read-none}

-- The unit is placed, and no unit before it has its page.
abbrev pub Reachable : List Drhd → Drhd → Type 0
Reachable pre d = IsPlaced d × Elsewhere (page_of d) pre

owner-addr_of : (d : Drhd) (r : Reg) → IsPlaced d → owner (addr_of d r) ≡ some Device.vtd
unfolding owner
owner-addr_of d Reg.ver p = ground arith
owner-addr_of d _ p = ground arith

pub put-Reachable :
    (pre : List Drhd) (d : Drhd) (r : Reg) (v : ℕ) → Reachable pre d → Reachable pre (put d r v)
put-Reachable pre d r v p = (put-IsPlaced d r v p.0, rw (put-regbaseaddr d r v) p.1)

owner-ne :
    (d : Drhd) (r : Reg) (o : Option Device)
    → IsPlaced d
    → some Device.vtd ≢ o
    → owner (addr_of d r) ≢ o
owner-ne d r o p h = rw (owner-addr_of d r p) h

module _ (m : Machine) (pre post : List Drhd) where
  abbrev pub at : Drhd → Machine
  at d = record m { vtd = pre ++ d ∷ post }

  module _ (d : Drhd) (r : Reg) (p : Reachable pre d) where
    -- For a placed unit whose page no unit before it has: a read of system memory at the address
    -- of any of its 24 registers gives that register and changes nothing in the machine.
    pub sysmemread-addr_of : sysmemread (at d) (addr_of d r) ≡ (get d r, at d)
    unfolding sysmemread
    sysmemread-addr_of = rw (
      e1000-read-none m.e1000 (addr_of d r) 0 (owner-ne d r (some Device.e1000) p.0 (ground arith)),
      txt-read-none m.txt (addr_of d r) (owner-ne d r (some Device.txt) p.0 (ground arith)),
      bios-read-none (addr_of d r) (owner-ne d r (some Device.bios) p.0 (ground arith)),
      mem-read-none m.dataseg (addr_of d r) (owner-ne d r (some Device.mem) p.0 (ground arith)),
      read-addr_of pre d post r p.0 p.1,
      sysmemread,
    )

    -- For a placed unit whose page no unit before it has: a write of system memory at the address
    -- of any of its 24 registers is the write of the low 32 bits to that register, and changes
    -- nothing else in the machine.
    pub sysmemwrite-addr_of : (v : ℕ) → sysmemwrite (at d) (addr_of d r) v ≡ at (put d r (u32 v))
    unfolding sysmemwrite
    sysmemwrite-addr_of v = rw (
      e1000-write-none m.e1000 (addr_of d r) v
          (owner-ne d r (some Device.e1000) p.0 (ground arith)),
      txt-write-none m.txt (addr_of d r) v (owner-ne d r (some Device.txt) p.0 (ground arith)),
      bios-write-false (addr_of d r) (owner-ne d r (some Device.bios) p.0 (ground arith)),
      write-addr_of pre d post r v p.0 p.1,
      sysmemwrite,
    )
