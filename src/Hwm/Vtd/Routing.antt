-- ===== src/Hwm/Vtd/Routing.antt =====
-- The loops over the units in src/hwm/xmhfhwm_vtd.c: which unit an access reaches.
use uberspark.Base.{ℕ, ◌/◌, ◌≡◌, ◌≢◌, arith, u32, some, List, [], ◌∷◌, ◌++◌, All}
use uberspark.Hwm.Vtd.{Drhd, read, write}
use uberspark.Hwm.Vtd.Regs.{Reg, addr_of, get, put, IsPlaced}
use uberspark.Hwm.Vtd.Laws.{read_unit-addr_of, write_unit-addr_of, read_unit-none, write_unit-none}

abbrev pub page_of : Drhd → ℕ
page_of d = d.regbaseaddr / 4096

-- The units before the one in question stand on other pages.
abbrev pub Elsewhere : ℕ → List Drhd → Type 0
Elsewhere page = All (λ d. IsPlaced d × (page ≢ page_of d))

addr_of-page : (d : Drhd) (r : Reg) → IsPlaced d → addr_of d r / 4096 ≡ page_of d
addr_of-page d Reg.ver p = omega arith
addr_of-page d _ p = omega arith

other :
    (d : Drhd) (r : Reg) (c : Drhd)
    → IsPlaced d
    → page_of d ≢ page_of c
    → addr_of d r / 4096 ≢ page_of c
other d r c p e = rw (addr_of-page d r p) e

-- A register of a placed unit is read through the list.
pub read-addr_of :
    (pre : List Drhd) (d : Drhd) (post : List Drhd) (r : Reg)
    → IsPlaced d
    → Elsewhere (page_of d) pre
    → read (pre ++ d ∷ post) (addr_of d r) ≡ some (get d r)
unfolding read
read-addr_of [] d post r p e = rw (read_unit-addr_of d r p, read)
read-addr_of (c ∷ pre) d post r p e =
    rw (read_unit-none c (addr_of d r) e.0.0 (other d r c p e.0.1), read)
      (read-addr_of pre d post r p e.1)

pub write-addr_of :
    (pre : List Drhd) (d : Drhd) (post : List Drhd) (r : Reg) (v : ℕ)
    → IsPlaced d
    → Elsewhere (page_of d) pre
    → write (pre ++ d ∷ post) (addr_of d r) v ≡ some (pre ++ put d r (u32 v) ∷ post)
unfolding write
write-addr_of [] d post r v p e = rw (write_unit-addr_of d r v p, write)
write-addr_of (c ∷ pre) d post r v p e =
    rw (write_unit-none c (addr_of d r) v e.0.0 (other d r c p e.0.1), write)
      (rw (write-addr_of pre d post r v p e.1))
