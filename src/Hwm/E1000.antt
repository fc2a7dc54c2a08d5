-- ===== src/Hwm/E1000.antt =====
-- src/hwm/xmhfhwm_e1000.c: the model of the transmit side of the e1000 network card.
use uberspark.Base.{ℕ, ◌+◌, ◌-◌, Bool, true, false, ◌&&◌, Option, none, some, List, [], ◌∷◌, bit_or}
use uberspark.Base.{u32, ◌==◌, leb, ltb, if◌then◌else◌, has}
use uberspark.Hwm.Call.{Call}

abbrev pub hwaddr_base : ℕ
hwaddr_base = 0xf7c4_0000

abbrev pub hwaddr_size : ℕ
hwaddr_size = 0x9000

abbrev pub tctl_off : ℕ
tctl_off = 0x400

abbrev pub tdt_off : ℕ
tdt_off = 0x3818

abbrev pub tdh_off : ℕ
tdh_off = 0x3810

abbrev pub tdbah_off : ℕ
tdbah_off = 0x3804

abbrev pub tdbal_off : ℕ
tdbal_off = 0x3800

abbrev pub tdlen_off : ℕ
tdlen_off = 0x3808

abbrev pub swsm_off : ℕ
swsm_off = 0x5b50

abbrev pub eecd_off : ℕ
eecd_off = 0x10

-- E1000_TCTL_EN, E1000_EECD_REQ and E1000_EECD_GNT.
abbrev pub tctl_en : ℕ
tctl_en = 2

abbrev pub eecd_req : ℕ
eecd_req = 0x40

abbrev pub eecd_gnt : ℕ
eecd_gnt = 0x80

pub record E1000 : Type 0 where
  pub tctl : ℕ
  pub tdt : ℕ
  pub tdh : ℕ
  pub tdbah : ℕ
  pub tdbal : ℕ
  pub tdlen : ℕ
  pub swsm : ℕ
  pub eecd : ℕ
  pub status_transmitting : Bool

-- The address test that both handlers begin with.
abbrev pub in_window : ℕ → Bool
in_window sysmemaddr = leb hwaddr_base sysmemaddr && ltb sysmemaddr (hwaddr_base + hwaddr_size)

-- Reading the head while a transmission is under way completes it.
unfoldable pub read_tdh : E1000 → E1000
read_tdh s =
    if s.status_transmitting then record s { tdh = s.tdt; status_transmitting = false } else s

-- `_impl_xmhfhwm_e1000_read`: `none` is false; any other offset of the window leaves the result as it was.
unfoldable pub read : E1000 → ℕ → ℕ → Option (ℕ × E1000)
read s sysmemaddr read_result =
    let off = sysmemaddr - hwaddr_base in
    if in_window sysmemaddr
    then (if off == tctl_off
        then some (s.tctl, s)
        else if off == tdt_off
        then some (s.tdt, s)
        else if off == tdh_off
        then some ((read_tdh s).tdh, read_tdh s)
        else if off == tdbah_off
        then some (s.tdbah, s)
        else if off == tdbal_off
        then some (s.tdbal, s)
        else if off == tdlen_off
        then some (s.tdlen, s)
        else if off == swsm_off
        then some (s.swsm, s)
        else if off == eecd_off
        then some (s.eecd, s)
        else some (read_result, s))
    else none

-- Moving the tail starts a transmission if TCTL.EN is set.
unfoldable pub write_tdt : E1000 → ℕ → E1000
write_tdt s v = record s {
  tdt = v;
  status_transmitting = if has s.tctl tctl_en then true else s.status_transmitting;
}

-- A request for the EEPROM is granted at once.
unfoldable pub write_eecd : E1000 → ℕ → E1000
write_eecd s v = record s { eecd = if has v eecd_req then bit_or v eecd_gnt else v }

-- `_impl_xmhfhwm_e1000_write`, with the callbacks that it makes.
unfoldable pub write : E1000 → ℕ → ℕ → Option (E1000 × List Call)
write s sysmemaddr write_value =
    let off = sysmemaddr - hwaddr_base in
    let v = u32 write_value in
    if in_window sysmemaddr
    then (if off == tctl_off
        then some (record s { tctl = v }, [])
        else if off == tdt_off
        then some (write_tdt s v, Call.e1000_write_tdt s.tdt v ∷ [])
        else if off == tdh_off
        then some (record s { tdh = v }, [])
        else if off == tdbah_off
        then some (record s { tdbah = v }, Call.e1000_write_tdbah s.tdbah v ∷ [])
        else if off == tdbal_off
        then some (record s { tdbal = v }, Call.e1000_write_tdbal s.tdbal v ∷ [])
        else if off == tdlen_off
        then some (record s { tdlen = v }, Call.e1000_write_tdlen s.tdlen v ∷ [])
        else if off == swsm_off
        then some (record s { swsm = v }, [])
        else if off == eecd_off
        then some (write_eecd s v, [])
        else some (s, []))
    else none
