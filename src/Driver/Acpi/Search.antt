-- ===== src/Driver/Acpi/Search.antt =====
-- src/libs/libxmhfhw/xmhfhw_sysmem_getacpirsdp.c on the BIOS of src/hwm/xmhfhwm_bios.c.
use uberspark.Base.{
  ℕ, zero, suc, ◌+◌, ◌*◌, ◌^◌, ◌≡◌, refl, ap, ◌∙◌, arith, Bool, true, false, some, u32, ◌<◌, ◌≤◌,
  ◌-◌, if◌then◌else◌, ltb, u8, get_or,
}
use uberspark.Hwm.Obj.{Memory, load32, store8, store32, store64}
use uberspark.Hwm.Bios.{ebda_base, acpirsdpbase, acpi_rsdp, copy_rsdp}
use uberspark.Hwm.Bios
use uberspark.Hwm.Txt
use uberspark.Hwm.E1000
use uberspark.Hwm.Sysmem.{Machine, SysmemCopy, sysmemread, sysmemcopy}
use uberspark.Driver.Acpi.{
  readu16, rsdp_signature, sum_bytes, acpi_computetablechecksum, accepted, search, search_bios,
  search_ebda, get_rsdp,
}

module _ (m : Machine) (rsdp : ℕ) where
  -- The extended BIOS data area has no table: a copy out of it leaves the object.
  copy-ebda : (i : ℕ) → i < 1016 → sysmemcopy SysmemCopy.sys2obj m rsdp (u32 (ebda_base + i)) 36 ≡ m
  unfolding sysmemcopy Txt.copy_sys2obj Bios.copy_sys2obj
  copy-ebda i h = ground arith

  copy-rom :
      sysmemcopy SysmemCopy.sys2obj m rsdp (u32 (0 + 0xe_0000)) 36
      ≡ record m { obj = copy_rsdp m.obj rsdp }
  unfolding sysmemcopy Txt.copy_sys2obj Bios.copy_sys2obj
  copy-rom = refl

  ebda : readu16 m 0x40e ≡ (0x9ec0, m)
  unfolding readu16 sysmemread E1000.read Txt.read Bios.read
  ebda = refl

-- `m'` is `m` seen from `rsdp` on, over the 36 bytes of the table.
record Seen (rsdp : ℕ) (m m' : Memory) : Type 0 where
  same : (k : ℕ) → k < 36 → m (rsdp + k) ≡ m' k

at_zero : (m : Memory) → accepted (copy_rsdp m 0) 0 ≡ true
unfolding accepted rsdp_signature acpi_computetablechecksum sum_bytes copy_rsdp load32 store32
    store64
at_zero m = refl

module _ (rsdp : ℕ) (room : rsdp + 36 ≤ 2 ^ 32) where
  store8-Seen :
      {m m' : Memory} (off v : ℕ) {p : ℕ}
      → Seen rsdp m m'
      → p ≡ rsdp + off
      → off < 36
      → Seen rsdp (store8 m p v) (store8 m' off v)
  store8-Seen off v s e h = record { same = λ k l. let r = s.same k l in ground (arith, r) }

  store32-Seen :
      {m m' : Memory} (off v : ℕ) {p : ℕ}
      → Seen rsdp m m'
      → p ≡ rsdp + off
      → off + 3 < 36
      → Seen rsdp (store32 m p v) (store32 m' off v)
  unfolding store32
  store32-Seen off v s e h =
      store8-Seen (off + 3) _
        (store8-Seen (off + 2) _
          (store8-Seen (off + 1) _ (store8-Seen off _ s e (omega arith)) (omega arith)
            (omega arith))
          (omega arith) (omega arith))
        (omega arith) h

  store64-Seen :
      {m m' : Memory} (off v : ℕ) {p : ℕ}
      → Seen rsdp m m'
      → p ≡ rsdp + off
      → off + 7 < 36
      → Seen rsdp (store64 m p v) (store64 m' off v)
  unfolding store64
  store64-Seen off v s e h =
      store32-Seen (off + 4) _ (store32-Seen off _ s e (omega arith)) (omega arith) (omega arith)

  -- The copy of the table does not depend on where it goes.
  copy_rsdp-Seen : {m m' : Memory} → Seen rsdp m m' → Seen rsdp (copy_rsdp m rsdp) (copy_rsdp m' 0)
  unfolding copy_rsdp
  copy_rsdp-Seen s =
      store8-Seen 35 (get_or acpi_rsdp.rsvd0 2 0)
        (store8-Seen 34 (get_or acpi_rsdp.rsvd0 1 0)
          (store8-Seen 33 (get_or acpi_rsdp.rsvd0 0 0)
            (store8-Seen 32 acpi_rsdp.xchecksum
              (store64-Seen 24 acpi_rsdp.xsdtaddress
                (store32-Seen 20 acpi_rsdp.length
                  (store32-Seen 16 acpi_rsdp.rsdtaddress
                    (store8-Seen 15 acpi_rsdp.revision
                      (store8-Seen 14 (get_or acpi_rsdp.oemid 5 0)
                        (store8-Seen 13 (get_or acpi_rsdp.oemid 4 0)
                          (store8-Seen 12 (get_or acpi_rsdp.oemid 3 0)
                            (store8-Seen 11 (get_or acpi_rsdp.oemid 2 0)
                              (store8-Seen 10 (get_or acpi_rsdp.oemid 1 0)
                                (store8-Seen 9 (get_or acpi_rsdp.oemid 0 0)
                                  (store8-Seen 8 acpi_rsdp.checksum
                                    (store64-Seen 0 acpi_rsdp.signature {p = rsdp} s (omega arith)
                                      (omega arith))
                                    refl (omega arith))
                                  refl (omega arith))
                                refl (omega arith))
                              refl (omega arith))
                            refl (omega arith))
                          refl (omega arith))
                        refl (omega arith))
                      refl (omega arith))
                    refl (omega arith))
                  refl (omega arith))
                refl (omega arith))
              refl (omega arith))
            refl (omega arith))
          refl (omega arith))
        refl (omega arith)

  sum_bytes-Seen :
      (n : ℕ) (m m' : Memory) (off c p : ℕ)
      → Seen rsdp m m'
      → p ≡ rsdp + off
      → off + n ≤ 36
      → sum_bytes n m p c ≡ sum_bytes n m' off c
  unfolding sum_bytes
  sum_bytes-Seen zero m m' off c p s e h = refl
  sum_bytes-Seen (suc n) m m' off c p s e h =
      sum_bytes-Seen n m m' (off + 1) (u8 (c + m (u32 p))) (p + 1) s (omega arith) (omega arith)
      ∙ ap (λ t. sum_bytes n m' (off + 1) (u8 (c + t))) (seen-byte m m' off p s e (omega arith))
    where
      seen-byte :
          (m m' : Memory) (off p : ℕ)
          → Seen rsdp m m'
          → p ≡ rsdp + off
          → off < 36
          → m (u32 p) ≡ m' (u32 off)
      seen-byte m m' off p s e h =
          ap m (omega (arith, room, e, h)) ∙ (s.same off h ∙ ap m' (omega (arith, h)))

  rsdp_signature-Seen :
      {m m' : Memory} → Seen rsdp m m' → rsdp_signature m rsdp ≡ rsdp_signature m' 0
  unfolding rsdp_signature load32
  rsdp_signature-Seen {m} {m'} s =
      rw
        (
          word 0 rsdp (omega arith) (omega arith),
          word 1 (rsdp + 1) refl (omega arith),
          word 2 (rsdp + 2) refl (omega arith),
          word 3 (rsdp + 3) refl (omega arith),
          word 4 (rsdp + 4) refl (omega arith),
          word 5 (rsdp + 4 + 1) (omega arith) (omega arith),
          word 6 (rsdp + 4 + 2) (omega arith) (omega arith),
          word 7 (rsdp + 4 + 3) (omega arith) (omega arith),
        )
        refl
    where
      word : (off p : ℕ) → p ≡ rsdp + off → off < 36 → m (u32 p) ≡ m' off
      word off p e h = ap m (omega (arith, room, e, h)) ∙ s.same off h

  -- The table of the BIOS is accepted wherever it is copied to.
  accepted-copy_rsdp : (m : Memory) → accepted (copy_rsdp m rsdp) rsdp ≡ true
  unfolding accepted acpi_computetablechecksum
  accepted-copy_rsdp m =
      rw
        (
          rsdp_signature-Seen table,
          sum_bytes-Seen 20 _ _ 0 0 rsdp table (omega arith) (omega arith),
        )
        (at_zero (λ a. m (rsdp + a)))
    where
      table : Seen rsdp (copy_rsdp m rsdp) (copy_rsdp (λ a. m (rsdp + a)) 0)
      table = copy_rsdp-Seen (record { same = λ k l. refl })

module _ (m s : Machine) (rsdp fuel base limit i : ℕ) (inside : ltb i limit ≡ true)
    (copied : sysmemcopy SysmemCopy.sys2obj m rsdp (u32 (base + i)) 36 ≡ s) where
  -- One round of a loop.
  round-next :
      accepted s.obj rsdp ≡ false
      → search (suc fuel) m rsdp base limit i ≡ search fuel s rsdp base limit (i + 16)
  unfolding search
  round-next h =
      rw (search, inside, ap (λ (t : Machine). accepted t.obj rsdp) copied ∙ h)
        (ap (λ t. search fuel t rsdp base limit (i + 16)) copied)

  round-found :
      accepted s.obj rsdp ≡ true → search (suc fuel) m rsdp base limit i ≡ some ((true, i), s)
  unfolding search
  round-found h =
      rw (search, inside, ap (λ (t : Machine). accepted t.obj rsdp) copied ∙ h)
        (ap (λ t. some ((true, i), t)) copied)

module _ (m : Machine) (rsdp : ℕ) where
  -- The first loop finds nothing if the object does not hold a table before.
  search-ebda :
      (n f i : ℕ)
      → accepted m.obj rsdp ≡ false
      → i + 16 * n ≡ 1024
      → n ≤ f
      → search (suc f) m rsdp ebda_base 1016 i ≡ some ((false, 1024), m)
  unfolding search
  search-ebda zero f i empty e h = ap (search (suc f) m rsdp ebda_base 1016) last
    where
      last : i ≡ 1024
      last = omega (arith, e)
  search-ebda (suc n) zero i empty e h = absurd (omega (arith, h))
  search-ebda (suc n) (suc f) i empty e h =
      round-next m m rsdp (suc f) ebda_base 1016 i small (copy-ebda m rsdp i (omega (arith, e)))
        empty
      ∙ search-ebda n f (i + 16) empty (omega (arith, e)) (omega (arith, h))
    where
      small : ltb i 1016 ≡ true
      small = ground (arith, e)

  -- Otherwise the first round takes the table that it holds.
  search-held :
      (fuel : ℕ)
      → accepted m.obj rsdp ≡ true
      → search (suc fuel) m rsdp ebda_base 1016 0 ≡ some ((true, 0), m)
  search-held fuel held =
      round-found m m rsdp fuel ebda_base 1016 0 refl (copy-ebda m rsdp 0 (omega arith)) held

  module _ (room : rsdp + 36 ≤ 2 ^ 32) (extra : ℕ) where
    found : Machine
    found = record m { obj = copy_rsdp m.obj rsdp }

    search-rom :
        search (suc extra) m rsdp 0 (0xf_ffff - 8) 0xe_0000 ≡ some ((true, acpirsdpbase), found)
    unfolding found
    search-rom =
        round-found m found rsdp extra 0 _ _ refl (copy-rom m rsdp)
          (accepted-copy_rsdp rsdp room m.obj)

    search_bios_lem : search_bios (suc extra) m rsdp ≡ some (acpirsdpbase, found)
    unfolding search_bios
    search_bios_lem = rw (search_bios, search-rom) refl

    -- With 65 rounds or more for each loop and a place for the table that does not wrap around the
    -- address space: on the hardware model `get_rsdp` returns, and it finds the table at the base
    -- of the BIOS area and copies it to the place, and the rest of the machine is unchanged. If
    -- the place held a table with the signature and a checksum of zero before the call, it returns
    -- instead the base of the extended BIOS data area, which holds none, and changes nothing.
    pub get_rsdp_lem :
        64 ≤ extra
        → get_rsdp (suc extra) m rsdp ≡ (
            if accepted m.obj rsdp
            then some (ebda_base, m)
            else some (acpirsdpbase, record m { obj = copy_rsdp m.obj rsdp }))
    unfolding get_rsdp found search_ebda copy_rsdp
    get_rsdp_lem h =
        ap (λ (e : ℕ × Machine). search_ebda (suc extra) e.1 rsdp (u32 (e.0 * 16))) (ebda m rsdp)
        ∙ cases (accepted m.obj rsdp) refl
      where
        cases :
            (b : Bool)
            → accepted m.obj rsdp ≡ b
            → search_ebda (suc extra) m rsdp ebda_base
              ≡ (if b then some (ebda_base, m) else some (acpirsdpbase, found))
        cases true held = rw (search_ebda, search-held extra held) refl
        cases false empty = rw (search_ebda, search-ebda 64 extra 0 empty refl h) search_bios_lem
