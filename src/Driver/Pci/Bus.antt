-- ===== src/Driver/Pci/Bus.antt =====
-- xmhfhw_platform_bus_init of src/libs/libxmhfhw/xmhfhw_pci_initbus.c on the ports of the hardware model.
use uberspark.Base.{
  ℕ, ◌^◌, ◌<◌, ◌≡◌, refl, ap, ◌∙◌, arith, Bool, true, false, u32, ltb, ◌||◌, List, ◌==◌,
  if◌then◌else◌, [], ◌∷◌,
}
use uberspark.Hwm.Cpu.{Cpu, pci_config_addr_port, edx_eax}
use uberspark.Hwm.Cpu.Msr.{outl_eax_dx}
use uberspark.Driver.Casm.{param_setup, casm_call, casm_funccall}
use uberspark.Driver.Casm.Msr.{inl, outl}
use uberspark.Driver.Casm.MsrCalls.{leaf_frame, returned}
use uberspark.Driver.Casm.Ports.{call-inl, call-outl, reading}
use uberspark.Driver.Casm.Calls.{edx_eax-add}
use uberspark.Driver.Pci.Address.{refused_lem, pci_type1_address_lt}
use uberspark.Driver.Pci.{
  read_port, write_port, bus_init, pci_config_data_port, type1_write, pci_type1_address,
}

-- The processor after a read of the address port, and after a write.
abbrev asked : Cpu → Cpu
asked s = returned s (pci_config_addr_port ∷ []) (reading s pci_config_addr_port)

abbrev told : ℕ → Cpu → Cpu
told v s =
    let ps = v ∷ pci_config_addr_port ∷ [] in
    returned s ps (outl_eax_dx (record (leaf_frame s ps) { eax = v; edx = pci_config_addr_port }))

read_addr :
    (s : Cpu)
    → s.esp < 2 ^ 32
    → s.pci_config_addr < 2 ^ 32
    → read_port inl pci_config_addr_port s ≡ (s.pci_config_addr, asked s)
unfolding read_port casm_funccall param_setup
read_addr s h hc =
    ap (λ (t : Cpu). (edx_eax t, t)) (call-inl s pci_config_addr_port (omega arith) h)
    ∙ ap (λ t. (t, asked s)) (edx_eax-add 0 s.pci_config_addr hc ∙ omega arith)

write_addr :
    (s : Cpu) (v : ℕ)
    → s.esp < 2 ^ 32
    → v < 2 ^ 32
    → write_port outl v pci_config_addr_port s ≡ told v s
unfolding write_port
write_addr s v h hv = call-outl s v pci_config_addr_port hv (omega arith) h

-- For a stack pointer and an address register below 2 ^ 32: on the ports of the hardware model
-- `bus_init` finds type-1 accesses and puts the old value of the address register back, with the
-- stack pointer where it was.
pub bus_init_lem :
    (s : Cpu)
    → s.esp < 2 ^ 32
    → s.pci_config_addr < 2 ^ 32
    → ((bus_init s).0 ≡ true)
      × ((bus_init s).1.pci_config_addr ≡ s.pci_config_addr)
      × ((bus_init s).1.esp ≡ s.esp)
unfolding bus_init param_setup
bus_init_lem s h hc =
    let first = asked s in
    let second = told 0x8000_0000 first in
    let third = asked second in
    let last = told (u32 s.pci_config_addr) third in
    let run : bus_init s ≡ (true, last) =
      ap
        (λ (t : ℕ × Cpu).
          let selected = write_port outl 0x8000_0000 pci_config_addr_port t.1 in
          let probed = read_port inl pci_config_addr_port selected in
          (probed.0 == 0x8000_0000, write_port outl (u32 t.0) pci_config_addr_port probed.1))
        (read_addr s h hc)
      ∙ ap
          (λ (t : Cpu).
            let probed = read_port inl pci_config_addr_port t in
            (
              probed.0 == 0x8000_0000,
              write_port outl (u32 s.pci_config_addr) pci_config_addr_port probed.1,
            ))
          (write_addr first 0x8000_0000 h (omega arith))
      ∙ ap
          (λ (t : ℕ × Cpu).
            (t.0 == 0x8000_0000, write_port outl (u32 s.pci_config_addr) pci_config_addr_port t.1))
          (read_addr second h (omega arith))
      ∙ ap (λ t. (true, t)) (write_addr third (u32 s.pci_config_addr) h (omega arith)) in
    (
      ap (λ (t : Bool × Cpu). t.0) run,
      ap (λ (t : Bool × Cpu). t.1.pci_config_addr) run ∙ omega arith,
      ap (λ (t : Bool × Cpu). t.1.esp) run,
    )

-- For a stack pointer below 2 ^ 32: a write of four bytes to the PCI configuration space leaves
-- the address register as it was if the bus is above 255 or the index above 4095. Otherwise,
-- whatever the device and the function, the address register holds the encoded address afterwards.
pub type1_write_lem :
    (s : Cpu) (bus device function index value : ℕ)
    → s.esp < 2 ^ 32
    → (type1_write bus device function index 4 value s).pci_config_addr ≡ (
        if ltb 255 bus || ltb 4095 index
        then s.pci_config_addr
        else pci_type1_address bus device function index)
unfolding type1_write write_port param_setup
type1_write_lem s bus device function index value h =
    rw (refused_lem bus device function index) (cases (ltb 255 bus || ltb 4095 index) refl)
  where
    a : ℕ
    a = pci_type1_address bus device function index

    cases :
        (b : Bool)
        → (ltb 255 bus || ltb 4095 index) ≡ b
        → (if b
            then s
            else casm_call
                (u32 value ∷ pci_config_data_port ∷ [])
                outl
                (casm_call (a ∷ pci_config_addr_port ∷ []) outl s)).pci_config_addr
          ≡ (if b then s.pci_config_addr else a)
    cases true out = refl
    cases false in_range =
        let small : bus < 256 = bus_range (ltb 255 bus) refl in_range in
        let ps : List ℕ = u32 value ∷ pci_config_data_port ∷ [] in
        ap (λ (t : Cpu). (casm_call ps outl t).pci_config_addr)
          (write_addr s a h (pci_type1_address_lt bus device function index small))
        ∙ ap (λ (t : Cpu). t.pci_config_addr)
            (call-outl (told a s) (u32 value) pci_config_data_port (omega arith) (omega arith) h)
      where
        bus_range : (b : Bool) → ltb 255 bus ≡ b → (b || ltb 4095 index) ≡ false → bus < 256
        bus_range b e f = ground (arith, e, f)
