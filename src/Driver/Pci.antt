-- ===== src/Driver/Pci.antt =====
-- src/libs/libxmhfhw/xmhfhw_pci_{initbus,read,write}.c: type-1 accesses to the PCI configuration space, by
-- the assembly functions for port I/O.
pub mod Address
pub mod Bus
use uberspark.Base.{
  ℕ, ◌+◌, Bool, ◌||◌, not, bit_and, bit_or, u8, u16, u32, ◌<<◌, ltb, ◌==◌, if◌then◌else◌, [], ◌∷◌,
}
use uberspark.Hwm.Cpu.{Cpu, pci_config_addr_port}
use uberspark.Driver.Casm.{casm_call, casm_funccall}
use uberspark.Driver.Casm.Msr.{inb, inw, inl, outb, outw, outl}

abbrev pub pci_config_data_port : ℕ
pci_config_data_port = 0x0cfc

unfoldable pub pci_device_fn : ℕ → ℕ → ℕ
pci_device_fn device function = bit_or (bit_and device 0x1f << 3) (bit_and function 0x07)

unfoldable pub pci_type1_address : ℕ → ℕ → ℕ → ℕ → ℕ
pci_type1_address bus device function index =
    bit_or
      (bit_or (bit_or (bit_or 0x8000_0000 (bit_and index 0xF00 << 16)) (u32 (bus << 16)))
        (pci_device_fn device function << 8))
      (bit_and index 0xFC)

-- CASM_FUNCCALL of the functions for ports.
unfoldable pub read_port : (Cpu → ℕ × Cpu) → ℕ → Cpu → ℕ × Cpu
read_port body port s = casm_funccall (port ∷ []) (λ t. (body t).1) s

unfoldable pub write_port : (Cpu → Cpu) → ℕ → ℕ → Cpu → Cpu
write_port body value port s = casm_call (value ∷ port ∷ []) body s

unfoldable pub bus_init : Cpu → Bool × Cpu
bus_init s =
    let saved = read_port inl pci_config_addr_port s in
    let selected = write_port outl 0x8000_0000 pci_config_addr_port saved.1 in
    let probed = read_port inl pci_config_addr_port selected in
    (probed.0 == 0x8000_0000, write_port outl (u32 saved.0) pci_config_addr_port probed.1)

-- The sanity checks of both functions.
unfoldable pub refused : ℕ → ℕ → ℕ → ℕ → Bool
refused bus device function index =
    ltb 255 bus || ltb 255 (pci_device_fn device function) || ltb 4095 index

-- A read of the data port into `*value`.
unfoldable pub read_data : (Cpu → ℕ × Cpu) → ℕ → Cpu → ℕ × Cpu
read_data body port s = let r = read_port body port s in (u32 r.0, r.1)

-- The new `*value` and the processor.
unfoldable pub type1_read : ℕ → ℕ → ℕ → ℕ → ℕ → ℕ → Cpu → ℕ × Cpu
type1_read bus device function index len value s =
    let addressed =
      write_port outl (pci_type1_address bus device function index) pci_config_addr_port s in
    if refused bus device function index
    then (value, s)
    else if len == 1
    then read_data inb (pci_config_data_port + bit_and index 3) addressed
    else if len == 2
    then read_data inw (pci_config_data_port + bit_and index 2) addressed
    else if len == 4
    then read_data inl pci_config_data_port addressed
    else (0, addressed)

unfoldable pub type1_write : ℕ → ℕ → ℕ → ℕ → ℕ → ℕ → Cpu → Cpu
type1_write bus device function index len value s =
    let addressed =
      write_port outl (pci_type1_address bus device function index) pci_config_addr_port s in
    if refused bus device function index
    then s
    else if len == 1
    then write_port outb (u8 value) (pci_config_data_port + bit_and index 3) addressed
    else if len == 2
    then write_port outw (u16 value) (pci_config_data_port + bit_and index 2) addressed
    else if len == 4
    then write_port outl (u32 value) pci_config_data_port addressed
    else addressed
