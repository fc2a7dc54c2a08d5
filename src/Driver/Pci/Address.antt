-- ===== src/Driver/Pci/Address.antt =====
-- The macros PCI_DEVICE_FN and PCI_TYPE1_ADDRESS of src/hwm/include/xmhfhwm_pci.h.
use uberspark.Base.{
  ℕ, ◌+◌, ◌*◌, ◌-◌, ◌/◌, ◌%◌, ◌^◌, ◌<◌, ◌≡◌, refl, ap, ◌∙◌, arith, bit_and, bit_or, u32,
  bit_and_mask, bit_or-add, bit_and-shifted, ltb, ◌||◌, false,
}
use uberspark.Driver.Pci.{refused, pci_device_fn, pci_type1_address}

device_fn_lem :
    (device function : ℕ) → pci_device_fn device function ≡ device % 32 * 8 + function % 8
unfolding pci_device_fn
device_fn_lem device function =
    rw (bit_and_mask 5 device, bit_and_mask 3 function)
      (bit_or-add 3 (device % 32 * 8) (function % 8) (omega arith) (omega arith))

high_index : (index : ℕ) → bit_and index 0xF00 ≡ index / 256 % 16 * 256
high_index index = omega (arith, bit_and-shifted 8 index 15, bit_and_mask 4 (index / 256))

low_index : (index : ℕ) → bit_and index 0xFC ≡ index / 4 % 64 * 4
low_index index = omega (arith, bit_and-shifted 2 index 63, bit_and_mask 6 (index / 4))

-- Five fields side by side.
glue :
    (a b c d e : ℕ)
    → a % 2 ^ 28 ≡ 0
    → b % 2 ^ 24 ≡ 0
    → b < 2 ^ 28
    → c % 2 ^ 16 ≡ 0
    → c < 2 ^ 24
    → d % 2 ^ 8 ≡ 0
    → d < 2 ^ 16
    → e < 2 ^ 8
    → bit_or (bit_or (bit_or (bit_or a b) c) d) e ≡ a + b + c + d + e
glue a b c d e ha hb lb hc lc hd ld le =
    ap (λ t. bit_or (bit_or (bit_or t c) d) e) (bit_or-add 28 a b ha lb)
    ∙ ap (λ t. bit_or (bit_or t d) e) (bit_or-add 24 (a + b) c (omega arith) lc)
    ∙ ap (λ t. bit_or t e) (bit_or-add 16 (a + b + c) d (omega arith) ld)
    ∙ bit_or-add 8 (a + b + c + d) e (omega arith) le

pub pci_type1_address_lt :
    (bus device function index : ℕ)
    → bus < 256
    → pci_type1_address bus device function index < 2 ^ 32
unfolding pci_type1_address
pci_type1_address_lt bus device function index hb =
    rw (device_fn_lem device function, high_index index, low_index index)
      (omega (
        arith,
        glue (2 ^ 31) (index / 256 % 16 * 256 * 2 ^ 16) (u32 (bus * 2 ^ 16))
            ((device % 32 * 8 + function % 8) * 2 ^ 8) (index / 4 % 64 * 4) refl (omega arith)
            (omega arith) (omega arith) (omega arith) (omega arith) (omega arith) (omega arith),
      ))

-- A device and a function are cut to their fields before they are tested, so no device and no
-- function is refused.
pub refused_lem :
    (bus device function index : ℕ)
    → refused bus device function index ≡ (ltb 255 bus || ltb 4095 index)
unfolding refused
refused_lem bus device function index = rw (device_fn_lem device function, in_range) (ground arith)
  where
    in_range : ltb 255 (device % 32 * 8 + function % 8) ≡ false
    in_range = ground arith

-- For a bus below 256, a device below 32, a function below 8 and an index below 4096, the type-1
-- address has bit 31 set, and bus, device, function and the index of the doubleword are read back
-- from its fields.
pub pci_type1_address_lem :
    (bus device function index : ℕ)
    → bus < 256
    → device < 32
    → function < 8
    → index < 4096
    → let a = pci_type1_address bus device function index in
      (a / 2 ^ 31 ≡ 1)
      × (a / 2 ^ 16 % 256 ≡ bus)
      × (a / 2 ^ 11 % 32 ≡ device)
      × (a / 2 ^ 8 % 8 ≡ function)
      × (a / 2 ^ 24 % 16 * 256 + a % 256 ≡ index - index % 4)
unfolding pci_type1_address
pci_type1_address_lem bus device function index hb hd hf hi =
    let a = pci_type1_address bus device function index in
    let sum : a
        ≡ 2 ^ 31
          + index / 256 * 2 ^ 24
          + bus * 2 ^ 16
          + (device * 8 + function) * 2 ^ 8
          + index / 4 % 64 * 4 =
      rw (device_fn_lem device function, high_index index, low_index index)
        (glue (2 ^ 31) _ _ _ _ refl (omega arith) (omega arith) (omega arith) (omega arith)
            (omega arith) (omega arith) (omega arith)
          ∙ omega arith) in
    (
      omega (arith, sum),
      omega (arith, sum),
      omega (arith, sum),
      omega (arith, sum),
      omega (arith, sum),
    )
