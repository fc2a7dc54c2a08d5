-- ===== src/Driver/Mtrr/Validate.antt =====
-- src/libs/libxmhfhw/xmhfhw_cpu_mtrrvalidate.c: the test of a saved state before it is put to use.
use uberspark.Base.{
  ℕ, zero, suc, ◌+◌, ◌-◌, ◌*◌, ◌/◌, ◌%◌, ◌^◌, ◌≤◌, ◌≡◌, ◌⊎◌, inl, inr, ap, sym, ◌∙◌, arith,
  half-mod, half-shift, Bool, true, false, List, [], ◌∷◌, if◌then◌else◌, ◌==◌, ◌&&◌, ◌||◌, not, ltb,
  bit_and, has, has-cases, bit, length, All, Bool-cases, ==_iff,
}
use native.Mathlib.Nat.{pow-succ'}
use uberspark.Regs.MtrrPhysbase.{MtrrPhysbase}
use uberspark.Regs.MtrrPhysmask.{MtrrPhysmask}
use uberspark.Driver.Mtrr.{MtrrState, var_count}

-- The two loops over the bits of a mask: the first set bit, and from it the first clear one; 24 if
-- there is none. `n` is the number of bits left.
unfoldable pub first_set : ℕ → ℕ → ℕ → ℕ
first_set zero p mask = p
first_set (suc n) p mask = elim (has mask (2 ^ p)) [ true ↦ p | false ↦ first_set n (p + 1) mask ]

unfoldable pub first_clear : ℕ → ℕ → ℕ → ℕ
first_clear zero p mask = p
first_clear (suc n) p mask = elim (has mask (2 ^ p)) [
  | true ↦ first_clear n (p + 1) mask
  | false ↦ p
]

unfoldable pub mask_ok : MtrrPhysmask → Bool
mask_ok m =
    if m.v == 0 then true else let p = first_set 24 0 m.mask in first_clear (24 - p) p m.mask == 24

unfoldable pub masks_ok : List (MtrrPhysbase × MtrrPhysmask) → Bool
masks_ok [] = true
masks_ok ((base, mask) ∷ r) = if mask_ok mask then masks_ok r else false

-- `j`: a valid uncachable range that holds all of the given one.
unfoldable pub covered : MtrrPhysbase → MtrrPhysmask → MtrrPhysbase × MtrrPhysmask → Bool
covered base mask (base_j, mask_j) =
    bit_and (bit_and base.base mask.mask) mask_j.mask == bit_and base_j.base mask_j.mask
    && bit_and mask_j.mask (2 ^ 32 - 1 - mask.mask) == 0

unfoldable pub some_covers :
    MtrrPhysbase
    → MtrrPhysmask
    → MtrrPhysbase
    → MtrrPhysmask
    → List (MtrrPhysbase × MtrrPhysmask)
    → Bool
some_covers base_ndx mask_ndx base_i mask_i [] = false
some_covers base_ndx mask_ndx base_i mask_i ((base_j, mask_j) ∷ r) =
    if mask_j.v == 0 || not (base_j.type == 0)
    then some_covers base_ndx mask_ndx base_i mask_i r
    else if covered base_ndx mask_ndx (base_j, mask_j) || covered base_i mask_i (base_j, mask_j)
    then true
    else some_covers base_ndx mask_ndx base_i mask_i r

-- The two ranges do not meet, or their types go together.
unfoldable pub compatible : MtrrPhysbase → MtrrPhysmask → MtrrPhysbase → MtrrPhysmask → Bool
compatible base_ndx mask_ndx base_i mask_i =
    (not (
        bit_and (bit_and base_ndx.base mask_ndx.mask) mask_i.mask
        == bit_and base_i.base mask_i.mask)
      && not (
          bit_and (bit_and base_i.base mask_i.mask) mask_ndx.mask
          == bit_and base_ndx.base mask_ndx.mask))
    || base_ndx.type == base_i.type
    || base_ndx.type == 0
    || base_i.type == 0
    || (base_ndx.type == 4 && base_i.type == 6)
    || (base_ndx.type == 6 && base_i.type == 4)

-- The loop over `i`, with all ranges for the search of a third one.
unfoldable pub pairs_ok :
    MtrrPhysbase
    → MtrrPhysmask
    → List (MtrrPhysbase × MtrrPhysmask)
    → List (MtrrPhysbase × MtrrPhysmask)
    → Bool
pairs_ok base_ndx mask_ndx all [] = true
pairs_ok base_ndx mask_ndx all ((base_i, mask_i) ∷ r) =
    if mask_i.v == 0
      || compatible base_ndx mask_ndx base_i mask_i
      || some_covers base_ndx mask_ndx base_i mask_i all
    then pairs_ok base_ndx mask_ndx all r
    else false

unfoldable pub types_ok :
    List (MtrrPhysbase × MtrrPhysmask) → List (MtrrPhysbase × MtrrPhysmask) → Bool
types_ok all [] = true
types_ok all ((base_ndx, mask_ndx) ∷ r) =
    if mask_ndx.v == 0 || pairs_ok base_ndx mask_ndx all r then types_ok all r else false

unfoldable pub validate_mtrrs : {S : Type 0} → (S → ℕ → ℕ) → (S → ℕ → ℕ → S) → MtrrState → S → Bool
validate_mtrrs rdmsr64 wrmsr64 saved_state s =
    if saved_state.mtrr_def_type.e == 0
    then true
    else if ltb (var_count rdmsr64 wrmsr64 s) (length saved_state.ranges)
    then false
    else if masks_ok saved_state.ranges
    then types_ok saved_state.ranges saved_state.ranges
    else false

-- One more bit of a number.
next-bit : (m p : ℕ) → m % 2 ^ suc p ≡ m % 2 ^ p + 2 ^ p * bit m p
next-bit m zero = omega arith
next-bit m (suc p) = omega (
  arith,
  half-mod m (suc p),
  half-mod m p,
  next-bit (m / 2) p,
  pow-succ' 2 p,
  ap (λ (t : ℕ). t * (m / 2 ^ suc p % 2)) (pow-succ' 2 p),
  ap (λ (t : ℕ). 2 ^ p * (t % 2)) (half-shift m p),
)

step : (m p : ℕ) → m % 2 ^ p ≡ 0 → bit m p ≡ 0 → m % 2 ^ (p + 1) ≡ 0
step m p h b =
    let e : p + 1 ≡ suc p = omega arith in
    ap (λ (t : ℕ). m % 2 ^ t) e ∙ omega (arith, next-bit m p, ap (λ (t : ℕ). 2 ^ p * t) b)

first_set_lem :
    (n p m : ℕ)
    → m % 2 ^ p ≡ 0
    → (m % 2 ^ first_set n p m ≡ 0) × (p ≤ first_set n p m) × (first_set n p m ≤ p + n)
unfolding first_set
first_set_lem zero p m h = (h, omega arith, omega arith)
first_set_lem (suc n) p m h = elim (has-cases p m) [
  | inl t ↦ rw (t.0, first_set) (h, omega arith, omega arith)
  | inr f ↦
      let none_below : m % 2 ^ (p + 1) ≡ 0 = step m p h f.1 in
      rw (f.0, first_set)
        (let ih = first_set_lem n (p + 1) m none_below in
          (ih.0, omega (arith, ih.1), omega (arith, ih.2)))
]

-- From the first set bit on: ones up to the first clear bit.
first_clear_lem :
    (n p r m : ℕ)
    → m % 2 ^ p + 2 ^ r ≡ 2 ^ p
    → m % 2 ^ first_clear n p m + 2 ^ r ≡ 2 ^ first_clear n p m
unfolding first_clear
first_clear_lem zero p r m h = h
first_clear_lem (suc n) p r m h = elim (has-cases p m) [
  | inr f ↦ rw (f.0, first_clear) h
  | inl t ↦
      let ones : m % 2 ^ (p + 1) + 2 ^ r ≡ 2 ^ (p + 1) = ones_step m p r h t.1 in
      rw (t.0, first_clear) (first_clear_lem n (p + 1) r m ones)
]
  where
    ones_step :
        (m p r : ℕ)
        → m % 2 ^ p + 2 ^ r ≡ 2 ^ p
        → bit m p ≡ 1
        → m % 2 ^ (p + 1) + 2 ^ r ≡ 2 ^ (p + 1)
    ones_step m p r h b =
        let e : p + 1 ≡ suc p = omega arith in
        ap (λ (t : ℕ). m % 2 ^ t + 2 ^ r) e
        ∙ omega (arith, next-bit m p, pow-succ' 2 p, ap (λ (t : ℕ). 2 ^ p * t) b)
        ∙ ap (λ (t : ℕ). 2 ^ t) (sym e)

-- The 24 bits of the mask are ones from some place on, and zeros below it.
pub IsContiguousMask : MtrrPhysmask → Type 0
IsContiguousMask m = (k : ℕ) × (k ≤ 24) × (m.mask % 2 ^ 24 + 2 ^ k ≡ 2 ^ 24)

mask_ok_lem : (m : MtrrPhysmask) → mask_ok m ≡ true → (m.v ≡ 0) ⊎ IsContiguousMask m
unfolding mask_ok IsContiguousMask
mask_ok_lem m h = elim (Bool-cases (m.v == 0)) [
  | inl t ↦ inl ((==_iff m.v 0).0 t)
  | inr f ↦
      let p = first_set 24 0 m.mask in
      let q = first_clear (24 - p) p m.mask in
      let low = first_set_lem 24 0 m.mask (omega arith) in
      let top : q ≡ 24 =
        (==_iff q 24).0 (ap (λ (b : Bool). if b then true else q == 24) (sym f) ∙ h) in
      inr (
        p,
        omega (arith, low.2),
        ap (λ (t : ℕ). m.mask % 2 ^ t + 2 ^ p) (sym top)
            ∙ first_clear_lem (24 - p) p p m.mask (omega (arith, low.0))
            ∙ ap (λ (t : ℕ). 2 ^ t) top,
      )
]

abbrev pub IsChecked : MtrrPhysbase × MtrrPhysmask → Type 0
IsChecked (base, mask) = (mask.v ≡ 0) ⊎ IsContiguousMask mask

masks_ok-All : (l : List (MtrrPhysbase × MtrrPhysmask)) → masks_ok l ≡ true → All IsChecked l
unfolding masks_ok
masks_ok-All [] h = tt
masks_ok-All ((base, mask) ∷ r) h =
    let parts : (mask_ok mask ≡ true) × (masks_ok r ≡ true) = ground arith in
    (mask_ok_lem mask parts.0, masks_ok-All r parts.1)

module _ {S : Type 0} (rdmsr64 : S → ℕ → ℕ) (wrmsr64 : S → ℕ → ℕ → S) where
  -- `validate_mtrrs` refuses every other state: if it returns true, then the saved state has the
  -- registers disabled, or it has no more ranges than the processor and the low 24 bits of the
  -- mask of each valid range are ones from some place on and zeros below it.
  pub validate_mtrrs_lem :
      (saved_state : MtrrState) (s : S)
      → validate_mtrrs rdmsr64 wrmsr64 saved_state s ≡ true
      → (saved_state.mtrr_def_type.e ≡ 0)
        ⊎ ((length saved_state.ranges ≤ var_count rdmsr64 wrmsr64 s)
            × All IsChecked saved_state.ranges)
  unfolding validate_mtrrs
  validate_mtrrs_lem saved_state s h = elim (Bool-cases (saved_state.mtrr_def_type.e == 0)) [
    | inl t ↦ inl ((==_iff saved_state.mtrr_def_type.e 0).0 t)
    | inr f ↦
        let fits : length saved_state.ranges ≤ var_count rdmsr64 wrmsr64 s = ground arith in
        let masks : masks_ok saved_state.ranges ≡ true = ground arith in
        inr (fits, masks_ok-All saved_state.ranges masks)
  ]
