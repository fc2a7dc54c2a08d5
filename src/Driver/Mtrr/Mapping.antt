-- ===== src/Driver/Mtrr/Mapping.antt =====
-- src/libs/libxmhfhw/xmhfhw_cpu_mtrrsetmemtype.c: what `set_mem_type` leaves in the registers and what
-- it returns, against the cover of the region.
use uberspark.Base.{
  All, bit, ◌/◌, ℕ, zero, suc, ◌+◌, ◌-◌, ◌*◌, ◌%◌, ◌^◌, ◌≤◌, ◌<◌, ◌≡◌, inl, inr, refl, ap, sym, ◌∙◌,
  arith, true, false, some, List, [], ◌∷◌, if◌then◌else◌, u32, sub32, ltb, ◌>>◌, ◌==◌, length,
  eq→==, ne→==, Bool-cases,
}
use native.Mathlib.Decide.{dec_lt}
use uberspark.Hwm.Cpu.Alu.{highest}
use uberspark.Driver.Mtrr.{
  shift_of, fls, map_range, map_pages, set_mem_type, disable_ranges, set_uncachable, var_count,
  max_variable_mtrrs,
}
use uberspark.Driver.Mtrr.Words.{mask-off, mask-word, base-word, def_type-uncachable}
use uberspark.Regs.MtrrCap.{unpack_mtrr_cap}
use uberspark.Regs.Field.{get64_lem}
use uberspark.Driver.Mtrr.Cover.{
  cover, pages, IsContiguous, pages-cover, cover-IsContiguous, mod-lt_pow, highest-cover,
  highest-stable, wrapped, cover-zero,
}

abbrev pub take {ℓ} : {A : Type ℓ} → ℕ → List A → List A
take zero l = []
take (suc n) [] = []
take (suc n) (x ∷ l) = x ∷ take n l

take-nil : (m : ℕ) → take {A = ℕ × ℕ} m [] ≡ []
take-nil zero = refl
take-nil (suc m) = refl

ltb-ge : (a b : ℕ) → b ≤ a → false ≡ ltb a b
ltb-ge a b h = ground arith

ltb-lt : (a b : ℕ) → a < b → true ≡ ltb a b
ltb-lt a b h = ground arith

one_less : (p : ℕ) → shift_of (p + 1) ≡ p
unfolding shift_of
one_less p = omega arith

fls-highest : (n p : ℕ) → 0 < n → highest n 32 ≡ some p → fls n ≡ some (p + 1)
unfolding fls
fls-highest n p z e = rw (ne→== n 0 (omega arith), e)

-- A range with a 32-bit base and fewer than 2 ^ 20 pages.
abbrev InReach : ℕ × ℕ → Type 0
InReach r = (r.0 < 2 ^ 32) × (r.1 < 20)

cover-InReach : (k base n : ℕ) → k ≤ 20 → base < 2 ^ 32 → All InReach (cover k base n)
unfolding cover
cover-InReach zero base n h g = tt
cover-InReach (suc k) base n h g = elim (Bool-cases (n / 2 ^ k % 2 == 1)) [
  | inl e ↦ rw (e) ((g, omega arith), cover-InReach k _ (n % 2 ^ k) (omega arith) (omega arith))
  | inr e ↦ rw (e) (cover-InReach k base (n % 2 ^ k) (omega arith) g)
]

take-InReach : (n : ℕ) (l : List (ℕ × ℕ)) → All InReach l → All InReach (take n l)
take-InReach zero l p = tt
take-InReach (suc n) [] p = tt
take-InReach (suc n) (r ∷ l) p = (p.0, take-InReach n l p.1)

module _ {S : Type 0} (rdmsr64 : S → ℕ → ℕ) (wrmsr64 : S → ℕ → ℕ → S) (mem_type : ℕ) where
  -- The registers from `ndx` on set to map each range.
  unfoldable pub map_all : List (ℕ × ℕ) → ℕ → S → S
  map_all [] ndx s = s
  map_all ((base, place) ∷ r) ndx s =
      map_all r (ndx + 1) (map_range rdmsr64 wrmsr64 base mem_type place ndx s)

  map_pages_lem :
      (fuel k vcnt base n ndx : ℕ) (s : S)
      → n < 2 ^ k
      → k < fuel
      → k ≤ 32
      → ndx < vcnt
      → map_pages rdmsr64 wrmsr64 fuel vcnt base n mem_type ndx s
        ≡ some (
          ltb (ndx + length (cover k base n)) vcnt,
          map_all (take (vcnt - ndx) (cover k base n)) ndx s,
        )
  unfolding map_pages map_all
  map_pages_lem zero k vcnt base n ndx s h hk h32 hv = absurd (omega arith)
  map_pages_lem (suc fuel) k vcnt base n ndx s h hk h32 hv = elim (dec_lt 0 n) [
    | no z ↦
        let n0 : n ≡ 0 = omega arith in
        let empty : cover k base n ≡ [] = ap (cover k base) n0 ∙ cover-zero k base in
        rw (eq→== n 0 n0, map_pages)
          (rw (empty) λ i.
            some (
              ltb-lt (ndx + 0) vcnt (omega arith) i,
              map_all (sym (take-nil (vcnt - ndx)) i) ndx s,
            ))
    | yes z ↦
        let (p, e, lt, b, q, c) = highest-cover k base n h z in
        let found : fls n ≡ some (p + 1) = fls-highest n p z (highest-stable 32 k n h h32 ∙ e) in
        let left : sub32 n (2 ^ p) ≡ n % 2 ^ p = wrapped n (2 ^ p) k h h32 q in
        let base1 = u32 (base + 2 ^ p * 0x1000) in
        let r = cover p base1 (n % 2 ^ p) in
        let s1 = map_range rdmsr64 wrmsr64 base mem_type p ndx s in
        let more : vcnt - ndx ≡ suc (vcnt - (ndx + 1)) = omega arith in
        rw (ne→== n 0 (omega arith), map_pages)
          (rw (found) (
            rw (c) (
              rw (more) (elim (Bool-cases (ndx + 1 == vcnt)) [
                | inl t ↦
                    let last : 0 ≡ vcnt - (ndx + 1) = ground arith in
                    let full : vcnt ≤ ndx + suc (length r) = ground arith in
                    rw (t, one_less p)
                      λ i. some (
                        ltb-ge (ndx + suc (length r)) vcnt full i,
                        map_all (take (last i) r) (ndx + 1) s1,
                      )
                | inr f ↦
                    let next : ndx + 1 < vcnt = ground arith in
                    let same : ndx + 1 + length r ≡ ndx + suc (length r) = omega arith in
                    rw (f, one_less p)
                      (ap
                          (λ (m : ℕ).
                            map_pages rdmsr64 wrmsr64 fuel vcnt base1 m mem_type (ndx + 1) s1)
                          left
                        ∙ map_pages_lem fuel p vcnt base1 (n % 2 ^ p) (ndx + 1) s1 (mod-lt_pow n p)
                            (omega arith) (omega arith) next
                        ∙ ap
                            (λ (c : ℕ).
                              some (ltb c vcnt, map_all (take (vcnt - (ndx + 1)) r) (ndx + 1) s1))
                            same)
              ]))))
  ]

  set_mem_type_runs :
      (base size : ℕ) (s : S)
      → 0 < var_count rdmsr64 wrmsr64 (set_uncachable rdmsr64 wrmsr64 s)
      → (let s1 = set_uncachable rdmsr64 wrmsr64 s in
          let vcnt = var_count rdmsr64 wrmsr64 s1 in
          let ranges = cover 20 base (u32 (size + 0x1000 - 1) >> 12) in
          set_mem_type rdmsr64 wrmsr64 21 base size mem_type s ≡ (
            if ltb max_variable_mtrrs vcnt
            then some (false, s1)
            else some (
              ltb (length ranges) vcnt,
              map_all (take vcnt ranges) 0 (disable_ranges rdmsr64 wrmsr64 vcnt 0 s1),
            )))
  unfolding set_mem_type
  set_mem_type_runs base size s hv =
      let s1 = set_uncachable rdmsr64 wrmsr64 s in
      let vcnt = var_count rdmsr64 wrmsr64 s1 in
      let num_pages = u32 (size + 0x1000 - 1) >> 12 in
      let ranges = cover 20 base num_pages in
      let plain : 0 + length ranges ≡ length ranges = omega arith in
      let whole : vcnt - 0 ≡ vcnt = omega arith in
      elim (Bool-cases (ltb max_variable_mtrrs vcnt)) [
        | inl t ↦ rw (t) refl
        | inr f ↦ rw (f) (
            map_pages_lem 21 20 vcnt base num_pages 0 (disable_ranges rdmsr64 wrmsr64 vcnt 0 s1)
              (omega arith) (omega arith) (omega arith) hv
            ∙ λ i. some (
              ltb (plain i) vcnt,
              map_all (take (whole i) ranges) 0 (disable_ranges rdmsr64 wrmsr64 vcnt 0 s1),
            ))
      ]

-- What is written, in the bits of the registers.
module _ {S : Type 0} (rdmsr64 : S → ℕ → ℕ) (wrmsr64 : S → ℕ → ℕ → S) where
  -- The default type is uncachable (zero) and the fixed ranges (bit 10) are off.
  unfoldable pub uncachable : S → S
  uncachable s = let v = rdmsr64 s 0x2ff in wrmsr64 s 0x2ff (v - 2 ^ 10 * bit v 10 - v % 2 ^ 8)

  -- `n` masks from number `ndx` on, each without its valid bit (bit 11).
  unfoldable pub turned_off : ℕ → ℕ → S → S
  turned_off zero ndx s = s
  turned_off (suc n) ndx s =
      let v = rdmsr64 s (0x201 + ndx * 2) in
      turned_off n (ndx + 1) (wrmsr64 s (0x201 + ndx * 2) (v - 2 ^ 11 * bit v 11))

  -- Each range into the registers from number `ndx` on: the page of the base with the type, and the
  -- valid bit with the address bits above 2 ^ place pages, in a field of 24 bits.
  unfoldable pub mapped : ℕ → List (ℕ × ℕ) → ℕ → S → S
  mapped mem_type [] ndx s = s
  mapped mem_type ((base, place) ∷ r) ndx s = mapped mem_type r (ndx + 1) (
      wrmsr64 (wrmsr64 s (0x200 + ndx * 2) (base / 2 ^ 12 * 2 ^ 12 + mem_type)) (0x201 + ndx * 2)
        ((2 ^ 24 - 2 ^ place) * 2 ^ 12 + 2 ^ 11))

  module _ (u64_lt : (s : S) (n : ℕ) → rdmsr64 s n < 2 ^ 64) where
    set_uncachable-uncachable : (s : S) → set_uncachable rdmsr64 wrmsr64 s ≡ uncachable s
    unfolding set_uncachable uncachable
    set_uncachable-uncachable s =
        ap (wrmsr64 s 0x2ff) (def_type-uncachable (rdmsr64 s 0x2ff) (u64_lt s 0x2ff))

    disable_ranges-turned_off :
        (n ndx : ℕ) (s : S) → disable_ranges rdmsr64 wrmsr64 n ndx s ≡ turned_off n ndx s
    unfolding disable_ranges turned_off
    disable_ranges-turned_off zero ndx s = refl
    disable_ranges-turned_off (suc n) ndx s =
        disable_ranges-turned_off n (ndx + 1) _
        ∙ ap (λ w. turned_off n (ndx + 1) (wrmsr64 s (0x201 + ndx * 2) w))
            (mask-off (rdmsr64 s (0x201 + ndx * 2)) (u64_lt s _))

    var_count_lem : (s : S) → var_count rdmsr64 wrmsr64 s ≡ rdmsr64 s 0xfe % 2 ^ 8
    unfolding var_count unpack_mtrr_cap
    var_count_lem s = omega (arith, get64_lem 8 0 (rdmsr64 s 0xfe), u64_lt s 0xfe)

    map_all-mapped :
        (mem_type : ℕ) (l : List (ℕ × ℕ)) (ndx : ℕ) (s : S)
        → mem_type < 2 ^ 8
        → All InReach l
        → map_all rdmsr64 wrmsr64 mem_type l ndx s ≡ mapped mem_type l ndx s
    unfolding map_all mapped map_range
    map_all-mapped mem_type [] ndx s h p = refl
    map_all-mapped mem_type ((base, place) ∷ r) ndx s h p =
        map_all-mapped mem_type r (ndx + 1) _ h p.1 ∙ λ i. mapped mem_type r (ndx + 1) (
          wrmsr64 (wrmsr64 s (0x200 + ndx * 2) (base-word base mem_type p.0.0 h i))
            (0x201 + ndx * 2) (mask-word place p.0.1 i))

    -- For a processor call that reads values below 2 ^ 64: if the capabilities report at least one
    -- variable range (VCNT, the low byte of MTRRcap), and for a base below 2 ^ 32 and a memory
    -- type below 256, `set_mem_type` returns within 21 rounds of its loop. It first makes the
    -- default type uncachable and turns the fixed ranges off. With more than sixteen variable
    -- ranges it then returns false; otherwise it clears the valid bit of each of them and writes
    -- the base with the type, and the mask with the valid bit, of the contiguous ranges that the
    -- binary digits of the number of pages give, whose pages add up to that number, as far as
    -- there are registers, and returns true exactly if they are fewer than the registers.
    pub set_mem_type_lem :
        (base size mem_type : ℕ) (s : S)
        → base < 2 ^ 32
        → mem_type < 2 ^ 8
        → 0 < rdmsr64 (uncachable s) 0xfe % 2 ^ 8
        → (let s1 = uncachable s in
            let vcnt = rdmsr64 s1 0xfe % 2 ^ 8 in
            let num_pages = u32 (size + 0x1000 - 1) / 2 ^ 12 in
            let ranges = cover 20 base num_pages in
            (pages ranges ≡ num_pages)
            × IsContiguous base ranges
            × (set_mem_type rdmsr64 wrmsr64 21 base size mem_type s ≡ (
                if ltb 16 vcnt
                then some (false, s1)
                else some (
                  ltb (length ranges) vcnt,
                  mapped mem_type (take vcnt ranges) 0 (turned_off vcnt 0 s1),
                ))))
    set_mem_type_lem base size mem_type s hb hm hv =
        let one = set_uncachable-uncachable s in
        let s1 = uncachable s in
        let vcnt = rdmsr64 s1 0xfe % 2 ^ 8 in
        let num_pages = u32 (size + 0x1000 - 1) / 2 ^ 12 in
        let ranges = cover 20 base num_pages in
        let small : num_pages < 2 ^ 20 = omega arith in
        let start = set_uncachable rdmsr64 wrmsr64 s in
        let found : var_count rdmsr64 wrmsr64 start ≡ vcnt =
          ap (var_count rdmsr64 wrmsr64) one ∙ var_count_lem s1 in
        let last : map_all rdmsr64 wrmsr64 mem_type (take (var_count rdmsr64 wrmsr64 start) ranges)
              0 (disable_ranges rdmsr64 wrmsr64 (var_count rdmsr64 wrmsr64 start) 0 start)
            ≡ mapped mem_type (take vcnt ranges) 0 (turned_off vcnt 0 s1) =
          ap
            (λ (c : ℕ).
              map_all rdmsr64 wrmsr64 mem_type (take c ranges) 0
                (disable_ranges rdmsr64 wrmsr64 c 0 start))
            found
          ∙ map_all-mapped mem_type (take vcnt ranges) 0 _ hm
              (take-InReach vcnt ranges (cover-InReach 20 base num_pages (omega arith) hb))
          ∙ ap (mapped mem_type (take vcnt ranges) 0)
              (disable_ranges-turned_off vcnt 0 start ∙ ap (turned_off vcnt 0) one) in
        (
          pages-cover 20 base num_pages small,
          cover-IsContiguous 20 base num_pages small,
          set_mem_type_runs rdmsr64 wrmsr64 mem_type base size s (omega (arith, found, hv)) ∙ λ i.
              if ltb 16 (found i)
              then some (false, one i)
              else some (ltb (length ranges) (found i), last i),
        )
