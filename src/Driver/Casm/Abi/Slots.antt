-- ===== src/Driver/Casm/Abi/Slots.antt =====
-- What a shape says of the memory: the words of the stack, and the stores that leave them alone.
use uberspark.Base.{
  ℕ, zero, suc, ◌+◌, ◌*◌, ◌^◌, ◌≤◌, ◌<◌, ◌≡◌, ◌≢◌, ◌⊎◌, inl, inr, refl, arith, u32, List, [], ◌∷◌,
  length, get_or, set, replicate, ◌++◌,
}
use uberspark.Hwm.Obj.{Memory, load32, store32}
use uberspark.Hwm.Obj.Laws.{load32-store32, store32_frame}
use uberspark.Driver.Casm.Abi.{Ty, skip}

-- Two memories with the same four bytes hold the same word.
pub same-load32 :
    (m m' : Memory) (p : ℕ)
    → ((a : ℕ) → p ≤ a → a < p + 4 → m' a ≡ m a)
    → p + 4 ≤ 2 ^ 32
    → load32 m' p ≡ load32 m p
unfolding load32
same-load32 m m' p same fits =
    rw (first, byte 1 (omega arith), byte 2 (omega arith), byte 3 (omega arith)) refl
  where
    first : m' (u32 p) ≡ m (u32 p)
    first = same (u32 p) (omega (arith, fits)) (omega (arith, fits))

    byte : (k : ℕ) → k < 4 → m' (u32 (p + k)) ≡ m (u32 (p + k))
    byte k g = same (u32 (p + k)) (omega (arith, g, fits)) (omega (arith, g, fits))

-- A word that is stored elsewhere leaves the bytes of a range.
pub store-bytes :
    (m : Memory) (p n w v : ℕ)
    → (w + 4 ≤ p) ⊎ (p + n ≤ w)
    → w + 4 ≤ 2 ^ 32
    → p + n ≤ 2 ^ 32
    → (a : ℕ) → p ≤ a
    → a < p + n
    → store32 m w v a ≡ m a
store-bytes m p n w v off fits_w fits a l g =
    store32_frame m w v a first (ne 1 (omega arith)) (ne 2 (omega arith)) (ne 3 (omega arith))
  where
    first : a ≢ u32 w
    first e = elim off [
      | inl h ↦ omega (arith, h, e, l, fits_w)
      | inr h ↦ omega (arith, h, e, g, fits_w)
    ]

    ne : (k : ℕ) → k < 4 → a ≢ u32 (w + k)
    ne k hk e = elim off [
      | inl h ↦ omega (arith, h, e, l, fits_w, hk)
      | inr h ↦ omega (arith, h, e, g, fits_w, hk)
    ]

pub length-reserved : (n : ℕ) (tys : List Ty) → length (replicate n Ty.any ++ tys) ≡ n + length tys
length-reserved zero tys = omega arith
length-reserved (suc n) tys = omega (arith, length-reserved n tys)

pub length-set : (tys : List Ty) (k : ℕ) → length (set tys k Ty.any) ≡ length tys
length-set [] k = refl
length-set (ty ∷ tys) zero = refl
length-set (ty ∷ tys) (suc k) = omega (arith, length-set tys k)

pub length-skip : (n : ℕ) (tys : List Ty) → n ≤ length tys → length (skip n tys) + n ≡ length tys
length-skip zero tys h = omega arith
length-skip (suc n) [] h = omega (arith, h)
length-skip (suc n) (ty ∷ tys) h = omega (arith, length-skip n tys (omega (arith, h)))

-- A word that is stored elsewhere leaves a byte.
pub store-byte :
    (m : Memory) (w v a : ℕ) → (a < w) ⊎ (w + 4 ≤ a) → w + 4 ≤ 2 ^ 32 → store32 m w v a ≡ m a
store-byte m w v a off fits =
    store32_frame m w v a (λ e. ne 0 (omega arith) (omega (arith, e))) (ne 1 (omega arith))
      (ne 2 (omega arith)) (ne 3 (omega arith))
  where
    ne : (k : ℕ) → k < 4 → a ≢ u32 (w + k)
    ne k hk e = elim off [
      | inl h ↦ omega (arith, h, e, fits, hk)
      | inr h ↦ omega (arith, h, e, fits, hk)
    ]

-- A call: the stack lies in [lo, top), the values of ebx, esi and edi on entry, and the return address; and
-- a byte of memory that is watched, with its value on entry.
pub record Entry : Type 0 where
  pub lo : ℕ
  pub top : ℕ
  pub ebx : ℕ
  pub esi : ℕ
  pub edi : ℕ
  pub eip : ℕ
  pub watched : ℕ
  pub byte : ℕ

module _ (f : Entry) where
  -- A word that meets neither the stack nor the watched byte.
  abbrev pub IsAway : ℕ → Type 0
  IsAway w =
      ((w + 4 ≤ f.lo) ⊎ (f.top ≤ w)) × ((w + 4 ≤ 2 ^ 32) × ((f.watched < w) ⊎ (w + 4 ≤ f.watched)))

  abbrev pub Has : Ty → ℕ → Type 0
  Has Ty.saved_ebx w = w ≡ f.ebx
  Has Ty.saved_esi w = w ≡ f.esi
  Has Ty.saved_edi w = w ≡ f.edi
  Has Ty.return_address w = w ≡ f.eip
  Has Ty.away w = IsAway w
  Has Ty.any w = Unit

  abbrev pub Slots : Memory → ℕ → List Ty → Type 0
  Slots m p [] = Unit
  Slots m p (ty ∷ tys) = Has ty (u32 (load32 m p)) × Slots m (p + 4) tys

  -- Two memories with the same bytes there hold the same words there.
  pub same-Slots :
      (m m' : Memory) (p : ℕ) (tys : List Ty)
      → ((a : ℕ) → p ≤ a → a < p + 4 * length tys → m' a ≡ m a)
      → p + 4 * length tys ≤ 2 ^ 32
      → Slots m p tys
      → Slots m' p tys
  same-Slots m m' p [] same fits h = tt
  same-Slots m m' p (ty ∷ tys) same fits (h, hs) = (
    rw (same-load32 m m' p (λ a l g. same a l (omega (arith, g))) (omega (arith, fits))) h,
    same-Slots m m' (p + 4) tys (λ a l g. same a (omega (arith, l)) (omega (arith, g)))
        (omega (arith, fits)) hs,
  )

  -- A word that is stored away from them leaves the words.
  pub store-Slots :
      (m : Memory) (p w v : ℕ) (tys : List Ty)
      → (w + 4 ≤ p) ⊎ (p + 4 * length tys ≤ w)
      → w + 4 ≤ 2 ^ 32
      → p + 4 * length tys ≤ 2 ^ 32
      → Slots m p tys
      → Slots (store32 m w v) p tys
  store-Slots m p w v tys off fits_w fits =
      same-Slots m (store32 m w v) p tys (store-bytes m p (4 * length tys) w v off fits_w fits) fits

  -- The word at an index.
  pub slot-Slots :
      (m : Memory) (p : ℕ) (tys : List Ty) (k : ℕ)
      → p + 4 * length tys ≤ 2 ^ 32
      → Slots m p tys
      → Has (get_or tys k Ty.any) (u32 (load32 m (u32 (p + 4 * k))))
  slot-Slots m p [] k fits h = tt
  slot-Slots m p (ty ∷ tys) zero fits h =
      let e : u32 (p + 4 * 0) ≡ p = omega (arith, fits) in rw (e) (h.0)
  slot-Slots m p (ty ∷ tys) (suc k) fits h =
      let e : u32 (p + 4 * suc k) ≡ u32 (p + 4 + 4 * k) = omega arith in
      rw (e) (slot-Slots m (p + 4) tys k (omega (arith, fits)) h.1)

  -- A word of the stack is overwritten.
  pub overwrite-Slots :
      (m : Memory) (p a v : ℕ) (tys : List Ty) (k : ℕ)
      → a ≡ p + 4 * k
      → p + 4 * length tys ≤ 2 ^ 32
      → a + 4 ≤ 2 ^ 32
      → Slots m p tys
      → Slots (store32 m a v) p (set tys k Ty.any)
  overwrite-Slots m p a v [] k e fits fits_a h = tt
  overwrite-Slots m p a v (ty ∷ tys) zero e fits fits_a h =
      (tt, store-Slots m (p + 4) a v tys (inl (omega (arith, e))) fits_a (omega (arith, fits)) h.1)
  overwrite-Slots m p a v (ty ∷ tys) (suc k) e fits fits_a h = (
    rw
        (same-load32 m (store32 m a v) p
          (store-bytes m p 4 a v (inr (omega (arith, e))) fits_a (omega (arith, fits)))
          (omega (arith, fits)))
        h.0,
    overwrite-Slots m (p + 4) a v tys k (omega (arith, e)) (omega (arith, fits)) fits_a h.1,
  )

  -- A push.
  pub push-Slots :
      (m : Memory) (q p w : ℕ) (ty : Ty) (tys : List Ty)
      → q + 4 ≡ p
      → p + 4 * length tys ≤ 2 ^ 32
      → w < 2 ^ 32
      → Has ty w
      → Slots m p tys
      → Slots (store32 m q w) q (ty ∷ tys)
  push-Slots m q p w ty tys e fits small has h =
      let top_word : u32 (load32 (store32 m q w) q) ≡ w =
        omega (arith, load32-store32 m q w small, small) in
      (
        rw (top_word) has,
        rw (e) (store-Slots m p q w tys (inl (omega (arith, e))) (omega (arith, e, fits)) fits h),
      )

  -- Words that are made room for, and words that are given up.
  pub reserve-Slots :
      (m : Memory) (q p n : ℕ) (tys : List Ty)
      → q + 4 * n ≡ p
      → Slots m p tys
      → Slots m q (replicate n Ty.any ++ tys)
  reserve-Slots m q p zero tys e h = let same : q ≡ p = omega (arith, e) in rw (same) h
  reserve-Slots m q p (suc n) tys e h = (tt, reserve-Slots m (q + 4) p n tys (omega (arith, e)) h)

  pub skip-Slots :
      (m : Memory) (q p n : ℕ) (tys : List Ty)
      → q ≡ p + 4 * n
      → Slots m p tys
      → Slots m q (skip n tys)
  skip-Slots m q p zero tys e h = let same : q ≡ p = omega (arith, e) in rw (same) h
  skip-Slots m q p (suc n) [] e h = tt
  skip-Slots m q p (suc n) (ty ∷ tys) e h = skip-Slots m q (p + 4) n tys (omega (arith, e)) h.1
