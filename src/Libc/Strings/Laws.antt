-- ===== src/Libc/Strings/Laws.antt =====
-- src/libs/libxmhfc: the functions on strings against those with a limit, and what a search and a copy of a
-- string give.
use uberspark.Base.{
  ℕ, zero, suc, ◌+◌, ◌≤◌, ◌<◌, ◌≡◌, ◌≢◌, subst, ◌⊎◌, inl, inr, refl, ap, sym, ◌∙◌, arith, u8, u32,
  sub32, ◌==◌, Option, some, Bool-cases,
}
use mathlib.Core.Option
use uberspark.Hwm.Obj.{Memory}
use uberspark.Libc.{strncmp, strnlen, scan}
use uberspark.Libc.Strings.{strcmp, strlen, scan_to_end, strchr}

strcmp-strncmp :
    (k fuel n : ℕ) (m : Memory) (c1 c2 : ℕ)
    → m (u32 (c1 + k)) ≡ 0
    → k < fuel
    → k < n
    → strcmp fuel m c1 c2 ≡ some (strncmp n m c1 c2)
unfolding strcmp strncmp
strcmp-strncmp k zero n m c1 c2 e h g = ground arith
strcmp-strncmp k (suc fuel) zero m c1 c2 e h g = ground arith
strcmp-strncmp zero (suc fuel) (suc n) m c1 c2 e h g =
    let here : u32 (c1 + 0) ≡ u32 c1 = omega arith in
    let ends : m (u32 c1) ≡ 0 = sym (ap m here) ∙ e in ground (arith, ends)
strcmp-strncmp (suc k) (suc fuel) (suc n) m c1 c2 e h g =
    let next : u32 (c1 + 1 + k) ≡ u32 (c1 + suc k) = omega arith in
    let rest =
      strcmp-strncmp k fuel n m (c1 + 1) (c2 + 1) (ap m next ∙ e) (omega (arith, h))
        (omega (arith, g)) in
    ground (arith, rest)

scan_to_end-scan :
    (k fuel n : ℕ) (m : Memory) (s : ℕ)
    → m (u32 (s + k)) ≡ 0
    → k < fuel
    → k ≤ n
    → scan_to_end fuel m s ≡ some (scan n m s)
unfolding scan_to_end scan
scan_to_end-scan k zero n m s e h g = ground arith
scan_to_end-scan zero (suc fuel) zero m s e h g =
    let here : u32 (s + 0) ≡ u32 s = omega arith in
    let ends : m (u32 s) ≡ 0 = sym (ap m here) ∙ e in ground (arith, ends)
scan_to_end-scan zero (suc fuel) (suc n) m s e h g =
    let here : u32 (s + 0) ≡ u32 s = omega arith in
    let ends : m (u32 s) ≡ 0 = sym (ap m here) ∙ e in ground (arith, ends)
scan_to_end-scan (suc k) (suc fuel) zero m s e h g = ground arith
scan_to_end-scan (suc k) (suc fuel) (suc n) m s e h g =
    let next : u32 (s + 1 + k) ≡ u32 (s + suc k) = omega arith in
    let rest =
      scan_to_end-scan k fuel n m (s + 1) (ap m next ∙ e) (omega (arith, h)) (omega (arith, g)) in
    ground (arith, rest)

-- The functions without a limit agree with those that have one: on a string that has a zero byte
-- at place k, k + 1 rounds are enough, and for every larger number of rounds and every limit
-- beyond k, `strcmp` returns what `strncmp` does, and `strlen` what `strnlen` does.
pub strcmp-strlen_lem :
    (k fuel n : ℕ) (m : Memory) (s t : ℕ)
    → m (u32 (s + k)) ≡ 0
    → k < fuel
    → k < n
    → (strcmp fuel m s t ≡ some (strncmp n m s t)) × (strlen fuel m s ≡ some (strnlen m s n))
unfolding strlen strnlen
strcmp-strlen_lem k fuel n m s t e h g = (
  strcmp-strncmp k fuel n m s t e h g,
  ap (Option.map (λ ss. sub32 ss s)) (scan_to_end-scan k fuel n m s e h (omega (arith, g))),
)

-- The first place of a byte in a string, before its end or at it.
pub record FirstAt (m : Memory) (s c i : ℕ) : Type 0 where
  pub found : m (u32 (s + i)) ≡ c
  pub none_before : (j : ℕ) → j < i → (m (u32 (s + j)) ≢ c) × (m (u32 (s + j)) ≢ 0)

-- The byte does not stand in the string, whose end is at place i.
pub record Nowhere (m : Memory) (s c i : ℕ) : Type 0 where
  pub ends : m (u32 (s + i)) ≡ 0
  pub not_found : (j : ℕ) → j ≤ i → m (u32 (s + j)) ≢ c

abbrev pub Searched : Memory → ℕ → ℕ → ℕ → Option ℕ → Type 0
Searched m s c k r =
    ((i : ℕ) × (i ≤ k) × (r ≡ some (s + i)) × FirstAt m s (u8 c) i)
    ⊎ ((i : ℕ) × (i ≤ k) × (r ≡ some 0) × Nowhere m s (u8 c) i)

-- What holds at an address and at those behind it.
shift_all :
    (P : ℕ → Type 0) (s i : ℕ)
    → P (u32 s)
    → ((j : ℕ) → j < i → P (u32 (s + 1 + j)))
    → (j : ℕ) → j < suc i
    → P (u32 (s + j))
shift_all P s i h f zero l = let e : u32 s ≡ u32 (s + 0) = omega arith in subst P e h
shift_all P s i h f (suc j) l =
    let e : u32 (s + 1 + j) ≡ u32 (s + suc j) = omega arith in subst P e (f j (omega (arith, l)))

-- One byte further on.
later-Searched :
    (m : Memory) (s c k : ℕ) (r : Option ℕ)
    → m (u32 s) ≢ u8 c
    → m (u32 s) ≢ 0
    → Searched m (s + 1) c k r
    → Searched m s c (suc k) r
later-Searched m s c k r ne more (inl (i, l, e, f)) =
    let at : u32 (s + 1 + i) ≡ u32 (s + suc i) = omega arith in
    let place : s + 1 + i ≡ s + suc i = omega arith in
    inl (
      suc i,
      omega (arith, l),
      e ∙ ap some place,
      record {
        found = sym (ap m at) ∙ f.found;
        none_before = shift_all (λ a. (m a ≢ u8 c) × (m a ≢ 0)) s i (ne, more) f.none_before;
      },
    )
later-Searched m s c k r ne more (inr (i, l, e, f)) =
    let at : u32 (s + 1 + i) ≡ u32 (s + suc i) = omega arith in
    inr (
      suc i,
      omega (arith, l),
      e,
      record {
        ends = sym (ap m at) ∙ f.ends;
        not_found = λ j g.
            shift_all (λ a. m a ≢ u8 c) s (suc i) ne (λ k h. f.not_found k (omega (arith, h))) j
              (omega (arith, g));
      },
    )

-- The two ways in which the search ends at once.
found-Searched : (m : Memory) (s c k : ℕ) → m (u32 s) ≡ u8 c → Searched m s c k (some s)
found-Searched m s c k f =
    let at : u32 (s + 0) ≡ u32 s = omega arith in
    let place : s ≡ s + 0 = omega arith in
    inl (
      0,
      omega arith,
      ap some place,
      record { found = ap m at ∙ f; none_before = λ j l. elim (none_less j l) [ ] },
    )
  where
    none_less : (j : ℕ) → j < 0 → ⊥
    none_less j l = omega (arith, l)

ended-Searched :
    (m : Memory) (s c k : ℕ) → m (u32 s) ≢ u8 c → m (u32 s) ≡ 0 → Searched m s c k (some 0)
ended-Searched m s c k ne z =
    let at : u32 (s + 0) ≡ u32 s = omega arith in
    inr (
      0,
      omega arith,
      refl,
      record {
        ends = ap m at ∙ z;
        not_found = λ j l.
            shift_all (λ a. m a ≢ u8 c) s 0 ne (λ k h. elim (none_less k h) [ ]) j
              (omega (arith, l));
      },
    )
  where
    none_less : (j : ℕ) → j < 0 → ⊥
    none_less j l = omega (arith, l)

-- `strchr` returns on every string, with the address of the first byte that equals the character,
-- which may be the end of the string, or with the null pointer if there is none.
pub strchr_lem :
    (k fuel : ℕ) (m : Memory) (s c : ℕ)
    → m (u32 (s + k)) ≡ 0
    → k < fuel
    → Searched m s c k (strchr fuel m s c)
unfolding strchr
strchr_lem k zero m s c e h = elim (none_less h) [ ]
  where
    none_less : k < 0 → ⊥
    none_less l = omega (arith, l)
strchr_lem k (suc fuel) m s c e h = elim (Bool-cases (m (u32 s) == u8 c)) [
  | inl f ↦ rw (f) (found-Searched m s c k (ground (arith, f)))
  | inr f ↦ elim (Bool-cases (m (u32 s) == 0)) [
    | inl z ↦ rw (f, z) (ended-Searched m s c k (ground (arith, f)) (ground (arith, z)))
    | inr z ↦
        rw (f, z)
          (onwards k e h (ground (arith, f)) (ground (arith, z))
            (λ k g l. strchr_lem k fuel m (s + 1) c g l))
  ]
]
  where
    onwards :
        (k : ℕ)
        → m (u32 (s + k)) ≡ 0
        → k < suc fuel
        → m (u32 s) ≢ u8 c
        → m (u32 s) ≢ 0
        → ((k : ℕ)
            → m (u32 (s + 1 + k)) ≡ 0
            → k < fuel
            → Searched m (s + 1) c k (strchr fuel m (s + 1) c))
        → Searched m s c k (strchr fuel m (s + 1) c)
    onwards zero e h ne more rest =
        let at : u32 (s + 0) ≡ u32 s = omega arith in elim (more (sym (ap m at) ∙ e)) [ ]
    onwards (suc k) e h ne more rest =
        let at : u32 (s + 1 + k) ≡ u32 (s + suc k) = omega arith in
        later-Searched m s c k _ ne more (rest k (ap m at ∙ e) (omega (arith, h)))
