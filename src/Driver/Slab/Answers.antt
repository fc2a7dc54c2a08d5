-- ===== src/Driver/Slab/Answers.antt =====
-- The slab stubs: which answer a call gets.
use uberspark.Base.{
  ℕ, ◌+◌, ◌^◌, ◌≤◌, ◌<◌, ◌≡◌, ◌≢◌, ◌⊎◌, bit_or, bit_or-pow, bit, has-cases, inl, inr, refl, ap, ◌∙◌,
  arith, u32, sub32, has, true, false, ◌==◌, List, [], ◌∷◌, length,
}
use uberspark.Hwm.Obj.{Memory, load32, store32}
use uberspark.Hwm.Obj.Laws.{load32-store32, load32-store32_ne}
use uberspark.Hwm.Cpu.{Cpu, load, eflags_zf}
use uberspark.Hwm.Cpu.Insn.{exec, run}
use uberspark.Hwm.Cpu.System.{hlt}
use uberspark.Driver.Slab.{
  Outcome, jmpxsentinel, answer_insns, compared, dispatch, call_vft_to_vft_prog, call_intercept,
  call_exception, call_uvt_uvu_prog_to_vft_prog,
}

-- A word that is stored, and one that is stored elsewhere.
stored : (m : Memory) (p v : ℕ) → v < 2 ^ 32 → u32 (load32 (store32 m p v) p) ≡ v
stored m p v h = let back = load32-store32 m p v h in omega (arith, back, h)

elsewhere :
    (m : Memory) (p q v : ℕ)
    → (p + 4 ≤ q) ⊎ (q + 4 ≤ p)
    → p + 4 ≤ 2 ^ 32
    → q + 4 ≤ 2 ^ 32
    → u32 (load32 (store32 m p v) q) ≡ u32 (load32 m q)
elsewhere m p q v off hp hq =
    ap u32 (load32-store32_ne m p q v (omega (arith, hp)) (omega (arith, hq)) (around off))
  where
    around :
        (p + 4 ≤ q) ⊎ (q + 4 ≤ p)
        → ((p + 4 ≤ q) × (q + 4 ≤ p + 2 ^ 32)) ⊎ ((q + 4 ≤ p) × (p + 4 ≤ q + 2 ^ 32))
    around (inl h) = inl (h, omega (arith, hq))
    around (inr h) = inr (h, omega (arith, hp))

-- The memory after an answer.
abbrev pub swapped : Memory → ℕ → ℕ → Memory
swapped m p code =
    let marked = store32 m p code in
    store32 (store32 marked (p + 4) (u32 (load32 marked (p + 8)))) (p + 8)
      (u32 (load32 marked (p + 4)))

-- The three words that an answer changes.
swapped_lem :
    (m : Memory) (p code : ℕ)
    → p + 12 ≤ 2 ^ 32
    → code < 2 ^ 32
    → (u32 (load32 (swapped m p code) p) ≡ code)
      × (u32 (load32 (swapped m p code) (p + 4)) ≡ u32 (load32 m (p + 8)))
      × (u32 (load32 (swapped m p code) (p + 8)) ≡ u32 (load32 m (p + 4)))
swapped_lem m p code fits small =
    let marked = store32 m p code in
    let src = u32 (load32 marked (p + 4)) in
    let dst = u32 (load32 marked (p + 8)) in
    let half = store32 marked (p + 4) dst in
    (
      elsewhere half (p + 8) p src (inr (omega arith)) (omega (arith, fits)) (omega (arith, fits))
          ∙ elsewhere marked (p + 4) p dst (inr (omega arith)) (omega (arith, fits))
              (omega (arith, fits))
          ∙ stored m p code small,
      elsewhere half (p + 8) (p + 4) src (inr (omega arith)) (omega (arith, fits))
            (omega (arith, fits))
          ∙ stored marked (p + 4) dst (omega arith)
          ∙ elsewhere m p (p + 8) code (inl (omega arith)) (omega (arith, fits))
              (omega (arith, fits)),
      stored half (p + 8) src (omega arith)
          ∙ elsewhere m p (p + 4) code (inl (omega arith)) (omega (arith, fits))
              (omega (arith, fits)),
    )

-- What the verification driver finds when it is called: the answer to the call, and the two slabs in
-- each other's place. `more` further callbacks follow.
pub record Answered (code more p : ℕ) (m : Memory) (o : Outcome) : Type 0 where
  pub seen : Cpu
  pub others : List Cpu
  pub called : o.callbacks ≡ seen ∷ others
  pub how_many : length others ≡ more
  pub ctype_answered : load seen p ≡ code
  pub src_swapped : load seen (p + 4) ≡ u32 (load32 m (p + 8))
  pub dst_swapped : load seen (p + 8) ≡ u32 (load32 m (p + 4))

-- The code of a label, run with the parameters in eax.
answer-Answered :
    (code more p : ℕ) (s : Cpu) (next : Cpu → Outcome)
    → s.eax ≡ p
    → p + 12 ≤ 2 ^ 32
    → code < 2 ^ 32
    → ((t : Cpu) → length (next t).callbacks ≡ more)
    → Answered code more p s.machine.obj (jmpxsentinel next (run (answer_insns code) s))
unfolding run exec
answer-Answered code more p s next at fits small after =
    let t = run (answer_insns code) s in
    let a0 : u32 (s.eax + 0) ≡ p = omega (arith, at, fits) in
    let a4 : u32 (s.eax + 4) ≡ p + 4 = omega (arith, at, fits) in
    let a8 : u32 (s.eax + 8) ≡ p + 8 = omega (arith, at, fits) in
    let memory : t.machine.obj ≡ swapped s.machine.obj p code = rw (a0, a4, a8) refl in
    let three = swapped_lem s.machine.obj p code fits small in
    record {
      seen = t;
      others = (next (hlt t)).callbacks;
      called = refl;
      how_many = after (hlt t);
      ctype_answered = ap (λ (m : Memory). u32 (load32 m p)) memory ∙ three.0;
      src_swapped = ap (λ (m : Memory). u32 (load32 m (p + 4))) memory ∙ three.1;
      dst_swapped = ap (λ (m : Memory). u32 (load32 m (p + 8))) memory ∙ three.2;
    }

zf_set : (x : ℕ) → has (bit_or x eflags_zf) eflags_zf ≡ true
zf_set x = elim (has-cases 6 (bit_or x 64)) [ inl e ↦ e.0 | inr e ↦ elim (not_clear e.1) [ ] ]
  where
    not_clear : bit (bit_or x 64) 6 ≡ 0 → ⊥
    not_clear z = omega (arith, bit_or-pow 6 x, z)

-- A comparison with the call in the parameters, when ZF was clear before.
module _ (code p : ℕ) (s : Cpu) (at : s.eax ≡ p) (fits : p + 12 ≤ 2 ^ 32)
    (small : code < 2 ^ 32) where
  equal : load s p ≡ code → compared code s ≡ record s { eflags = bit_or s.eflags eflags_zf }
  unfolding run exec
  equal e =
      let a0 : u32 (s.eax + 0) ≡ p = omega (arith, at, fits) in
      let zero_diff : (sub32 (load s p) (u32 code) == 0) ≡ true = ground (arith, e, small) in
      rw (a0, zero_diff) refl

  unequal : load s p ≢ code → compared code s ≡ s
  unfolding run exec
  unequal ne =
      let a0 : u32 (s.eax + 0) ≡ p = omega (arith, at, fits) in
      let diff : (sub32 (load s p) (u32 code) == 0) ≡ false = ground (arith, ne, small) in
      rw (a0, diff) refl

-- No call: the stub returns to the address on the stack and changes nothing but eax.
pub record ReturnsTo (s : Cpu) (o : Outcome) : Type 0 where
  pub silent : o.callbacks ≡ []
  pub eip_popped : o.final.eip ≡ load s s.esp
  pub esp_popped : o.final.esp ≡ u32 (s.esp + 4)
  pub memory_kept : o.final.machine ≡ s.machine

module _ (s : Cpu) (p : ℕ) (param : load s (u32 (s.esp + 4)) ≡ p) (fits : p + 12 ≤ 2 ^ 32)
    (clear_zf : has s.eflags eflags_zf ≡ false) where
  abbrev loaded : Cpu
  loaded = record s { eax = load s (u32 (s.esp + 4)) }

  abbrev flagged : Cpu
  flagged = record loaded { eflags = bit_or s.eflags eflags_zf }

  from_prog : load s p ≡ 8 → Answered 9 2 p s.machine.obj (dispatch s)
  unfolding dispatch run exec call_uvt_uvu_prog_to_vft_prog call_exception call_intercept
      call_vft_to_vft_prog
  from_prog e =
      let first : compared 8 loaded ≡ flagged = equal 8 p loaded param fits (omega arith) e in
      rw (first, zf_set s.eflags)
        (answer-Answered 9 2 p flagged call_exception param fits (omega arith) (λ t. refl))

  exception : load s p ≡ 4 → Answered 5 1 p s.machine.obj (dispatch s)
  unfolding dispatch run exec call_uvt_uvu_prog_to_vft_prog call_exception call_intercept
      call_vft_to_vft_prog
  exception e =
      let first : compared 8 loaded ≡ loaded =
        unequal 8 p loaded param fits (omega arith) (λ g. omega (arith, e, g)) in
      let second : compared 4 loaded ≡ flagged = equal 4 p loaded param fits (omega arith) e in
      rw (first, clear_zf, second, zf_set s.eflags)
        (answer-Answered 5 1 p flagged call_intercept param fits (omega arith) (λ t. refl))

  intercept : load s p ≡ 6 → Answered 7 0 p s.machine.obj (dispatch s)
  unfolding dispatch run exec call_uvt_uvu_prog_to_vft_prog call_exception call_intercept
      call_vft_to_vft_prog
  intercept e =
      let first : compared 8 loaded ≡ loaded =
        unequal 8 p loaded param fits (omega arith) (λ g. omega (arith, e, g)) in
      let second : compared 4 loaded ≡ loaded =
        unequal 4 p loaded param fits (omega arith) (λ g. omega (arith, e, g)) in
      let third : compared 6 loaded ≡ flagged = equal 6 p loaded param fits (omega arith) e in
      rw (first, clear_zf, second, clear_zf, third, zf_set s.eflags)
        (answer-Answered 7 0 p flagged call_vft_to_vft_prog param fits (omega arith) (λ t. refl))

  no_call : load s p ≢ 8 → load s p ≢ 4 → load s p ≢ 6 → ReturnsTo s (dispatch s)
  unfolding dispatch run exec call_uvt_uvu_prog_to_vft_prog call_exception call_intercept
      call_vft_to_vft_prog
  no_call a b c =
      let first : compared 8 loaded ≡ loaded = unequal 8 p loaded param fits (omega arith) a in
      let second : compared 4 loaded ≡ loaded = unequal 4 p loaded param fits (omega arith) b in
      let third : compared 6 loaded ≡ loaded = unequal 6 p loaded param fits (omega arith) c in
      rw (first, clear_zf, second, clear_zf, third, clear_zf)
        (record { silent = refl; eip_popped = refl; esp_popped = refl; memory_kept = refl })

-- After the slab's own code the entry stub answers the call that stands in the parameters then, if ZF is
-- clear: the verification driver is called first with the answer to a call from an unverified slab, an
-- exception or an intercept in the parameters, with the two slabs exchanged, and after it two, one and
-- no more times; for every other call the stub returns, with no callback.
pub dispatch_lem :
    (s : Cpu) (p : ℕ)
    → load s (u32 (s.esp + 4)) ≡ p
    → p + 12 ≤ 2 ^ 32
    → has s.eflags eflags_zf ≡ false
    → (load s p ≡ 8 → Answered 9 2 p s.machine.obj (dispatch s))
      × (load s p ≡ 4 → Answered 5 1 p s.machine.obj (dispatch s))
      × (load s p ≡ 6 → Answered 7 0 p s.machine.obj (dispatch s))
      × (load s p ≢ 8 → load s p ≢ 4 → load s p ≢ 6 → ReturnsTo s (dispatch s))
dispatch_lem s p param fits zf = (
  from_prog s p param fits zf,
  exception s p param fits zf,
  intercept s p param fits zf,
  no_call s p param fits zf,
)
