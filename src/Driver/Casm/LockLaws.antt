-- ===== src/Driver/Casm/LockLaws.antt =====
-- src/libs/libxmhfhw/xmhfhw_cpu_spin{lock,unlock}.cS: who holds the lock keeps the others out, and
-- releasing it lets the next one in.
use uberspark.Base.{
  ℕ, zero, suc, ◌+◌, ◌%◌, ◌^◌, ◌<◌, ◌≡◌, inl, inr, refl, ap, sym, ◌∙◌, arith, u32, Option, some,
  none, true, false, has, clear, bit_or, not, bit_and_mask, bit_or-halves, bit_and-halves, ◌-◌,
  Bool-cases, bit_or-lt, bit_and-le,
}
use uberspark.Hwm.Obj.{Memory, load32, store32}
use uberspark.Hwm.Obj.Laws.{load32-store32}
use uberspark.Hwm.Cpu.{Cpu, load, store, eflags_cf}
use uberspark.Hwm.Cpu.Insn.{exec, run}
use uberspark.Hwm.Cpu.Jump.{ret, jnc}
use uberspark.Driver.Casm.Lock.{round, tested, locked, splock, spin_lock, spin_unlock}

-- The lock word of a processor that runs the loop, and of one that is called.
abbrev pub word : Cpu → ℕ
word c = load c (u32 (c.ecx + 0))

abbrev pub lock_at : Cpu → ℕ
lock_at s = load s (u32 (s.esp + 4))

pub odd-has : (x : ℕ) → x % 2 ≡ 1 → has x 1 ≡ true
odd-has x h = ground (arith, bit_and_mask 1 x)

even-has : (x : ℕ) → x % 2 ≡ 0 → has x 1 ≡ false
even-has x h = ground (arith, bit_and_mask 1 x)

has-set : (x : ℕ) → has (bit_or x 1) 1 ≡ true
has-set x = odd-has (bit_or x 1) (omega (arith, bit_or-halves x 1))

has-clear : (x : ℕ) → has (clear x 1) 1 ≡ false
has-clear x = even-has (clear x 1) (omega (arith, bit_and-halves x (2 ^ 32 - 1 - 1)))

tested-busy :
    (c : Cpu) → has (word c) 1 ≡ false → tested c ≡ record c { eflags = clear c.eflags eflags_cf }
unfolding tested run exec
tested-busy c h = rw (h) refl

-- The state between the two tests, and after them: bit 0 of the word is cleared.
abbrev pub found : Cpu → Cpu
found c = record c { eflags = bit_or c.eflags eflags_cf }

abbrev pub taken : Cpu → Cpu
taken c = store (found (found c)) (u32 (c.ecx + 0)) (clear (word c) 1)

pub tested-free : (c : Cpu) → has (word c) 1 ≡ true → tested c ≡ found c
unfolding tested run exec
tested-free c h = rw (h) refl

pub locked-free : (c : Cpu) → has (word c) 1 ≡ true → locked (found c) ≡ taken c
unfolding locked run exec
locked-free c h = rw (h) refl

round-retry : (again : Cpu → Option Cpu) (t u : Cpu) → jnc t ≡ true → round again t u ≡ again t
unfolding round
round-retry again t u h = rw (h, round) refl

round-done :
    (again : Cpu → Option Cpu) (t u : Cpu)
    → jnc t ≡ false
    → jnc u ≡ false
    → round again t u ≡ some (ret u)
unfolding round
round-done again t u h g = rw (h, g, round) refl

splock-busy : (fuel : ℕ) (c : Cpu) → has (word c) 1 ≡ false → splock fuel c ≡ none
unfolding splock
splock-busy zero c h = refl
splock-busy (suc fuel) c h =
    let t = record c { eflags = clear c.eflags eflags_cf } in
    ap (λ (t : Cpu). round (splock fuel) t (locked t)) (tested-busy c h)
    ∙ round-retry (splock fuel) t (locked t) (ap not (has-clear c.eflags))
    ∙ splock-busy fuel t h

splock-free :
    (fuel : ℕ) (c : Cpu) → has (word c) 1 ≡ true → splock (suc fuel) c ≡ some (ret (taken c))
unfolding splock
splock-free fuel c h =
    ap (λ (t : Cpu). round (splock fuel) t (locked t)) (tested-free c h)
    ∙ ap (round (splock fuel) (found c)) (locked-free c h)
    ∙ round-done (splock fuel) (found c) (taken c) (ap not (has-set c.eflags))
        (ap not (has-set (bit_or c.eflags eflags_cf)))

-- The word that is read back where a word was stored.
stored-word : (m : Memory) (p v : ℕ) → v < 2 ^ 32 → u32 (load32 (store32 m p v) p) ≡ v
stored-word m p v h = omega (arith, load32-store32 m p v h)

module _ (s : Cpu) where
  abbrev pub called : Cpu
  called = record s { ecx = lock_at s }

  lock_lt : u32 (lock_at s + 0) ≡ lock_at s
  lock_lt = omega arith

  -- What `spin_lock` does, by bit 0 of the lock word.
  pub spin_lock-free :
      (fuel : ℕ)
      → has (load s (lock_at s)) 1 ≡ true
      → spin_lock (suc fuel) s ≡ some (ret (taken called))
  unfolding spin_lock run exec
  spin_lock-free fuel h = splock-free fuel called (ap (λ (p : ℕ). has (load s p) 1) lock_lt ∙ h)

  pub spin_lock-busy : (fuel : ℕ) → has (load s (lock_at s)) 1 ≡ false → spin_lock fuel s ≡ none
  unfolding spin_lock run exec
  spin_lock-busy fuel h = splock-busy fuel called (ap (λ (p : ℕ). has (load s p) 1) lock_lt ∙ h)

-- Two processors with the same memory that were called with the same lock.
module _ (s u v : Cpu) (same : u.machine.obj ≡ v.machine.obj) (lock : lock_at u ≡ lock_at s) where
  reads_as : load u (lock_at u) ≡ load v (lock_at s)
  reads_as = λ i. u32 (load32 (same i) (lock i))

-- What stands at the lock after the store of a new word.
stored-lock :
    (s : Cpu) (v : ℕ) → v < 2 ^ 32 → load (store s (u32 (lock_at s + 0)) v) (lock_at s) ≡ v
stored-lock s v h =
    ap (λ (p : ℕ). u32 (load32 (store32 s.machine.obj (u32 (lock_at s + 0)) v) p)) (sym (lock_lt s))
    ∙ stored-word s.machine.obj (u32 (lock_at s + 0)) v h

-- If `spin_lock` returned, then for every processor that sees the memory it left and asks for the
-- same lock, `spin_lock` does not return, whatever the number of rounds.
pub spin_lock-excludes :
    (s t u : Cpu) (n k : ℕ)
    → spin_lock n s ≡ some t
    → u.machine.obj ≡ t.machine.obj
    → lock_at u ≡ lock_at s
    → spin_lock k u ≡ none
unfolding spin_lock splock
spin_lock-excludes s t u zero k got same lock = cc
spin_lock-excludes s t u (suc n) k got same lock = elim (Bool-cases (has (load s (lock_at s)) 1)) [
  | inr f ↦ let busy = spin_lock-busy s (suc n) f in cc
  | inl h ↦
      let v = clear (word (record s { ecx = lock_at s })) 1 in
      let left : t.machine.obj ≡ store32 s.machine.obj (u32 (lock_at s + 0)) v =
        obj-eq (sym got ∙ spin_lock-free s n h) in
      spin_lock-busy u k (
        ap (λ (w : ℕ). has w 1)
          (reads_as s u (store s (u32 (lock_at s + 0)) v) (same ∙ left) lock
            ∙ stored-lock s v (clear-lt _))
        ∙ has-clear (word (record s { ecx = lock_at s })))
]
  where
    obj-eq : {a b : Cpu} → some a ≡ some b → a.machine.obj ≡ b.machine.obj
    obj-eq e = cc

    clear-lt : (x : ℕ) → clear (u32 x) 1 < 2 ^ 32
    clear-lt x = omega (arith, bit_and-le (u32 x) (2 ^ 32 - 1 - 1))

-- For every processor that sees the memory that `spin_unlock` left and asks for the same lock,
-- `spin_lock` returns in its first round.
pub spin_unlock-admits :
    (s u : Cpu) (n : ℕ)
    → u.machine.obj ≡ (spin_unlock s).machine.obj
    → lock_at u ≡ lock_at s
    → (t : Cpu) × (spin_lock (suc n) u ≡ some t)
unfolding spin_unlock exec run
spin_unlock-admits s u n same lock =
    let c = record s { ecx = lock_at s } in
    elim (Bool-cases (has (word c) 1)) [
      | inl h ↦
          let kept : (spin_unlock s).machine.obj ≡ s.machine.obj = rw (h) refl in
          (
            _,
            spin_lock-free u n (
                ap (λ (w : ℕ). has w 1)
                  (reads_as s u s (same ∙ kept) lock ∙ ap (load s) (sym (lock_lt s)))
                ∙ h),
          )
      | inr f ↦
          let v = bit_or (word c) 1 in
          let left : (spin_unlock s).machine.obj ≡ store32 s.machine.obj (u32 (lock_at s + 0)) v =
            rw (f) refl in
          (
            _,
            spin_lock-free u n (
                ap (λ (w : ℕ). has w 1)
                  (reads_as s u (store s (u32 (lock_at s + 0)) v) (same ∙ left) lock
                    ∙ stored-lock s v (bit_or-lt 32 (word c) 1 (omega arith) (omega arith)))
                ∙ has-set (word c)),
          )
    ]
