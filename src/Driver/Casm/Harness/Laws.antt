-- ===== src/Driver/Casm/Harness/Laws.antt =====
-- The harness: a driver whose function obeys the calling convention passes its assertions.
use uberspark.Base.{
  ℕ, All, ◌⊎◌, ◌+◌, ◌*◌, ◌≤◌, ◌<◌, ◌≡◌, refl, ap, sym, ◌∙◌, subst, arith, List, [], ◌∷◌, ◌++◌,
  length, true, ◌&&◌, Option, some,
}
use mathlib.Core.Option
use uberspark.Hwm.Cpu.{Cpu}
use uberspark.Hwm.Cpu.Insn.{Insn, run, exec}
use uberspark.Hwm.Cpu.Jump.{ret}
use uberspark.Hwm.Cpu.Ranges.{InRange}
use uberspark.Driver.Casm.{casm_call, casm_ret_eip, param_teardown}
use uberspark.Driver.Casm.Abi.{Ty}
use uberspark.Driver.Casm.Abi.Slots.{Entry}
use uberspark.Driver.Casm.Abi.Convention.{
  obeys, entry, Params, Preserved, inside, casm_call-Preserved,
}
use uberspark.Driver.Casm.Harness.{
  Harness, cabi_establish, cabi_check, Driver, casm_call_of, drive, drive_all, and_then,
}

-- A driver that returns with its assertions true and with the stack pointer and the program counter as
-- the harness wants them.
pub record Safe (watched : ℕ) (d : Driver) (h : Harness) : Type 0 where
  pub after : Harness
  pub driven : drive d h ≡ some (true, after)
  pub after_in_range : InRange after.cpu
  pub esp_restored : after.cpu.esp ≡ h.cpu.esp
  pub eip_restored : after.cpu.eip ≡ casm_ret_eip
  pub watched_kept : after.cpu.machine.obj watched ≡ h.cpu.machine.obj watched

established-InRange : (h : Harness) → InRange h.cpu → InRange (cabi_establish h).cpu
unfolding cabi_establish
established-InRange h r = ground arith

Preserved-Safe :
    (watched : ℕ) (d : Driver) (h : Harness) (t : Cpu)
    → casm_call_of d (cabi_establish h).cpu ≡ some t
    → Preserved watched (cabi_establish h).cpu t
    → Safe watched d h
unfolding cabi_establish drive cabi_check
Preserved-Safe watched d h t e p = record {
  after = record (cabi_establish h) { cpu = t };
  driven = rw (e) (
      ap (λ b. some (b, record (cabi_establish h) { cpu = t }))
        (rw (p.ebx_kept, p.esi_kept, p.edi_kept) refl));
  after_in_range = p.kept_in_range;
  esp_restored = p.esp_kept;
  eip_restored = p.eip_back;
  watched_kept = p.byte_kept;
}

-- The code that a body amounts to in a state.
pub record Straight (body : Cpu → Option Cpu) (tys : List Ty) (s : Cpu) : Type 0 where
  pub code : List Insn
  pub accepted : obeys code 8 tys ≡ true
  pub amounts : body s ≡ some (ret (run code s))

pub Straight-Safe :
    (lo watched : ℕ) (h : Harness) (d : Driver) (tys : List Ty)
    → InRange h.cpu
    → (watched < lo) ⊎ (h.cpu.esp ≤ watched)
    → lo + 4 * (9 + length d.params) ≤ h.cpu.esp
    → length d.params ≡ length tys
    → Params (entry lo watched (cabi_establish h).cpu) d.params tys
    → Straight d.body tys (inside d.params (cabi_establish h).cpu)
    → Safe watched d h
unfolding casm_call_of casm_call inside exec cabi_establish
Straight-Safe lo watched h d tys r out space same fit st =
    let s = (cabi_establish h).cpu in
    Preserved-Safe watched d h (casm_call d.params (λ u. ret (run st.code u)) s)
      (ap (Option.map (param_teardown d.params)) st.amounts)
      (casm_call-Preserved lo watched 8 s st.code d.params tys st.accepted same
        (established-InRange h r) out space fit)

-- A driver that is safe in every state of the harness with the stack pointer at the top.
abbrev pub Conforms : ℕ → ℕ → Driver → Type 0
Conforms watched top d = (h : Harness) → InRange h.cpu → h.cpu.esp ≡ top → Safe watched d h

-- The call that a driver makes, and parameters of the types that a check assumed.
abbrev pub frame : ℕ → ℕ → ℕ → ℕ → Entry
frame watched byte lo top = record {
  lo = lo;
  top = top;
  ebx = 5;
  esi = 6;
  edi = 7;
  eip = casm_ret_eip;
  watched = watched;
  byte = byte;
}

pub Straight-Conforms :
    (watched lo top : ℕ) (d : Driver) (tys : List Ty)
    → (watched < lo) ⊎ (top ≤ watched)
    → lo + 4 * (9 + length d.params) ≤ top
    → length d.params ≡ length tys
    → ((byte : ℕ) → Params (frame watched byte lo top) d.params tys)
    → ((h : Harness) → InRange h.cpu → Straight d.body tys (inside d.params (cabi_establish h).cpu))
    → Conforms watched top d
unfolding cabi_establish
Straight-Conforms watched lo top d tys out space same fit st h r at_top =
    Straight-Safe lo watched h d tys r
      (subst (λ t. (watched < lo) ⊎ (t ≤ watched)) (sym at_top) out) (omega (arith, space, at_top))
      same
      (subst (λ t. Params (frame watched (h.cpu.machine.obj watched) lo t) d.params tys)
        (sym at_top) (fit (h.cpu.machine.obj watched)))
      (st h r)

-- The same of a list of drivers.
pub record SafeAll (ds : List Driver) (h : Harness) : Type 0 where
  pub last : Harness
  pub all_driven : drive_all ds h ≡ some (true, last)
  pub last_in_range : InRange last.cpu
  pub last_esp : last.cpu.esp ≡ h.cpu.esp
  pub last_eip : last.cpu.eip ≡ casm_ret_eip

after_driven :
    (d : Driver) (ds : List Driver) (h t u : Harness)
    → drive d h ≡ some (true, t)
    → drive_all ds t ≡ some (true, u)
    → drive_all (d ∷ ds) h ≡ some (true, u)
unfolding drive_all and_then
after_driven d ds h t u e g =
    ap (λ x. and_then x (drive_all ds)) e ∙ ap (Option.map (λ r. (true && r.0, r.1))) g

pub cons-SafeAll :
    (watched : ℕ) (d : Driver) (ds : List Driver) (h : Harness)
    → (first : Safe watched d h) → SafeAll ds first.after
    → SafeAll (d ∷ ds) h
unfolding drive_all
cons-SafeAll watched d ds h first rest = record {
  last = rest.last;
  all_driven = after_driven d ds h first.after rest.last first.driven rest.all_driven;
  last_in_range = rest.last_in_range;
  last_esp = rest.last_esp ∙ first.esp_restored;
  last_eip = rest.last_eip;
}

-- Drivers that conform, one after the other, and then others, which find the watched byte as it was.
pub conforming-SafeAll :
    (watched top : ℕ) (ds es : List Driver) (h : Harness)
    → All (Conforms watched top) ds
    → InRange h.cpu
    → h.cpu.esp ≡ top
    → h.cpu.eip ≡ casm_ret_eip
    → ((t : Harness)
        → InRange t.cpu
        → t.cpu.esp ≡ top
        → t.cpu.eip ≡ casm_ret_eip
        → t.cpu.machine.obj watched ≡ h.cpu.machine.obj watched
        → SafeAll es t)
    → SafeAll (ds ++ es) h
conforming-SafeAll watched top [] es h all r at_top back more = more h r at_top back refl
conforming-SafeAll watched top (d ∷ ds) es h (c, cs) r at_top back more =
    let first = c h r at_top in
    cons-SafeAll watched d (ds ++ es) h first (
      conforming-SafeAll watched top ds es first.after cs first.after_in_range
        (first.esp_restored ∙ at_top) first.eip_restored
        (λ t q e b k. more t q e b (k ∙ first.watched_kept)))

pub nothing-SafeAll : (h : Harness) → InRange h.cpu → h.cpu.eip ≡ casm_ret_eip → SafeAll [] h
unfolding drive_all
nothing-SafeAll h r back = record {
  last = h;
  all_driven = refl;
  last_in_range = r;
  last_esp = refl;
  last_eip = back;
}
