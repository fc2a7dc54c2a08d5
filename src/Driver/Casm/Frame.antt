-- ===== src/Driver/Casm/Frame.antt =====
-- src/hwm/include/xmhfhwm_cpu.h: the stack frame of a call. What was pushed is found again at its
-- place, and the accesses to system memory leave the stack alone.
use uberspark.Base.{
  ℕ, zero, suc, ◌+◌, ◌*◌, ◌^◌, ◌≤◌, ◌<◌, ◌≡◌, refl, ap, sym, ◌∙◌, arith, u32, sub32, List, [], ◌∷◌,
  ◌++◌, some, length, get_elem?,
}
use mathlib.Core.List.{append-nil, append_assoc}
use uberspark.Hwm.Obj.{Memory, load32, store32}
use uberspark.Hwm.Obj.Laws.{load32-store32, load32-store32_ne}
use uberspark.Hwm.Cpu.{Cpu, load}
use uberspark.Hwm.Sysmem.{Machine, sysmemread, sysmemwrite}
use uberspark.Hwm.Call.{Call}
use uberspark.Hwm.Cpu.Stack.{popl_esi, addl_imm_esp}
use uberspark.Hwm.Cpu.Jump.{ret}
use uberspark.Driver.Casm.{param_setup, param_teardown, casm_ret_eip}

pub param_setup-esp_lt : (ws : List ℕ) (s : Cpu) → s.esp < 2 ^ 32 → (param_setup ws s).esp < 2 ^ 32
unfolding param_setup
param_setup-esp_lt [] s h = h
param_setup-esp_lt (w ∷ ws) s h = omega arith

pub some-eq {ℓ} : {A : Type ℓ} {v w : A} → some v ≡ some w → v ≡ w
some-eq e = cc

top :
    (m : Memory) (p v w : ℕ)
    → p < 2 ^ 32
    → w < 2 ^ 32
    → v ≡ w
    → u32 (load32 (store32 m p v) (u32 (p + 0))) ≡ w
top m p v w hp hw e =
    let at_p : u32 (p + 0) ≡ p = omega arith in
    rw (at_p) (rw (e, load32-store32 m p w hw) (omega arith))

below :
    (m : Memory) (e k v : ℕ)
    → e < 2 ^ 32
    → 4 * k + 8 ≤ 2 ^ 32
    → u32 (load32 (store32 m (sub32 e 4) v) (u32 (sub32 e 4 + 4 * suc k)))
      ≡ u32 (load32 m (u32 (e + 4 * k)))
below m e k v he hk =
    let up : u32 (sub32 e 4 + 4 * suc k) ≡ u32 (e + 4 * k) = omega arith in
    rw (up) (
      ap u32 (
        load32-store32_ne m (sub32 e 4) (u32 (e + 4 * k)) v (omega arith) (omega arith)
          (omega arith)))

-- Each pushed word is read back at its place, as long as the frame does not meet itself.
pub load-param_setup :
    (ws : List ℕ) (k w : ℕ) (s : Cpu)
    → get_elem? ws k ≡ some w
    → w < 2 ^ 32
    → 4 * k + 4 ≤ 2 ^ 32
    → s.esp < 2 ^ 32
    → load (param_setup ws s) (u32 ((param_setup ws s).esp + 4 * k)) ≡ w
unfolding param_setup
load-param_setup [] k w s e hw hk hs = cc
load-param_setup (v ∷ ws) zero w s e hw hk hs =
    top (param_setup ws s).machine.obj (sub32 (param_setup ws s).esp 4) v w (omega arith) hw
      (some-eq e)
load-param_setup (v ∷ ws) (suc k) w s e hw hk hs =
    below (param_setup ws s).machine.obj (param_setup ws s).esp k v (param_setup-esp_lt ws s hs)
      (omega arith)
    ∙ load-param_setup ws k w s e hw (omega arith) hs

pub read-obj : (m : Machine) (a : ℕ) → (sysmemread m a).1.obj ≡ m.obj
unfolding sysmemread
read-obj m a = ground arith

pub write-obj : (m : Machine) (a v : ℕ) → (sysmemwrite m a v).obj ≡ m.obj
unfolding sysmemwrite
write-obj m a v = ground arith

pub read-obj_out :
    (m : Machine) (o : Memory) (a : ℕ)
    → sysmemread (record m { obj = o }) a
      ≡ ((sysmemread m a).0, record (sysmemread m a).1 { obj = o })
unfolding sysmemread
read-obj_out m o a = ground arith

pub write-obj_out :
    (m : Machine) (o : Memory) (a v : ℕ)
    → sysmemwrite (record m { obj = o }) a v ≡ record (sysmemwrite m a v) { obj = o }
unfolding sysmemwrite
write-obj_out m o a v = ground arith

-- What the teardown of a call reports: one move of the stack pointer for each parameter.
unfoldable pub teardown_calls : List ℕ → ℕ → List Call
teardown_calls [] e = []
teardown_calls (p ∷ ps) e = Call.writeesp e (u32 (e + 4)) ∷ teardown_calls ps (u32 (e + 4))

unfoldable pub with_stack : Cpu → ℕ → List Call → Cpu
with_stack t e cs = record t {
  esp = e;
  machine = record t.machine { calls = t.machine.calls ++ cs };
}

pub param_teardown_lem :
    (ps : List ℕ) (t : Cpu)
    → t.esp < 2 ^ 32
    → param_teardown ps t ≡ with_stack t (u32 (t.esp + 4 * length ps)) (teardown_calls ps t.esp)
unfolding param_teardown teardown_calls with_stack
param_teardown_lem [] t h =
    let kept : t.esp ≡ u32 (t.esp + 0) = omega arith in
    λ i. record t {
      esp = kept i;
      machine = record t.machine { calls = sym (append-nil t.machine.calls) i };
    }
param_teardown_lem (p ∷ ps) t h =
    let up : u32 (u32 (t.esp + 4) + 4 * length ps) ≡ u32 (t.esp + 4 * suc (length ps)) =
      omega arith in
    let e = u32 (t.esp + 4) in
    param_teardown_lem ps (addl_imm_esp 4 t) (omega arith) ∙ λ i. record t {
      esp = up i;
      machine = record t.machine {
        calls = append_assoc t.machine.calls (Call.writeesp t.esp e ∷ []) (teardown_calls ps e) i;
      };
    }

param_setup-esp :
    (ps : List ℕ) (s : Cpu) → s.esp < 2 ^ 32 → u32 ((param_setup ps s).esp + 4 * length ps) ≡ s.esp
unfolding param_setup
param_setup-esp [] s h = omega arith
param_setup-esp (p ∷ ps) s h = omega (arith, param_setup-esp ps s h, param_setup-esp_lt ps s h)

-- The end of a function that saved esi, and of its call: esi, the stack pointer and the return
-- address come off the stack, whatever the function did to eax, edx and the devices.
pub leave_lem :
    (s : Cpu) (ps : List ℕ) (a d x : ℕ) (m : Machine)
    → s.esp < 2 ^ 32
    → s.esi < 2 ^ 32
    → 4 * length ps + 8 ≤ 2 ^ 32
    → param_teardown ps (
        ret (
          popl_esi (record s {
            esi = x;
            eax = a;
            edx = d;
            esp = (param_setup (s.esi ∷ casm_ret_eip ∷ ps) s).esp;
            machine = record m { obj = (param_setup (s.esi ∷ casm_ret_eip ∷ ps) s).machine.obj };
          })))
      ≡ record s {
        eax = a;
        edx = d;
        eip = casm_ret_eip;
        machine = record m {
          obj = (param_setup (s.esi ∷ casm_ret_eip ∷ ps) s).machine.obj;
          calls = m.calls ++ teardown_calls ps (param_setup ps s).esp;
        };
      }
unfolding param_setup with_stack
leave_lem s ps a d x m hsp hsi hn =
    let f = param_setup (s.esi ∷ casm_ret_eip ∷ ps) s in
    let saved : load f (u32 (f.esp + 0)) ≡ s.esi =
      load-param_setup (s.esi ∷ casm_ret_eip ∷ ps) 0 s.esi s refl hsi (omega arith) hsp in
    let back : load f (u32 (f.esp + 4)) ≡ casm_ret_eip =
      load-param_setup (s.esi ∷ casm_ret_eip ∷ ps) 1 casm_ret_eip s refl (omega arith) (omega arith)
        hsp in
    let top_eq : u32 (f.esp + 0) ≡ f.esp = omega (arith, param_setup-esp_lt ps s hsp) in
    let out : u32 (u32 (f.esp + 4) + 4) ≡ (param_setup ps s).esp =
      omega (arith, param_setup-esp_lt ps s hsp) in
    let end : u32 ((param_setup ps s).esp + 4 * length ps) ≡ s.esp = param_setup-esp ps s hsp in
    let esi_back : load f f.esp ≡ s.esi = ap (load f) (sym top_eq) ∙ saved in
    let esp_back : u32 (u32 (u32 (f.esp + 4) + 4) + 4 * length ps) ≡ s.esp =
      ap (λ (e : ℕ). u32 (e + 4 * length ps)) out ∙ end in
    param_teardown_lem ps _ (omega arith) ∙ λ i. record s {
      eax = a;
      edx = d;
      esi = esi_back i;
      eip = back i;
      esp = esp_back i;
      machine = record m { obj = f.machine.obj; calls = m.calls ++ teardown_calls ps (out i) };
    }

-- The end of a function that saved nothing, and of its call.
pub leave_leaf_lem :
    (s t : Cpu) (ps : List ℕ)
    → s.esp < 2 ^ 32
    → 4 * length ps + 4 ≤ 2 ^ 32
    → t.esp ≡ (param_setup (casm_ret_eip ∷ ps) s).esp
    → t.machine.obj ≡ (param_setup (casm_ret_eip ∷ ps) s).machine.obj
    → param_teardown ps (ret t) ≡ record t {
      esp = s.esp;
      eip = casm_ret_eip;
      machine = record t.machine {
        calls = t.machine.calls ++ teardown_calls ps (param_setup ps s).esp;
      };
    }
unfolding param_setup with_stack
leave_leaf_lem s t ps hsp hn at_top kept =
    let f = param_setup (casm_ret_eip ∷ ps) s in
    let back : load f (u32 (f.esp + 0)) ≡ casm_ret_eip =
      load-param_setup (casm_ret_eip ∷ ps) 0 casm_ret_eip s refl (omega arith) (omega arith) hsp in
    let top_eq : t.esp ≡ u32 (f.esp + 0) = omega (arith, at_top, param_setup-esp_lt ps s hsp) in
    let eip_back : load t t.esp ≡ casm_ret_eip = (λ i. u32 (load32 (kept i) (top_eq i))) ∙ back in
    let out : u32 (t.esp + 4) ≡ (param_setup ps s).esp =
      omega (arith, at_top, param_setup-esp_lt ps s hsp) in
    let end : u32 (u32 (t.esp + 4) + 4 * length ps) ≡ s.esp =
      ap (λ (e : ℕ). u32 (e + 4 * length ps)) out ∙ param_setup-esp ps s hsp in
    param_teardown_lem ps _ (omega arith) ∙ λ i. record t {
      eip = eip_back i;
      esp = end i;
      machine = record t.machine { calls = t.machine.calls ++ teardown_calls ps (out i) };
    }
