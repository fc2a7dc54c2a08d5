-- ===== src/Libc/Strings.antt =====
-- src/libs/libxmhfc/{strcmp,strlen,strchr,strncpy}.c: the functions on strings that end in a zero byte. A
-- loop without a length runs on fuel, one round for each byte that it looks at.
pub mod Laws
use uberspark.Base.{ℕ, zero, suc, ◌+◌, u8, u32, sub32, ◌==◌, if◌then◌else◌, Option, none, some}
use mathlib.Core.Option
use uberspark.Hwm.Obj.{Memory, store8}
use uberspark.Libc.{int_of_char, fill}

-- The loop of strcmp: it ends at a difference or behind the end of the first string.
pub strcmp : ℕ → Memory → ℕ → ℕ → Option ℕ
strcmp zero m c1 c2 = none
strcmp (suc fuel) m c1 c2 =
    let d = sub32 (int_of_char (m (u32 c1))) (int_of_char (m (u32 c2))) in
    let rest = strcmp fuel m (c1 + 1) (c2 + 1) in
    if d == 0 then (if m (u32 c1) == 0 then some d else rest) else some d

-- `while (*ss) ss++;`: the pointer at which it stops.
pub scan_to_end : ℕ → Memory → ℕ → Option ℕ
scan_to_end zero m ss = none
scan_to_end (suc fuel) m ss =
    let rest = scan_to_end fuel m (ss + 1) in if m (u32 ss) == 0 then some ss else rest

pub strlen : ℕ → Memory → ℕ → Option ℕ
strlen fuel m s = Option.map (λ ss. sub32 ss s) (scan_to_end fuel m s)

-- The loop of strchr, whose result is a pointer or NULL.
pub strchr : ℕ → Memory → ℕ → ℕ → Option ℕ
strchr zero m s c = none
strchr (suc fuel) m s c =
    let rest = strchr fuel m (s + 1) c in
    if m (u32 s) == u8 c then some s else if m (u32 s) == 0 then some 0 else rest

-- The first loop of strncpy, and after its end the second one, which fills what is left.
pub strncpy : ℕ → Memory → ℕ → ℕ → Memory
strncpy zero m q p = m
strncpy (suc n) m q p =
    let copied = store8 m q (m (u32 p)) in
    let rest = strncpy n copied (q + 1) (p + 1) in
    if m (u32 p) == 0 then fill (suc n) copied q 0 else rest
