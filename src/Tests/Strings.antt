-- ===== src/Tests/Strings.antt =====
-- The theorems on src/libs/libxmhfc at concrete inputs.
use uberspark.Base.{◌↔◌, ◌+◌, u32, ◌==◌, if◌then◌else◌, refl, some, ℕ, ◌%◌, ◌<◌, ◌≡◌, arith}
use uberspark.Hwm.Obj.{Memory}
use uberspark.Libc.{memcmp, memmove, strncmp, strnlen}
use uberspark.Libc.Strings.{strcmp, strlen, strchr}
use uberspark.Libc.Strings.Laws.{strcmp-strlen_lem, strchr_lem, Searched}
use uberspark.Libc.Compare.{memcmp_lem}
use uberspark.Libc.Copy.{memmove_lem}

abbrev counting : Memory
counting a = a % 256

memmove_example : memmove counting 0x102 0x100 4 0x105 ≡ 3
memmove_example = memmove_lem 4 counting 0x102 0x100 0x105 (omega arith) (omega arith)

counting-IsBytes : (a : ℕ) → counting a < 256
counting-IsBytes a = omega arith

-- "ab" at 0x100 and at 0x200, and no other byte that is not zero.
abbrev two_strings : Memory
two_strings a =
    if a == 0x100
    then 97
    else if a == 0x101
    then 98
    else if a == 0x200
    then 97
    else if a == 0x201
    then 98
    else 0

strcmp-strlen_example :
    (strcmp 5 two_strings 0x100 0x200 ≡ some (strncmp 7 two_strings 0x100 0x200))
    × (strlen 5 two_strings 0x100 ≡ some (strnlen two_strings 0x100 7))
strcmp-strlen_example =
    strcmp-strlen_lem 2 5 7 two_strings 0x100 0x200 refl (omega arith) (omega arith)

-- "ab" has a 'b'.
strchr_example : Searched two_strings 0x100 98 2 (strchr 3 two_strings 0x100 98)
strchr_example = strchr_lem 2 3 two_strings 0x100 98 refl (omega arith)

two_strings-IsBytes : (a : ℕ) → two_strings a < 256
two_strings-IsBytes a = ground arith

memcmp_example :
    (memcmp 3 two_strings 0x100 0x200 ≡ 0)
    ↔ ((i : ℕ) → i < 3 → two_strings (u32 (0x100 + i)) ≡ two_strings (u32 (0x200 + i)))
memcmp_example = memcmp_lem two_strings two_strings-IsBytes 3 0x100 0x200
