-- ===== src/Driver/TxtHeap/Parts.antt =====
-- src/libs/libxmhfhw/xmhfhw_cpu_txtget*.c on the heap of src/hwm/xmhfhwm_txt.c.
use uberspark.Base.{ℕ, zero, suc, ◌+◌, ◌≡◌, refl, ap, arith, u32, u64, ◌<<◌, ◌<◌}
use uberspark.Hwm.Obj.{Memory, load32}
use uberspark.Hwm.Txt.{heapbase, sizeof_heap}
use uberspark.Hwm.Txt
use uberspark.Hwm.E1000
use uberspark.Hwm.Sysmem.{Machine, sysmemread}
use uberspark.Driver.VtdReg.{readu64}
use uberspark.Driver.TxtHeap.{
  get_bios_data_size, get_bios_data_start, get_os_mle_data_size, get_os_mle_data_start,
  get_os_sinit_data_size, get_os_sinit_data_start, get_sinit_mle_data_start,
}

-- The heap as a chain of parts: a part starts with its size in 64 bits, and the next part starts
-- where it ends.
unfoldable pub size_at : Memory → ℕ → ℕ
size_at heap offset = u64 (u32 (load32 heap offset) + (u32 (load32 heap (offset + 4)) << 32))

unfoldable pub part : Memory → ℕ → ℕ
part heap zero = 0
part heap (suc k) = part heap k + size_at heap (part heap k)

module _ (m : Machine) where
  read-heap :
      (off a : ℕ)
      → a ≡ heapbase + off
      → off < sizeof_heap
      → sysmemread m (u32 a) ≡ (load32 m.txt.heap off, m)
  unfolding sysmemread E1000.read Txt.read
  read-heap off a e h = ground arith

  -- A size field in the heap.
  read-size :
      (off a : ℕ)
      → a ≡ heapbase + off
      → off + 4 < sizeof_heap
      → readu64 m a ≡ (size_at m.txt.heap off, m)
  unfolding readu64 size_at
  read-size off a e h =
      rw (read-heap off a e (omega (arith, h)), read-heap (off + 4) (a + 4) (omega (arith, e)) h)
        refl

  module _ (heap_size : ℕ) (inside : part m.txt.heap 3 + 4 < sizeof_heap) where
    bios : get_bios_data_size m heapbase heap_size ≡ (size_at m.txt.heap (part m.txt.heap 0), m)
    unfolding get_bios_data_size part
    bios = read-size 0 heapbase refl (omega arith)

    os_mle : get_os_mle_data_size m heapbase heap_size ≡ (size_at m.txt.heap (part m.txt.heap 1), m)
    unfolding get_os_mle_data_size part
    os_mle = rw bios (read-size (part m.txt.heap 1) _ (omega arith) (omega arith))

    os_sinit :
        get_os_sinit_data_size m heapbase heap_size ≡ (size_at m.txt.heap (part m.txt.heap 2), m)
    unfolding get_os_sinit_data_size part
    os_sinit = rw (bios, os_mle) (read-size (part m.txt.heap 2) _ (omega arith) (omega arith))

    start0 : get_bios_data_start heapbase heap_size ≡ heapbase + part m.txt.heap 0 + 8
    unfolding get_bios_data_start part
    start0 = refl

    start1 : get_os_mle_data_start m heapbase heap_size ≡ (heapbase + part m.txt.heap 1 + 8, m)
    unfolding get_os_mle_data_start part
    start1 = rw bios (ap (λ t. (t, m)) (omega arith))

    start2 : get_os_sinit_data_start m heapbase heap_size ≡ (heapbase + part m.txt.heap 2 + 8, m)
    unfolding get_os_sinit_data_start part
    start2 = rw (bios, os_mle) (ap (λ t. (t, m)) (omega arith))

    start3 : get_sinit_mle_data_start m heapbase heap_size ≡ (heapbase + part m.txt.heap 3 + 8, m)
    unfolding get_sinit_mle_data_start part
    start3 = rw (bios, os_mle, os_sinit) (ap (λ t. (t, m)) (omega arith))

    -- The accessors of the TXT heap walk a chain of parts, in which a part starts with its size in
    -- 64 bits and the next part starts where it ends: if the size field of the last of the four
    -- parts lies within the heap of the hardware model, the size accessors of the first three
    -- parts return the size of their part, the start accessors of all four the address behind the
    -- size field of theirs, and none changes the machine.
    pub heap_parts_lem :
        let start = λ (k : ℕ). heapbase + part m.txt.heap k + 8 in
        let size = λ (k : ℕ). size_at m.txt.heap (part m.txt.heap k) in
        ((get_bios_data_size m heapbase heap_size ≡ (size 0, m))
          × (get_os_mle_data_size m heapbase heap_size ≡ (size 1, m))
          × (get_os_sinit_data_size m heapbase heap_size ≡ (size 2, m)))
        × (get_bios_data_start heapbase heap_size ≡ start 0)
        × (get_os_mle_data_start m heapbase heap_size ≡ (start 1, m))
        × (get_os_sinit_data_start m heapbase heap_size ≡ (start 2, m))
        × (get_sinit_mle_data_start m heapbase heap_size ≡ (start 3, m))
    heap_parts_lem = ((bios, os_mle, os_sinit), start0, start1, start2, start3)
