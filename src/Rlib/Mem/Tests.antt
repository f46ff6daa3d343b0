-- ===== src/Rlib/Mem/Tests.antt =====
-- src/rlib/mem.rs: runs of the routines and the theorems at concrete inputs.
use neutrix.Base.{◌≡◌, refl, inr, if◌then◌else◌, ◌==◌, Ram, arith}
use neutrix.Base.Int.{pos}
use neutrix.Rlib.Mem.{
  memcpy, copy_align, copy_64, copy_16, copy_tail, memmove, move_forward, move_backward,
  forward_align, forward_chunks, forward_rest, backward_align, backward_chunks, backward_rest,
  memcmp, compare_64, compare_16, mask_is_all, eq_mask, slow_byte_cmp, compare_tail,
}
use neutrix.Rlib.Mem.Span.{copied}
use neutrix.Rlib.Mem.Copy.{memcpy-eq-copied}
use neutrix.Rlib.Mem.Fill.{memset-eq-filled}
use neutrix.Rlib.Mem.Move.{memmove-eq-copied}
use neutrix.Rlib.Mem.Compare.{Agree, Compared, memcmp-Compared, memcmp_misses}
use neutrix.Rlib.Mem.{memset}
use neutrix.Rlib.Mem.Span.{filled}

-- The byte at an address is the address itself.
abbrev ramp : Ram
ramp p = p

copied_byte : memcpy ramp 1000 3 100 1042 ≡ 45
unfolding memcpy copy_align copy_64 copy_16 copy_tail
copied_byte = refl

moved_up : (memmove ramp 10 3 40).1 45 ≡ 38
unfolding memmove move_forward move_backward forward_align forward_chunks forward_rest
    backward_align backward_chunks backward_rest
moved_up = refl

moved_down : (memmove ramp 3 10 40).1 40 ≡ 47
unfolding memmove move_forward move_backward forward_align forward_chunks forward_rest
    backward_align backward_chunks backward_rest
moved_down = refl

-- 20 equal bytes at 0 and at 100, then a difference.
abbrev alike : Ram
alike p = if p == 117 then 9 else 7

compared_short : memcmp alike 103 3 15 ≡ pos 2
unfolding memcmp compare_64 compare_16 mask_is_all eq_mask slow_byte_cmp compare_tail
compared_short = refl

alike-Agree : Agree alike 100 0 16
alike-Agree i h = ground arith

memcpy-eq-copied_example : memcpy ramp 1000 3 100 ≡ copied ramp 1000 3 100
memcpy-eq-copied_example = memcpy-eq-copied ramp 1000 3 100 (inr (omega arith))

memset-eq-filled_example : memset ramp 5 0xAA 100 ≡ filled ramp 5 0xAA 100
memset-eq-filled_example = memset-eq-filled ramp 5 0xAA 100

memmove-eq-copied_example : memmove ramp 10 3 40 ≡ (10, copied ramp 10 3 40)
memmove-eq-copied_example = memmove-eq-copied ramp 10 3 40

memcmp-Compared_example : Compared alike 103 3 15 (memcmp alike 103 3 15)
memcmp-Compared_example = memcmp-Compared alike 103 3 15

memcmp_misses_example :
    (memcmp alike 100 0 20 ≡ pos 0) × ¬ (Compared alike 100 0 20 (memcmp alike 100 0 20))
memcmp_misses_example = memcmp_misses alike 100 0 20 17 alike-Agree (omega arith) (omega arith)
