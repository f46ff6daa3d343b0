-- ===== src/Rlib/Mem/Move.antt =====
-- src/rlib/mem.rs: memmove copies a span, whether or not the two overlap.
use mathlib.Core.Path.{fun_ext}
use neutrix.Base.{
  ℕ, zero, suc, ◌+◌, ◌-◌, ◌*◌, ◌/◌, ◌%◌, ◌≤◌, ◌≡◌, refl, sym, ◌∙◌, ap, inl, inr, ◌||◌, ltb, ◌==◌,
  Bool-cases, Ram, poke, arith,
}
use neutrix.Rlib.Mem.{
  storeu, loadu, forward_align, forward_chunks, forward_rest, backward_align, backward_chunks,
  backward_rest, move_forward, move_backward, memmove,
}
use neutrix.Rlib.Mem.Span.{copied, copied-zero, copied-one, copied-Upwards, copied_downwards}

module _ (m : Ram) (d s : ℕ) (below : d ≤ s) where
  -- After `k` bytes from the bottom up.
  abbrev Up : ℕ → Ram
  Up k = copied m d s k

  up_byte : (k : ℕ) → poke (Up k) (d + k) (Up k (s + k)) ≡ Up (k + 1)
  up_byte k = copied-one (Up k) (d + k) (s + k) ∙ copied-Upwards m d s k 1 (inl below)

  up_chunk : (k : ℕ) → storeu (Up k) (d + k) (loadu (Up k) (s + k)) ≡ Up (k + 16)
  up_chunk k = copied-Upwards m d s k 16 (inl below)

  forward_align_lem :
      (k left : ℕ)
      → let r = forward_align (Up k) d s k left in (r.0 ≡ Up r.1) × (k ≤ r.1) × (r.1 ≤ k + left)
  unfolding forward_align
  forward_align_lem k zero = (refl, omega arith, omega arith)
  forward_align_lem k (suc left) = elim (Bool-cases ((d + k) % 16 == 0)) [
    | inl aligned ↦ rw aligned (refl, omega arith, omega arith)
    | inr no_yet ↦
        let rest = forward_align_lem (k + 1) left in
        rw (no_yet, up_byte k) (rest.0, omega arith, omega arith)
  ]

  forward_chunks_lem :
      (offset i left : ℕ)
      → forward_chunks (Up (offset + i * 16)) d s offset i left ≡ Up (offset + (i + left) * 16)
  unfolding forward_chunks
  forward_chunks_lem offset i zero = ap Up (omega arith)
  forward_chunks_lem offset i (suc left) =
      let here : offset + i * 16 + 16 ≡ offset + (i + 1) * 16 = omega arith in
      rw (up_chunk (offset + i * 16), here)
        (forward_chunks_lem offset (i + 1) left ∙ ap Up (omega arith))

  forward_rest_lem :
      (base i left : ℕ) → forward_rest (Up (base + i)) d s base i left ≡ Up (base + (i + left))
  unfolding forward_rest
  forward_rest_lem base i zero = ap Up (omega arith)
  forward_rest_lem base i (suc left) =
      let here : base + i + 1 ≡ base + (i + 1) = omega arith in
      rw (up_byte (base + i), here) (forward_rest_lem base (i + 1) left ∙ ap Up (omega arith))

  -- The chunk loop and the byte loop after an alignment loop that stopped at `r.1`.
  forward_finish :
      (n : ℕ) (r : Ram × ℕ)
      → r.0 ≡ Up r.1
      → r.1 ≤ n
      → forward_rest
          (forward_chunks r.0 d s r.1 0 ((n - r.1) / 16))
          d
          s
          (n - (n - r.1) % 16)
          0
          ((n - r.1) % 16)
        ≡ Up n
  forward_finish n (x, o) e h =
      let start : o ≡ o + 0 * 16 = omega arith in
      let middle : o + (0 + (n - o) / 16) * 16 ≡ n - (n - o) % 16 + 0 = omega arith in
      let chunks : forward_chunks x d s o 0 ((n - o) / 16) ≡ Up (n - (n - o) % 16 + 0) =
        ap (λ y. forward_chunks y d s o 0 ((n - o) / 16)) (e ∙ ap Up start)
        ∙ forward_chunks_lem o 0 ((n - o) / 16)
        ∙ ap Up middle in
      ap (λ y. forward_rest y d s (n - (n - o) % 16) 0 ((n - o) % 16)) chunks
      ∙ forward_rest_lem (n - (n - o) % 16) 0 ((n - o) % 16)
      ∙ ap Up (omega arith)

  move_forward_lem : (n : ℕ) → move_forward m d s n ≡ copied m d s n
  unfolding move_forward
  move_forward_lem n =
      let same : forward_align m d s 0 n ≡ forward_align (Up 0) d s 0 n =
        ap (λ x. forward_align x d s 0 n) (sym (copied-zero m d s)) in
      let first = forward_align_lem 0 n in
      forward_finish n (forward_align m d s 0 n) (rw same first.0) (rw same (omega arith))

module _ (m : Ram) (d s n : ℕ) (above : s ≤ d) where
  -- After `k` bytes from the top down.
  abbrev Down : ℕ → Ram
  Down k = copied m (d + (n - k)) (s + (n - k)) k

  -- One more block of `b` bytes below the `k` that are done.
  down_block :
      (k b : ℕ) → k + b ≤ n → copied (Down k) (d + (n - k - b)) (s + (n - k - b)) b ≡ Down (k + b)
  down_block k b h =
      let at : n - k ≡ n - k - b + b = omega arith in
      let dst : d + (n - k) ≡ d + (n - k - b) + b = omega arith in
      let src : s + (n - k) ≡ s + (n - k - b) + b = omega arith in
      let low : n - k - b ≡ n - (k + b) = omega arith in
      let sum : b + k ≡ k + b = omega arith in
      rw (dst, src)
        (copied_downwards m (d + (n - k - b)) (s + (n - k - b)) k b (omega arith)
          ∙ (rw (low, sum) refl))

  backward_align_lem :
      (k left : ℕ)
      → k + left ≤ n
      → let r = backward_align (Down k) d s n k left in
        (r.0 ≡ Down r.1) × (k ≤ r.1) × (r.1 ≤ k + left)
  unfolding backward_align
  backward_align_lem k zero h = (refl, omega arith, omega arith)
  backward_align_lem k (suc left) h = elim (Bool-cases ((d + (n - k - 1)) % 16 == 15)) [
    | inl aligned ↦ rw aligned (refl, omega arith, omega arith)
    | inr no_yet ↦
        let rest = backward_align_lem (k + 1) left (omega arith) in
        rw
          (
            no_yet,
            copied-one (Down k) (d + (n - k - 1)) (s + (n - k - 1)),
            down_block k 1 (omega arith),
          )
          (rest.0, omega arith, omega arith)
  ]

  backward_chunks_lem :
      (offset i left : ℕ)
      → offset + (i + left) * 16 ≤ n
      → backward_chunks (Down (offset + i * 16)) d s (n - offset) i left
        ≡ Down (offset + (i + left) * 16)
  unfolding backward_chunks
  backward_chunks_lem offset i zero h = ap Down (omega arith)
  backward_chunks_lem offset i (suc left) h =
      let at : n - offset - (i + 1) * 16 ≡ n - (offset + i * 16) - 16 = omega arith in
      let here : offset + i * 16 + 16 ≡ offset + (i + 1) * 16 = omega arith in
      rw (at, down_block (offset + i * 16) 16 (omega arith), here)
        (backward_chunks_lem offset (i + 1) left (omega arith) ∙ ap Down (omega arith))

  backward_rest_lem :
      (remainder i left : ℕ)
      → i + left ≡ remainder
      → remainder ≤ n
      → backward_rest (Down (n - remainder + i)) d s remainder i left ≡ Down n
  unfolding backward_rest
  backward_rest_lem remainder i zero e h = ap Down (omega arith)
  backward_rest_lem remainder i (suc left) e h =
      let at : remainder - i - 1 ≡ n - (n - remainder + i) - 1 = omega arith in
      let here : n - remainder + i + 1 ≡ n - remainder + (i + 1) = omega arith in
      rw
        (
          at,
          copied-one (Down (n - remainder + i)) (d + (n - (n - remainder + i) - 1))
              (s + (n - (n - remainder + i) - 1)),
          down_block (n - remainder + i) 1 (omega arith),
          here,
        )
        (backward_rest_lem remainder (i + 1) left (omega arith) h)

  backward_finish :
      (r : Ram × ℕ)
      → r.0 ≡ Down r.1
      → r.1 ≤ n
      → backward_rest
          (backward_chunks r.0 d s (n - r.1) 0 ((n - r.1) / 16))
          d
          s
          ((n - r.1) % 16)
          0
          ((n - r.1) % 16)
        ≡ Down n
  backward_finish (x, o) e h =
      let start : o ≡ o + 0 * 16 = omega arith in
      let middle : o + (0 + (n - o) / 16) * 16 ≡ n - (n - o) % 16 + 0 = omega arith in
      let chunks : backward_chunks x d s (n - o) 0 ((n - o) / 16) ≡ Down (n - (n - o) % 16 + 0) =
        ap (λ y. backward_chunks y d s (n - o) 0 ((n - o) / 16)) (e ∙ ap Down start)
        ∙ backward_chunks_lem o 0 ((n - o) / 16) (omega arith)
        ∙ ap Down middle in
      ap (λ y. backward_rest y d s ((n - o) % 16) 0 ((n - o) % 16)) chunks
      ∙ backward_rest_lem ((n - o) % 16) 0 ((n - o) % 16) (omega arith) (omega arith)

  down-zero : m ≡ Down 0
  down-zero = sym (copied-zero m (d + (n - 0)) (s + (n - 0)))

  down_all : Down n ≡ copied m d s n
  down_all =
      let dst : d + (n - n) ≡ d = omega arith in
      let src : s + (n - n) ≡ s = omega arith in rw (dst, src) refl

  move_backward_lem : move_backward m d s n ≡ copied m d s n
  unfolding move_backward
  move_backward_lem =
      let same : backward_align m d s n 0 n ≡ backward_align (Down 0) d s n 0 n =
        ap (λ x. backward_align x d s n 0 n) down-zero in
      let first = backward_align_lem 0 n (omega arith) in
      backward_finish (backward_align m d s n 0 n) (rw same first.0) (rw same (omega arith))
      ∙ down_all

-- `memmove` copies `n` bytes and changes no other, wherever the two spans lie, and returns `dest`.
pub memmove-eq-copied :
    (m : Ram) (dest src n : ℕ) → memmove m dest src n ≡ (dest, copied m dest src n)
unfolding memmove
memmove-eq-copied m dest src n = elim (Bool-cases (dest == src || n == 0)) [
  | inl nothing ↦ rw (nothing, memmove) (ap (λ x. (dest, x)) (fun_ext λ p. ground arith))
  | inr some_work ↦ elim (Bool-cases (ltb dest src)) [
    | inl up ↦ rw (some_work, up, move_forward_lem m dest src (ground arith) n) refl
    | inr down ↦ rw (some_work, down, move_backward_lem m dest src n (ground arith)) refl
  ]
]
